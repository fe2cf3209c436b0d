-- ===== src/Proxy/State.antt =====
-- What the handling of one request works on: the request as the directives change it, the outside
-- world, and the outcome `ActionResult` of src/proxy/types.rs.
use tiny_proxy.Base.{ℕ, ◌+◌, Bool, Option, List}
use tiny_proxy.Base.Text.{Text}
use tiny_proxy.Http.{HeaderValue, Uri, Request}
use tiny_proxy.Config.Address.{SocketAddr}
use tiny_proxy.Config.Models.{HeaderDirective}

-- Answers of the auth service. The frames of the body are kept as whether each arrived.
pub record AuthResponse (M : Type 0) : Type 0 where
  pub status : ℕ
  pub headers : M
  pub frames : List Bool

-- How a call through the client ends: in time with a response, with an error, or at the timeout.
pub data Reply (A : Type 0) : Type 0 where
  answered : A → Reply A
  connect_error : Reply A
  other_error : Reply A
  timed_out : Reply A

-- What the code takes from outside, for one request: environment variables, the n-th fresh UUID,
-- the answer to the n-th call of the auth service, and whether a subrequest can be built for an
-- endpoint. `fuel` bounds the rounds of the substitution loops.
pub record World (M : Type 0) : Type 0 where
  pub env : Text → Option Text
  pub uuid : ℕ → Text
  pub auth : ℕ → Request M (Unit {0}) → Reply (AuthResponse M)
  pub can_build : Uri → Bool
  pub fuel : ℕ

-- `AuthCtx`; the client is part of the world.
pub record AuthCtx : Type 0 where
  pub original_uri : Text
  pub remote_addr : SocketAddr
  pub is_tls : Bool

-- The request as it is now, and the number of outside calls made for it so far.
pub record Current (M Body : Type 0) : Type 0 where
  pub req : Request M Body
  pub calls : ℕ

pub data ActionResult : Type 0 where
  respond_with : ℕ → Text → ActionResult
  proxy_to : Text → Text → Option ℕ → Option ℕ → List HeaderDirective → ActionResult
  redirect_to : ℕ → Text → ActionResult
  auth_denied : ℕ → Option HeaderValue → ActionResult

module _ {M Body : Type 0} where
  abbrev pub set_headers : Current M Body → M → Current M Body
  set_headers s m = record s { req = record (s.req) { headers = m } }

  abbrev pub count_call : Current M Body → Current M Body
  count_call s = record s { calls = s.calls + 1 }
