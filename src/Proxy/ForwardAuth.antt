-- ===== src/Proxy/ForwardAuth.antt =====
-- The forward-auth middleware, src/proxy/forward_auth.rs.
pub mod Identity
pub mod Subrequest
pub mod Decisions
use tiny_proxy.Base.{ℕ, Bool, true, false, Option, none, some, List, [], ◌∷◌, if◌then◌else◌}
use tiny_proxy.Base.Text.{Text, codes}
use tiny_proxy.Http.{
  insert_value, HeaderName, HeaderValue, Headers, Codec, Request, get, insert, remove, entries,
}
use tiny_proxy.Config.Models.{ForwardAuthConfig}
use tiny_proxy.Proxy.State.{
  AuthResponse, Reply, answered, connect_error, other_error, timed_out, World, AuthCtx,
}

pub data AuthFailure : Type 0 where
  connect : AuthFailure
  timeout : AuthFailure
  server_error : ℕ → AuthFailure
  malformed : AuthFailure

pub data AuthResult (M : Type 0) : Type 0 where
  allowed : M → AuthResult M
  denied : ℕ → Option HeaderValue → AuthResult M
  failed : AuthFailure → AuthResult M

abbrev pub challenge_name : HeaderName
challenge_name = codes "www-authenticate"

abbrev pub host_name : HeaderName
host_name = codes "host"

-- The drain loop: whether the body stream breaks.
unfoldable pub body_breaks : List Bool → Bool
body_breaks [] = false
body_breaks (true ∷ frames) = body_breaks frames
body_breaks (false ∷ frames) = true

module _ {M : Type 0} ⦃h : Headers M⦄ where
  unfoldable pub remove_all : List HeaderName → M → M
  remove_all [] m = m
  remove_all (n ∷ ns) m = remove_all ns (remove m n)

  unfoldable pub scrub_identity_headers : ForwardAuthConfig → M → M
  scrub_identity_headers cfg m = remove_all cfg.response_headers m

  unfoldable pub insert_all : List (HeaderName × HeaderValue) → M → M
  insert_all [] m = m
  insert_all ((n, v) ∷ es) m = insert_all es (insert m n v)

  unfoldable pub apply_identity_headers : M → M → M
  apply_identity_headers identity m = insert_all (entries identity) m

  -- Copies one header under another name, where it is there.
  unfoldable pub copy_as : HeaderName → HeaderName → M → M → M
  copy_as n k from to = insert_value k (get from n) to

  -- The loops that copy the first value of each listed header, where there is one.
  unfoldable pub copy_listed : List HeaderName → M → M → M
  copy_listed [] from to = to
  copy_listed (n ∷ ns) from to = copy_listed ns from (copy_as n n from to)

module _ {M : Type 0} ⦃h : Headers M⦄ ⦃c : Codec⦄ where
  -- The closure `put`, and the insertion of the endpoint's authority.
  unfoldable pub put_text : HeaderName → Text → M → M
  put_text n s m = insert_value n (c.value_from_str s) m

  -- "Host comes from the (validated) endpoint authority."
  unfoldable pub put_endpoint : Option Text → M → M
  put_endpoint none m = m
  put_endpoint (some authority) m = put_text host_name authority m

  -- The headers of the subrequest, in the order in which they are put in.
  unfoldable pub auth_headers : AuthCtx → Text → M → ForwardAuthConfig → M
  auth_headers ctx method_name client cfg =
      let listed = copy_listed cfg.request_headers client h.empty in
      let hosted = put_endpoint cfg.endpoint.authority listed in
      let original_uri = put_text (codes "x-original-uri") ctx.original_uri hosted in
      let original_method = put_text (codes "x-original-method") method_name original_uri in
      let forwarded_for = put_text (codes "x-forwarded-for") ctx.remote_addr.ip original_method in
      let forwarded_host = copy_as host_name (codes "x-forwarded-host") client forwarded_for in
      let scheme = if ctx.is_tls then codes "https" else codes "http" in
      let forwarded_proto = put_text (codes "x-forwarded-proto") scheme forwarded_host in
      copy_as (codes "x-request-id") (codes "x-request-id") client forwarded_proto

  -- `build_auth_request`; the body of the subrequest is empty.
  unfoldable pub build_auth_request :
      {Body : Type 0}
      → World M
      → AuthCtx
      → Request M Body
      → ForwardAuthConfig
      → Option (Request M (Unit {0}))
  build_auth_request w ctx req cfg =
      if w.can_build cfg.endpoint
      then some (record {
        method = codes "GET";
        uri = cfg.endpoint;
        headers = auth_headers ctx req.method req.headers cfg;
        body = tt;
      })
      else none

  -- The classification of a response.
  unfoldable pub classify : ForwardAuthConfig → AuthResponse M → AuthResult M
  classify cfg r =
      let identity = copy_listed cfg.response_headers r.headers h.empty in
      if c.is_success r.status
      then if body_breaks r.frames then failed malformed else allowed identity
      else if c.is_client_error r.status
      then denied r.status (get r.headers challenge_name)
      else failed (server_error r.status)

  unfoldable pub classify_reply : ForwardAuthConfig → Reply (AuthResponse M) → AuthResult M
  classify_reply cfg (answered r) = classify cfg r
  classify_reply cfg connect_error = failed connect
  classify_reply cfg other_error = failed malformed
  classify_reply cfg timed_out = failed timeout

  -- `resolve_auth`; `k` is the number of outside calls made before.
  unfoldable pub resolve_auth :
      {Body : Type 0} → World M → ℕ → AuthCtx → Request M Body → ForwardAuthConfig → AuthResult M
  resolve_auth w k ctx req cfg = elim (build_auth_request w ctx req cfg) [
    | none ↦ failed malformed
    | some auth_req ↦ classify_reply cfg (w.auth k auth_req)
  ]
