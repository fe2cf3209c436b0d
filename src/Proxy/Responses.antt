-- ===== src/Proxy/Responses.antt =====
-- The responses that src/proxy/handler.rs builds, each with what it leaves in the access log and in
-- the request metrics.
use mathlib.Core.Option
use tiny_proxy.Proxy.AccessLog
use tiny_proxy.Base.{List, Option, [], if◌then◌else◌, none, some, ℕ, ◌++◌, ◌==◌, ◌∷◌}
use tiny_proxy.Base.Result.{Result, err, ok, ◌>>=◌}
use tiny_proxy.Base.Text.{Text, byte_len, codes}
use tiny_proxy.Http.{Codec, HeaderName, HeaderValue, Headers, Request, append, entries}
use tiny_proxy.Proxy.AccessLog.{AccessLogGuard}
use tiny_proxy.Proxy.Forward.{ProxyFailure, bad_response, copy_response_headers}
use tiny_proxy.Proxy.ForwardAuth.{challenge_name}
use tiny_proxy.Proxy.RequestId.{request_id_name}
use tiny_proxy.Proxy.State.{Reply, answered, timed_out}

-- `BoxBody`: a text in memory, or the stream of the backend.
pub data ResponseBody (Body : Type 0) : Type 0 where
  full : Text → ResponseBody Body
  streamed : Body → ResponseBody Body

pub record Response (M Body : Type 0) : Type 0 where
  pub status : ℕ
  pub headers : M
  pub body : ResponseBody Body

-- A response of the backend: its head, and a stream.
pub record BackendResponse (M Body : Type 0) : Type 0 where
  pub status : ℕ
  pub headers : M
  pub stream : Body

-- What comes of a request: the response or the error of `proxy`, the guard of the access log as it
-- is dropped, the statuses given to the metrics, and the request sent to the backend, if any.
pub record Handled (M Body : Type 0) : Type 0 where
  pub response : Result ProxyFailure (Response M Body)
  pub log : AccessLogGuard
  pub recorded : List ℕ
  pub sent : Option (Request M Body)

pub data Served (M Body : Type 0) : Type 0 where
  served : Handled M Body → Served M Body
  hung : Served M Body

-- The backend, as it answers the one request that is sent.
abbrev pub Backend : Type 0 → Type 0 → Type 0
Backend M Body = Request M Body → Reply (BackendResponse M Body)

abbrev pub reason_of : ⦃c : Codec⦄ → ℕ → Text
reason_of ⦃c⦄ status = Option.get_or (c.canonical_reason status) (codes "Error")

abbrev head_of_page : Text
head_of_page = codes "<!DOCTYPE html>\n        <html>\n        <head><title>"

abbrev middle_of_page : Text
middle_of_page = codes "</title></head>\n        <body>\n        <h1>"

abbrev end_of_page : Text
end_of_page =
    codes
      "</p>\n        <hr>\n        <p><em>Rust Proxy Server</em></p>\n        </body>\n        </html>"

-- The page of `error_response_with_id`; the second argument is the status in digits.
unfoldable pub error_page : ⦃c : Codec⦄ → ℕ → Text → Text → Text
error_page status digits message =
    let heading = digits ++ (codes " " ++ reason_of status) in
    head_of_page
    ++ (heading
        ++ (middle_of_page
            ++ (heading ++ (codes "</h1>\n        <p>" ++ (message ++ end_of_page)))))

-- `StatusCode::from_u16(…).unwrap_or(…)`.
abbrev pub status_or : ⦃c : Codec⦄ → ℕ → ℕ → ℕ
status_or ⦃c⦄ status default = Option.get_or (c.status_from_u16 status) default

abbrev pub denied_body : ℕ → Text
denied_body status = if status == 503 then codes "Authorization service unavailable" else []

module _ {M : Type 0} ⦃h : Headers M⦄ ⦃c : Codec⦄ where
  -- `Builder::header` with a text: the value is appended, and an invalid one is an error.
  unfoldable pub with_text : HeaderName → Text → M → Result ProxyFailure M
  with_text n s m = elim (c.value_try_from s) [
    | none ↦ err bad_response
    | some v ↦ ok (append m n v)
  ]

  -- The headers of `error_response_with_id`.
  unfoldable pub error_headers : Text → M
  error_headers request_id =
      let typed = append h.empty (codes "content-type") (codes "text/html; charset=utf-8") in
      elim (c.value_from_str request_id) [ none ↦ typed | some v ↦ append typed request_id_name v ]

  unfoldable pub denied_headers : Text → Option HeaderValue → Result ProxyFailure M
  denied_headers request_id none = with_text request_id_name request_id h.empty
  denied_headers request_id (some challenge) = do
    m ← with_text request_id_name request_id h.empty
    ok (append m challenge_name challenge)

module _ {M Body : Type 0} ⦃h : Headers M⦄ ⦃c : Codec⦄ where
  -- An error page, logged and counted with its status.
  unfoldable pub error_response :
      ℕ → Text → Text → Text → AccessLogGuard → Option (Request M Body) → Handled M Body
  error_response status digits message request_id guard sent =
      let page = error_page status digits message in
      record {
        response =
            ok (record { status = status; headers = error_headers request_id; body = full page });
        log = AccessLog.finish (AccessLog.set_bytes_sent guard (byte_len page)) status;
        recorded = status ∷ [];
        sent = sent;
      }

  -- A response with a text in memory, from the result of its builder. On an error the guard is
  -- dropped as it is, and nothing is counted.
  unfoldable pub direct_response :
      ℕ → Text → Result ProxyFailure M → AccessLogGuard → Handled M Body
  direct_response status body (ok m) guard = record {
    response = ok (record { status = status; headers = m; body = full body });
    log = AccessLog.finish (AccessLog.set_bytes_sent guard (byte_len body)) status;
    recorded = status ∷ [];
    sent = none;
  }
  direct_response status body (err e) guard = record {
    response = err e;
    log = guard;
    recorded = [];
    sent = none;
  }

  unfoldable pub failure : ProxyFailure → AccessLogGuard → Option (Request M Body) → Handled M Body
  failure e guard sent = record { response = err e; log = guard; recorded = []; sent = sent }

  -- The response for what the client call gives.
  unfoldable pub backend_response :
      Reply (BackendResponse M Body) → Text → AccessLogGuard → Request M Body → Handled M Body
  backend_response (answered r) request_id guard sent =
      elim (with_text request_id_name request_id
        (copy_response_headers (entries r.headers) h.empty)) [
          | err e ↦ failure e guard (some sent)
          | ok m ↦ record {
            response = ok (record { status = r.status; headers = m; body = streamed r.stream });
            log = AccessLog.finish guard r.status;
            recorded = r.status ∷ [];
            sent = some sent;
          }
        ]
  backend_response timed_out request_id guard sent =
      error_response 504 (codes "504") (codes "Backend request timed out") request_id guard
        (some sent)
  backend_response _ request_id guard sent =
      error_response 502 (codes "502") (codes "Backend service unavailable") request_id guard
        (some sent)
