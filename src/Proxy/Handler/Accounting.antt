-- ===== src/Proxy/Handler/Accounting.antt =====
-- What the access log and the request metrics say of each request.
use tiny_proxy.Base.{Bool, List, Option, Option-cases, [], inl, inr, none, refl, some, ℕ, ◌∷◌, ◌≡◌}
use tiny_proxy.Base.Result.{Result, Result-cases, err, ok}
use tiny_proxy.Base.Text.{Text, byte_len}
use tiny_proxy.Config.Address.{SocketAddr}
use tiny_proxy.Config.Models.{Config, HeaderDirective}
use tiny_proxy.Http.{Codec, Headers, Request, entries}
use tiny_proxy.Proxy.AccessLog.{AccessLogGuard, logged_status}
use tiny_proxy.Proxy.Forward.{ProxyFailure, backend_request, backend_uri, copy_response_headers}
use tiny_proxy.Proxy.Handler.{execute, finish_request, host_of, proxy, reverse_proxy_action}
use tiny_proxy.Proxy.Pipeline.{Outcome, action, hangs, no_action}
use tiny_proxy.Proxy.RequestId.{ensure_request_id, request_id_name}
use tiny_proxy.Proxy.Responses.{
  Backend, BackendResponse, Handled, Response, ResponseBody, Served, backend_response,
  direct_response, error_response, failure, full, hung, served, streamed, with_text,
}
use tiny_proxy.Proxy.Sites.{find_site}
use tiny_proxy.Proxy.State.{
  ActionResult, AuthCtx, Current, Reply, World, answered, auth_denied, connect_error, other_error,
  proxy_to, redirect_to, respond_with, timed_out,
}

-- A guard that is not filled in yet.
abbrev Fresh : AccessLogGuard → Type 0
Fresh g = (g.status ≡ none) × (g.bytes_sent ≡ none)

abbrev pub body_size : {Body : Type 0} → ResponseBody Body → Option ℕ
body_size (full t) = some (byte_len t)
body_size (streamed b) = none

module _ {M Body : Type 0} where
  -- A response is logged with its status and, if it is in memory, its size, and counted once with
  -- its status; an error of the handler is logged as 500 and is not counted.
  abbrev pub AccountedFor : Result ProxyFailure (Response M Body) → AccessLogGuard → List ℕ → Type 0
  AccountedFor (ok r) log recorded =
      (logged_status log ≡ r.status)
      × (log.bytes_sent ≡ body_size r.body)
      × (recorded ≡ r.status ∷ [])
  AccountedFor (err e) log recorded =
      (logged_status log ≡ 500) × (log.bytes_sent ≡ none) × (recorded ≡ [])

  abbrev pub Accounted : Handled M Body → Type 0
  Accounted x = AccountedFor x.response x.log x.recorded

  -- A property of what comes of a request, where something does.
  abbrev pub Always : (Handled M Body → Type 0) → Served M Body → Type 0
  Always P (served x) = P x
  Always P hung = Unit

  pub map-Always :
      (P Q : Handled M Body → Type 0)
      → ((x : Handled M Body) → P x → Q x)
      → (y : Served M Body) → Always P y
      → Always Q y
  map-Always P Q f (served x) p = f x p
  map-Always P Q f hung p = tt

  pub map_both-Always :
      (P Q R : Handled M Body → Type 0)
      → ((x : Handled M Body) → P x → Q x → R x)
      → (y : Served M Body) → Always P y
      → Always Q y
      → Always R y
  map_both-Always P Q R f (served x) p q = f x p q
  map_both-Always P Q R f hung p q = tt

module _ {M : Type 0} ⦃h : Headers M⦄ ⦃c : Codec⦄ where
  direct_response-Accounted :
      (Body : Type 0) (status : ℕ) (body : Text) (built : Result ProxyFailure M)
      (g : AccessLogGuard)
      → Fresh g
      → Accounted (direct_response {Body = Body} status body built g)
  unfolding direct_response logged_status
  direct_response-Accounted Body status body (ok m) g (e, f) = (refl, refl, refl)
  direct_response-Accounted Body status body (err x) g (e, f) = (rw e, f, refl)

module _ {M Body : Type 0} ⦃h : Headers M⦄ ⦃c : Codec⦄ where
  error_response-Accounted :
      (status : ℕ) (digits message id : Text) (g : AccessLogGuard) (sent : Option (Request M Body))
      → Accounted (error_response status digits message id g sent)
  unfolding error_response logged_status
  error_response-Accounted status digits message id g sent = (refl, refl, refl)

  failure-Accounted :
      (e : ProxyFailure) (g : AccessLogGuard) (sent : Option (Request M Body))
      → Fresh g
      → Accounted (failure e g sent)
  unfolding failure logged_status
  failure-Accounted e g sent (p, q) = (rw p, q, refl)

  backend_response-Accounted :
      (reply : Reply (BackendResponse M Body)) (id : Text) (g : AccessLogGuard)
      (out : Request M Body)
      → Fresh g
      → Accounted (backend_response reply id g out)
  unfolding backend_response logged_status
  backend_response-Accounted (answered r) id g out fresh =
      elim (Result-cases
        (with_text request_id_name id (copy_response_headers (entries r.headers) h.empty))) [
          | inl (m, e) ↦ rw (e, backend_response) (refl, fresh.1, refl)
          | inr (x, e) ↦ rw (e, backend_response) (failure-Accounted x g (some out) fresh)
        ]
  backend_response-Accounted timed_out id g out fresh = error_response-Accounted _ _ _ _ _ _
  backend_response-Accounted connect_error id g out fresh = error_response-Accounted _ _ _ _ _ _
  backend_response-Accounted other_error id g out fresh = error_response-Accounted _ _ _ _ _ _

  module _ (w : World M) (backend : Backend M Body) where
    reverse_proxy_action-Accounted :
        (ctx : AuthCtx) (url path : Text) (up : List HeaderDirective) (id : Text)
        (g : AccessLogGuard) (s : Current M Body)
        → Fresh g
        → Always Accounted (reverse_proxy_action w backend ctx url path up id g s)
    unfolding reverse_proxy_action
    reverse_proxy_action-Accounted ctx url path up id g s fresh =
        elim (Result-cases (backend_uri url path s.req.uri)) [
          | inr (x, e) ↦ rw (e, reverse_proxy_action) (failure-Accounted x g none fresh)
          | inl (uri, e) ↦ elim (Option-cases (backend_request w ctx uri up s)) [
            | inl f ↦ rw (e, f, reverse_proxy_action) tt
            | inr (out, f) ↦
                rw (e, f, reverse_proxy_action)
                  (backend_response-Accounted (backend out) id g out fresh)
          ]
        ]

    execute-Accounted :
        (ctx : AuthCtx) (a : ActionResult) (id : Text) (g : AccessLogGuard) (s : Current M Body)
        → Fresh g
        → Always Accounted (execute w backend ctx a id g s)
    unfolding execute
    execute-Accounted ctx (redirect_to status url) id g s fresh =
        direct_response-Accounted Body _ _ _ g fresh
    execute-Accounted ctx (respond_with status body) id g s fresh =
        direct_response-Accounted Body _ _ _ g fresh
    execute-Accounted ctx (auth_denied status challenge) id g s fresh =
        direct_response-Accounted Body _ _ _ g fresh
    execute-Accounted ctx (proxy_to url path ct rt up) id g s fresh =
        reverse_proxy_action-Accounted ctx url path up id g s fresh

    finish_request-Accounted :
        (ctx : AuthCtx) (out : Outcome M Body) (id : Text) (g : AccessLogGuard)
        → Fresh g
        → Always Accounted (finish_request w backend ctx out id g)
    unfolding finish_request
    finish_request-Accounted ctx (action a s) id g fresh = execute-Accounted ctx a _ _ s fresh
    finish_request-Accounted ctx (no_action path s) id g fresh =
        error_response-Accounted _ _ _ _ _ _
    finish_request-Accounted ctx hangs id g fresh = tt

    -- For every request that is served, the access log and the metrics agree with the response:
    -- its status is the logged status and the one status counted, and the logged size is that of
    -- a body in memory, if it is in memory; an error of the handler is logged as 500 and not
    -- counted.
    pub proxy-Accounted :
        (config : Config) (remote_addr : SocketAddr) (is_tls : Bool) (req : Request M Body)
        → Always Accounted (proxy w backend config remote_addr is_tls req)
    unfolding proxy
    proxy-Accounted config remote_addr is_tls req =
        let m = (ensure_request_id (w.uuid 0) req.headers).1 in
        elim (Option-cases (find_site config (host_of m) is_tls)) [
          | inl e ↦ rw (e, proxy) (error_response-Accounted _ _ _ _ _ _)
          | inr (site, e) ↦ rw (e, proxy) (finish_request-Accounted _ _ _ _ (refl, refl))
        ]
