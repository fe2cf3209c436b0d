-- ===== src/Proxy/Handler/Origin.antt =====
-- What the access log of `proxy`, src/proxy/handler.rs, keeps of the client's request.
use tiny_proxy.Proxy.AccessLog
use tiny_proxy.Base.{Bool, List, Option, Option-cases, arith, inl, inr, none, refl, ℕ, ◌∙◌, ◌≡◌}
use tiny_proxy.Base.Result.{Result, Result-cases, err, ok}
use tiny_proxy.Base.Text.{Text, text_eq}
use tiny_proxy.Config.Address.{SocketAddr}
use tiny_proxy.Config.Models.{Config, HeaderDirective}
use tiny_proxy.Http.{Codec, Headers, Request, entries, get_str}
use tiny_proxy.Http.Laws.{get_all-insert_ne}
use tiny_proxy.Proxy.AccessLog.{AccessLogGuard}
use tiny_proxy.Proxy.Forward.{ProxyFailure, backend_request, backend_uri, copy_response_headers}
use tiny_proxy.Proxy.ForwardAuth.{host_name}
use tiny_proxy.Proxy.Handler.{execute, finish_request, host_of, proxy, reverse_proxy_action}
use tiny_proxy.Proxy.Handler.Accounting.{Always, map-Always}
use tiny_proxy.Proxy.Pipeline.{Outcome, action, hangs, no_action}
use tiny_proxy.Proxy.RequestId.{ensure_request_id, final_request_id, request_id_name}
use tiny_proxy.Proxy.Responses.{
  Backend, BackendResponse, Handled, backend_response, direct_response, error_response, failure,
  with_text,
}
use tiny_proxy.Proxy.Sites.{find_site}
use tiny_proxy.Proxy.State.{
  ActionResult, AuthCtx, Current, Reply, World, answered, auth_denied, connect_error, other_error,
  proxy_to, redirect_to, respond_with, timed_out,
}

-- Two guards of the same request: only what is filled in later, and the ID, may differ.
abbrev pub SameClient : AccessLogGuard → AccessLogGuard → Type 0
SameClient g g' =
    (g'.remote_addr ≡ g.remote_addr)
    × (g'.method ≡ g.method)
    × (g'.path ≡ g.path)
    × (g'.host ≡ g.host)

module _ {M : Type 0} ⦃h : Headers M⦄ ⦃c : Codec⦄ where
  host_of_same :
      (m m' : M) → h.get_all m host_name ≡ h.get_all m' host_name → host_of m ≡ host_of m'
  unfolding host_of
  host_of_same m m' e = ground (arith, e)

  -- The ID that is put into a request leaves its `Host` alone.
  host_of-ensure_request_id : (id : Text) (m : M) → host_of (ensure_request_id id m).1 ≡ host_of m
  unfolding ensure_request_id text_eq
  host_of-ensure_request_id id m = elim (Option-cases (get_str m request_id_name)) [
    | inr (own, e) ↦ rw (e, ensure_request_id) refl
    | inl e ↦ elim (Option-cases (c.value_from_str id)) [
      | inl bad ↦ rw (e, bad, ensure_request_id) refl
      | inr (v, good) ↦
          rw (e, good, ensure_request_id)
            (host_of_same (h.insert m request_id_name v) m
              (get_all-insert_ne m request_id_name v host_name refl))
    ]
  ]

  -- The request that the log tells of is the client's.
  abbrev pub ClientOf : {Body : Type 0} → SocketAddr → Request M Body → AccessLogGuard → Type 0
  ClientOf remote_addr req g =
      (g.remote_addr ≡ remote_addr)
      × (g.method ≡ req.method)
      × (g.path ≡ c.uri_path req.uri)
      × (g.host ≡ host_of req.headers)

  abbrev pub LoggedAs : {Body : Type 0} → AccessLogGuard → Handled M Body → Type 0
  LoggedAs g x = SameClient g x.log

  direct_response-LoggedAs :
      (Body : Type 0) (status : ℕ) (body : Text) (built : Result ProxyFailure M)
      (g : AccessLogGuard)
      → LoggedAs g (direct_response {Body = Body} status body built g)
  unfolding direct_response
  direct_response-LoggedAs Body status body (ok m) g = (refl, refl, refl, refl)
  direct_response-LoggedAs Body status body (err x) g = (refl, refl, refl, refl)

module _ {M Body : Type 0} ⦃h : Headers M⦄ ⦃c : Codec⦄ where
  error_response-LoggedAs :
      (status : ℕ) (digits message id : Text) (g : AccessLogGuard) (sent : Option (Request M Body))
      → LoggedAs g (error_response status digits message id g sent)
  unfolding error_response
  error_response-LoggedAs status digits message id g sent = (refl, refl, refl, refl)

  backend_response-LoggedAs :
      (reply : Reply (BackendResponse M Body)) (id : Text) (g : AccessLogGuard)
      (out : Request M Body)
      → LoggedAs g (backend_response reply id g out)
  unfolding backend_response failure
  backend_response-LoggedAs (answered r) id g out =
      elim (Result-cases
        (with_text request_id_name id (copy_response_headers (entries r.headers) h.empty))) [
          | inl (m, e) ↦ rw (e, backend_response) (refl, refl, refl, refl)
          | inr (x, e) ↦ rw (e, backend_response, failure) (refl, refl, refl, refl)
        ]
  backend_response-LoggedAs timed_out id g out = error_response-LoggedAs _ _ _ _ g _
  backend_response-LoggedAs connect_error id g out = error_response-LoggedAs _ _ _ _ g _
  backend_response-LoggedAs other_error id g out = error_response-LoggedAs _ _ _ _ g _

  module _ (w : World M) (backend : Backend M Body) where
    reverse_proxy_action-LoggedAs :
        (ctx : AuthCtx) (url path : Text) (up : List HeaderDirective) (id : Text)
        (g : AccessLogGuard) (s : Current M Body)
        → Always (LoggedAs g) (reverse_proxy_action w backend ctx url path up id g s)
    unfolding reverse_proxy_action failure
    reverse_proxy_action-LoggedAs ctx url path up id g s =
        elim (Result-cases (backend_uri url path s.req.uri)) [
          | inr (x, e) ↦ rw (e, reverse_proxy_action, failure) (refl, refl, refl, refl)
          | inl (uri, e) ↦ elim (Option-cases (backend_request w ctx uri up s)) [
            | inl f ↦ rw (e, f, reverse_proxy_action) tt
            | inr (out, f) ↦
                rw (e, f, reverse_proxy_action) (backend_response-LoggedAs (backend out) id g out)
          ]
        ]

    execute-LoggedAs :
        (ctx : AuthCtx) (a : ActionResult) (id : Text) (g : AccessLogGuard) (s : Current M Body)
        → Always (LoggedAs g) (execute w backend ctx a id g s)
    unfolding execute
    execute-LoggedAs ctx (redirect_to status url) id g s = direct_response-LoggedAs Body _ _ _ g
    execute-LoggedAs ctx (respond_with status body) id g s = direct_response-LoggedAs Body _ _ _ g
    execute-LoggedAs ctx (auth_denied status challenge) id g s =
        direct_response-LoggedAs Body _ _ _ g
    execute-LoggedAs ctx (proxy_to url path ct rt up) id g s =
        reverse_proxy_action-LoggedAs ctx url path up id g s

    finish_request-LoggedAs :
        (ctx : AuthCtx) (out : Outcome M Body) (id : Text) (g : AccessLogGuard)
        → Always (LoggedAs g) (finish_request w backend ctx out id g)
    unfolding finish_request
    finish_request-LoggedAs ctx (action a s) id g =
        let final = final_request_id s.req.headers id in
        execute-LoggedAs ctx a final (AccessLog.set_request_id g final) s
    finish_request-LoggedAs ctx (no_action path s) id g =
        error_response-LoggedAs _ _ _ _
          (AccessLog.set_request_id g (final_request_id s.req.headers id)) none
    finish_request-LoggedAs ctx hangs id g = tt

    -- For every request that is served, what is logged of the request is the client's.
    pub proxy-ClientOf :
        (config : Config) (remote_addr : SocketAddr) (is_tls : Bool) (req : Request M Body)
        → Always
            (λ x. ClientOf remote_addr req x.log)
            (proxy w backend config remote_addr is_tls req)
    unfolding proxy
    proxy-ClientOf config remote_addr is_tls req =
        let (id, m) = ensure_request_id (w.uuid 0) req.headers in
        let guard = AccessLog.new id remote_addr req.method (c.uri_path req.uri) (host_of m) in
        let host = host_of-ensure_request_id (w.uuid 0) req.headers in
        map-Always (LoggedAs guard) (λ x. ClientOf remote_addr req x.log)
          (λ x same. (same.0, same.1, same.2, same.3 ∙ host)) _
          (elim (Option-cases (find_site config (host_of m) is_tls)) [
            | inl e ↦ rw (e, proxy) (error_response-LoggedAs _ _ _ _ guard none)
            | inr (site, e) ↦ rw (e, proxy) (finish_request-LoggedAs _ _ _ _)
          ])
