-- ===== src/Proxy/Handler/Protection.antt =====
-- When a request is sent to the backend, and which.
use tiny_proxy.Proxy.AccessLog
use mathlib.Core.Path.{subst}
use tiny_proxy.Base.{Bool, List, Option, Option-cases, ap, inl, inr, none, refl, some, ℕ, ◌∙◌, ◌≡◌}
use tiny_proxy.Base.Result.{Result, Result-cases, err, ok}
use tiny_proxy.Base.Text.{Text}
use tiny_proxy.Config.Address.{SocketAddr}
use tiny_proxy.Config.Models.{Config, HeaderDirective, SiteConfig}
use tiny_proxy.Http.{Codec, Headers, Request, Uri, entries}
use tiny_proxy.Proxy.AccessLog.{AccessLogGuard}
use tiny_proxy.Proxy.Forward.{ProxyFailure, backend_request, backend_uri, copy_response_headers}
use tiny_proxy.Proxy.Handler.{
  arrival, ctx_of, execute, finish_request, host_of, proxy, reverse_proxy_action,
}
use tiny_proxy.Proxy.Handler.Accounting.{Always, map-Always}
use tiny_proxy.Proxy.Pipeline.{Outcome, action, hangs, no_action, process_directives}
use tiny_proxy.Proxy.Pipeline.Outcomes.{AllPermit, process_directives-AllPermit}
use tiny_proxy.Proxy.Pipeline.Rules.{Runs}
use tiny_proxy.Proxy.RequestId.{ensure_request_id, final_request_id, request_id_name}
use tiny_proxy.Proxy.Responses.{
  Backend, BackendResponse, Handled, backend_response, direct_response, error_response, failure,
  served, with_text,
}
use tiny_proxy.Proxy.Sites.{find_site}
use tiny_proxy.Proxy.State.{
  ActionResult, AuthCtx, Current, Reply, World, answered, auth_denied, connect_error, other_error,
  proxy_to, redirect_to, respond_with, timed_out,
}

module _ {M Body : Type 0} ⦃h : Headers M⦄ ⦃c : Codec⦄ (w : World M) (ctx : AuthCtx) where
  -- `out` is the backend's request for the action `a`.
  data Forwarded (a : ActionResult) (s : Current M Body) (out : Request M Body) : Type 0 where
    forwarded :
        (url path : Text) (ct rt : Option ℕ) (up : List HeaderDirective) (uri : Uri)
        → a ≡ proxy_to url path ct rt up
        → backend_uri url path s.req.uri ≡ ok uri
        → backend_request w ctx uri up s ≡ some out
        → Forwarded a s out

  -- A run of the site's directives that ends with `reverse_proxy`, has all the permissions it
  -- needs, and makes the request `out` for the URI of the backend.
  pub data Reaches (site : SiteConfig) (path : Text) (s : Current M Body) (out : Request M Body)
      : Type 0 where
    reaches :
        (url to_send : Text) (ct rt : Option ℕ) (up : List HeaderDirective) (uri : Uri)
        (s' : Current M Body)
        (r : Runs w ctx site.directives path path s (action (proxy_to url to_send ct rt up) s'))
        → AllPermit w ctx r
        → backend_uri url to_send s'.req.uri ≡ ok uri
        → backend_request w ctx uri up s' ≡ some out
        → Reaches site path s out

module _ {M : Type 0} ⦃h : Headers M⦄ ⦃c : Codec⦄ where
  direct_response-unsent :
      (Body : Type 0) (status : ℕ) (body : Text) (built : Result ProxyFailure M)
      (g : AccessLogGuard)
      → (direct_response {Body = Body} status body built g).sent ≡ none
  unfolding direct_response
  direct_response-unsent Body status body (ok m) g = refl
  direct_response-unsent Body status body (err x) g = refl

module _ {M Body : Type 0} ⦃h : Headers M⦄ ⦃c : Codec⦄ where
  backend_response-sent :
      (reply : Reply (BackendResponse M Body)) (id : Text) (g : AccessLogGuard)
      (out : Request M Body)
      → (backend_response reply id g out).sent ≡ some out
  unfolding backend_response error_response failure
  backend_response-sent (answered r) id g out =
      elim (Result-cases
        (with_text request_id_name id (copy_response_headers (entries r.headers) h.empty))) [
          | inl (m, e) ↦ rw (e, backend_response)
          | inr (x, e) ↦ rw (e, backend_response, failure)
        ]
  backend_response-sent timed_out id g out = refl
  backend_response-sent connect_error id g out = refl
  backend_response-sent other_error id g out = refl

  -- What holds of the request that is sent, if one is.
  abbrev SentIs : (Request M Body → Type 0) → Handled M Body → Type 0
  SentIs P x = (out : Request M Body) → x.sent ≡ some out → P out

  module _ (w : World M) (backend : Backend M Body) (ctx : AuthCtx) where
    reverse_proxy_action-sent :
        (url path : Text) (ct rt : Option ℕ) (up : List HeaderDirective) (id : Text)
        (g : AccessLogGuard) (s : Current M Body)
        → Always
            (SentIs (Forwarded w ctx (proxy_to url path ct rt up) s))
            (reverse_proxy_action w backend ctx url path up id g s)
    unfolding reverse_proxy_action failure
    reverse_proxy_action-sent url path ct rt up id g s =
        elim (Result-cases (backend_uri url path s.req.uri)) [
          | inr (x, e) ↦ rw (e, reverse_proxy_action, failure) (λ out sent. cc)
          | inl (uri, e) ↦ elim (Option-cases (backend_request w ctx uri up s)) [
            | inl f ↦ rw (e, f, reverse_proxy_action) tt
            | inr (made, f) ↦
                rw (e, f, reverse_proxy_action)
                  (λ out sent.
                    forwarded url path ct rt up uri refl e
                      (cc (f, sent, backend_response-sent (backend made) id g made)))
          ]
        ]

    execute-sent :
        (a : ActionResult) (id : Text) (g : AccessLogGuard) (s : Current M Body)
        → Always (SentIs (Forwarded w ctx a s)) (execute w backend ctx a id g s)
    unfolding execute
    execute-sent (redirect_to status url) id g s =
        λ out sent. cc (sent, direct_response-unsent Body _ _ _ g)
    execute-sent (respond_with status body) id g s =
        λ out sent. cc (sent, direct_response-unsent Body _ _ _ g)
    execute-sent (auth_denied status challenge) id g s =
        λ out sent. cc (sent, direct_response-unsent Body _ _ _ g)
    execute-sent (proxy_to url path ct rt up) id g s =
        reverse_proxy_action-sent url path ct rt up id g s

    Forwarded-Reaches :
        (site : SiteConfig) (path : Text) (s s' : Current M Body) (a : ActionResult)
        (out : Request M Body)
        → process_directives w ctx site.directives path path s ≡ action a s'
        → Forwarded w ctx a s' out
        → Reaches w ctx site path s out
    Forwarded-Reaches site path s s' a out e (forwarded url p ct rt up uri q f k) =
        let (r, permitted) =
          process_directives-AllPermit w ctx site.directives path path s
            (action (proxy_to url p ct rt up) s') (e ∙ ap (λ b. action b s') q) in
        reaches url p ct rt up uri s' r permitted f k

    finish_request-sent :
        (site : SiteConfig) (path : Text) (s : Current M Body) (outcome : Outcome M Body)
        (id : Text) (g : AccessLogGuard)
        → process_directives w ctx site.directives path path s ≡ outcome
        → Always (SentIs (Reaches w ctx site path s)) (finish_request w backend ctx outcome id g)
    unfolding finish_request error_response
    finish_request-sent site path s (action a s') id g e =
        let final = final_request_id s'.req.headers id in
        map-Always (SentIs (Forwarded w ctx a s')) (SentIs (Reaches w ctx site path s))
          (λ x p out sent. Forwarded-Reaches site path s s' a out e (p out sent))
          (execute w backend ctx a final (AccessLog.set_request_id g final) s')
          (execute-sent a final (AccessLog.set_request_id g final) s')
    finish_request-sent site path s (no_action p s') id g e = λ out sent. cc
    finish_request-sent site path s hangs id g e = tt

  -- The site that serves a request: `find_site` on the request's `Host`, once it has its ID.
  abbrev pub identified : World M → Request M Body → M
  identified w req = (ensure_request_id (w.uuid 0) req.headers).1

  -- A site was found, and its directives reach the backend with `out`.
  pub data Routed (w : World M) (config : Config) (remote_addr : SocketAddr) (is_tls : Bool)
      (req out : Request M Body) : Type 0 where
    routed :
        (site : SiteConfig)
        → find_site config (host_of (identified w req)) is_tls ≡ some site
        → Reaches w
            (ctx_of remote_addr is_tls req)
            site
            (c.uri_path req.uri)
            (arrival (identified w req) req)
            out
        → Routed w config remote_addr is_tls req out

  proxy-SentIs :
      (w : World M) (backend : Backend M Body) (config : Config) (remote_addr : SocketAddr)
      (is_tls : Bool) (req : Request M Body)
      → Always
          (SentIs (Routed w config remote_addr is_tls req))
          (proxy w backend config remote_addr is_tls req)
  unfolding proxy error_response
  proxy-SentIs w backend config remote_addr is_tls req =
      let s = arrival (identified w req) req in
      let ctx = ctx_of remote_addr is_tls req in
      let path = c.uri_path req.uri in
      elim (Option-cases (find_site config (host_of (identified w req)) is_tls)) [
        | inl e ↦ rw (e, proxy, error_response) (λ out sent. cc)
        | inr (site, e) ↦
            rw (e, proxy)
              (map-Always (SentIs (Reaches w ctx site path s))
                (SentIs (Routed w config remote_addr is_tls req))
                (λ x p out sent. routed site e (p out sent)) _
                (finish_request-sent w backend ctx site path s _ _ _ refl))
      ]

  -- If a request is sent to a backend, then a site was found for the client's `Host`, the run of
  -- that site's directives ends with `reverse_proxy`, every `forward_auth` directive that the run
  -- got past has given its permission, and the request sent is the one built from that run for the
  -- URI of the backend.
  pub proxy-Routed :
      (w : World M) (backend : Backend M Body) (config : Config) (remote_addr : SocketAddr)
      (is_tls : Bool) (req : Request M Body) (x : Handled M Body) (out : Request M Body)
      → proxy w backend config remote_addr is_tls req ≡ served x
      → x.sent ≡ some out
      → Routed w config remote_addr is_tls req out
  proxy-Routed w backend config remote_addr is_tls req x out e sent =
      subst (Always (SentIs (Routed w config remote_addr is_tls req))) e
        (proxy-SentIs w backend config remote_addr is_tls req) out sent
