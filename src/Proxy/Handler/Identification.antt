-- ===== src/Proxy/Handler/Identification.antt =====
-- The request ID that a response of src/proxy/handler.rs names.
use tiny_proxy.Proxy.AccessLog
use mathlib.Core.Path.{subst}
use tiny_proxy.Base.{
  Bool, List, Option, Option-cases, [], ap, false, inl, inr, none, refl, some, sym, ℕ, ◌++◌, ◌∙◌,
  ◌∷◌, ◌≡◌, ◌⊎◌,
}
use tiny_proxy.Base.Result.{Result, Result-cases, err, ok, ok_steps}
use tiny_proxy.Base.Text.{Text, codes, text_eq}
use tiny_proxy.Base.Text.Eq.{text_eq_refl}
use tiny_proxy.Config.Address.{SocketAddr}
use tiny_proxy.Config.Models.{Config, HeaderDirective}
use tiny_proxy.Http.{Codec, HeaderName, HeaderValue, Headers, Request, entries}
use tiny_proxy.Proxy.AccessLog.{AccessLogGuard}
use tiny_proxy.Proxy.Forward.{ProxyFailure, backend_request, backend_uri, copy_response_headers}
use tiny_proxy.Proxy.ForwardAuth.{challenge_name}
use tiny_proxy.Proxy.Handler.{execute, finish_request, host_of, proxy, reverse_proxy_action}
use tiny_proxy.Proxy.Handler.Accounting.{Always}
use tiny_proxy.Proxy.Pipeline.{Outcome, action, hangs, no_action}
use tiny_proxy.Proxy.RequestId.{ensure_request_id, final_request_id, request_id_name}
use tiny_proxy.Proxy.Responses.{
  Backend, BackendResponse, Handled, Response, backend_response, denied_headers, direct_response,
  error_headers, error_response, failure, with_text,
}
use tiny_proxy.Proxy.Sites.{find_site}
use tiny_proxy.Proxy.State.{
  ActionResult, AuthCtx, Current, Reply, World, answered, auth_denied, connect_error, other_error,
  proxy_to, redirect_to, respond_with, timed_out,
}

module _ {M : Type 0} ⦃h : Headers M⦄ ⦃c : Codec⦄ where
  -- The last `X-Request-ID` is the ID; without one the ID is not a header value.
  pub data Tagged (m : M) (id : Text) : Type 0 where
    tagged :
        (before : List HeaderValue) (v : HeaderValue)
        → h.get_all m request_id_name ≡ before ++ v ∷ []
        → (c.value_try_from id ≡ some v) ⊎ (c.value_from_str id ≡ some v)
        → Tagged m id
    untagged : c.value_from_str id ≡ none → h.get_all m request_id_name ≡ [] → Tagged m id

  with_text-Tagged : (id : Text) (m m' : M) → with_text request_id_name id m ≡ ok m' → Tagged m' id
  unfolding with_text
  with_text-Tagged id m m' e = elim (Option-cases (c.value_try_from id)) [
    | inl bad ↦ cc (rw (bad, with_text) at e)
    | inr (v, good) ↦
        let same : h.append m request_id_name v ≡ m' = cc (rw (good, with_text) at e) in
        tagged (h.get_all m request_id_name) v
          (ap (λ x. h.get_all x request_id_name) (sym same)
            ∙ h.get_all-append m request_id_name v request_id_name
            ∙ rw (text_eq_refl request_id_name))
          (inl good)
  ]

  error_headers-Tagged : (id : Text) → Tagged (error_headers id) id
  unfolding error_headers text_eq
  error_headers-Tagged id =
      let typed = h.append h.empty (codes "content-type") (codes "text/html; charset=utf-8") in
      let untyped : h.get_all typed request_id_name ≡ [] =
        h.get_all-append h.empty (codes "content-type") (codes "text/html; charset=utf-8")
          request_id_name
        ∙ h.get_all-empty request_id_name in
      elim (Option-cases (c.value_from_str id)) [
        | inl bad ↦ rw (bad, error_headers) (untagged bad untyped)
        | inr (v, good) ↦
            rw (good, error_headers)
              (tagged [] v
                (h.get_all-append typed request_id_name v request_id_name
                  ∙ ap (λ vs. vs ++ v ∷ []) untyped)
                (inr good))
      ]

  -- Another header behind the ID.
  append-Tagged :
      (id : Text) (m : M) (k : HeaderName) (v : HeaderValue)
      → text_eq k request_id_name ≡ false
      → Tagged m id
      → Tagged (h.append m k v) id
  append-Tagged id m k v other (tagged before w e valid) =
      tagged before w (h.get_all-append m k v request_id_name ∙ rw other e) valid
  append-Tagged id m k v other (untagged bad e) =
      untagged bad (h.get_all-append m k v request_id_name ∙ rw other e)

  denied_headers-Tagged :
      (id : Text) (challenge : Option HeaderValue) (m : M)
      → denied_headers id challenge ≡ ok m
      → Tagged m id
  unfolding denied_headers text_eq
  denied_headers-Tagged id none m e = with_text-Tagged id h.empty m e
  denied_headers-Tagged id (some v) m e =
      let (n, same, made) = ok_steps _ (with_text request_id_name id h.empty) m e in
      subst (λ x. Tagged x id) (cc same)
        (append-Tagged id n challenge_name v refl (with_text-Tagged id h.empty n made))

  abbrev TaggedFor :
      {Body : Type 0} → Result ProxyFailure (Response M Body) → AccessLogGuard → Type 0
  TaggedFor (ok r) log = Tagged r.headers log.request_id
  TaggedFor (err e) log = Unit

  abbrev pub Identified : {Body : Type 0} → Handled M Body → Type 0
  Identified x = TaggedFor x.response x.log

  direct_response-Identified :
      (Body : Type 0) (status : ℕ) (body : Text) (built : Result ProxyFailure M)
      (g : AccessLogGuard)
      → ((m : M) → built ≡ ok m → Tagged m g.request_id)
      → Identified (direct_response {Body = Body} status body built g)
  unfolding direct_response
  direct_response-Identified Body status body (ok m) g f = f m refl
  direct_response-Identified Body status body (err x) g f = tt

module _ {M Body : Type 0} ⦃h : Headers M⦄ ⦃c : Codec⦄ where
  error_response-Identified :
      (status : ℕ) (digits message : Text) (g : AccessLogGuard) (sent : Option (Request M Body))
      → Identified (error_response status digits message g.request_id g sent)
  unfolding error_response
  error_response-Identified status digits message g sent = error_headers-Tagged g.request_id

  backend_response-Identified :
      (reply : Reply (BackendResponse M Body)) (g : AccessLogGuard) (out : Request M Body)
      → Identified (backend_response reply g.request_id g out)
  unfolding backend_response failure
  backend_response-Identified (answered r) g out =
      let copied = copy_response_headers (entries r.headers) h.empty in
      elim (Result-cases (with_text request_id_name g.request_id copied)) [
        | inl (m, e) ↦ rw (e, backend_response) (with_text-Tagged g.request_id copied m e)
        | inr (x, e) ↦ rw (e, backend_response, failure) tt
      ]
  backend_response-Identified timed_out g out = error_response-Identified _ _ _ g _
  backend_response-Identified connect_error g out = error_response-Identified _ _ _ g _
  backend_response-Identified other_error g out = error_response-Identified _ _ _ g _

  module _ (w : World M) (backend : Backend M Body) where
    reverse_proxy_action-Identified :
        (ctx : AuthCtx) (url path : Text) (up : List HeaderDirective) (g : AccessLogGuard)
        (s : Current M Body)
        → Always Identified (reverse_proxy_action w backend ctx url path up g.request_id g s)
    unfolding reverse_proxy_action failure
    reverse_proxy_action-Identified ctx url path up g s =
        elim (Result-cases (backend_uri url path s.req.uri)) [
          | inr (x, e) ↦ rw (e, reverse_proxy_action, failure) tt
          | inl (uri, e) ↦ elim (Option-cases (backend_request w ctx uri up s)) [
            | inl f ↦ rw (e, f, reverse_proxy_action) tt
            | inr (out, f) ↦
                rw (e, f, reverse_proxy_action) (backend_response-Identified (backend out) g out)
          ]
        ]

    execute-Identified :
        (ctx : AuthCtx) (a : ActionResult) (g : AccessLogGuard) (s : Current M Body)
        → Always Identified (execute w backend ctx a g.request_id g s)
    unfolding execute
    execute-Identified ctx (redirect_to status url) g s =
        direct_response-Identified Body _ _ _ g (λ m e.
          let (n, made, located) = ok_steps _ (with_text (codes "location") url h.empty) m e in
          with_text-Tagged g.request_id n m made)
    execute-Identified ctx (respond_with status body) g s =
        direct_response-Identified Body _ _ _ g (λ m e. with_text-Tagged g.request_id h.empty m e)
    execute-Identified ctx (auth_denied status challenge) g s =
        direct_response-Identified Body _ _ _ g
          (λ m e. denied_headers-Tagged g.request_id challenge m e)
    execute-Identified ctx (proxy_to url path ct rt up) g s =
        reverse_proxy_action-Identified ctx url path up g s

    finish_request-Identified :
        (ctx : AuthCtx) (out : Outcome M Body) (id : Text) (g : AccessLogGuard)
        → Always Identified (finish_request w backend ctx out id g)
    unfolding finish_request
    finish_request-Identified ctx (action a s) id g =
        execute-Identified ctx a (AccessLog.set_request_id g (final_request_id s.req.headers id)) s
    finish_request-Identified ctx (no_action path s) id g =
        error_response-Identified _ _ _
          (AccessLog.set_request_id g (final_request_id s.req.headers id)) none
    finish_request-Identified ctx hangs id g = tt

    -- Every response to a request that is served carries the request ID under which it is logged,
    -- as the last value of `X-Request-ID`; only where the ID is not a header value may the header
    -- be missing.
    pub proxy-Identified :
        (config : Config) (remote_addr : SocketAddr) (is_tls : Bool) (req : Request M Body)
        → Always Identified (proxy w backend config remote_addr is_tls req)
    unfolding proxy
    proxy-Identified config remote_addr is_tls req =
        let (id, m) = ensure_request_id (w.uuid 0) req.headers in
        let guard = AccessLog.new id remote_addr req.method (c.uri_path req.uri) (host_of m) in
        elim (Option-cases (find_site config (host_of m) is_tls)) [
          | inl e ↦ rw (e, proxy) (error_response-Identified _ _ _ guard none)
          | inr (site, e) ↦ rw (e, proxy) (finish_request-Identified _ _ _ _)
        ]
