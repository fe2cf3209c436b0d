-- ===== src/Proxy/Pipeline/Rules.antt =====
-- The directives as rules: when a list of directives, run on a request, has an outcome.
use mathlib.Core.Path.{subst}
use tiny_proxy.Base.{
  Bool-cases, List, Option, Option-cases, false, inl, inr, none, refl, some, true, ℕ, ◌↔◌, ◌≡◌, ◌⊎◌,
}
use tiny_proxy.Base.Text.{Text}
use tiny_proxy.Config.Models.{
  Directives, ForwardAuthConfig, HeaderDirective, cons, forward_auth, handle_path, header, method,
  nil, redirect, respond, reverse_proxy, strip_prefix, uri_replace,
}
use tiny_proxy.Http.{Codec, Headers}
use tiny_proxy.Proxy.Headers.{handle_header, handle_method}
use tiny_proxy.Proxy.Paths.{handle_strip_prefix, handle_uri_replace, match_pattern}
use tiny_proxy.Proxy.Pipeline.{
  Gate, Outcome, action, forward_auth_step, hangs, no_action, proceed, process_directives, reject,
}
use tiny_proxy.Proxy.State.{
  ActionResult, AuthCtx, Current, World, count_call, proxy_to, redirect_to, respond_with,
  set_headers,
}

module _ {M Body : Type 0} ⦃h : Headers M⦄ ⦃c : Codec⦄ (w : World M) (ctx : AuthCtx) where
  -- `Runs ds path cur s out`: the list `ds`, with `path` as it is rewritten so far and `cur` as the
  -- path that the list was entered with, takes the request `s` to `out`.
  pub data Runs : Directives → Text → Text → Current M Body → Outcome M Body → Type 0 where
    ends : {path cur : Text} {s : Current M Body} → Runs nil path cur s (no_action cur s)
    sets :
        {name : Text} {value : Option Text} {ds : Directives} {path cur : Text} {s : Current M Body}
        {m : M} {out : Outcome M Body}
        → handle_header w s.calls name value s.req.headers ≡ some m
        → Runs ds path cur (count_call (set_headers s m)) out
        → Runs (cons (header name value) ds) path cur s out
    stuck :
        {name : Text} {value : Option Text} {ds : Directives} {path cur : Text} {s : Current M Body}
        → handle_header w s.calls name value s.req.headers ≡ none
        → Runs (cons (header name value) ds) path cur s hangs
    rewrites :
        {find by : Text} {ds : Directives} {path cur : Text} {s : Current M Body}
        {out : Outcome M Body}
        → Runs ds (handle_uri_replace find by path) cur s out
        → Runs (cons (uri_replace find by) ds) path cur s out
    strips :
        {prefix : Text} {ds : Directives} {path cur : Text} {s : Current M Body}
        {out : Outcome M Body}
        → Runs ds (handle_strip_prefix prefix path) cur s out
        → Runs (cons (strip_prefix prefix) ds) path cur s out
    enters :
        {pattern rest : Text} {inner ds : Directives} {path cur : Text} {s : Current M Body}
        {out : Outcome M Body}
        → match_pattern pattern path ≡ some rest
        → Runs inner rest rest s out
        → Runs (cons (handle_path pattern inner) ds) path cur s out
    passes :
        {pattern : Text} {inner ds : Directives} {path cur : Text} {s : Current M Body}
        {out : Outcome M Body}
        → match_pattern pattern path ≡ none
        → Runs ds path cur s out
        → Runs (cons (handle_path pattern inner) ds) path cur s out
    selects :
        {methods : List Text} {inner ds : Directives} {path cur : Text} {s : Current M Body}
        {out : Outcome M Body}
        → handle_method methods s.req.method ≡ true
        → Runs inner path path s out
        → Runs (cons (method methods inner) ds) path cur s out
    ignores :
        {methods : List Text} {inner ds : Directives} {path cur : Text} {s : Current M Body}
        {out : Outcome M Body}
        → handle_method methods s.req.method ≡ false
        → Runs ds path cur s out
        → Runs (cons (method methods inner) ds) path cur s out
    redirects :
        {status : ℕ} {url : Text} {ds : Directives} {path cur : Text} {s : Current M Body}
        → Runs (cons (redirect status url) ds) path cur s (action (redirect_to status url) s)
    responds :
        {status : ℕ} {body : Text} {ds : Directives} {path cur : Text} {s : Current M Body}
        → Runs (cons (respond status body) ds) path cur s (action (respond_with status body) s)
    proxies :
        {to : Text} {ct rt : Option ℕ} {up : List HeaderDirective} {ds : Directives}
        {path cur : Text} {s : Current M Body}
        → Runs
            (cons (reverse_proxy to ct rt up) ds)
            path
            cur
            s
            (action (proxy_to to path ct rt up) s)
    admits :
        {cfg : ForwardAuthConfig} {ds : Directives} {path cur : Text} {s s' : Current M Body}
        {out : Outcome M Body}
        → forward_auth_step w ctx cfg s ≡ proceed s'
        → Runs ds path cur s' out
        → Runs (cons (forward_auth cfg) ds) path cur s out
    refuses :
        {cfg : ForwardAuthConfig} {ds : Directives} {path cur : Text} {s s' : Current M Body}
        {a : ActionResult}
        → forward_auth_step w ctx cfg s ≡ reject a s'
        → Runs (cons (forward_auth cfg) ds) path cur s (action a s')

  Gate-cases :
      (g : Gate M Body)
      → ((s : Current M Body) × (g ≡ proceed s))
        ⊎ ((a : ActionResult) × (s : Current M Body) × (g ≡ reject a s))
  Gate-cases (proceed s) = inl (s, refl)
  Gate-cases (reject a s) = inr (a, s, refl)

  -- The pipeline follows the rules.
  pub process_directives-Runs :
      (ds : Directives) (path cur : Text) (s : Current M Body)
      → Runs ds path cur s (process_directives w ctx ds path cur s)
  unfolding process_directives
  process_directives-Runs nil path cur s = ends
  process_directives-Runs (cons (header name value) ds) path cur s =
      elim (Option-cases (handle_header w s.calls name value s.req.headers)) [
        | inl e ↦ rw (e, process_directives) (stuck e)
        | inr (m, e) ↦
            rw (e, process_directives)
              (sets e (process_directives-Runs ds path cur (count_call (set_headers s m))))
      ]
  process_directives-Runs (cons (uri_replace find by) ds) path cur s =
      rewrites (process_directives-Runs ds (handle_uri_replace find by path) cur s)
  process_directives-Runs (cons (strip_prefix prefix) ds) path cur s =
      strips (process_directives-Runs ds (handle_strip_prefix prefix path) cur s)
  process_directives-Runs (cons (handle_path pattern inner) ds) path cur s =
      elim (Option-cases (match_pattern pattern path)) [
        | inl e ↦ rw (e, process_directives) (passes e (process_directives-Runs ds path cur s))
        | inr (rest, e) ↦
            rw (e, process_directives) (enters e (process_directives-Runs inner rest rest s))
      ]
  process_directives-Runs (cons (method methods inner) ds) path cur s =
      elim (Bool-cases (handle_method methods s.req.method)) [
        | inl e ↦ rw (e, process_directives) (selects e (process_directives-Runs inner path path s))
        | inr e ↦ rw (e, process_directives) (ignores e (process_directives-Runs ds path cur s))
      ]
  process_directives-Runs (cons (redirect status url) ds) path cur s = redirects
  process_directives-Runs (cons (respond status body) ds) path cur s = responds
  process_directives-Runs (cons (reverse_proxy to ct rt up) ds) path cur s = proxies
  process_directives-Runs (cons (forward_auth cfg) ds) path cur s =
      elim (Gate-cases (forward_auth_step w ctx cfg s)) [
        | inl (s', e) ↦
            rw (e, process_directives) (admits e (process_directives-Runs ds path cur s'))
        | inr (a, s', e) ↦ rw (e, process_directives) (refuses e)
      ]

  -- The rules leave no choice.
  Runs-process_directives :
      {ds : Directives} {path cur : Text} {s : Current M Body} {out : Outcome M Body}
      → Runs ds path cur s out
      → process_directives w ctx ds path cur s ≡ out
  unfolding process_directives
  Runs-process_directives ends = refl
  Runs-process_directives (sets e r) = rw (e, process_directives) (Runs-process_directives r)
  Runs-process_directives (stuck e) = rw (e, process_directives)
  Runs-process_directives (rewrites r) = Runs-process_directives r
  Runs-process_directives (strips r) = Runs-process_directives r
  Runs-process_directives (enters e r) = rw (e, process_directives) (Runs-process_directives r)
  Runs-process_directives (passes e r) = rw (e, process_directives) (Runs-process_directives r)
  Runs-process_directives (selects e r) = rw (e, process_directives) (Runs-process_directives r)
  Runs-process_directives (ignores e r) = rw (e, process_directives) (Runs-process_directives r)
  Runs-process_directives redirects = refl
  Runs-process_directives responds = refl
  Runs-process_directives proxies = refl
  Runs-process_directives (admits e r) = rw (e, process_directives) (Runs-process_directives r)
  Runs-process_directives (refuses e) = rw (e, process_directives)

  -- The pipeline has exactly the outcomes that the rules derive.
  pub process_directives_iff :
      (ds : Directives) (path cur : Text) (s : Current M Body) (out : Outcome M Body)
      → (process_directives w ctx ds path cur s ≡ out) ↔ Runs ds path cur s out
  process_directives_iff ds path cur s out = (
    λ e. subst (λ o. Runs ds path cur s o) e (process_directives-Runs ds path cur s),
    Runs-process_directives,
  )
