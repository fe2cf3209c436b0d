-- ===== src/Proxy/Pipeline/Routing.antt =====
-- Two runs of `process_directives`, src/proxy/handler.rs, on the same directives, path and method.
-- They may differ in all else: the headers and the body, the outside world and the client.
use tiny_proxy.Base.{
  Bool-cases, Option, Option-cases, ap, inl, inr, none, refl, sym, ℕ, ◌∙◌, ◌≡◌, ◌⊎◌,
}
use tiny_proxy.Base.Text.{Text}
use tiny_proxy.Config.Models.{
  Directives, FailureMode-cases, ForwardAuthConfig, cons, forward_auth, handle_path, header, method,
  nil, redirect, respond, reverse_proxy, strip_prefix, uri_replace,
}
use tiny_proxy.Http.{Codec, HeaderValue, Headers}
use tiny_proxy.Proxy.ForwardAuth.{AuthResult, allowed, denied, failed, resolve_auth}
use tiny_proxy.Proxy.Headers.{handle_header, handle_method}
use tiny_proxy.Proxy.Paths.{handle_strip_prefix, handle_uri_replace, match_pattern}
use tiny_proxy.Proxy.Pipeline.{
  Gate, Outcome, action, after_auth, forward_auth_step, hangs, no_action, proceed,
  process_directives, reject,
}
use tiny_proxy.Proxy.Pipeline.Gates.{scrubbed}
use tiny_proxy.Proxy.State.{
  ActionResult, AuthCtx, Current, World, auth_denied, count_call, set_headers,
}

module _ {M Body : Type 0} ⦃h : Headers M⦄ ⦃c : Codec⦄ where
  -- Two outcomes with the same action, which has the same path and settings, or the same error;
  -- or one of them is a refusal of `forward_auth`, or a substitution that does not end.
  pub data SameRoute : Outcome M Body → Outcome M Body → Type 0 where
    same_action : (a : ActionResult) (s t : Current M Body) → SameRoute (action a s) (action a t)
    same_end : (p : Text) (s t : Current M Body) → SameRoute (no_action p s) (no_action p t)
    refused_left :
        (status : ℕ) (challenge : Option HeaderValue) (s : Current M Body) (out : Outcome M Body)
        → SameRoute (action (auth_denied status challenge) s) out
    refused_right :
        (status : ℕ) (challenge : Option HeaderValue) (s : Current M Body) (out : Outcome M Body)
        → SameRoute out (action (auth_denied status challenge) s)
    hangs_left : (out : Outcome M Body) → SameRoute hangs out
    hangs_right : (out : Outcome M Body) → SameRoute out hangs

  -- A gate is passed with the method of the request kept, or refuses.
  data Passes (s : Current M Body) : Gate M Body → Type 0 where
    passed : (s' : Current M Body) → s'.req.method ≡ s.req.method → Passes s (proceed s')
    refused :
        (status : ℕ) (challenge : Option HeaderValue) (s' : Current M Body)
        → Passes s (reject (auth_denied status challenge) s')

  after_auth-Passes :
      (w : World M) (ctx : AuthCtx) (cfg : ForwardAuthConfig) (res : AuthResult M)
      (s : Current M Body)
      → Passes s (after_auth w ctx cfg res s)
  unfolding after_auth
  after_auth-Passes w ctx cfg (allowed identity) s = passed _ refl
  after_auth-Passes w ctx cfg (denied status challenge) s = refused status challenge s
  after_auth-Passes w ctx cfg (failed reason) s = elim (FailureMode-cases cfg.failure_mode) [
    | inl shut ↦ rw (shut, after_auth) (refused 503 none s)
    | inr loose ↦ rw (loose, after_auth) (passed s refl)
  ]

  -- The gate of a directive: what it comes to, with the state it leaves.
  abbrev GateCase : World M → AuthCtx → ForwardAuthConfig → Current M Body → Type 0
  GateCase w ctx cfg s =
      ((s' : Current M Body) × (forward_auth_step w ctx cfg s ≡ proceed s')
        × (s'.req.method ≡ s.req.method))
      ⊎ ((status : ℕ) × (challenge : Option HeaderValue) × (s' : Current M Body)
          × (forward_auth_step w ctx cfg s ≡ reject (auth_denied status challenge) s'))

  Passes-cases :
      (s : Current M Body) (g : Gate M Body)
      → Passes s g
      → ((s' : Current M Body) × (g ≡ proceed s') × (s'.req.method ≡ s.req.method))
        ⊎ ((status : ℕ) × (challenge : Option HeaderValue) × (s' : Current M Body) × (g
              ≡ reject (auth_denied status challenge) s'))
  Passes-cases s g (passed s' e) = inl (s', refl, e)
  Passes-cases s g (refused status challenge s') = inr (status, challenge, s', refl)

  gate_cases :
      (w : World M) (ctx : AuthCtx) (cfg : ForwardAuthConfig) (s : Current M Body)
      → GateCase w ctx cfg s
  unfolding forward_auth_step
  gate_cases w ctx cfg s =
      let v : Current M Body = scrubbed w ctx cfg s in
      Passes-cases (count_call v) _
        (after_auth-Passes w ctx cfg (resolve_auth w v.calls ctx v.req cfg) (count_call v))

  -- Two requests with the same method and path, in two worlds: the directives come to the same
  -- action for both, with the same backend, path and settings, or to the same error, unless one of
  -- them is refused by an auth service or has a substitution that does not end. The headers, the
  -- bodies, the clients and all that the worlds answer may differ.
  pub process_directives-SameRoute :
      (w w' : World M) (ctx ctx' : AuthCtx) (ds : Directives) (path cur : Text)
      (s t : Current M Body)
      → t.req.method ≡ s.req.method
      → SameRoute
          (process_directives w ctx ds path cur s)
          (process_directives w' ctx' ds path cur t)
  unfolding process_directives
  process_directives-SameRoute w w' ctx ctx' nil path cur s t e = same_end cur s t
  process_directives-SameRoute w w' ctx ctx' (cons (header name value) ds) path cur s t e =
      elim (Option-cases (handle_header w s.calls name value s.req.headers)) [
        | inl no_value ↦ rw (no_value, process_directives) (hangs_left _)
        | inr (m, set) ↦ elim (Option-cases (handle_header w' t.calls name value t.req.headers)) [
          | inl no_value ↦ rw (no_value, process_directives) (hangs_right _)
          | inr (n, set') ↦
              rw (set, set', process_directives)
                (process_directives-SameRoute w w' ctx ctx' ds path cur
                  (count_call (set_headers s m)) (count_call (set_headers t n)) e)
        ]
      ]
  process_directives-SameRoute w w' ctx ctx' (cons (uri_replace find by) ds) path cur s t e =
      process_directives-SameRoute w w' ctx ctx' ds (handle_uri_replace find by path) cur s t e
  process_directives-SameRoute w w' ctx ctx' (cons (strip_prefix prefix) ds) path cur s t e =
      process_directives-SameRoute w w' ctx ctx' ds (handle_strip_prefix prefix path) cur s t e
  process_directives-SameRoute w w' ctx ctx' (cons (handle_path pattern inner) ds) path cur s t e =
      elim (Option-cases (match_pattern pattern path)) [
        | inl other ↦
            rw (other, process_directives)
              (process_directives-SameRoute w w' ctx ctx' ds path cur s t e)
        | inr (rest, hit) ↦
            rw (hit, process_directives)
              (process_directives-SameRoute w w' ctx ctx' inner rest rest s t e)
      ]
  process_directives-SameRoute w w' ctx ctx' (cons (method methods inner) ds) path cur s t e =
      elim (Bool-cases (handle_method methods s.req.method)) [
        | inl hit ↦
            rw (ap (handle_method methods) e ∙ hit, hit, process_directives)
              (process_directives-SameRoute w w' ctx ctx' inner path path s t e)
        | inr miss ↦
            rw (ap (handle_method methods) e ∙ miss, miss, process_directives)
              (process_directives-SameRoute w w' ctx ctx' ds path cur s t e)
      ]
  process_directives-SameRoute w w' ctx ctx' (cons (redirect status url) ds) path cur s t e =
      same_action _ s t
  process_directives-SameRoute w w' ctx ctx' (cons (respond status body) ds) path cur s t e =
      same_action _ s t
  process_directives-SameRoute w w' ctx ctx' (cons (reverse_proxy to ct rt up) ds) path cur s t e =
      same_action _ s t
  process_directives-SameRoute w w' ctx ctx' (cons (forward_auth cfg) ds) path cur s t e =
      elim (gate_cases w ctx cfg s) [
        | inr (status, challenge, s', no_entry) ↦
            rw (no_entry, process_directives) (refused_left status challenge s' _)
        | inl (s', entry, method_kept) ↦ elim (gate_cases w' ctx' cfg t) [
          | inr (status, challenge, t', no_entry) ↦
              rw (no_entry, process_directives) (refused_right status challenge t' _)
          | inl (t', entry', method_kept') ↦
              rw (entry, entry', process_directives)
                (process_directives-SameRoute w w' ctx ctx' ds path cur s' t'
                  (method_kept' ∙ e ∙ sym method_kept))
        ]
      ]
