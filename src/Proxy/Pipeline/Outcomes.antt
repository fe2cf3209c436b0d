-- ===== src/Proxy/Pipeline/Outcomes.antt =====
-- What holds of every outcome of the pipeline.
use mathlib.Core.Path.{subst}
use tiny_proxy.Base.{inl, inr, refl, ◌∙◌, ◌≡◌}
use tiny_proxy.Base.Text.{Text}
use tiny_proxy.Config.Models.{Directives, FailureMode-cases, ForwardAuthConfig}
use tiny_proxy.Http.{Codec, Headers}
use tiny_proxy.Proxy.ForwardAuth.{AuthResult, allowed, denied, failed}
use tiny_proxy.Proxy.Pipeline.{
  Gate, Outcome, action, after_auth, forward_auth_step, hangs, no_action, proceed,
  process_directives, reject,
}
use tiny_proxy.Proxy.Pipeline.Gates.{Permits, forward_auth_step-Permits, scrubbed}
use tiny_proxy.Proxy.Pipeline.Rules.{
  Runs, admits, ends, enters, ignores, passes, process_directives-Runs, process_directives_iff,
  proxies, redirects, refuses, responds, rewrites, selects, sets, strips, stuck,
}
use tiny_proxy.Proxy.State.{AuthCtx, Current, World, count_call, set_headers}

module _ {M Body : Type 0} ⦃h : Headers M⦄ ⦃c : Codec⦄ (w : World M) (ctx : AuthCtx) where
  -- Each `forward_auth` directive that a run passes has given its permission.
  abbrev pub AllPermit :
      {ds : Directives} {path cur : Text} {s : Current M Body} {out : Outcome M Body}
      → Runs w ctx ds path cur s out
      → Type 0
  AllPermit (admits {cfg} {s} {s'} e r) = Permits w ctx cfg s s' × AllPermit r
  AllPermit (sets e r) = AllPermit r
  AllPermit (rewrites r) = AllPermit r
  AllPermit (strips r) = AllPermit r
  AllPermit (enters e r) = AllPermit r
  AllPermit (passes e r) = AllPermit r
  AllPermit (selects e r) = AllPermit r
  AllPermit (ignores e r) = AllPermit r
  AllPermit _ = Unit

  Runs-AllPermit :
      {ds : Directives} {path cur : Text} {s : Current M Body} {out : Outcome M Body}
      (r : Runs w ctx ds path cur s out)
      → AllPermit r
  Runs-AllPermit (admits {cfg} {s} {s'} e r) =
      (forward_auth_step-Permits w ctx cfg s s' e, Runs-AllPermit r)
  Runs-AllPermit (sets e r) = Runs-AllPermit r
  Runs-AllPermit (rewrites r) = Runs-AllPermit r
  Runs-AllPermit (strips r) = Runs-AllPermit r
  Runs-AllPermit (enters e r) = Runs-AllPermit r
  Runs-AllPermit (passes e r) = Runs-AllPermit r
  Runs-AllPermit (selects e r) = Runs-AllPermit r
  Runs-AllPermit (ignores e r) = Runs-AllPermit r
  Runs-AllPermit _ = tt

  -- Whatever the outcome of the pipeline, it is that of a run in which every `forward_auth`
  -- directive that the request got past gave its permission.
  pub process_directives-AllPermit :
      (ds : Directives) (path cur : Text) (s : Current M Body) (out : Outcome M Body)
      → process_directives w ctx ds path cur s ≡ out
      → (r : Runs w ctx ds path cur s out) × AllPermit r
  process_directives-AllPermit ds path cur s out e =
      let r = (process_directives_iff w ctx ds path cur s out).0 e in (r, Runs-AllPermit r)

  -- The request line and the body are the client's.
  abbrev pub SameTarget : Current M Body → Current M Body → Type 0
  SameTarget s s' =
      (s'.req.method ≡ s.req.method) × (s'.req.uri ≡ s.req.uri) × (s'.req.body ≡ s.req.body)

  abbrev pub Keeps : Current M Body → Outcome M Body → Type 0
  Keeps s (action a s') = SameTarget s s'
  Keeps s (no_action p s') = SameTarget s s'
  Keeps s hangs = Unit

  abbrev KeepsGate : Current M Body → Gate M Body → Type 0
  KeepsGate s (proceed s') = SameTarget s s'
  KeepsGate s (reject a s') = SameTarget s s'

  after_auth-KeepsGate :
      (cfg : ForwardAuthConfig) (res : AuthResult M) (s : Current M Body)
      → KeepsGate s (after_auth w ctx cfg res s)
  unfolding after_auth
  after_auth-KeepsGate cfg (allowed identity) s = (refl, refl, refl)
  after_auth-KeepsGate cfg (denied status challenge) s = (refl, refl, refl)
  after_auth-KeepsGate cfg (failed reason) s = elim (FailureMode-cases cfg.failure_mode) [
    | inl shut ↦ rw (shut, after_auth) (refl, refl, refl)
    | inr loose ↦ rw (loose, after_auth) (refl, refl, refl)
  ]

  forward_auth_step-KeepsGate :
      (cfg : ForwardAuthConfig) (s : Current M Body) → KeepsGate s (forward_auth_step w ctx cfg s)
  unfolding forward_auth_step
  forward_auth_step-KeepsGate cfg s = after_auth-KeepsGate cfg _ (count_call (scrubbed w ctx cfg s))

  Keeps-trans :
      (s t : Current M Body) (out : Outcome M Body) → SameTarget s t → Keeps t out → Keeps s out
  Keeps-trans s t (action a s') (p, q, r) (p', q', r') = (p' ∙ p, q' ∙ q, r' ∙ r)
  Keeps-trans s t (no_action a s') (p, q, r) (p', q', r') = (p' ∙ p, q' ∙ q, r' ∙ r)
  Keeps-trans s t hangs _ _ = tt

  Runs-Keeps :
      {ds : Directives} {path cur : Text} {s : Current M Body} {out : Outcome M Body}
      → Runs w ctx ds path cur s out
      → Keeps s out
  Runs-Keeps ends = (refl, refl, refl)
  Runs-Keeps (sets {s} {m} {out} e r) =
      Keeps-trans s (count_call (set_headers s m)) out (refl, refl, refl) (Runs-Keeps r)
  Runs-Keeps (stuck e) = tt
  Runs-Keeps (rewrites r) = Runs-Keeps r
  Runs-Keeps (strips r) = Runs-Keeps r
  Runs-Keeps (enters e r) = Runs-Keeps r
  Runs-Keeps (passes e r) = Runs-Keeps r
  Runs-Keeps (selects e r) = Runs-Keeps r
  Runs-Keeps (ignores e r) = Runs-Keeps r
  Runs-Keeps redirects = (refl, refl, refl)
  Runs-Keeps responds = (refl, refl, refl)
  Runs-Keeps proxies = (refl, refl, refl)
  Runs-Keeps (admits {cfg} {s} {s'} {out} e r) =
      Keeps-trans s s' out (subst (KeepsGate s) e (forward_auth_step-KeepsGate cfg s))
        (Runs-Keeps r)
  Runs-Keeps (refuses {cfg} {s} e) = subst (KeepsGate s) e (forward_auth_step-KeepsGate cfg s)

  -- Directives change the headers of a request alone: method, URI and body stay the client's.
  pub process_directives-Keeps :
      (ds : Directives) (path cur : Text) (s : Current M Body)
      → Keeps s (process_directives w ctx ds path cur s)
  process_directives-Keeps ds path cur s = Runs-Keeps (process_directives-Runs w ctx ds path cur s)
