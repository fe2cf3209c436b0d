-- ===== src/Proxy/Pipeline/Gates.antt =====
-- What stands between a request and its backend: the `forward_auth` directives, in
-- `process_directives` of src/proxy/handler.rs.
use tiny_proxy.Base.{
  Option, [], ap, arith, false, if◌then◌else◌, refl, some, sym, ◌<◌, ◌∙◌, ◌≡◌, ◌≤◌,
}
use tiny_proxy.Config.Models.{ForwardAuthConfig, open_mode}
use tiny_proxy.Http.{Codec, HeaderName, Headers, Request, get}
use tiny_proxy.Http.Laws.{value_or}
use tiny_proxy.Proxy.ForwardAuth.{
  AuthResult, allowed, apply_identity_headers, body_breaks, build_auth_request, denied, failed,
  resolve_auth, scrub_identity_headers,
}
use tiny_proxy.Proxy.ForwardAuth.Decisions.{
  NoDecision, applied_values, classify-allowed_iff, resolve_auth-allowed, resolve_auth-failed,
}
use tiny_proxy.Proxy.ForwardAuth.Identity.{get_all-scrub_identity_headers, listed}
use tiny_proxy.Proxy.Pipeline.{after_auth, forward_auth_step, proceed}
use tiny_proxy.Proxy.State.{
  AuthCtx, AuthResponse, Current, World, answered, count_call, set_headers,
}

module _ {M Body : Type 0} ⦃h : Headers M⦄ ⦃c : Codec⦄ (w : World M) (ctx : AuthCtx) where
  -- The subrequest that a directive makes for a request, if it can be built.
  abbrev pub subrequest : ForwardAuthConfig → Current M Body → Option (Request M (Unit {0}))
  subrequest cfg s =
      build_auth_request w ctx
        (record (s.req) { headers = scrub_identity_headers cfg s.req.headers }) cfg

  -- Why a request may go on behind a directive, with the values of the headers that it then has.
  pub data Permits (cfg : ForwardAuthConfig) (s s' : Current M Body) : Type 0 where
    authorized :
        (r : AuthResponse M) (q : Request M (Unit {0}))
        → subrequest cfg s ≡ some q
        → w.auth s.calls q ≡ answered r
        → (200 ≤ r.status) × (r.status < 300)
        → body_breaks r.frames ≡ false
        → ((n : HeaderName)
            → h.get_all s'.req.headers n ≡ (
                if listed n cfg.response_headers
                then value_or (get r.headers n) []
                else h.get_all s.req.headers n))
        → Permits cfg s s'
    tolerated :
        cfg.failure_mode ≡ open_mode
        → ((q : Request M (Unit {0})) → subrequest cfg s ≡ some q → NoDecision (w.auth s.calls q))
        → ((n : HeaderName)
            → h.get_all s'.req.headers n
              ≡ (if listed n cfg.response_headers then [] else h.get_all s.req.headers n))
        → Permits cfg s s'

  -- The request without the identity headers.
  abbrev pub scrubbed : ForwardAuthConfig → Current M Body → Current M Body
  scrubbed cfg s = set_headers s (scrub_identity_headers cfg s.req.headers)

  allowed-Permits :
      (cfg : ForwardAuthConfig) (s : Current M Body) (identity : M)
      → resolve_auth w s.calls ctx (scrubbed cfg s).req cfg ≡ allowed identity
      → (s' : Current M Body)
      → s'.req.headers ≡ apply_identity_headers identity (scrub_identity_headers cfg s.req.headers)
      → Permits cfg s s'
  allowed-Permits cfg s identity e s' same =
      let (q, built, (r, asked, granted)) =
        resolve_auth-allowed w ctx s.calls (scrubbed cfg s).req cfg identity e in
      let (lo, hi, whole, copied) = (classify-allowed_iff cfg r identity).0 granted in
      authorized r q built asked (lo, hi) whole
        (λ n.
          ap (λ m. h.get_all m n) same
          ∙ ap
              (λ i.
                h.get_all (apply_identity_headers i (scrub_identity_headers cfg s.req.headers)) n)
              (sym copied)
          ∙ applied_values cfg r s.req.headers n)

  result-Permits :
      (cfg : ForwardAuthConfig) (s s' : Current M Body) (res : AuthResult M)
      → resolve_auth w s.calls ctx (scrubbed cfg s).req cfg ≡ res
      → after_auth w ctx cfg res (count_call (scrubbed cfg s)) ≡ proceed s'
      → Permits cfg s s'
  unfolding after_auth
  result-Permits cfg s s' (allowed identity) e f = allowed-Permits cfg s identity e s' (cc f)
  result-Permits cfg s s' (denied status challenge) e f = cc
  result-Permits cfg s s' (failed reason) e f =
      let kept : s'.req.headers ≡ scrub_identity_headers cfg s.req.headers = ground arith in
      tolerated (ground arith) (resolve_auth-failed w ctx s.calls (scrubbed cfg s).req cfg reason e)
        (λ n. ap (λ m. h.get_all m n) kept ∙ get_all-scrub_identity_headers cfg s.req.headers n)

  -- A request goes on behind a `forward_auth` directive only with permission: the service answered
  -- 2xx with a whole body, and each identity header has the service's value or none; or the mode is
  -- `open`, there was no decision, and no identity header is left.
  pub forward_auth_step-Permits :
      (cfg : ForwardAuthConfig) (s s' : Current M Body)
      → forward_auth_step w ctx cfg s ≡ proceed s'
      → Permits cfg s s'
  unfolding forward_auth_step
  forward_auth_step-Permits cfg s s' e = result-Permits cfg s s' _ refl e
