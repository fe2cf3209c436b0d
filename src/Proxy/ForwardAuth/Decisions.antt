-- ===== src/Proxy/ForwardAuth/Decisions.antt =====
-- How the answer of the auth service is classified, and the identity headers that it gives.
use tiny_proxy.Base.{
  Bool-cases, Option, Option-cases, [], arith, false, if◌then◌else◌, inl, inr, leb, ltb, none, refl,
  some, true, ℕ, ◌&&◌, ◌<◌, ◌↔◌, ◌∙◌, ◌≡◌, ◌≤◌,
}
use tiny_proxy.Config.Models.{ForwardAuthConfig}
use tiny_proxy.Http.{Codec, HeaderName, HeaderValue, Headers, Request, get}
use tiny_proxy.Http.Laws.{value_or}
use tiny_proxy.Proxy.ForwardAuth.{
  AuthFailure, allowed, apply_identity_headers, body_breaks, build_auth_request, challenge_name,
  classify, classify_reply, copy_listed, denied, failed, resolve_auth, scrub_identity_headers,
}
use tiny_proxy.Proxy.ForwardAuth.Identity.{
  get_all-apply_identity_headers, get_all-copy_listed, get_all-scrub_identity_headers, last_or,
  listed,
}
use tiny_proxy.Proxy.State.{
  AuthCtx, AuthResponse, Reply, World, answered, connect_error, other_error, timed_out,
}

last_or_value : (o : Option HeaderValue) → last_or (value_or o []) [] ≡ value_or o []
last_or_value none = refl
last_or_value (some v) = refl

module _ {M : Type 0} ⦃h : Headers M⦄ ⦃c : Codec⦄ where
  -- The identity that an allowing response gives: for each listed name the first value of the
  -- response, and nothing for any other name.
  identity_values :
      (cfg : ForwardAuthConfig) (r : AuthResponse M) (n : HeaderName)
      → h.get_all (copy_listed cfg.response_headers r.headers h.empty) n
        ≡ (if listed n cfg.response_headers then value_or (get r.headers n) [] else [])
  identity_values cfg r n =
      get_all-copy_listed cfg.response_headers r.headers h.empty n ∙ rw (h.get_all-empty n)

  -- A response is an allowance exactly when its status is 2xx and its body arrives whole; the
  -- identity is made of the listed headers of the response.
  pub classify-allowed_iff :
      (cfg : ForwardAuthConfig) (r : AuthResponse M) (identity : M)
      → (classify cfg r ≡ allowed identity) ↔ (
          (200 ≤ r.status)
          × (r.status < 300)
          × (body_breaks r.frames ≡ false)
          × (copy_listed cfg.response_headers r.headers h.empty ≡ identity))
  unfolding classify
  classify-allowed_iff cfg r identity =
      ground (arith, c.is_success_eq r.status, c.is_client_error_eq r.status)

  -- A response is a denial exactly when its status is 4xx; the status and the challenge are the
  -- response's own.
  pub classify-denied_iff :
      (cfg : ForwardAuthConfig) (r : AuthResponse M) (status : ℕ) (challenge : Option HeaderValue)
      → (classify cfg r ≡ denied status challenge) ↔ (
          (400 ≤ r.status)
          × (r.status < 500)
          × (r.status ≡ status)
          × (get r.headers challenge_name ≡ challenge))
  unfolding classify
  classify-denied_iff cfg r status challenge =
      ground (arith, c.is_success_eq r.status, c.is_client_error_eq r.status)

  -- When the identity of an allowing response is applied to a scrubbed request, a name listed in
  -- `response_headers` has the first value of the response, or none, and any other name has the
  -- values of the client.
  pub applied_values :
      (cfg : ForwardAuthConfig) (r : AuthResponse M) (m : M) (n : HeaderName)
      → h.get_all
          (apply_identity_headers
            (copy_listed cfg.response_headers r.headers h.empty)
            (scrub_identity_headers cfg m))
          n
        ≡ (if listed n cfg.response_headers then value_or (get r.headers n) [] else h.get_all m n)
  applied_values cfg r m n =
      let identity = copy_listed cfg.response_headers r.headers h.empty in
      get_all-apply_identity_headers identity (scrub_identity_headers cfg m) n
      ∙ rw (identity_values cfg r n) (
          rw (get_all-scrub_identity_headers cfg m n)
            (ground (arith, last_or_value (get r.headers n))))

-- The answers that are no decision of the auth service: errors, timeouts, statuses outside 2xx and
-- 4xx, and a 2xx answer whose body breaks off.
pub data NoDecision {M : Type 0} : Reply (AuthResponse M) → Type 0 where
  no_connection : NoDecision connect_error
  no_exchange : NoDecision other_error
  no_answer : NoDecision timed_out
  other_status :
      {r : AuthResponse M}
      → ¬ ((200 ≤ r.status) × (r.status < 300))
      → ¬ ((400 ≤ r.status) × (r.status < 500))
      → NoDecision (answered r)
  broken_body :
      {r : AuthResponse M}
      → (200 ≤ r.status) × (r.status < 300)
      → body_breaks r.frames ≡ true
      → NoDecision (answered r)

module _ {M : Type 0} ⦃h : Headers M⦄ ⦃c : Codec⦄ where
  answered-NoDecision :
      (cfg : ForwardAuthConfig) (r : AuthResponse M) (reason : AuthFailure)
      → classify cfg r ≡ failed reason
      → NoDecision (answered r)
  unfolding classify
  answered-NoDecision cfg r reason e = elim (Bool-cases (leb 200 r.status && ltb r.status 300)) [
    | inl success ↦ broken_body (ground arith) (ground (arith, c.is_success_eq r.status))
    | inr other ↦
        other_status (λ p. ground arith)
          (λ p. ground (arith, c.is_success_eq r.status, c.is_client_error_eq r.status))
  ]

  -- Only an answer that is no decision is classified as a failure.
  pub failed-NoDecision :
      (cfg : ForwardAuthConfig) (reply : Reply (AuthResponse M)) (reason : AuthFailure)
      → classify_reply cfg reply ≡ failed reason
      → NoDecision reply
  unfolding classify_reply
  failed-NoDecision cfg (answered r) reason e = answered-NoDecision cfg r reason e
  failed-NoDecision cfg connect_error reason e = no_connection
  failed-NoDecision cfg other_error reason e = no_exchange
  failed-NoDecision cfg timed_out reason e = no_answer

  answered-allowed :
      (cfg : ForwardAuthConfig) (reply : Reply (AuthResponse M)) (identity : M)
      → classify_reply cfg reply ≡ allowed identity
      → (r : AuthResponse M) × (reply ≡ answered r) × (classify cfg r ≡ allowed identity)
  unfolding classify_reply
  answered-allowed cfg (answered r) identity e = (r, refl, e)
  answered-allowed cfg connect_error identity e = cc
  answered-allowed cfg other_error identity e = cc
  answered-allowed cfg timed_out identity e = cc

module _ {M Body : Type 0} ⦃h : Headers M⦄ ⦃c : Codec⦄ (w : World M) (ctx : AuthCtx) where
  -- An allowance comes from an answer to the subrequest.
  pub resolve_auth-allowed :
      (k : ℕ) (req : Request M Body) (cfg : ForwardAuthConfig) (identity : M)
      → resolve_auth w k ctx req cfg ≡ allowed identity
      → (q : Request M (Unit {0})) × (build_auth_request w ctx req cfg ≡ some q)
        × ((r : AuthResponse M) × (w.auth k q ≡ answered r) × (classify cfg r ≡ allowed identity))
  unfolding resolve_auth
  resolve_auth-allowed k req cfg identity e =
      elim (Option-cases (build_auth_request w ctx req cfg)) [
        | inl f ↦ cc (rw (f, resolve_auth) at e)
        | inr (q, f) ↦
            (q, f, answered-allowed cfg (w.auth k q) identity (rw (f, resolve_auth) at e))
      ]

  -- A failure means that no decision was received.
  pub resolve_auth-failed :
      (k : ℕ) (req : Request M Body) (cfg : ForwardAuthConfig) (reason : AuthFailure)
      → resolve_auth w k ctx req cfg ≡ failed reason
      → (q : Request M (Unit {0})) → build_auth_request w ctx req cfg ≡ some q
      → NoDecision (w.auth k q)
  unfolding resolve_auth
  resolve_auth-failed k req cfg reason e q f =
      failed-NoDecision cfg (w.auth k q) reason (rw (f, resolve_auth) at e)
