-- ===== src/Proxy/Examples/Auth.antt =====
-- The auth service: what it is asked, and what its answers mean.
use tiny_proxy.Base.{[], arith, refl, some, ◌∷◌, ◌≡◌}
use tiny_proxy.Base.Text.{codes}
use tiny_proxy.Http.{values_of}
use tiny_proxy.Http.Sample.{Entries, sample_codec, sample_headers}
use tiny_proxy.Proxy.Examples.{auth_config, client_request, context, grant}
use tiny_proxy.Proxy.Examples.Runs.{proxy_runs}
use tiny_proxy.Proxy.ForwardAuth.{
  allowed, apply_identity_headers, auth_headers, classify, copy_listed, denied,
  scrub_identity_headers, timeout,
}
use tiny_proxy.Proxy.ForwardAuth.Decisions.{
  NoDecision, applied_values, classify-allowed_iff, classify-denied_iff, failed-NoDecision,
}
use tiny_proxy.Proxy.ForwardAuth.Subrequest.{auth_headers-listed, auth_headers_host}
use tiny_proxy.Proxy.State.{AuthResponse, timed_out}

abbrev ann : Entries
ann = (codes "x-user", codes "ann") ∷ []

classify-allowed_iff_example : classify auth_config grant ≡ allowed ann
unfolding proxy_runs
classify-allowed_iff_example =
    (classify-allowed_iff auth_config grant ann).1 (omega arith, omega arith, refl, refl)

abbrev refusal : AuthResponse Entries
refusal = record {
  status = 401;
  headers = (codes "www-authenticate", codes "Basic") ∷ [];
  frames = [];
}

classify-denied_iff_example : classify auth_config refusal ≡ denied 401 (some (codes "Basic"))
unfolding proxy_runs
classify-denied_iff_example =
    (classify-denied_iff auth_config refusal 401 (some (codes "Basic"))).1
      (omega arith, omega arith, refl, refl)

failed-NoDecision_example : NoDecision {M = Entries} timed_out
unfolding proxy_runs
failed-NoDecision_example = failed-NoDecision auth_config timed_out timeout refl

applied_values_example :
    values_of (codes "x-user") (
      apply_identity_headers
        (copy_listed auth_config.response_headers grant.headers [])
        (scrub_identity_headers auth_config client_request.headers))
    ≡ codes "ann" ∷ []
unfolding proxy_runs
applied_values_example = applied_values auth_config grant client_request.headers (codes "x-user")

auth_headers-listed_example :
    values_of
      (codes "x-user")
      (auth_headers context (codes "GET") client_request.headers auth_config)
    ≡ []
unfolding proxy_runs
auth_headers-listed_example =
    auth_headers-listed context (codes "GET") client_request.headers auth_config (codes "x-user")
      refl refl

host_of_subrequest :
    values_of (codes "host") (auth_headers context (codes "GET") client_request.headers auth_config)
    ≡ codes "auth" ∷ []
host_of_subrequest =
    auth_headers_host context (codes "GET") client_request.headers auth_config (codes "auth")
      (codes "auth") refl refl
