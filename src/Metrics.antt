-- ===== src/Metrics.antt =====
-- What the proxy reports to the crate `metrics`, src/metrics/recorder.rs: the updates in the order
-- in which they are made. A duration is given in seconds, as it prints.
pub mod Requests
use tiny_proxy.Base.{List, [], arith, if◌then◌else◌, length, refl, ℕ, ◌++◌, ◌+◌, ◌-◌, ◌∙◌, ◌∷◌, ◌≡◌}
use tiny_proxy.Base.Text.{Text, codes, text_eq}
use tiny_proxy.Base.Text.Decimal.{to_string}

abbrev pub Labels : Type 0
Labels = List (Text × Text)

pub data Update : Type 0 where
  count_one : Text → Labels → Update
  sample : Text → Labels → Text → Update
  gauge_up : Text → Update
  gauge_down : Text → Update

unfoldable pub record_request : Text → ℕ → Text → Text → List Update
record_request name status site secs =
    count_one (codes "http_requests_total")
      ((codes "method", name) ∷ (codes "status", to_string status) ∷ (codes "site", site) ∷ [])
    ∷ sample (codes "http_request_duration_seconds")
        ((codes "method", name) ∷ (codes "status", to_string status) ∷ []) secs
    ∷ []

unfoldable pub tls_handshake : Text → List Update
tls_handshake status = count_one (codes "tls_handshakes_total") ((codes "status", status) ∷ []) ∷ []

unfoldable pub record_auth : Text → Text → List Update
record_auth result secs =
    count_one (codes "auth_requests_total") ((codes "result", result) ∷ [])
    ∷ sample (codes "auth_request_duration_seconds") [] secs
    ∷ []

-- `MetricsGuard`, without its start.
pub record MetricsGuard : Type 0 where
  pub method : Text
  pub site : Text

unfoldable pub new_guard : Text → Text → MetricsGuard × List Update
new_guard name site =
    (record { method = name; site = site }, gauge_up (codes "http_active_requests") ∷ [])

unfoldable pub record_status : MetricsGuard → ℕ → Text → List Update
record_status g status secs = record_request g.method status g.site secs

unfoldable pub drop_metrics : MetricsGuard → List Update
drop_metrics g = gauge_down (codes "http_active_requests") ∷ []

-- What the guard of one request reports: what is recorded, with the time then.
unfoldable pub records : MetricsGuard → List (ℕ × Text) → List Update
records g [] = []
records g ((status, secs) ∷ more) = record_status g status secs ++ records g more

unfoldable pub guard_updates : Text → Text → List (ℕ × Text) → List Update
guard_updates name site recorded =
    let (g, up) = new_guard name site in up ++ (records g recorded ++ drop_metrics g)

-- The requests in flight after some updates, from a number of them before.
unfoldable pub in_flight : ℕ → List Update → ℕ
in_flight n [] = n
in_flight n (gauge_up name ∷ us) = in_flight (n + 1) us
in_flight n (gauge_down name ∷ us) = in_flight (n - 1) us
in_flight n (count_one name ls ∷ us) = in_flight n us
in_flight n (sample name ls secs ∷ us) = in_flight n us

-- How often a counter was raised.
unfoldable pub raised : Text → List Update → ℕ
raised name [] = 0
raised name (count_one other ls ∷ us) = (if text_eq other name then 1 else 0) + raised name us
raised name (sample other ls secs ∷ us) = raised name us
raised name (gauge_up other ∷ us) = raised name us
raised name (gauge_down other ∷ us) = raised name us

in_flight-records :
    (n : ℕ) (g : MetricsGuard) (rs : List (ℕ × Text)) (us : List Update)
    → in_flight n (records g rs ++ us) ≡ in_flight n us
unfolding in_flight records record_status record_request
in_flight-records n g [] us = refl
in_flight-records n g ((status, secs) ∷ rs) us = in_flight-records n g rs us

raised-records :
    (g : MetricsGuard) (rs : List (ℕ × Text)) (us : List Update)
    → raised (codes "http_requests_total") (records g rs ++ us)
      ≡ length rs + raised (codes "http_requests_total") us
unfolding raised records record_status record_request text_eq
raised-records g [] us = omega arith
raised-records g ((status, secs) ∷ rs) us = omega (arith, raised-records g rs us)

-- The guard of a request leaves the number of requests in flight as it was, and raises the counter
-- of requests once for each status that is recorded.
pub guard_updates_lem :
    (n : ℕ) (name site : Text) (rs : List (ℕ × Text))
    → (in_flight n (guard_updates name site rs) ≡ n)
      × (raised (codes "http_requests_total") (guard_updates name site rs) ≡ length rs)
unfolding guard_updates new_guard drop_metrics in_flight raised
guard_updates_lem n name site rs = (
  in_flight-records (n + 1) (record { method = name; site = site }) rs (gauge_down _ ∷ [])
      ∙ omega arith,
  raised-records (record { method = name; site = site }) rs (gauge_down _ ∷ []) ∙ omega arith,
)
