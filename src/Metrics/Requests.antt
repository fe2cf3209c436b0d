-- ===== src/Metrics/Requests.antt =====
-- What is reported of one request, by the guards of src/proxy/access_log.rs and of
-- src/metrics/recorder.rs that `proxy` of src/proxy/handler.rs holds while it serves the request.
-- The line of the log and the updates of the metrics, with the times at which they are made.
use mathlib.Core.Option
use tiny_proxy.Base.{List, [], ℕ, ◌∷◌, ◌≡◌}
use tiny_proxy.Base.Result.{Result, err, ok}
use tiny_proxy.Base.Text.{Text, codes}
use tiny_proxy.Base.Text.Decimal.{to_string}
use tiny_proxy.Config.Address.{SocketAddr}
use tiny_proxy.Config.Models.{Config}
use tiny_proxy.Http.{Codec, Headers, Request}
use tiny_proxy.Metrics.{Update, count_one, gauge_down, gauge_up, guard_updates, sample}
use tiny_proxy.Proxy.AccessLog.{LogEntry, drop_guard}
use tiny_proxy.Proxy.Forward.{ProxyFailure}
use tiny_proxy.Proxy.Handler.{host_of}
use tiny_proxy.Proxy.Handler.Accounting.{body_size}
use tiny_proxy.Proxy.Responses.{Handled, Response}

pub record Report : Type 0 where
  pub entry : LogEntry
  pub updates : List Update

abbrev timed : Text → List ℕ → List (ℕ × Text)
timed secs [] = []
timed secs (s ∷ statuses) = (s, secs) ∷ timed secs statuses

module _ {M Body : Type 0} ⦃h : Headers M⦄ ⦃c : Codec⦄ where
  -- What both guards of a request report: they have its method and its host. The updates that
  -- `forward_auth` makes in between are left out.
  unfoldable pub report : Text → Text → Handled M Body → Report
  report secs duration x = record {
    entry = drop_guard x.log duration;
    updates = guard_updates x.log.method x.log.host (timed secs x.recorded);
  }

  -- The line of the log has the client's address, method, path and host.
  abbrev pub LineOf : SocketAddr → Request M Body → LogEntry → Type 0
  LineOf remote_addr req e =
      (e.remote ≡ remote_addr.ip)
      × (e.method ≡ req.method)
      × (e.path ≡ c.uri_path req.uri)
      × (e.host ≡ host_of req.headers)

  -- A response is reported with its own status, under the client's method and host, between the two
  -- updates of the number of active requests; of an error only these are left.
  abbrev pub ReportedAs :
      Text → Request M Body → Result ProxyFailure (Response M Body) → Report → Type 0
  ReportedAs secs req (ok r) s =
      (s.entry.status ≡ r.status)
      × (s.entry.bytes_sent ≡ Option.get_or (Option.map to_string (body_size r.body)) (codes "-"))
      × (s.updates
          ≡ gauge_up (codes "http_active_requests")
            ∷ count_one (codes "http_requests_total") (
                (codes "method", req.method)
                ∷ (codes "status", to_string r.status)
                ∷ (codes "site", host_of req.headers)
                ∷ [])
            ∷ sample (codes "http_request_duration_seconds")
                ((codes "method", req.method) ∷ (codes "status", to_string r.status) ∷ []) secs
            ∷ gauge_down (codes "http_active_requests")
            ∷ [])
  ReportedAs secs req (err e) s =
      (s.entry.status ≡ 500)
      × (s.entry.bytes_sent ≡ codes "-")
      × (s.updates
          ≡ gauge_up (codes "http_active_requests")
            ∷ gauge_down (codes "http_active_requests")
            ∷ [])

  abbrev pub Reported : Text → Text → SocketAddr → Request M Body → Handled M Body → Type 0
  Reported secs duration remote_addr req x =
      LineOf remote_addr req (report secs duration x).entry
      × ReportedAs secs req x.response (report secs duration x)
