-- ===== src/Proxy/AccessLog.antt =====
-- The guard of the access log, src/proxy/access_log.rs; it is written when it is dropped.
use mathlib.Core.Option
use tiny_proxy.Base.{Option, none, some, ℕ}
use tiny_proxy.Base.Text.{Text, codes}
use tiny_proxy.Base.Text.Decimal.{to_string}
use tiny_proxy.Config.Address.{SocketAddr}

-- `AccessLogGuard`, without the time.
pub record AccessLogGuard : Type 0 where
  pub request_id : Text
  pub remote_addr : SocketAddr
  pub method : Text
  pub path : Text
  pub host : Text
  pub status : Option ℕ
  pub bytes_sent : Option ℕ

abbrev pub new : Text → SocketAddr → Text → Text → Text → AccessLogGuard
new request_id remote_addr name path host = record {
  request_id = request_id;
  remote_addr = remote_addr;
  method = name;
  path = path;
  host = host;
  status = none;
  bytes_sent = none;
}

abbrev pub finish : AccessLogGuard → ℕ → AccessLogGuard
finish g status = record g { status = some status }

abbrev pub set_bytes_sent : AccessLogGuard → ℕ → AccessLogGuard
set_bytes_sent g bytes = record g { bytes_sent = some bytes }

abbrev pub set_request_id : AccessLogGuard → Text → AccessLogGuard
set_request_id g id = record g { request_id = id }

-- The status that `drop` writes.
unfoldable pub logged_status : AccessLogGuard → ℕ
logged_status g = Option.get_or g.status 500

-- The fields of a line of the log, as they are printed.
pub record LogEntry : Type 0 where
  pub req_id : Text
  pub remote : Text
  pub method : Text
  pub path : Text
  pub host : Text
  pub status : ℕ
  pub duration_ms : Text
  pub bytes_sent : Text

-- The duration is printed already.
unfoldable pub log_access : Text → SocketAddr → Text → Text → Text → ℕ → Text → Option ℕ → LogEntry
log_access request_id remote_addr name path host status duration bytes = record {
  req_id = request_id;
  remote = remote_addr.ip;
  method = name;
  path = path;
  host = host;
  status = status;
  duration_ms = duration;
  bytes_sent = Option.get_or (Option.map to_string bytes) (codes "-");
}

-- `drop`, with the time since `new`.
unfoldable pub drop_guard : AccessLogGuard → Text → LogEntry
drop_guard g duration =
    log_access g.request_id g.remote_addr g.method g.path g.host (logged_status g) duration
      g.bytes_sent
