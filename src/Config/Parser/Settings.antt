-- ===== src/Config/Parser/Settings.antt =====
-- Single lines inside a block of `forward_auth` or `reverse_proxy`, and the `tls` line of a site.
use tiny_proxy.Base.{
  ℕ, ◌||◌, none, some, List, [], ◌∷◌, ◌++◌, if◌then◌else◌, is_some, is_empty, head?, get_elem?,
}
use tiny_proxy.Base.Text.{Text, codes, text_eq, strip_prefix as strip_prefix_of, join}
use tiny_proxy.Base.Result.{ok, err, ok_or, map_err, ◌>>=◌}
use tiny_proxy.Config.Duration.{parse_duration}
use tiny_proxy.Config.Models.{HeaderDirective, FailureMode, closed, open_mode}
use tiny_proxy.Config.Parser.{
  ForwardAuthBlock, PendingBlock, State, missing_argument, missing_value, invalid_failure_mode,
  invalid_timeout, unexpected_directive, duplicate_tls, Parsed,
}

-- `args.first()`, with the error for a missing argument.
abbrev first_arg : List Text → Text → ℕ → Parsed Text
first_arg args what line = ok_or (head? args) (missing_argument what line)

abbrev timeout_of : Text → Text → ℕ → Parsed ℕ
timeout_of raw what line = map_err (invalid_timeout what line) (parse_duration raw)

unfoldable pub failure_mode_of : Text → ℕ → Parsed FailureMode
failure_mode_of raw line =
    if text_eq raw (codes "closed")
    then ok closed
    else if text_eq raw (codes "open")
    then ok open_mode
    else err (invalid_failure_mode raw line)

-- A line of a `forward_auth` block.
unfoldable pub auth_setting : Text → List Text → ℕ → ForwardAuthBlock → Parsed ForwardAuthBlock
auth_setting name args line p =
    let to_line : Parsed ForwardAuthBlock =
      (first_arg args (codes "to") line >>= λ raw. ok (record p { to = some raw })) in
    let mode_line : Parsed ForwardAuthBlock = (do
      raw ← first_arg args (codes "failure_mode") line
      mode ← failure_mode_of raw line
      ok (record p { failure_mode = some mode })) in
    let timeout_line : Parsed ForwardAuthBlock = (do
      raw ← first_arg args (codes "timeout") line
      secs ← timeout_of raw (codes "forward_auth timeout") line
      ok (record p { timeout = some secs })) in
    let is_request = text_eq name (codes "request_headers") in
    if text_eq name (codes "to")
    then to_line
    else if is_request || text_eq name (codes "response_headers")
    then (if is_empty args
        then err (missing_argument name line)
        else ok (
            if is_request
            then record p { request_headers = some args }
            else record p { response_headers = some args }))
    else if text_eq name (codes "failure_mode")
    then mode_line
    else if text_eq name (codes "timeout")
    then timeout_line
    else err (unexpected_directive name (codes "forward_auth") line)

-- The argument of a `header_up` line: `-Name` removes, `Name value` sets.
unfoldable pub header_up_of : List Text → ℕ → Parsed HeaderDirective
header_up_of [] line = err (missing_argument (codes "header_up") line)
header_up_of (raw_name ∷ rest) line = elim (strip_prefix_of raw_name (codes "-")) [
  | some name ↦
      if is_empty name
      then err (missing_argument (codes "header_up -") line)
      else ok (record { name = name; value = none })
  | none ↦
      if is_empty (join (codes " ") rest)
      then err (missing_argument raw_name line)
      else ok (record { name = raw_name; value = some (join (codes " ") rest) })
]

-- A line of a `reverse_proxy` block.
unfoldable pub proxy_setting : Text → List Text → ℕ → PendingBlock → Parsed PendingBlock
proxy_setting name args line b =
    let connect_line : Parsed PendingBlock = (do
      raw ← ok_or (head? args) (missing_value (codes "connect_timeout"))
      secs ← timeout_of raw (codes "connect_timeout") line
      ok (record b { connect_timeout = some secs })) in
    let read_line : Parsed PendingBlock = (do
      raw ← ok_or (head? args) (missing_value (codes "read_timeout"))
      secs ← timeout_of raw (codes "read_timeout") line
      ok (record b { read_timeout = some secs })) in
    let header_line : Parsed PendingBlock = (do
      d ← header_up_of args line
      ok (record b { header_up = b.header_up ++ d ∷ [] })) in
    if text_eq name (codes "connect_timeout")
    then connect_line
    else if text_eq name (codes "read_timeout")
    then read_line
    else if text_eq name (codes "header_up")
    then header_line
    else err (unexpected_directive name (codes "reverse_proxy") line)

-- The `tls` line of a site.
unfoldable pub tls_line : List Text → ℕ → State → Parsed State
tls_line args line s = do
  cert_path ← ok_or (head? args) (missing_argument (codes "cert path") line)
  key_path ← ok_or (get_elem? args 1) (missing_argument (codes "key path") line)
  if is_some s.current_site_tls
      then err (duplicate_tls line)
      else ok (record s {
        current_site_tls = some (record { cert_path = cert_path; key_path = key_path });
      })
