-- ===== src/Config/Parser/Lines.antt =====
-- Single lines that are directives of their own, one step of the loop, and the loop.
use mathlib.Core.Option
use tiny_proxy.Base.{
  ℕ, ◌+◌, ◌&&◌, ◌||◌, none, some, List, [], ◌∷◌, if◌then◌else◌, is_empty, head?, get_elem?,
}
use tiny_proxy.Base.Text.{
  Text, codes, text_eq, trim, starts_with, ends_with, split_whitespace,
  strip_prefix as strip_prefix_of, join, lines, parse_uint,
}
use tiny_proxy.Base.Result.{ok, err, ok_or, ◌>>=◌}
use tiny_proxy.Http.{Codec}
use tiny_proxy.Config.Address.{u16_bound}
use tiny_proxy.Config.Models.{
  Directive, reverse_proxy, uri_replace, header, strip_prefix, redirect, respond, Config,
}
use tiny_proxy.Config.Parser.{
  PendingBlock, State, block_state_missing, missing_value, invalid_status, unknown_directive,
  Parsed, initial,
}
use tiny_proxy.Config.Parser.Blocks.{open_block, close_block, push_last}
use tiny_proxy.Config.Parser.Settings.{auth_setting, proxy_setting, tls_line}
use tiny_proxy.Config.Sockets.{validate_listen_sockets}

-- `header -Name` removes, `header Name value` sets.
unfoldable pub header_of : List Text → Parsed Directive
header_of [] = err (missing_value (codes "name"))
header_of (raw_name ∷ rest) = elim (strip_prefix_of raw_name (codes "-")) [
  | some name ↦
      if is_empty name then err (missing_value (codes "header -")) else ok (header name none)
  | none ↦ do
    value ← ok_or (head? rest) (missing_value (codes "value"))
    ok (header raw_name (some value))
]

-- One argument is the URL, with status 301; of more the first is the status.
unfoldable pub redirect_of : List Text → Parsed Directive
redirect_of [] = err (missing_value (codes "url"))
redirect_of (url ∷ []) = ok (redirect 301 url)
redirect_of (status ∷ url ∷ more) = do
  code ← ok_or (parse_uint u16_bound status) (invalid_status status)
  ok (redirect code (join (codes " ") (url ∷ more)))

unfoldable pub respond_of : List Text → Parsed Directive
respond_of args = do
  code ←
      ok_or (elim (head? args) [ none ↦ none | some s ↦ parse_uint u16_bound s ])
        (invalid_status (codes "respond"))
  ok (respond code (Option.get_or (get_elem? args 1) []))

unfoldable pub uri_replace_of : List Text → Parsed Directive
uri_replace_of args = do
  find ← ok_or (head? args) (missing_value (codes "find"))
  by ← ok_or (get_elem? args 1) (missing_value (codes "replace"))
  ok (uri_replace find by)

-- "Regular directive parsing".
unfoldable pub directive_of : Text → List Text → ℕ → Parsed Directive
directive_of name args line =
    let proxy_line : Parsed Directive =
      (ok_or (head? args) (missing_value (codes "backend URL")) >>= λ to.
      ok (reverse_proxy to none none [])) in
    let strip_line : Parsed Directive =
      (ok_or (head? args) (missing_value (codes "prefix")) >>= λ p. ok (strip_prefix p)) in
    if text_eq name (codes "reverse_proxy")
    then proxy_line
    else if text_eq name (codes "uri_replace")
    then uri_replace_of args
    else if text_eq name (codes "header")
    then header_of args
    else if text_eq name (codes "respond")
    then respond_of args
    else if text_eq name (codes "strip_prefix")
    then strip_line
    else if text_eq name (codes "redirect")
    then redirect_of args
    else err (unknown_directive name line)

-- A line that is neither in a `forward_auth` nor in a `reverse_proxy` block.
unfoldable pub plain_line : Text → List Text → ℕ → State → Parsed State
plain_line name args line s =
    if text_eq name (codes "tls") && is_empty s.block_stack then tls_line args line s else do
      d ← directive_of name args line
      stack ← push_last d s.directive_stack
      ok (record s { directive_stack = stack })

-- A line with no brace, by the innermost open block.
unfoldable pub simple_line : List PendingBlock → Text → List Text → ℕ → State → Parsed State
simple_line [] name args line s = plain_line name args line s
simple_line (block ∷ blocks) name args line s =
    let auth_line : Parsed State = (do
      pending ← ok_or block.forward_auth block_state_missing
      p ← auth_setting name args line pending
      ok (record s { block_stack = record block { forward_auth = some p } ∷ blocks })) in
    let proxy_line : Parsed State = (do
      b ← proxy_setting name args line block
      ok (record s { block_stack = b ∷ blocks })) in
    if text_eq block.directive_type (codes "forward_auth")
    then auth_line
    else if text_eq block.directive_type (codes "reverse_proxy")
    then proxy_line
    else plain_line name args line s

unfoldable pub simple_words : List Text → ℕ → State → Parsed State
simple_words [] line s = ok s
simple_words (name ∷ args) line s = simple_line s.block_stack name args line s

-- One round of the loop, on a trimmed line.
unfoldable pub step_line : ⦃c : Codec⦄ → Text → ℕ → State → Parsed State
step_line line number s =
    if is_empty line || starts_with line (codes "#")
    then ok s
    else if ends_with line (codes "{")
    then ok (open_block (split_whitespace line) s)
    else if text_eq line (codes "}")
    then close_block s number
    else simple_words (split_whitespace line) number s

unfoldable pub run_lines : ⦃c : Codec⦄ → List Text → ℕ → State → Parsed State
run_lines [] number s = ok s
run_lines (raw ∷ raws) number s = do
  s' ← step_line (trim raw) (number + 1) s
  run_lines raws (number + 1) s'

-- `Config::from_str`.
unfoldable pub from_str : ⦃c : Codec⦄ → Text → Parsed Config
from_str content = do
  s ← run_lines (lines content) 0 initial
  checked ← validate_listen_sockets s.sites
  ok (record { sites = s.sites })
