-- ===== src/Config/Parser/Typed.antt =====
-- Single lines of the text parser: the values that they set, and the Rust types of these.
pub mod Blocks
pub mod Loop
use tiny_proxy.Base.{All, List, Option, [], arith, inl, inr, none, some, ℕ, ◌<◌, ◌∷◌, ◌≡◌}
use tiny_proxy.Base.Result.{Gives, Gives-bind, Gives-ok_or, Result-cases, gives, ok, stops}
use tiny_proxy.Base.Text.{Text, parse_uint}
use tiny_proxy.Config.Address.{u16_bound, u64_bound}
use tiny_proxy.Config.Duration.{parse_duration}
use tiny_proxy.Config.Duration.Bounds.{parse_duration-lt, parse_uint-lt}
use tiny_proxy.Config.Models.{HeaderDirective}
use tiny_proxy.Config.Models.Ranges.{AllInRange, Below, InRange, SitesInRange}
use tiny_proxy.Config.Parser.{ForwardAuthBlock, ParseError, PendingBlock, State}
use tiny_proxy.Config.Parser.Lines.{
  directive_of, header_of, redirect_of, respond_of, uri_replace_of,
}
use tiny_proxy.Config.Parser.Settings.{auth_setting, failure_mode_of, proxy_setting}
use tiny_proxy.Http.{Codec}
use tiny_proxy.Proxy.ForwardAuth.{timeout}
-- The pending settings of a block.
use tiny_proxy.Base.{All, List, Option, [], arith, inl, inr, none, some, ℕ, ◌<◌, ◌∷◌, ◌≡◌}
use tiny_proxy.Base.Result.{Gives, Gives-bind, Gives-ok_or, Result-cases, gives, ok, stops}
use tiny_proxy.Base.Text.{Text, parse_uint}
use tiny_proxy.Config.Address.{u16_bound, u64_bound}
use tiny_proxy.Config.Duration.{parse_duration}
use tiny_proxy.Config.Duration.Bounds.{parse_duration-lt, parse_uint-lt}
use tiny_proxy.Config.Models.{HeaderDirective}
use tiny_proxy.Config.Models.Ranges.{AllInRange, Below, InRange, SitesInRange}
use tiny_proxy.Config.Parser.{ForwardAuthBlock, ParseError, PendingBlock, State}
use tiny_proxy.Config.Parser.Lines.{
  directive_of, header_of, redirect_of, respond_of, uri_replace_of,
}
use tiny_proxy.Config.Parser.Settings.{auth_setting, failure_mode_of, proxy_setting}
use tiny_proxy.Http.{Codec}

abbrev pub SettingsInRange : ForwardAuthBlock → Type 0
SettingsInRange p = Below u64_bound p.timeout

abbrev pub PendingInRange : Option ForwardAuthBlock → Type 0
PendingInRange none = Unit
PendingInRange (some p) = SettingsInRange p

abbrev pub BlockInRange : PendingBlock → Type 0
BlockInRange b =
    Below u64_bound b.connect_timeout
    × Below u64_bound b.read_timeout
    × PendingInRange b.forward_auth

status-lt : (s : Text) (v : ℕ) → parse_uint u16_bound s ≡ some v → v < u16_bound
status-lt s v e = parse_uint-lt u16_bound s v (omega arith) e

module _ ⦃c : Codec⦄ where
  -- What the loop has collected.
  abbrev pub StateInRange : State → Type 0
  StateInRange s =
      All AllInRange s.directive_stack × All BlockInRange s.block_stack × SitesInRange s.sites

  redirect_of-InRange : (args : List Text) → Gives InRange (redirect_of args)
  unfolding redirect_of InRange
  redirect_of-InRange [] = stops _
  redirect_of-InRange (url ∷ []) = gives _ (omega arith)
  redirect_of-InRange (status ∷ url ∷ more) =
      Gives-bind (Gives-ok_or (parse_uint u16_bound status) _ (status-lt status))
        λ code lt. gives _ lt

  respond_of-InRange : (args : List Text) → Gives InRange (respond_of args)
  unfolding respond_of InRange
  respond_of-InRange [] = stops _
  respond_of-InRange (status ∷ more) =
      Gives-bind (Gives-ok_or (parse_uint u16_bound status) _ (status-lt status))
        λ code lt. gives _ lt

  header_of-InRange : (args : List Text) → Gives InRange (header_of args)
  unfolding header_of InRange
  header_of-InRange [] = stops _
  header_of-InRange (raw_name ∷ rest) = grind (arith, gives, stops)

  uri_replace_of-InRange : (args : List Text) → Gives InRange (uri_replace_of args)
  unfolding uri_replace_of InRange
  uri_replace_of-InRange [] = stops _
  uri_replace_of-InRange (a ∷ args) = grind (arith, gives, stops)

  pub directive_of-InRange :
      (name : Text) (args : List Text) (line : ℕ) → Gives InRange (directive_of name args line)
  unfolding directive_of InRange
  directive_of-InRange name args line = grind (
    arith,
    gives,
    stops,
    uri_replace_of-InRange args,
    header_of-InRange args,
    respond_of-InRange args,
    redirect_of-InRange args,
  )

  auth_timeout_set :
      (p : ForwardAuthBlock) (n : ℕ)
      → n < u64_bound
      → Gives {E = ParseError} SettingsInRange (ok (record p { timeout = some n }))
  auth_timeout_set p n lt = gives _ lt

  pub auth_setting-InRange :
      (name : Text) (args : List Text) (line : ℕ) (p : ForwardAuthBlock)
      → SettingsInRange p
      → Gives SettingsInRange (auth_setting name args line p)
  unfolding auth_setting failure_mode_of
  auth_setting-InRange name [] line p h = grind (arith, gives, stops)
  auth_setting-InRange name (raw ∷ args) line p h = elim (Result-cases (parse_duration raw)) [
    | inl (n, e) ↦ grind (arith, gives, stops, auth_timeout_set p n (parse_duration-lt raw n e))
    | inr (x, e) ↦ grind (arith, gives, stops)
  ]

  proxy_timeout_set :
      (b : PendingBlock) (n : ℕ)
      → BlockInRange b
      → n < u64_bound
      → Gives {E = ParseError} BlockInRange (ok (record b { connect_timeout = some n }))
        × Gives {E = ParseError} BlockInRange (ok (record b { read_timeout = some n }))
  proxy_timeout_set b n (dial, wait, auth) lt = (gives _ (lt, wait, auth), gives _ (dial, lt, auth))

  header_up_added :
      (b : PendingBlock) (ds : List HeaderDirective)
      → BlockInRange b
      → Gives {E = ParseError} BlockInRange (ok (record b { header_up = ds }))
  header_up_added b ds h = gives _ h

  pub proxy_setting-InRange :
      (name : Text) (args : List Text) (line : ℕ) (b : PendingBlock)
      → BlockInRange b
      → Gives BlockInRange (proxy_setting name args line b)
  unfolding proxy_setting
  proxy_setting-InRange name [] line b h = grind (arith, stops, header_up_added b)
  proxy_setting-InRange name (raw ∷ args) line b h = elim (Result-cases (parse_duration raw)) [
    | inl (n, e) ↦
        grind (arith, stops, header_up_added b, proxy_timeout_set b n h (parse_duration-lt raw n e))
    | inr (x, e) ↦ grind (arith, stops, header_up_added b)
  ]
