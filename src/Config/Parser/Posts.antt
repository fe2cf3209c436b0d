-- ===== src/Config/Parser/Posts.antt =====
-- Failed calls of `expect`, in the steps that work on one line without the state.
use tiny_proxy.Base.{Bool, List, [], arith, false, inl, inr, refl, true, ℕ, ◌∷◌, ◌≡◌}
use tiny_proxy.Base.Result.{Result-cases, collect, err, map_err, ok}
use tiny_proxy.Base.Text.{Text}
use tiny_proxy.Config.Duration.{parse_duration}
use tiny_proxy.Config.Models.{Directives}
use tiny_proxy.Config.Parser.{
  ForwardAuthBlock, ParseError, Parsed, PendingBlock, State, invalid_timeout, panic,
}
use tiny_proxy.Config.Parser.Blocks.{build_forward_auth, complete_block, parse_headers}
use tiny_proxy.Config.Parser.Lines.{
  directive_of, header_of, redirect_of, respond_of, uri_replace_of,
}
use tiny_proxy.Config.Parser.Settings.{
  auth_setting, failure_mode_of, header_up_of, proxy_setting, tls_line,
}
use tiny_proxy.Http.{Codec}

abbrev pub is_panic : ParseError → Bool
is_panic (panic m) = true
is_panic _ = false

abbrev pub panics : {A : Type 0} → Parsed A → Bool
panics (ok a) = false
panics (err e) = is_panic e

pub panics-failure_mode_of : (raw : Text) (line : ℕ) → panics (failure_mode_of raw line) ≡ false
unfolding failure_mode_of
panics-failure_mode_of raw line = ground arith

timeout_fine :
    (raw what : Text) (line : ℕ)
    → panics (map_err (invalid_timeout what line) (parse_duration raw)) ≡ false
timeout_fine raw what line = elim (Result-cases (parse_duration raw)) [
  | inl (n, e) ↦ rw e
  | inr (x, e) ↦ rw e
]

pub panics-header_up_of : (args : List Text) (line : ℕ) → panics (header_up_of args line) ≡ false
unfolding header_up_of
panics-header_up_of [] line = refl
panics-header_up_of (raw ∷ rest) line = ground arith

pub panics-tls_line :
    (args : List Text) (line : ℕ) (s : State) → panics (tls_line args line s) ≡ false
unfolding tls_line
panics-tls_line args line s = ground arith

pub panics-auth_setting :
    (name : Text) (args : List Text) (line : ℕ) (p : ForwardAuthBlock)
    → panics (auth_setting name args line p) ≡ false
unfolding auth_setting failure_mode_of
panics-auth_setting name args line p = ground arith

pub panics-proxy_setting :
    (name : Text) (args : List Text) (line : ℕ) (b : PendingBlock)
    → panics (proxy_setting name args line b) ≡ false
unfolding proxy_setting
panics-proxy_setting name args line b = ground (arith, panics-header_up_of args line)

pub panics-directive_of :
    (name : Text) (args : List Text) (line : ℕ) → panics (directive_of name args line) ≡ false
unfolding directive_of header_of redirect_of respond_of uri_replace_of
panics-directive_of name [] line = ground arith
panics-directive_of name (a ∷ []) line = ground arith
panics-directive_of name (a ∷ b ∷ args) line = ground arith

module _ ⦃c : Codec⦄ where
  panics-parse_headers :
      (names : List Text) (what : Text) (line : ℕ) → panics (parse_headers names what line) ≡ false
  unfolding parse_headers collect
  panics-parse_headers [] what line = refl
  panics-parse_headers (n ∷ names) what line = ground (arith, panics-parse_headers names what line)

  panics-build_forward_auth :
      (p : ForwardAuthBlock) (line : ℕ) → panics (build_forward_auth p line) ≡ false
  unfolding build_forward_auth
  panics-build_forward_auth p line = grind (arith, panics-parse_headers)

  pub panics-complete_block :
      (b : PendingBlock) (finished : Directives) (line : ℕ)
      → panics (complete_block b finished line) ≡ false
  unfolding complete_block
  panics-complete_block b finished line = grind (arith, panics-build_forward_auth)
