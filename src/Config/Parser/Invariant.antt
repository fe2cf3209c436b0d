-- ===== src/Config/Parser/Invariant.antt =====
-- The invariant of the parser's loop: the two stacks fit, and the sites have distinct keys, each
-- its own address.
use tiny_proxy.Base.{
  Bool, List, List-cases, Option-cases, [], arith, inl, inr, length, not, refl, suc, true, ℕ, ◌&&◌,
  ◌+◌, ◌==◌, ◌∷◌, ◌≡◌,
}
use tiny_proxy.Base.Result.{Result-cases, err, ok}
use tiny_proxy.Base.Text.{Text, split_whitespace, text_eq, trim}
use tiny_proxy.Base.Text.Eq.{text_eq_refl}
use tiny_proxy.Config.Models.{Directive, Directives, SiteConfig, push}
use tiny_proxy.Config.Parser.{Parsed, PendingBlock, State, has_key}
use tiny_proxy.Config.Parser.Blocks.{
  close_block, close_nested, close_site, close_stack, open_block, push_last,
}
use tiny_proxy.Config.Parser.Lines.{
  directive_of, plain_line, run_lines, simple_line, simple_words, step_line,
}
use tiny_proxy.Config.Parser.Posts.{
  is_panic, panics-auth_setting, panics-complete_block, panics-directive_of, panics-proxy_setting,
}
use tiny_proxy.Config.Parser.Settings.{tls_line}
use tiny_proxy.Http.{Codec}

unfoldable pub keyed : List (Text × SiteConfig) → Bool
keyed [] = true
keyed ((k, s) ∷ sites) = text_eq s.address k && not (has_key k sites) && keyed sites

unfoldable pub well_formed : State → Bool
well_formed s = (length s.directive_stack == length s.block_stack + 1) && keyed s.sites

-- A step keeps the invariant, or ends with an error that is not a failed `expect`.
unfoldable pub kept : Parsed State → Bool
kept (ok s) = well_formed s
kept (err e) = not (is_panic e)

push_last_fine :
    (d : Directive) (stack : List Directives) (n : ℕ)
    → length stack ≡ suc n
    → (stack' : List Directives) × (push_last d stack ≡ ok stack') × (length stack' ≡ suc n)
unfolding push_last
push_last_fine d [] n e = absurd (omega (arith, e))
push_last_fine d (ds ∷ stack) n e = (push ds d ∷ stack, refl, e)

open_block-kept :
    (words : List Text) (s : State) → well_formed s ≡ true → well_formed (open_block words s) ≡ true
unfolding open_block well_formed
open_block-kept [] s h = h
open_block-kept (name ∷ rest) s h = ground arith

close_site-kept : (s : State) → well_formed s ≡ true → kept (close_site s) ≡ true
unfolding close_site kept well_formed keyed
close_site-kept s h = elim (Option-cases s.current_site_address) [
  | inl outside ↦ ground arith
  | inr (address, inside) ↦ ground (arith, text_eq_refl address)
]

plain_line-kept :
    (name : Text) (args : List Text) (line : ℕ) (s : State)
    → well_formed s ≡ true
    → kept (plain_line name args line s) ≡ true
unfolding plain_line kept well_formed push_last tls_line
plain_line-kept name args line s h = elim (Result-cases (directive_of name args line)) [
  | inl (d, e) ↦ ground arith
  | inr (x, e) ↦ ground (arith, panics-directive_of name args line)
]

simple_line-kept :
    (blocks : List PendingBlock) (name : Text) (args : List Text) (line : ℕ) (s : State)
    → s.block_stack ≡ blocks
    → well_formed s ≡ true
    → kept (simple_line blocks name args line s) ≡ true
unfolding simple_line kept well_formed
simple_line-kept [] name args line s same h = plain_line-kept name args line s h
simple_line-kept (block ∷ blocks) name args line s same h = elim (Option-cases block.forward_auth) [
  | inl missing ↦
      ground (arith, panics-proxy_setting name args line block, plain_line-kept name args line s h)
  | inr (p, present) ↦ ground (
    arith,
    panics-auth_setting name args line p,
    panics-proxy_setting name args line block,
    plain_line-kept name args line s h,
  )
]

module _ ⦃c : Codec⦄ where
  close_nested-kept :
      (finished parent : Directives) (parents : List Directives) (s : State) (line : ℕ)
      → s.directive_stack ≡ finished ∷ parent ∷ parents
      → well_formed s ≡ true
      → kept (close_nested finished (parent ∷ parents) s line) ≡ true
  unfolding close_nested kept well_formed push_last
  close_nested-kept finished parent parents s line same h = elim (List-cases s.block_stack) [
    | inl none_open ↦ ground arith
    | inr (b, blocks, open_blocks) ↦ ground (arith, panics-complete_block b finished line)
  ]

  close_stack-kept :
      (stack : List Directives) (s : State) (line : ℕ)
      → s.directive_stack ≡ stack
      → well_formed s ≡ true
      → kept (close_stack stack s line) ≡ true
  unfolding close_stack
  close_stack-kept [] s line same h = close_site-kept s h
  close_stack-kept (finished ∷ []) s line same h = close_site-kept s h
  close_stack-kept (finished ∷ parent ∷ parents) s line same h =
      close_nested-kept finished parent parents s line same h

  simple_words-kept :
      (words : List Text) (line : ℕ) (s : State)
      → well_formed s ≡ true
      → kept (simple_words words line s) ≡ true
  unfolding simple_words kept
  simple_words-kept [] line s h = h
  simple_words-kept (name ∷ args) line s h = simple_line-kept s.block_stack name args line s refl h

  -- One round of the loop keeps the invariant: the stack of directives is one longer than the stack
  -- of blocks, and the sites have distinct keys, each its own address. Otherwise it ends with an
  -- error, which is not a failed `expect`.
  pub step_line-kept :
      (text : Text) (number : ℕ) (s : State)
      → well_formed s ≡ true
      → kept (step_line text number s) ≡ true
  unfolding step_line kept close_block
  step_line-kept text number s h = ground (
    arith,
    open_block-kept (split_whitespace text) s h,
    close_stack-kept s.directive_stack s number refl h,
    simple_words-kept (split_whitespace text) number s h,
  )

  pub run_lines-kept :
      (raws : List Text) (number : ℕ) (s : State)
      → well_formed s ≡ true
      → kept (run_lines raws number s) ≡ true
  unfolding run_lines kept
  run_lines-kept [] number s h = h
  run_lines-kept (raw ∷ raws) number s h =
      elim (Result-cases (step_line (trim raw) (number + 1) s)) [
        | inr (x, e) ↦ ground (arith, step_line-kept (trim raw) (number + 1) s h)
        | inl (s', e) ↦
            ground (
              arith,
              step_line-kept (trim raw) (number + 1) s h,
              run_lines-kept raws (number + 1) s',
            )
      ]
