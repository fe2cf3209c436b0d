-- ===== src/Config/Parser/Typed/Loop.antt =====
-- The loop of the text parser keeps its values in the ranges of the Rust types.
use mathlib.Core.Path.{subst}
use tiny_proxy.Base.{
  All, Bool-cases, List, List-cases, Option-cases, [], get_elem?, head?, inl, inr, is_empty,
  is_some, length, not, ℕ, ◌&&◌, ◌+◌, ◌==◌, ◌||◌, ◌∷◌, ◌≡◌,
}
use tiny_proxy.Base.Result.{
  Gives, Gives-bind, Gives-elim, Gives-if, Gives-intro, Gives-ok_or, gives, ok, stops,
}
use tiny_proxy.Base.Text.{
  Text, codes, ends_with, lines, split_whitespace, starts_with, text_eq, trim,
}
use tiny_proxy.Config.Models.{Config, Directive, Directives}
use tiny_proxy.Config.Models.Ranges.{AllInRange, InRange, SitesInRange, push-AllInRange}
use tiny_proxy.Config.Parser.{PendingBlock, State, has_key, initial}
use tiny_proxy.Config.Parser.Blocks.{
  close_block, close_nested, close_site, close_stack, open_block, push_last,
}
use tiny_proxy.Config.Parser.Grammar.Steps.{inside}
use tiny_proxy.Config.Parser.Lines.{
  from_str, plain_line, run_lines, simple_line, simple_words, step_line,
}
use tiny_proxy.Config.Parser.Settings.{tls_line}
use tiny_proxy.Config.Parser.Typed.{
  BlockInRange, PendingInRange, SettingsInRange, StateInRange, auth_setting-InRange,
  directive_of-InRange, proxy_setting-InRange,
}
use tiny_proxy.Config.Parser.Typed.Blocks.{complete_block-InRange}
use tiny_proxy.Config.Sockets.{validate_listen_sockets}
use tiny_proxy.Http.{Codec}

module _ ⦃c : Codec⦄ where
  push_last-InRange :
      (d : Directive) (stack : List Directives)
      → InRange d
      → All AllInRange stack
      → Gives (All AllInRange) (push_last d stack)
  unfolding push_last
  push_last-InRange d [] p h = stops _
  push_last-InRange d (ds ∷ stack) p (q, h) = gives _ (push-AllInRange ds d q p, h)

  open_block-InRange :
      (words : List Text) (s : State) → StateInRange s → StateInRange (open_block words s)
  unfolding open_block AllInRange
  open_block-InRange [] s h = h
  open_block-InRange (name ∷ rest) s (stack, blocks, sites) =
      elim (Bool-cases (length s.directive_stack == 1 && not (is_some s.current_site_address))) [
        | inl site ↦ rw site (stack, blocks, sites)
        | inr nested ↦ elim (Bool-cases (text_eq name (codes "forward_auth"))) [
          | inl auth ↦ rw (nested, auth) ((tt, stack), ((tt, tt, tt), blocks), sites)
          | inr other ↦ rw (nested, other) ((tt, stack), ((tt, tt, tt), blocks), sites)
        ]
      ]

  close_nested-InRange :
      (ds : Directives) (parents : List Directives) (s : State) (line : ℕ)
      → AllInRange ds
      → All AllInRange parents
      → StateInRange s
      → Gives StateInRange (close_nested ds parents s line)
  unfolding close_nested
  close_nested-InRange ds parents s line p q (stack, blocks, sites) =
      elim (List-cases s.block_stack) [
        | inl none_open ↦ rw none_open (stops _)
        | inr (b, rest, open_blocks) ↦
            let (h, hs) : All BlockInRange (b ∷ rest) =
              subst (All BlockInRange) open_blocks blocks in
            rw open_blocks (
              Gives-bind (complete_block-InRange b ds line h p) λ d fine.
                Gives-bind (push_last-InRange d parents fine q)
                  λ stack' good. gives _ (good, hs, sites))
      ]

  close_site-InRange : (s : State) → StateInRange s → Gives StateInRange (close_site s)
  unfolding close_site AllInRange
  close_site-InRange s (stack, blocks, sites) = elim (Option-cases s.current_site_address) [
    | inl outside ↦ rw outside (gives _ (stack, blocks, sites))
    | inr (address, inside) ↦ elim (List-cases s.directive_stack) [
      | inl nothing ↦ rw (inside, nothing) (stops _)
      | inr (ds, rest, same) ↦
          let (h, hs) : All AllInRange (ds ∷ rest) = subst (All AllInRange) same stack in
          rw (inside, same)
            (Gives-if (has_key address s.sites) (stops _) (gives _ ((tt, hs), blocks, (h, sites))))
    ]
  ]

  close_stack-InRange :
      (stack : List Directives) (s : State) (line : ℕ)
      → All AllInRange stack
      → StateInRange s
      → Gives StateInRange (close_stack stack s line)
  unfolding close_stack
  close_stack-InRange [] s line h fine = close_site-InRange s fine
  close_stack-InRange (ds ∷ []) s line h fine = close_site-InRange s fine
  close_stack-InRange (ds ∷ parent ∷ parents) s line (p, q) fine =
      close_nested-InRange ds (parent ∷ parents) s line p q fine

  tls_line-InRange :
      (args : List Text) (line : ℕ) (s : State)
      → StateInRange s
      → Gives StateInRange (tls_line args line s)
  unfolding tls_line
  tls_line-InRange args line s h =
      Gives-bind (Gives-ok_or {P = λ x. Unit {0}} (head? args) _ (λ a e. tt)) λ cert _.
        Gives-bind (Gives-ok_or {P = λ x. Unit {0}} (get_elem? args 1) _ (λ a e. tt))
          λ key _. Gives-if (is_some s.current_site_tls) (stops _) (gives _ h)

  plain_line-InRange :
      (name : Text) (args : List Text) (line : ℕ) (s : State)
      → StateInRange s
      → Gives StateInRange (plain_line name args line s)
  unfolding plain_line
  plain_line-InRange name args line s (stack, blocks, sites) =
      Gives-if (text_eq name (codes "tls") && is_empty s.block_stack)
        (tls_line-InRange args line s (stack, blocks, sites))
        (Gives-bind (directive_of-InRange name args line) λ d fine.
          Gives-bind (push_last-InRange d s.directive_stack fine stack)
            λ stack' good. gives _ (good, blocks, sites))

  simple_line-InRange :
      (blocks : List PendingBlock) (name : Text) (args : List Text) (line : ℕ) (s : State)
      → All BlockInRange blocks
      → StateInRange s
      → Gives StateInRange (simple_line blocks name args line s)
  unfolding simple_line
  simple_line-InRange [] name args line s h fine = plain_line-InRange name args line s fine
  simple_line-InRange (b ∷ blocks) name args line s ((dial, wait, auth), h)
        (stack, open_blocks, sites) =
      Gives-if (text_eq b.directive_type (codes "forward_auth"))
        (Gives-bind
          (Gives-ok_or {P = SettingsInRange} b.forward_auth _ (λ p e. subst PendingInRange e auth))
          λ p good.
            Gives-bind (auth_setting-InRange name args line p good)
              λ q better. gives _ (stack, ((dial, wait, better), h), sites))
        (Gives-if (text_eq b.directive_type (codes "reverse_proxy"))
          (Gives-bind (proxy_setting-InRange name args line b (dial, wait, auth))
            λ b' good. gives _ (stack, (good, h), sites))
          (plain_line-InRange name args line s (stack, open_blocks, sites)))

  simple_words-InRange :
      (words : List Text) (line : ℕ) (s : State)
      → StateInRange s
      → Gives StateInRange (simple_words words line s)
  unfolding simple_words
  simple_words-InRange [] line s h = gives s h
  simple_words-InRange (name ∷ args) line s (stack, blocks, sites) =
      simple_line-InRange s.block_stack name args line s blocks (stack, blocks, sites)

  step_line-InRange :
      (text : Text) (number : ℕ) (s : State)
      → StateInRange s
      → Gives StateInRange (step_line text number s)
  unfolding step_line close_block
  step_line-InRange text number s (stack, blocks, sites) =
      let h : StateInRange s = (stack, blocks, sites) in
      Gives-if (is_empty text || starts_with text (codes "#")) (gives s h) (
        Gives-if (ends_with text (codes "{"))
          (gives _ (open_block-InRange (split_whitespace text) s h))
          (Gives-if (text_eq text (codes "}"))
            (close_stack-InRange s.directive_stack s number stack h)
            (simple_words-InRange (split_whitespace text) number s h)))

  run_lines-InRange :
      (raws : List Text) (number : ℕ) (s : State)
      → StateInRange s
      → Gives StateInRange (run_lines raws number s)
  unfolding run_lines
  run_lines-InRange [] number s h = gives s h
  run_lines-InRange (raw ∷ raws) number s h =
      Gives-bind (step_line-InRange (trim raw) (number + 1) s h)
        λ s' fine. run_lines-InRange raws (number + 1) s' fine

  -- Each configuration that is parsed from a text has values in the ranges of the Rust types, in
  -- blocks at any depth: the status codes of `redirect` and `respond` are below 2^16, all timeouts
  -- are below 2^64, the endpoint of each `forward_auth` is a URI with the scheme `http` or `https`,
  -- an authority and a path, and its header names are the default ones or were converted.
  pub from_str-InRange :
      (content : Text) (config : Config) → from_str content ≡ ok config → SitesInRange config.sites
  unfolding from_str AllInRange
  from_str-InRange content config e =
      let run : Gives StateInRange (run_lines (lines content) 0 initial) =
        run_lines-InRange (lines content) 0 initial ((tt, tt), tt, tt) in
      let sound : Gives (λ (made : Config). SitesInRange made.sites) (from_str content) =
        Gives-bind run λ s (stack, blocks, sites).
          Gives-bind (Gives-intro {P = λ x. Unit {0}} (validate_listen_sockets s.sites) (λ a e. tt))
            λ checked _. gives _ sites in
      Gives-elim sound e
