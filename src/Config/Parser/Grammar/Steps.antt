-- ===== src/Config/Parser/Grammar/Steps.antt =====
-- Single lines and blocks that the rules derive, as the loop of the parser reads them.
use mathlib.Core.List.{append_assoc}
use tiny_proxy.Base.{
  Bool-cases, List, Option, [], ap, arith, inl, inr, length, length-append, refl, some, suc, ℕ,
  ◌++◌, ◌+◌, ◌==◌, ◌∙◌, ◌∷◌, ◌≡◌,
}
use tiny_proxy.Base.Result.{ok}
use tiny_proxy.Base.Text.{Text, strip_prefix as strip_prefix_of, strip_suffix, text_eq}
use tiny_proxy.Config.Models.{Directive, Directives, SiteConfig, TlsConfig, cons, nil, push}
use tiny_proxy.Config.Parser.{PendingBlock, State}
use tiny_proxy.Config.Parser.Blocks.{
  close_block, close_nested, close_stack, complete_block, filter_not_brace, open_block, push_last,
}
use tiny_proxy.Config.Parser.Grammar.{
  Blank, ClosesBlock, HasWords, NoBrace, OpensBlock, brace, opened,
}
use tiny_proxy.Config.Parser.Lines.{run_lines, simple_words, step_line}
use tiny_proxy.Http.{Codec}

-- The state inside a site.
abbrev pub inside :
    List (Text × SiteConfig) → Text → Option TlsConfig → List Directives → List PendingBlock → State
inside sites address tls stack blocks = record {
  sites = sites;
  current_site_address = some address;
  current_site_tls = tls;
  directive_stack = stack;
  block_stack = blocks;
}

-- A list of directives behind another one.
unfoldable pub behind : Directives → Directives → Directives
behind nil es = es
behind (cons d ds) es = cons d (behind ds es)

pub behind-push :
    (fs : Directives) (d : Directive) (ds : Directives)
    → behind (push fs d) ds ≡ behind fs (cons d ds)
unfolding behind push
behind-push nil d ds = refl
behind-push (cons a fs) d ds = ap (cons a) (behind-push fs d ds)

pub behind-nil : (fs : Directives) → behind fs nil ≡ fs
unfolding behind
behind-nil nil = refl
behind-nil (cons a fs) = ap (cons a) (behind-nil fs)

pub filter_not_brace-NoBrace : (ws : List Text) → NoBrace ws → filter_not_brace (ws ++ brace) ≡ ws
unfolding filter_not_brace text_eq
filter_not_brace-NoBrace [] h = refl
filter_not_brace-NoBrace (w ∷ ws) (e, h) = rw e (ap (λ x. w ∷ x) (filter_not_brace-NoBrace ws h))

module _ ⦃c : Codec⦄ where
  pub run-Blank :
      (l : Text) (ls : List Text) (n : ℕ) (s : State)
      → Blank l
      → run_lines (l ∷ ls) n s ≡ run_lines ls (n + 1) s
  unfolding run_lines step_line
  run-Blank l ls n s e = rw e refl

  pub run_words :
      (l : Text) (ws ls : List Text) (n : ℕ) (s next : State)
      → HasWords l ws
      → simple_words ws (n + 1) s ≡ ok next
      → run_lines (l ∷ ls) n s ≡ run_lines ls (n + 1) next
  unfolding run_lines step_line
  run_words l ws ls n s next (says, no_open, no_close, words) e =
      rw (says, no_open, no_close, words, e, run_lines, step_line) refl

  pub run_opens :
      (l : Text) (ws ls : List Text) (n : ℕ) (s : State)
      → OpensBlock l ws
      → run_lines (l ∷ ls) n s ≡ run_lines ls (n + 1) (open_block ws s)
  unfolding run_lines step_line
  run_opens l ws ls n s (says, opens, words) = rw (says, opens, words, run_lines, step_line) refl

  pub run_closes :
      (l : Text) (ls : List Text) (n : ℕ) (s next : State)
      → ClosesBlock l
      → close_block s (n + 1) ≡ ok next
      → run_lines (l ∷ ls) n s ≡ run_lines ls (n + 1) next
  unfolding run_lines step_line strip_suffix strip_prefix_of text_eq
  run_closes l ls n s next closes e = rw (closes, e, run_lines, step_line) refl

  pub recount : (ls : List Text) (m n : ℕ) (s : State) → m ≡ n → run_lines ls m s ≡ run_lines ls n s
  recount ls m n s e = ap (λ k. run_lines ls k s) e

  pub open_inside :
      (name : Text) (rest args : List Text) (sites : List (Text × SiteConfig)) (address : Text)
      (tls : Option TlsConfig) (stack : List Directives) (blocks : List PendingBlock)
      → filter_not_brace rest ≡ args
      → open_block (name ∷ rest) (inside sites address tls stack blocks)
        ≡ inside sites address tls (nil ∷ stack) (opened name args ∷ blocks)
  unfolding open_block
  open_inside name rest args sites address tls stack blocks e =
      elim (Bool-cases (length stack == 1)) [
        | inl one ↦ rw one (rw e refl)
        | inr other ↦ rw other (rw e refl)
      ]

  close_inside :
      (b : PendingBlock) (collected top : Directives) (d : Directive)
      (sites : List (Text × SiteConfig)) (address : Text) (tls : Option TlsConfig)
      (stack : List Directives) (blocks : List PendingBlock) (n : ℕ)
      → complete_block b collected n ≡ ok d
      → close_block (inside sites address tls (collected ∷ top ∷ stack) (b ∷ blocks)) n
        ≡ ok (inside sites address tls (push top d ∷ stack) blocks)
  unfolding close_block close_stack close_nested push_last
  close_inside b collected top d sites address tls stack blocks n e =
      rw (e, close_block, close_stack, close_nested) refl

  -- A block: its first line, the lines inside, its last line, and the lines behind it.
  pub run_block :
      (n : ℕ) (name : Text) (rest args : List Text) (b : PendingBlock)
      (collected top ds : Directives) (d : Directive) (l r : Text) (ls rs more : List Text)
      (sites : List (Text × SiteConfig)) (address : Text) (tls : Option TlsConfig)
      (stack : List Directives) (blocks : List PendingBlock)
      → OpensBlock l (name ∷ rest)
      → filter_not_brace rest ≡ args
      → ((more : List Text)
          → run_lines
              (ls ++ more)
              (n + 1)
              (inside sites address tls (nil ∷ top ∷ stack) (opened name args ∷ blocks))
            ≡ run_lines more
                (n + 1 + length ls)
                (inside sites address tls (collected ∷ top ∷ stack) (b ∷ blocks)))
      → ClosesBlock r
      → complete_block b collected (n + 1 + length ls + 1) ≡ ok d
      → run_lines
          (rs ++ more)
          (n + 1 + length ls + 1)
          (inside sites address tls (push top d ∷ stack) blocks)
        ≡ run_lines more
            (n + 1 + length ls + 1 + length rs)
            (inside sites address tls (behind (push top d) ds ∷ stack) blocks)
      → run_lines (l ∷ (ls ++ r ∷ rs) ++ more) n (inside sites address tls (top ∷ stack) blocks)
        ≡ run_lines more
            (n + suc (length (ls ++ r ∷ rs)))
            (inside sites address tls (behind top (cons d ds) ∷ stack) blocks)
  run_block n name rest args b collected top ds d l r ls rs more sites address tls stack blocks
        opens words run_inside closes complete run_rest =
      run_opens l (name ∷ rest) ((ls ++ r ∷ rs) ++ more) n
        (inside sites address tls (top ∷ stack) blocks) opens
      ∙ ap (run_lines ((ls ++ r ∷ rs) ++ more) (n + 1))
          (open_inside name rest args sites address tls (top ∷ stack) blocks words)
      ∙ ap
          (λ x.
            run_lines x (n + 1)
              (inside sites address tls (nil ∷ top ∷ stack) (opened name args ∷ blocks)))
          (append_assoc ls (r ∷ rs) more)
      ∙ run_inside (r ∷ (rs ++ more))
      ∙ run_closes r (rs ++ more) (n + 1 + length ls)
          (inside sites address tls (collected ∷ top ∷ stack) (b ∷ blocks))
          (inside sites address tls (push top d ∷ stack) blocks) closes
          (close_inside b collected top d sites address tls stack blocks (n + 1 + length ls + 1)
            complete)
      ∙ run_rest
      ∙ recount more (n + 1 + length ls + 1 + length rs) (n + suc (length (ls ++ r ∷ rs)))
          (inside sites address tls (behind (push top d) ds ∷ stack) blocks)
          (omega (arith, length-append ls (r ∷ rs)))
      ∙ ap
          (λ x.
            run_lines more (n + suc (length (ls ++ r ∷ rs)))
              (inside sites address tls (x ∷ stack) blocks))
          (behind-push top d ds)
