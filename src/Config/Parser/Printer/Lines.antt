-- ===== src/Config/Parser/Printer/Lines.antt =====
-- What the parser finds on a printed line.
use tiny_proxy.Base.{
  ==_iff, List, Option-cases, [], all, and_parts, ap, arith, false, inl, inr, is_empty, refl, sym,
  true, ℕ, ◌++◌, ◌==◌, ◌||◌, ◌∙◌, ◌∷◌, ◌≡◌,
}
use tiny_proxy.Base.Text.{
  Text, codes, ends_with, is_whitespace, split_whitespace, starts_with,
  strip_prefix as strip_prefix_of, text_eq, trim, trim_start,
}
use tiny_proxy.Base.Text.Decimal.{is_digit, to_string, to_string-digits, to_string-not_empty}
use tiny_proxy.Base.Text.Printed.{ends_with_brace, line_of_words}
use tiny_proxy.Base.Text.Words.{
  is_solid, is_word, last_of, last_of-all, last_word, split_whitespace-join,
}
use tiny_proxy.Config.Parser.Grammar.{ClosesBlock, HasWords, OpensBlock, brace}
use tiny_proxy.Config.Parser.Printer.{close_line, is_head, is_plain, plain_end, print_line}

plain_parts : (w : Text) → is_plain w ≡ true → (is_word w ≡ true) × (plain_end (last_of w) ≡ true)
unfolding is_plain
plain_parts w h = and_parts (is_word w) (plain_end (last_of w)) h

pub words_of_plain : (ws : List Text) → all is_plain ws ≡ true → all is_word ws ≡ true
words_of_plain [] h = refl
words_of_plain (w ∷ ws) h =
    let (fit, more) = and_parts (is_plain w) (all is_plain ws) h in
    ground (arith, plain_parts w fit, words_of_plain ws more)

last_word_plain :
    (w : Text) (ws : List Text)
    → all is_plain (w ∷ ws) ≡ true
    → plain_end (last_of (last_word (w ∷ ws))) ≡ true
last_word_plain w [] h = let (fit, _) = and_parts (is_plain w) true h in (plain_parts w fit).1
last_word_plain w (v ∷ ws) h =
    let (_, more) = and_parts (is_plain w) (all is_plain (v ∷ ws)) h in last_word_plain v ws more

head_parts :
    (c : ℕ) (w : Text)
    → is_head (c ∷ w) ≡ true
    → (is_word (c ∷ w) ≡ true) × ((c == b'#') ≡ false) × ((c == b'}') ≡ false)
unfolding is_head
head_parts c w h = ground arith

last_word-brace : (w : Text) (ws : List Text) → last_word (w ∷ (ws ++ brace)) ≡ codes "{"
last_word-brace w [] = refl
last_word-brace w (v ∷ ws) = last_word-brace v ws

pub all_word-brace : (ws : List Text) → all is_word ws ≡ true → all is_word (ws ++ brace) ≡ true
unfolding is_word is_whitespace
all_word-brace [] h = refl
all_word-brace (w ∷ ws) h = ground (arith, all_word-brace ws)

-- What does not begin with `#` or `}` is no comment and no closing brace.
not_comment :
    (c : ℕ) (s t : Text)
    → t ≡ c ∷ s
    → (c == b'#') ≡ false
    → (is_empty t || starts_with t (codes "#")) ≡ false
unfolding strip_prefix_of
not_comment c s t e h = rw e (ground arith)

not_closing : (c : ℕ) (s t : Text) → t ≡ c ∷ s → (c == b'}') ≡ false → text_eq t (codes "}") ≡ false
unfolding text_eq
not_closing c s t e h = rw e (ground arith)

-- A line whose last word has no brace at its end says its words.
pub print_line-HasWords :
    (name : Text) (args : List Text)
    → is_head name ≡ true
    → all is_plain (name ∷ args) ≡ true
    → HasWords (print_line (name ∷ args)) (name ∷ args)
unfolding plain_end is_head
print_line-HasWords [] args h g = absurd (ground arith)
print_line-HasWords (c ∷ w) args h g =
    let (fit, comment, closing) = head_parts c w h in
    let words = words_of_plain ((c ∷ w) ∷ args) g in
    let ((s, begins), (d, last, named), trims) = line_of_words c w args words in
    let ends : (d == b'{') ≡ false =
      ground (arith, ap plain_end (sym named) ∙ last_word_plain (c ∷ w) args g) in
    (
      not_comment c s (trim (print_line ((c ∷ w) ∷ args))) (trims ∙ begins) comment,
      ap (λ x. ends_with x (codes "{")) trims
          ∙ ends_with_brace (print_line ((c ∷ w) ∷ args)) d last
          ∙ ends,
      not_closing c s (trim (print_line ((c ∷ w) ∷ args))) (trims ∙ begins) closing,
      ap split_whitespace trims ∙ split_whitespace-join ((c ∷ w) ∷ args) words,
    )

-- A line of words with a brace behind them opens a block.
pub print_line-OpensBlock :
    (name : Text) (args : List Text)
    → is_head name ≡ true
    → all is_word args ≡ true
    → OpensBlock (print_line (name ∷ (args ++ brace))) (name ∷ (args ++ brace))
unfolding is_head
print_line-OpensBlock [] args h g = absurd (ground arith)
print_line-OpensBlock (c ∷ w) args h g =
    let (fit, comment, closing) = head_parts c w h in
    let words : all is_word ((c ∷ w) ∷ (args ++ brace)) ≡ true =
      ground (arith, fit, all_word-brace args g) in
    let ((s, begins), (d, last, named), trims) = line_of_words c w (args ++ brace) words in
    let ends : d ≡ b'{' = cc (named, ap last_of (last_word-brace (c ∷ w) args)) in
    let whole = print_line ((c ∷ w) ∷ (args ++ brace)) in
    (
      not_comment c s (trim whole) (trims ∙ begins) comment,
      ap (λ x. ends_with x (codes "{")) trims
          ∙ ends_with_brace whole d last
          ∙ (==_iff d b'{').1 ends,
      ap split_whitespace trims ∙ split_whitespace-join ((c ∷ w) ∷ (args ++ brace)) words,
    )

pub close_line-ClosesBlock : ClosesBlock close_line
unfolding trim trim_start is_whitespace
close_line-ClosesBlock = refl

-- Numbers are words.
digits_solid : (s : Text) → all is_digit s ≡ true → all is_solid s ≡ true
unfolding is_whitespace
digits_solid [] h = refl
digits_solid (c ∷ s) h =
    let (one, more) = and_parts (is_digit c) (all is_digit s) h in
    ground (arith, digits_solid s more)

pub to_string-plain : (n : ℕ) → is_plain (to_string n) ≡ true
unfolding is_plain is_word plain_end
to_string-plain n =
    let solid = digits_solid (to_string n) (to_string-digits n) in
    let ends : plain_end (last_of (to_string n)) ≡ true =
      elim (Option-cases (last_of (to_string n))) [
        | inl nothing ↦ rw nothing refl
        | inr (d, e) ↦
            let digit : is_digit d ≡ true =
              last_of-all is_digit (to_string n) d (to_string-digits n) e in
            ap plain_end e ∙ ground arith
      ] in
    ground (arith, to_string-not_empty n)
