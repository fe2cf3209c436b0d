-- ===== src/Base/Text/Words.antt =====
-- Texts that are made of words: what `split_whitespace`, `trim` and `lines` make of them.
use Prim.Native.Nat.{ℕ}
use mathlib.Core.Path.{◌≡◌, refl, sym, ap, ◌∙◌}
use mathlib.Core.Logic.{inl, inr}
use mathlib.Core.Bool.{Bool, true, false, not, ◌&&◌}
use mathlib.Core.Option.{Option, some}
use mathlib.Core.List.{
  List, [], ◌∷◌, ◌++◌, reverse, reverse-append, reverse-cons, reverse-reverse, append_assoc,
  append-nil,
}
use native.Mathlib.Omega.{arith}
use tiny_proxy.Base.Tests.{and_parts}
use tiny_proxy.Base.Lists.{all-append, all, head?, is_empty, List-cases}
use tiny_proxy.Base.Text.{
  Text, codes, is_whitespace, trim, trim_start, words_from, split_whitespace, flush, join,
}

abbrev pub is_solid : ℕ → Bool
is_solid c = not (is_whitespace c)

-- A word: not empty, and without white space.
unfoldable pub is_word : Text → Bool
is_word w = not (is_empty w) && all is_solid w

pub all-reverse : (p : ℕ → Bool) (s : Text) → all p (reverse s) ≡ all p s
all-reverse p [] = refl
all-reverse p (c ∷ s) =
    ap (all p) (reverse-cons c s)
    ∙ all-append p (reverse s) (c ∷ [])
    ∙ ground (arith, all-reverse p s)

pub word_parts : (w : Text) → is_word w ≡ true → (is_empty w ≡ false) × (all is_solid w ≡ true)
unfolding is_word
word_parts w h = ground arith

flush_word : (w : Text) (ws : List Text) → is_empty w ≡ false → flush (reverse w) ws ≡ w ∷ ws
flush_word w ws h = elim (List-cases (reverse w)) [
  | inl nothing ↦ cc (h, ap is_empty (sym (reverse-reverse w) ∙ ap reverse nothing))
  | inr (c, s, same) ↦ rw same (ap (λ x. x ∷ ws) (ap reverse (sym same) ∙ reverse-reverse w))
]

-- The word that is being read grows.
words_from-solid :
    (u w rest : Text)
    → all is_solid w ≡ true
    → words_from (reverse u) (w ++ rest) ≡ words_from (reverse (u ++ w)) rest
unfolding words_from
words_from-solid u [] rest h = ap (λ x. words_from (reverse x) rest) (sym (append-nil u))
words_from-solid u (c ∷ w) rest h =
    let (one, more) = and_parts (is_solid c) (all is_solid w) h in
    let solid : is_whitespace c ≡ false = ground arith in
    rw (solid, words_from)
      (ap (λ x. words_from x (w ++ rest)) (sym (reverse-append u (c ∷ [])))
        ∙ words_from-solid (u ++ c ∷ []) w rest more
        ∙ ap (λ x. words_from (reverse x) rest) (append_assoc u (c ∷ []) w))

-- Words with a space between each two are split again.
pub split_whitespace-join :
    (ws : List Text) → all is_word ws ≡ true → split_whitespace (join (codes " ") ws) ≡ ws
unfolding split_whitespace words_from join is_whitespace
split_whitespace-join [] h = refl
split_whitespace-join (w ∷ []) h =
    let (fit, _) = and_parts (is_word w) true h in
    let (full, solid) = word_parts w fit in
    ap (λ x. words_from [] x) (sym (append-nil w))
    ∙ words_from-solid [] w [] solid
    ∙ flush_word w [] full
split_whitespace-join (w ∷ v ∷ ws) h =
    let (fit, more) = and_parts (is_word w) (all is_word (v ∷ ws)) h in
    let (full, solid) = word_parts w fit in
    words_from-solid [] w (codes " " ++ join (codes " ") (v ∷ ws)) solid
    ∙ flush_word w (split_whitespace (join (codes " ") (v ∷ ws))) full
    ∙ ap (λ x. w ∷ x) (split_whitespace-join (v ∷ ws) more)

-- The last character of a text, if there is one.
abbrev pub last_of : Text → Option ℕ
last_of s = head? (reverse s)

pub last_of-append : (s t : Text) → is_empty t ≡ false → last_of (s ++ t) ≡ last_of t
last_of-append s t h = elim (List-cases (reverse t)) [
  | inl nothing ↦ cc (h, ap is_empty (sym (reverse-reverse t) ∙ ap reverse nothing))
  | inr (c, r, same) ↦ ap head? (reverse-append s t) ∙ rw same refl
]

pub last_of-all :
    (p : ℕ → Bool) (w : Text) (c : ℕ) → all p w ≡ true → last_of w ≡ some c → p c ≡ true
last_of-all p w c h e = elim (List-cases (reverse w)) [
  | inl nothing ↦ cc (ap head? nothing, e)
  | inr (d, r, same) ↦
      let every : all p (d ∷ r) ≡ true = ap (all p) (sym same) ∙ all-reverse p w ∙ h in
      let one : d ≡ c = cc (ap head? same, e) in
      ap p (sym one) ∙ (and_parts (p d) (all p r) every).0
]

-- The last word of a line.
abbrev pub last_word : List Text → Text
last_word [] = []
last_word (w ∷ []) = w
last_word (w ∷ v ∷ ws) = last_word (v ∷ ws)

pub join-not_empty :
    (w : Text) (ws : List Text) → is_word w ≡ true → is_empty (join (codes " ") (w ∷ ws)) ≡ false
unfolding join is_word
join-not_empty [] ws h = cc h
join-not_empty (c ∷ w) [] h = refl
join-not_empty (c ∷ w) (v ∷ ws) h = refl

pub last_of-join :
    (ws : List Text)
    → all is_word ws ≡ true
    → last_of (join (codes " ") ws) ≡ last_of (last_word ws)
unfolding join
last_of-join [] h = refl
last_of-join (w ∷ []) h = refl
last_of-join (w ∷ v ∷ ws) h =
    let (_, more) = and_parts (is_word w) (all is_word (v ∷ ws)) h in
    let (fit, _) = and_parts (is_word v) (all is_word ws) more in
    let full = join-not_empty v ws fit in
    last_of-append w (codes " " ++ join (codes " ") (v ∷ ws)) refl
    ∙ last_of-append (codes " ") (join (codes " ") (v ∷ ws)) full
    ∙ last_of-join (v ∷ ws) more

trim_start_solid : (c : ℕ) (s : Text) → is_solid c ≡ true → trim_start (c ∷ s) ≡ c ∷ s
unfolding trim_start
trim_start_solid c s h = ground arith

-- A text that begins and ends without white space is as `trim` leaves it.
pub trim_solid :
    (c : ℕ) (s : Text) (d : ℕ)
    → is_solid c ≡ true
    → last_of (c ∷ s) ≡ some d
    → is_solid d ≡ true
    → trim (c ∷ s) ≡ c ∷ s
unfolding trim
trim_solid c s d h e g = elim (List-cases (reverse (c ∷ s))) [
  | inl nothing ↦ cc (ap head? nothing, e)
  | inr (b, r, same) ↦
      let first : b ≡ d = cc (ap head? same, e) in
      ap (λ x. reverse (trim_start (reverse x))) (trim_start_solid c s h)
      ∙ ap (λ x. reverse (trim_start x)) same
      ∙ ap reverse (trim_start_solid b r (ap is_solid first ∙ g))
      ∙ ap reverse (sym same)
      ∙ reverse-reverse (c ∷ s)
]
