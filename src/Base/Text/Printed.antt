-- ===== src/Base/Text/Printed.antt =====
-- Lines of words, one below the other: what the methods of `str` that read a file make of them.
use Prim.Native.Nat.{ℕ}
use mathlib.Core.Path.{◌≡◌, refl, sym, ap, ◌∙◌}
use mathlib.Core.Logic.{inl, inr}
use mathlib.Core.Bool.{Bool, true, false, not, ◌&&◌}
use mathlib.Core.Option.{some}
use mathlib.Core.List.{
  List, [], ◌∷◌, ◌++◌, reverse, reverse-append, reverse-reverse, append_assoc, append-nil,
}
use native.Mathlib.Omega.{arith}
use tiny_proxy.Base.Tests.{and_parts, ◌==◌}
use tiny_proxy.Base.Lists.{all-append, all, head?, is_empty, List-cases}
use tiny_proxy.Base.Text.{
  Text, codes, is_whitespace, trim, end_line, lines_from, lines, join, strip_prefix, strip_suffix,
  ends_with,
}
use tiny_proxy.Base.Text.Words.{
  is_solid, is_word, word_parts, all-reverse, last_of, last_word, last_of-all, last_of-join,
  trim_solid,
}

-- Whether a line ends with a brace, by its last character.
pub ends_with_brace :
    (s : Text) (d : ℕ) → last_of s ≡ some d → ends_with s (codes "{") ≡ (d == b'{')
unfolding strip_suffix strip_prefix
ends_with_brace s d e = elim (List-cases (reverse s)) [
  | inl nothing ↦ cc (ap head? nothing, e)
  | inr (b, r, same) ↦ let first : b ≡ d = cc (ap head? same, e) in rw same (ground (arith, first))
]

last_word-word :
    (w : Text) (ws : List Text) → all is_word (w ∷ ws) ≡ true → is_word (last_word (w ∷ ws)) ≡ true
last_word-word w [] h = ground arith
last_word-word w (v ∷ ws) h =
    let (_, more) = and_parts (is_word w) (all is_word (v ∷ ws)) h in last_word-word v ws more

word_last : (w : Text) → is_word w ≡ true → (d : ℕ) × (last_of w ≡ some d) × (is_solid d ≡ true)
word_last w h =
    let (full, solid) = word_parts w h in
    elim (List-cases (reverse w)) [
      | inl nothing ↦ cc (full, ap is_empty (sym (reverse-reverse w) ∙ ap reverse nothing))
      | inr (d, r, same) ↦
          let e : last_of w ≡ some d = ap head? same in (d, e, last_of-all is_solid w d solid e)
    ]

join_first :
    (c : ℕ) (w : Text) (ws : List Text) → (s : Text) × (join (codes " ") ((c ∷ w) ∷ ws) ≡ c ∷ s)
unfolding join
join_first c w [] = (w, refl)
join_first c w (v ∷ ws) = (_, refl)

-- A line of words: its first and its last character, and that `trim` keeps it.
pub line_of_words :
    (c : ℕ) (w : Text) (ws : List Text)
    → all is_word ((c ∷ w) ∷ ws) ≡ true
    → ((s : Text) × (join (codes " ") ((c ∷ w) ∷ ws) ≡ c ∷ s))
      × ((d : ℕ) × (last_of (join (codes " ") ((c ∷ w) ∷ ws)) ≡ some d)
          × (last_of (last_word ((c ∷ w) ∷ ws)) ≡ some d))
      × (trim (join (codes " ") ((c ∷ w) ∷ ws)) ≡ join (codes " ") ((c ∷ w) ∷ ws))
unfolding is_word
line_of_words c w ws h =
    let (s, same) = join_first c w ws in
    let (d, e, solid) = word_last (last_word ((c ∷ w) ∷ ws)) (last_word-word (c ∷ w) ws h) in
    let last = last_of-join ((c ∷ w) ∷ ws) h ∙ e in
    let first : is_solid c ≡ true = ground (arith, h) in
    (
      (s, same),
      (d, last, e),
      ap trim same ∙ trim_solid c s d first (ap last_of (sym same) ∙ last) solid ∙ sym same,
    )

-- Characters that may stand in a line.
abbrev pub is_clean : ℕ → Bool
is_clean c = not (c == 0xa) && not (c == 0xd)

solid_clean : (c : ℕ) → is_solid c ≡ true → is_clean c ≡ true
unfolding is_whitespace
solid_clean c h = ground arith

word_clean : (w : Text) → all is_solid w ≡ true → all is_clean w ≡ true
word_clean [] h = refl
word_clean (c ∷ w) h =
    let (one, more) = and_parts (is_solid c) (all is_solid w) h in
    ground (arith, solid_clean c one, word_clean w more)

pub join-clean :
    (ws : List Text) → all is_word ws ≡ true → all is_clean (join (codes " ") ws) ≡ true
unfolding join
join-clean [] h = refl
join-clean (w ∷ []) h =
    let (fit, _) = and_parts (is_word w) true h in word_clean w (word_parts w fit).1
join-clean (w ∷ v ∷ ws) h =
    let (fit, more) = and_parts (is_word w) (all is_word (v ∷ ws)) h in
    all-append is_clean w (codes " " ++ join (codes " ") (v ∷ ws))
    ∙ ground (arith, word_clean w (word_parts w fit).1, join-clean (v ∷ ws) more)

-- Lines below each other, each with its end.
unfoldable pub unlines : List Text → Text
unlines [] = []
unlines (l ∷ ls) = l ++ (0xa ∷ unlines ls)

lines_step :
    (cur : Text) (c : ℕ) (s : Text)
    → (c == 0xa) ≡ false
    → lines_from cur (c ∷ s) ≡ lines_from (c ∷ cur) s
unfolding lines_from
lines_step [] c s h = rw (h, lines_from) refl
lines_step (d ∷ cur) c s h = rw (h, lines_from) refl

lines_end : (cur s : Text) → lines_from cur (0xa ∷ s) ≡ end_line cur ∷ lines_from [] s
unfolding lines_from
lines_end [] s = refl
lines_end (d ∷ cur) s = refl

lines_from-clean :
    (u l rest : Text)
    → all is_clean l ≡ true
    → lines_from (reverse u) (l ++ rest) ≡ lines_from (reverse (u ++ l)) rest
lines_from-clean u [] rest h = ap (λ x. lines_from (reverse x) rest) (sym (append-nil u))
lines_from-clean u (c ∷ l) rest h =
    let (one, more) = and_parts (is_clean c) (all is_clean l) h in
    lines_step (reverse u) c (l ++ rest) (ground arith)
    ∙ ap (λ x. lines_from x (l ++ rest)) (sym (reverse-append u (c ∷ [])))
    ∙ lines_from-clean (u ++ c ∷ []) l rest more
    ∙ ap (λ x. lines_from (reverse x) rest) (append_assoc u (c ∷ []) l)

end_line-clean : (l : Text) → all is_clean l ≡ true → end_line (reverse l) ≡ l
end_line-clean l h = elim (List-cases (reverse l)) [
  | inl nothing ↦ rw nothing (sym (ap reverse nothing) ∙ reverse-reverse l)
  | inr (c, r, same) ↦
      let clean : all is_clean (c ∷ r) ≡ true =
        ap (all is_clean) (sym same) ∙ all-reverse is_clean l ∙ h in
      let kept : (c == 0xd) ≡ false = ground arith in
      rw same (rw kept (ap reverse (sym same) ∙ reverse-reverse l))
]

-- The lines of a file are read again.
pub lines-unlines : (ls : List Text) → all (all is_clean) ls ≡ true → lines (unlines ls) ≡ ls
unfolding lines unlines lines_from
lines-unlines [] h = refl
lines-unlines (l ∷ ls) h =
    let (one, more) = and_parts (all is_clean l) (all (all is_clean) ls) h in
    lines_from-clean [] l (0xa ∷ unlines ls) one
    ∙ lines_end (reverse l) (unlines ls)
    ∙ ap (λ x. x ∷ lines (unlines ls)) (end_line-clean l one)
    ∙ ap (λ x. l ∷ x) (lines-unlines ls more)
