-- ===== src/Base/Text/Eq.antt =====
-- Equality, prefixes and suffixes of texts, as the proofs use them.
use mathlib.Core.Path.{◌≡◌, refl, sym, ap, ap₂, ◌∙◌}
use mathlib.Core.Logic.{◌↔◌, ◌⊎◌, inl, inr}
use mathlib.Core.Bool.{true, false}
use mathlib.Core.List.{[], ◌∷◌, ◌++◌, reverse, reverse-reverse, reverse-append}
use mathlib.Core.Option
use mathlib.Core.Option.{Option, none, some}
use native.Mathlib.Omega.{arith}
use tiny_proxy.Base.Text.{Text, text_eq, strip_prefix, strip_suffix, find_split, split_once}
use tiny_proxy.Base.Tests.{Option-cases, Bool-cases, ◌==◌, ==_iff}
use Prim.Native.Nat.{ℕ}

pub text_eq_iff : (s t : Text) → (text_eq s t ≡ true) ↔ (s ≡ t)
unfolding text_eq
text_eq_iff [] [] = ground arith
text_eq_iff (c ∷ s) (d ∷ t) = ground (arith, text_eq_iff s t)
text_eq_iff _ _ = ground arith

pub text_eq_refl : (s : Text) → text_eq s s ≡ true
text_eq_refl s = (text_eq_iff s s).1 refl

pub text_eq_sym : (s t : Text) → text_eq s t ≡ text_eq t s
text_eq_sym s t = ground (arith, text_eq_iff s t, text_eq_iff t s)

pub strip_prefix_iff : (s p r : Text) → (strip_prefix s p ≡ some r) ↔ (s ≡ p ++ r)
unfolding strip_prefix
strip_prefix_iff s [] r = ground arith
strip_prefix_iff [] (d ∷ p) r = ground arith
strip_prefix_iff (c ∷ s) (d ∷ p) r = ground (arith, strip_prefix_iff s p r)

pub strip_prefix_append : (p r : Text) → strip_prefix (p ++ r) p ≡ some r
strip_prefix_append p r = (strip_prefix_iff (p ++ r) p r).1 refl

pub strip_suffix_append : (r p : Text) → strip_suffix (r ++ p) p ≡ some r
unfolding strip_suffix
strip_suffix_append r p =
    rw (reverse-append r p) (rw (strip_prefix_append (reverse p) (reverse r)) (rw reverse-reverse))

map-eq-some :
    {A B : Type 0} (f : A → B) (o : Option A) {b : B}
    → Option.map f o ≡ some b
    → (a : A) × (o ≡ some a) × (f a ≡ b)
map-eq-some f (some a) e = (a, refl, cc)
map-eq-some f none e = cc

pub strip_suffix_eq : (s p r : Text) → strip_suffix s p ≡ some r → s ≡ r ++ p
unfolding strip_suffix
strip_suffix_eq s p r e =
    let (a, e₁, e₂) = map-eq-some reverse (strip_prefix (reverse s) (reverse p)) e in
    let split = (strip_prefix_iff (reverse s) (reverse p) a).0 e₁ in
    sym (reverse-reverse s)
    ∙ ap reverse split
    ∙ reverse-append (reverse p) a
    ∙ ap₂ ◌++◌ e₂ (reverse-reverse p)

-- A text equals at most one of two that differ.
pub text_eq_exclusive :
    (k j n : Text) → text_eq k j ≡ false → (text_eq k n ≡ false) ⊎ (text_eq j n ≡ false)
text_eq_exclusive k j n e = ground (arith, text_eq_iff k n, text_eq_iff j n, text_eq_iff k j)

-- A split at the first occurrence puts the text together again.
pub find_split_eq : (s p x y : Text) → find_split s p ≡ some (x, y) → s ≡ x ++ (p ++ y)
unfolding find_split
find_split_eq [] [] x y e = ground arith
find_split_eq [] (d ∷ p) x y e = cc
find_split_eq (c ∷ s) p x y e = elim (Option-cases (strip_prefix (c ∷ s) p)) [
  | inr (r, here) ↦ ground (arith, strip_prefix_iff (c ∷ s) p r)
  | inl later ↦
      let ((h, t), found, same) = map-eq-some _ (find_split s p) (rw (later, find_split) at e) in
      ground (arith, find_split_eq s p h t found)
]

pub split_once_eq : (d : ℕ) (s x y : Text) → split_once d s ≡ some (x, y) → s ≡ x ++ (d ∷ y)
unfolding split_once
split_once_eq d [] x y e = cc
split_once_eq d (c ∷ s) x y e = elim (Bool-cases (c == d)) [
  | inl here ↦ ground (arith, ==_iff c d)
  | inr later ↦
      let ((h, t), found, same) = map-eq-some _ (split_once d s) (rw (later, split_once) at e) in
      ground (arith, split_once_eq d s h t found)
]
