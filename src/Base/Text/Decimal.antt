-- ===== src/Base/Text/Decimal.antt =====
-- `to_string` of an unsigned integer, and what `parse` makes of it.
use Prim.Native.Nat.{ℕ, zero, suc, ◌+◌, ◌/◌, ◌%◌, ◌≤◌, ◌<◌}
use mathlib.Core.Path.{◌≡◌, refl, ◌∙◌}
use mathlib.Core.Bool.{Bool, true, false, ◌&&◌}
use mathlib.Core.Option.{some}
use mathlib.Core.List.{[], ◌∷◌}
use native.Mathlib.Omega.{arith}
use tiny_proxy.Base.Lists.{all, is_empty}
use tiny_proxy.Base.Tests.{leb, ◌==◌, if◌then◌else◌}
use tiny_proxy.Base.Text.{Text, codes, digits_onto, parse_digits, parse_uint}

-- The digits of a number in front of a text; a number of rounds at least as large is enough.
unfoldable pub digits_before : ℕ → ℕ → Text → Text
digits_before zero n out = out
digits_before (suc fuel) n out = elim (n == 0) [
  | true ↦ out
  | false ↦ digits_before fuel (n / 10) ((b'0' + n % 10) ∷ out)
]

unfoldable pub to_string : ℕ → Text
unfolding digits_before
to_string n = if n == 0 then codes "0" else digits_before n n []

-- One digit is read onto those before it.
digits_onto_last :
    (bound n : ℕ) (out : Text)
    → n < bound
    → digits_onto bound (n / 10) ((b'0' + n % 10) ∷ out) ≡ digits_onto bound n out
unfolding digits_onto
digits_onto_last bound n out lt = ground arith

digits_onto-digits_before :
    (bound fuel n : ℕ) (out : Text)
    → n < bound
    → n ≤ fuel
    → digits_onto bound 0 (digits_before fuel n out) ≡ digits_onto bound n out
unfolding digits_before
digits_onto-digits_before bound zero n out lt le = ground arith
digits_onto-digits_before bound (suc fuel) n out lt le = ground (
  arith,
  digits_onto-digits_before bound fuel (n / 10) ((b'0' + n % 10) ∷ out),
  digits_onto_last bound n out,
)

abbrev pub is_digit : ℕ → Bool
is_digit c = leb b'0' c && leb c b'9'

digits_before-digits :
    (fuel n : ℕ) (out : Text)
    → all is_digit out ≡ true
    → all is_digit (digits_before fuel n out) ≡ true
unfolding digits_before
digits_before-digits zero n out h = h
digits_before-digits (suc fuel) n out h =
    ground (arith, digits_before-digits fuel (n / 10) ((b'0' + n % 10) ∷ out))

pub to_string-digits : (n : ℕ) → all is_digit (to_string n) ≡ true
unfolding to_string
to_string-digits n = ground (arith, digits_before-digits n n [])

digits_before-not_empty :
    (fuel n : ℕ) (out : Text) → is_empty out ≡ false → is_empty (digits_before fuel n out) ≡ false
unfolding digits_before
digits_before-not_empty zero n out h = h
digits_before-not_empty (suc fuel) n out h =
    ground (arith, digits_before-not_empty fuel (n / 10) ((b'0' + n % 10) ∷ out))

pub to_string-not_empty : (n : ℕ) → is_empty (to_string n) ≡ false
unfolding to_string digits_before
to_string-not_empty zero = refl
to_string-not_empty (suc n) =
    ground (arith, digits_before-not_empty n (suc n / 10) ((b'0' + suc n % 10) ∷ []))

parse_uint_digits :
    (bound : ℕ) (s : Text)
    → all is_digit s ≡ true
    → is_empty s ≡ false
    → parse_uint bound s ≡ digits_onto bound 0 s
unfolding parse_uint parse_digits
parse_uint_digits bound [] d e = cc
parse_uint_digits bound (c ∷ s) d e = ground arith

-- A number below the bound is read back from its digits.
pub parse_uint-to_string : (bound n : ℕ) → n < bound → parse_uint bound (to_string n) ≡ some n
unfolding to_string digits_onto
parse_uint-to_string bound n lt =
    parse_uint_digits bound (to_string n) (to_string-digits n) (to_string-not_empty n)
    ∙ ground (arith, digits_onto-digits_before bound n n [] lt)
