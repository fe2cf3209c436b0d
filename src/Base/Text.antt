-- ===== src/Base/Text.antt =====
-- `str` and `String` of the Rust standard library: a text is the list of its Unicode scalar values.
-- The methods that the sources call, under their own names, with the receiver first.
pub mod Eq
pub mod Runs
pub mod Decimal
pub mod Words
pub mod Printed
use Prim.Native.Char.{code}
use Prim.Native.String.{String}
use Prim.Native.Nat.{ℕ, zero, suc, ◌+◌, ◌-◌, ◌*◌, ◌<◌}
use mathlib.Core.Bool.{Bool, true, false, not, ◌&&◌, ◌||◌}
use mathlib.Core.List.{List, [], ◌∷◌, ◌++◌, map, reverse}
use mathlib.Core.Option
use mathlib.Core.Option.{Option, none, some}
use tiny_proxy.Base.Tests.{ltb, leb, ◌==◌, if◌then◌else◌, is_some}
use tiny_proxy.Base.Lists.{length, any, is_empty}

abbrev pub Text : Type 0
Text = List ℕ

-- A literal of the sources.
abbrev pub codes : String → Text
codes String.[] = []
codes (String.◌∷◌ c s) = code c ∷ codes s

unfoldable pub text_eq : Text → Text → Bool
text_eq [] [] = true
text_eq (c ∷ s) (d ∷ t) = c == d && text_eq s t
text_eq _ _ = false

unfoldable pub strip_prefix : Text → Text → Option Text
strip_prefix s [] = some s
strip_prefix [] (d ∷ p) = none
strip_prefix (c ∷ s) (d ∷ p) = if c == d then strip_prefix s p else none

abbrev pub starts_with : Text → Text → Bool
starts_with s p = is_some (strip_prefix s p)

unfoldable pub strip_suffix : Text → Text → Option Text
unfolding strip_prefix
strip_suffix s p = Option.map reverse (strip_prefix (reverse s) (reverse p))

abbrev pub ends_with : Text → Text → Bool
ends_with s p = is_some (strip_suffix s p)

abbrev pub contains_char : ℕ → Text → Bool
contains_char d s = any (λ c. c == d) s

-- `find`: what stands before the first occurrence, and what stands behind it.
unfoldable pub find_split : Text → Text → Option (Text × Text)
find_split [] p = if is_empty p then some ([], []) else none
find_split (c ∷ s) p = elim (strip_prefix (c ∷ s) p) [
  | some r ↦ some ([], r)
  | none ↦ Option.map (λ h. (c ∷ h.0, h.1)) (find_split s p)
]

-- `replace` by a pattern that is not empty; the number counts what of a match is left to skip.
unfoldable pub replace_from : Text → Text → ℕ → Text → Text
replace_from find by n [] = []
replace_from find by (suc k) (c ∷ s) = replace_from find by k s
replace_from find by zero (c ∷ s) = elim (strip_prefix (c ∷ s) find) [
  | some r ↦ by ++ replace_from find by (length find - 1) s
  | none ↦ c ∷ replace_from find by zero s
]

-- The empty pattern matches at each boundary.
unfoldable pub replace_empty : Text → Text → Text
replace_empty by [] = by
replace_empty by (c ∷ s) = by ++ (c ∷ replace_empty by s)

unfoldable pub replace : Text → Text → Text → Text
unfolding replace_from replace_empty strip_prefix
replace s find by = if is_empty find then replace_empty by s else replace_from find by 0 s

abbrev within : ℕ → ℕ → ℕ → Bool
within lo hi c = leb lo c && leb c hi

-- The property White_Space of Unicode.
unfoldable pub is_whitespace : ℕ → Bool
is_whitespace c =
    within 0x9 0xd c
    || c == 0x20
    || c == 0x85
    || c == 0xa0
    || c == 0x1680
    || within 0x2000 0x200a c
    || c == 0x2028
    || c == 0x2029
    || c == 0x202f
    || c == 0x205f
    || c == 0x3000

unfoldable pub trim_start : Text → Text
unfolding is_whitespace
trim_start [] = []
trim_start (c ∷ s) = if is_whitespace c then trim_start s else c ∷ s

unfoldable pub trim : Text → Text
unfolding trim_start
trim s = reverse (trim_start (reverse (trim_start s)))

abbrev pub flush : Text → List Text → List Text
flush [] ws = ws
flush (c ∷ s) ws = reverse (c ∷ s) ∷ ws

-- The word that is being read, backwards, is the first argument.
unfoldable pub words_from : Text → Text → List Text
unfolding is_whitespace
words_from cur [] = flush cur []
words_from cur (c ∷ s) = elim (is_whitespace c) [
  | true ↦ flush cur (words_from [] s)
  | false ↦ words_from (c ∷ cur) s
]

unfoldable pub split_whitespace : Text → List Text
unfolding words_from
split_whitespace s = words_from [] s

-- A line, read backwards, without its `\r`.
abbrev pub end_line : Text → Text
end_line [] = []
end_line (c ∷ s) = if c == 0xd then reverse s else reverse (c ∷ s)

unfoldable pub lines_from : Text → Text → List Text
lines_from [] [] = []
lines_from (c ∷ cur) [] = reverse (c ∷ cur) ∷ []
lines_from cur (c ∷ s) = elim (c == 0xa) [
  | true ↦ end_line cur ∷ lines_from [] s
  | false ↦ lines_from (c ∷ cur) s
]

unfoldable pub lines : Text → List Text
unfolding lines_from
lines s = lines_from [] s

unfoldable pub join : Text → List Text → Text
join sep [] = []
join sep (w ∷ []) = w
join sep (w ∷ v ∷ ws) = w ++ (sep ++ join sep (v ∷ ws))

abbrev pub lower : ℕ → ℕ
lower c = if within b'A' b'Z' c then c + 32 else c

unfoldable pub to_ascii_lowercase : Text → Text
to_ascii_lowercase s = map lower s

unfoldable pub eq_ignore_ascii_case : Text → Text → Bool
unfolding to_ascii_lowercase text_eq
eq_ignore_ascii_case s t = text_eq (to_ascii_lowercase s) (to_ascii_lowercase t)

-- `split_once` at a character: what stands before and behind its first occurrence.
unfoldable pub split_once : ℕ → Text → Option (Text × Text)
split_once d [] = none
split_once d (c ∷ s) =
    if c == d then some ([], s) else Option.map (λ h. (c ∷ h.0, h.1)) (split_once d s)

-- `rsplit_once` at a character: what stands before and behind its last occurrence.
unfoldable pub rsplit_once : ℕ → Text → Option (Text × Text)
unfolding split_once
rsplit_once d s = Option.map (λ h. (reverse h.1, reverse h.0)) (split_once d (reverse s))

-- The first piece of `split` at a character.
unfoldable pub split_first : ℕ → Text → Text
split_first d [] = []
split_first d (c ∷ s) = if c == d then [] else c ∷ split_first d s

-- Digits, read onto the value of those before; `none` past the bound, or at any other character.
unfoldable pub digits_onto : ℕ → ℕ → Text → Option ℕ
digits_onto bound n [] = some n
digits_onto bound n (c ∷ s) =
    let rest = digits_onto bound (n * 10 + (c - b'0')) s in
    if within b'0' b'9' c && ltb (n * 10 + (c - b'0')) bound then rest else none

-- `parse` for an unsigned integer below the bound: one `+` may stand in front of the digits.
unfoldable pub parse_digits : ℕ → Text → Option ℕ
unfolding digits_onto
parse_digits bound [] = none
parse_digits bound (c ∷ s) = digits_onto bound 0 (c ∷ s)

unfoldable pub parse_uint : ℕ → Text → Option ℕ
unfolding parse_digits
parse_uint bound [] = none
parse_uint bound (c ∷ s) = if c == b'+' then parse_digits bound s else parse_digits bound (c ∷ s)

-- The number of bytes of a text in UTF-8, which is its `len`.
abbrev pub len_utf8 : ℕ → ℕ
len_utf8 c = if ltb c 0x80 then 1 else if ltb c 0x800 then 2 else if ltb c 0x10000 then 3 else 4

unfoldable pub byte_len : Text → ℕ
byte_len [] = 0
byte_len (c ∷ s) = len_utf8 c + byte_len s
