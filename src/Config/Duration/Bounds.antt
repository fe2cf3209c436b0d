-- ===== src/Config/Duration/Bounds.antt =====
-- The range of `parse_duration`, src/config/parser.rs.
use tiny_proxy.Base.{Option-cases, [], arith, inl, inr, some, ℕ, ◌%◌, ◌*◌, ◌+◌, ◌-◌, ◌<◌, ◌∷◌, ◌≡◌}
use tiny_proxy.Base.Result.{ok}
use tiny_proxy.Base.Text.{Text, digits_onto, parse_digits, parse_uint, trim}
use tiny_proxy.Config.Address.{u64_bound}
use tiny_proxy.Config.Duration.{parse_duration, parse_trimmed, scale, split_unit}

digits_onto-lt :
    (bound n : ℕ) (s : Text) (v : ℕ) → n < bound → digits_onto bound n s ≡ some v → v < bound
unfolding digits_onto
digits_onto-lt bound n [] v lt e = ground arith
digits_onto-lt bound n (c ∷ s) v lt e =
    ground (arith, digits_onto-lt bound (n * 10 + (c - b'0')) s v)

parse_digits-lt :
    (bound : ℕ) (s : Text) (v : ℕ) → 0 < bound → parse_digits bound s ≡ some v → v < bound
unfolding parse_digits
parse_digits-lt bound [] v lt e = cc
parse_digits-lt bound (c ∷ s) v lt e = digits_onto-lt bound 0 (c ∷ s) v lt e

-- A parsed integer is below the bound of its type.
pub parse_uint-lt :
    (bound : ℕ) (s : Text) (v : ℕ) → 0 < bound → parse_uint bound s ≡ some v → v < bound
unfolding parse_uint
parse_uint-lt bound [] v lt e = cc
parse_uint-lt bound (c ∷ s) v lt e =
    ground (arith, parse_digits-lt bound s v lt, parse_digits-lt bound (c ∷ s) v lt)

scale-lt : (s num : Text) (k v : ℕ) → scale s (num, k) ≡ ok v → v < u64_bound
unfolding scale
scale-lt s num k v e = elim (Option-cases (parse_uint u64_bound num)) [
  | inl bad ↦ cc (rw (bad, scale) at e)
  | inr (n, good) ↦
      let value : (n * k) % u64_bound ≡ v = cc (rw (good, scale) at e) in omega (arith, value)
]

-- A duration that is read is a number of seconds below 2^64.
pub parse_duration-lt : (s : Text) (v : ℕ) → parse_duration s ≡ ok v → v < u64_bound
unfolding parse_duration parse_trimmed
parse_duration-lt s v e = elim (Option-cases (parse_uint u64_bound (trim s))) [
  | inr (n, plain) ↦ ground (arith, parse_uint-lt u64_bound (trim s) n (omega arith) plain)
  | inl unit ↦ elim (Option-cases (split_unit (trim s))) [
    | inl bad ↦ ground arith
    | inr ((num, k), split) ↦ ground (arith, scale-lt (trim s) num k v)
  ]
]
