-- ===== src/Config/Duration.antt =====
-- `parse_duration`, src/config/parser.rs.
pub mod Bounds
use tiny_proxy.Base.{ℕ, ◌*◌, ◌%◌, Option, none, some, if◌then◌else◌, is_empty}
use tiny_proxy.Base.Text.{Text, codes, trim, strip_suffix, parse_uint}
use tiny_proxy.Base.Result.{Result, ok, err, ok_or, ◌>>=◌}
use tiny_proxy.Config.Address.{u64_bound}

pub data DurationError : Type 0 where
  empty_duration : DurationError
  invalid_duration : Text → DurationError
  invalid_numeric : Text → DurationError

-- What stands before a unit, and the number of seconds of that unit.
unfoldable pub split_unit : Text → Option (Text × ℕ)
split_unit s = elim (strip_suffix s (codes "s")) [
  | some n ↦ some (n, 1)
  | none ↦ elim (strip_suffix s (codes "m")) [
    | some n ↦ some (n, 60)
    | none ↦ elim (strip_suffix s (codes "h")) [
      | some n ↦ some (n, 3600)
      | none ↦ elim (strip_suffix s (codes "d")) [ some n ↦ some (n, 86400) | none ↦ none ]
    ]
  ]
]

-- The product wraps around at 64 bits, as in a release build.
unfoldable pub scale : Text → Text × ℕ → Result DurationError ℕ
scale s (num_part, multiplier) = do
  value ← ok_or (parse_uint u64_bound num_part) (invalid_numeric s)
  ok ((value * multiplier) % u64_bound)

unfoldable pub parse_trimmed : Text → Result DurationError ℕ
parse_trimmed s = if is_empty s then err empty_duration else elim (parse_uint u64_bound s) [
  | some secs ↦ ok secs
  | none ↦ do unit ← ok_or (split_unit s) (invalid_duration s); scale s unit
]

unfoldable pub parse_duration : Text → Result DurationError ℕ
parse_duration s = parse_trimmed (trim s)
