-- ===== src/Proxy/Substitution.antt =====
-- Placeholders in header values: src/auth/headers.rs. The two `while` loops run on fuel; `diverges`
-- stands for a loop that the fuel does not bring to its end.
pub mod Ends
use mathlib.Core.Option
use tiny_proxy.Base.{ℕ, zero, suc, Option, none, some, [], ◌++◌}
use tiny_proxy.Base.Text.{Text, codes, trim, find_split, replace, split_once, split_first}
use tiny_proxy.Http.{Headers, Codec, get_str}

pub data Substituted : Type 0 where
  replaced : Text → Substituted
  unclosed : Substituted
  diverges : Substituted

infixl 5 ◌>>=◌
abbrev pub ◌>>=◌ : Substituted → (Text → Substituted) → Substituted
replaced s >>= f = f s
unclosed >>= f = unclosed
diverges >>= f = diverges

-- `while let Some(start) = result.find(marker)`: what stands between the marker and the next `}`
-- is looked up, and the value takes the place of the whole.
unfoldable pub expand : (Text → Text) → Text → ℕ → Text → Substituted
expand value_of marker zero result = diverges
expand value_of marker (suc fuel) result = elim (find_split result marker) [
  | none ↦ replaced result
  | some (before, after) ↦ elim (split_once b'}' after) [
    | none ↦ unclosed
    | some (name, rest) ↦ expand value_of marker fuel (before ++ (value_of name ++ rest))
  ]
]

abbrev pub header_marker : Text
header_marker = codes "{header."

abbrev pub env_marker : Text
env_marker = codes "{env."

-- `std::env::var`, or nothing.
abbrev pub env_value : (Text → Option Text) → Text → Text
env_value env name = Option.get_or (env name) []

module _ {M : Type 0} ⦃h : Headers M⦄ ⦃c : Codec⦄ where
  -- The text of a header, or nothing.
  unfoldable pub header_value : M → Text → Text
  header_value m name = elim (c.name_from_bytes name) [
    | none ↦ []
    | some n ↦ Option.get_or (get_str m n) []
  ]

  -- The arguments are the environment, the fresh UUID, the fuel, the template and the headers.
  unfoldable pub process_header_substitution :
      (Text → Option Text) → Text → ℕ → Text → M → Substituted
  process_header_substitution env uuid fuel value m =
      expand (header_value m) header_marker fuel value >>= λ a.
      expand (env_value env) env_marker fuel a >>= λ b. replaced (replace b (codes "{uuid}") uuid)

  -- The last three are the upstream host, the request URI and the remote IP.
  unfoldable pub process_upstream_substitution :
      (Text → Option Text) → Text → ℕ → Text → M → Text → Text → Text → Substituted
  process_upstream_substitution env uuid fuel value m upstream_host request_uri remote_ip =
      process_header_substitution env uuid fuel value m >>= λ a. replaced (
        replace
          (replace (replace a (codes "{upstream_host}") upstream_host) (codes "{request.uri}")
            request_uri)
          (codes "{remote_ip}") remote_ip)

  -- `extract_remote_ip`.
  unfoldable pub extract_remote_ip : M → Option Text
  extract_remote_ip m = elim (get_str m (codes "x-forwarded-for")) [
    | some xff ↦ some (trim (split_first b',' xff))
    | none ↦ get_str m (codes "x-real-ip")
  ]
