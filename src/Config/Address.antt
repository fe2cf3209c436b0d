-- ===== src/Config/Address.antt =====
-- Site addresses, src/config/address.rs.
use tiny_proxy.Base.{ℕ, ◌+◌, ◌-◌, ◌^◌, Option, none, some, [], ◌∷◌, if◌then◌else◌}
use Prim.Native.Nat.{min}
use mathlib.Core.Option
use tiny_proxy.Base.Text.{
  Text, codes, starts_with, split_once, split_first, rsplit_once, parse_uint,
}
use tiny_proxy.Http.{Codec}

-- `SocketAddr`.
pub record SocketAddr : Type 0 where
  pub ip : Text
  pub port : ℕ

abbrev pub u16_bound : ℕ
u16_bound = 0x1_0000

abbrev pub u64_bound : ℕ
u64_bound = 2 ^ 64

-- `rsplit(':').next()`: what stands behind the last colon, or the whole text.
abbrev pub last_part : Text → Text
last_part s = elim (rsplit_once b':' s) [ none ↦ s | some (a, b) ↦ b ]

-- `none` is the error "Cannot parse address".
unfoldable pub resolve_listen_addr : ⦃c : Codec⦄ → Text → Option SocketAddr
resolve_listen_addr ⦃c⦄ address = elim (c.socket_addr_from_str address) [
  | some (ip, port) ↦ some (record { ip = ip; port = port })
  | none ↦
      Option.map (λ port. record { ip = codes "0.0.0.0"; port = port })
        (parse_uint u16_bound (last_part address))
]

-- `rsplit(':').next_back()` is the piece before the first colon.
unfoldable pub extract_hostname : Text → Text
extract_hostname [] = split_first b':' []
extract_hostname (c ∷ s) =
    elim (if starts_with (c ∷ s) (codes "[") then split_once b']' s else none) [
      | some (inner, rest) ↦ inner
      | none ↦ split_first b':' (c ∷ s)
    ]

-- `saturating_sub` and `saturating_add` at 16 bits.
unfoldable pub tls_redirect_port : ℕ → ℕ
tls_redirect_port tls_port = min (tls_port - 443 + 80) 0xffff
