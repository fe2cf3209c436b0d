-- ===== src/Proxy/Tls.antt =====
-- The choice of a certificate, src/proxy/tls.rs. Reading a key pair from its files is a parameter here,
-- `load`; see Proxy/Tls/Loading. The hash map is a list of entries, in which one in front hides those behind it.
pub mod Certificates
pub mod Redirect
pub mod Loading
use tiny_proxy.Base.{
  Bool, List, Option, [], false, if◌then◌else◌, ltb, none, some, true, ◌&&◌, ◌==◌, ◌||◌, ◌∷◌,
}
use tiny_proxy.Base.Text.{Text, eq_ignore_ascii_case, text_eq, to_ascii_lowercase}
use tiny_proxy.Config.Models.{TlsConfig}
use tiny_proxy.Proxy.Sites.{or_else}

unfoldable pub text_le : Text → Text → Bool
text_le [] t = true
text_le (c ∷ s) [] = false
text_le (c ∷ s) (d ∷ t) = ltb c d || (c == d && text_le s t)

-- `SniCertResolver`.
pub record SniCertResolver (K : Type 0) : Type 0 where
  pub entries : List (Text × K)
  pub default : Option K

-- Whether a host is the default host, if one is given.
unfoldable pub is_default : Option Text → Text → Bool
is_default none host = false
is_default (some name) host = eq_ignore_ascii_case host name

module _ {K : Type 0} where
  unfoldable pub get_entry : Text → List (Text × K) → Option K
  get_entry n [] = none
  get_entry n ((j, key) ∷ m) = if text_eq j n then some key else get_entry n m

  -- `resolve`; the name is there if the client sends one.
  unfoldable pub resolve : SniCertResolver K → Option Text → Option K
  resolve r none = r.default
  resolve r (some sni) = or_else (get_entry (to_ascii_lowercase sni) r.entries) r.default

  -- The least name: the first one in sorted order.
  unfoldable pub least_name : List (Text × K) → Option Text
  least_name [] = none
  least_name ((n, key) ∷ m) = elim (least_name m) [
    | none ↦ some n
    | some j ↦ some (if text_le n j then n else j)
  ]

  unfoldable pub first_by_name : List (Text × K) → Option K
  first_by_name m = elim (least_name m) [ none ↦ none | some n ↦ get_entry n m ]

  module _ (load : TlsConfig → Option K) (default_hostname : Option Text) where
    -- The loop of `build_tls_acceptor`, with its two variables.
    unfoldable pub load_sites :
        List (Text × TlsConfig) → SniCertResolver K → Option (SniCertResolver K)
    load_sites [] r = some r
    load_sites ((host, cfg) ∷ sites) r = elim (load cfg) [
      | none ↦ none
      | some key ↦ load_sites sites (record {
        entries = (to_ascii_lowercase host, key) ∷ r.entries;
        default = if is_default default_hostname host then some key else r.default;
      })
    ]

    -- `build_tls_acceptor`, up to the resolver.
    unfoldable pub build_resolver : List (Text × TlsConfig) → Option (SniCertResolver K)
    build_resolver [] = none
    build_resolver (site ∷ sites) =
        elim (load_sites (site ∷ sites) (record { entries = []; default = none })) [
          | none ↦ none
          | some r ↦ some (record r { default = or_else r.default (first_by_name r.entries) })
        ]
