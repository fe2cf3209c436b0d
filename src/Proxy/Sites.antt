-- ===== src/Proxy/Sites.antt =====
-- `find_site` of src/proxy/handler.rs: the site for a `Host` header.
pub mod Lookup
pub mod Order
pub mod Hosts
pub mod Entries
use tiny_proxy.Base.{
  Bool, false, not, ◌&&◌, Option, none, some, List, [], ◌∷◌, ◌++◌, if◌then◌else◌, is_some,
}
use tiny_proxy.Base.Text.{
  Text, codes, text_eq, starts_with, contains_char, split_once, rsplit_once, eq_ignore_ascii_case,
}
use tiny_proxy.Config.Address.{extract_hostname}
use tiny_proxy.Config.Models.{SiteConfig, Config}

-- `HashMap::get`.
unfoldable pub get_site : Text → List (Text × SiteConfig) → Option SiteConfig
get_site k [] = none
get_site k ((j, s) ∷ m) = if text_eq j k then some s else get_site k m

-- Whether a host carries a port; in `[…]` the colons do not count.
unfoldable pub has_port : Text → Bool
has_port host =
    if starts_with host (codes "[")
    then elim (split_once b']' host) [ some (inner, rest) ↦ contains_char b':' rest | none ↦ false ]
    else contains_char b':' host

-- The filter of the third rule.
unfoldable pub sni_matches : Text → SiteConfig → Bool
sni_matches host s = is_some s.tls && eq_ignore_ascii_case (extract_hostname s.address) host

unfoldable pub sni_sites : Text → List (Text × SiteConfig) → List SiteConfig
sni_sites host [] = []
sni_sites host ((k, s) ∷ m) = if sni_matches host s then s ∷ sni_sites host m else sni_sites host m

-- The only element, if there is exactly one.
abbrev pub only {ℓ} : {A : Type ℓ} → List A → Option A
only (x ∷ []) = some x
only _ = none

abbrev pub or_else {ℓ} : {A : Type ℓ} → Option A → Option A → Option A
or_else none b = b
or_else (some a) b = some a

-- The host without its port.
unfoldable pub strip_port : Text → Text
strip_port [] = []
strip_port (c ∷ host) =
    if starts_with (c ∷ host) (codes "[")
    then elim (split_once b']' host) [ some (inner, rest) ↦ inner | none ↦ host ]
    else elim (rsplit_once b':' (c ∷ host)) [ some (name, port) ↦ name | none ↦ c ∷ host ]

unfoldable pub default_port : Bool → Text
default_port is_tls = if is_tls then codes ":443" else codes ":80"

unfoldable pub find_site : Config → Text → Bool → Option SiteConfig
find_site config host is_tls =
    let m = config.sites in
    let by_sni = if is_tls then only (sni_sites host m) else none in
    or_else (get_site host m) (
      if not (has_port host)
      then or_else (get_site (host ++ default_port is_tls) m) by_sni
      else get_site (strip_port host) m)
