-- ===== src/Proxy/Tls/Certificates.antt =====
-- Which certificate a client gets.
use tiny_proxy.Base.{
  Bool, Bool-cases, List, Option, Option-cases, [], ap, arith, false, if◌then◌else◌, inl, inr,
  length, none, refl, some, sym, ◌<◌, ◌||◌, ◌∙◌, ◌∷◌, ◌≡◌, ◌≤◌,
}
use tiny_proxy.Base.Text.{Text, text_eq, to_ascii_lowercase}
use tiny_proxy.Base.Text.Eq.{text_eq_iff, text_eq_refl}
use tiny_proxy.Config.Models.{TlsConfig}
use tiny_proxy.Proxy.Sites.{or_else}
use tiny_proxy.Proxy.Tls.{
  SniCertResolver, build_resolver, first_by_name, get_entry, is_default, least_name, load_sites,
  resolve, text_le,
}

-- Whether a site of the list has a name, without regard to case.
unfoldable pub has_name : Text → List (Text × TlsConfig) → Bool
has_name n [] = false
has_name n ((host, cfg) ∷ sites) = text_eq (to_ascii_lowercase host) n || has_name n sites

-- A site of the list whose name no site behind it has.
pub data LastOfName (host : Text) (cfg : TlsConfig) : List (Text × TlsConfig) → Type 0 where
  here :
      {sites : List (Text × TlsConfig)}
      → has_name (to_ascii_lowercase host) sites ≡ false
      → LastOfName host cfg ((host, cfg) ∷ sites)
  there :
      {other : Text} {d : TlsConfig} {sites : List (Text × TlsConfig)}
      → LastOfName host cfg sites
      → LastOfName host cfg ((other, d) ∷ sites)

module _ {K : Type 0} (load : TlsConfig → Option K) (dh : Option Text) where
  load_sites_keep :
      (sites : List (Text × TlsConfig)) (r last : SniCertResolver K) (n : Text)
      → has_name n sites ≡ false
      → load_sites load dh sites r ≡ some last
      → get_entry n last.entries ≡ get_entry n r.entries
  unfolding load_sites has_name get_entry
  load_sites_keep [] r last n e f =
      let same : r ≡ last = cc f in
      ap (λ (x : SniCertResolver K). get_entry n x.entries) {x = last} {y = r} (sym same)
  load_sites_keep ((host, cfg) ∷ sites) r last n e f = elim (Option-cases (load cfg)) [
    | inl bad ↦ cc (rw (bad, load_sites) at f)
    | inr (key, good) ↦
        load_sites_keep sites _ last n (ground arith) (rw (good, load_sites) at f) ∙ ground arith
  ]

  load_sites_own :
      {host : Text} {cfg : TlsConfig} {sites : List (Text × TlsConfig)} (r last : SniCertResolver K)
      (key : K)
      → LastOfName host cfg sites
      → load cfg ≡ some key
      → load_sites load dh sites r ≡ some last
      → get_entry (to_ascii_lowercase host) last.entries ≡ some key
  unfolding load_sites get_entry
  load_sites_own {host} r last key (here {sites} unique) good f =
      load_sites_keep sites _ last (to_ascii_lowercase host) unique (rw (good, load_sites) at f)
      ∙ rw (text_eq_refl (to_ascii_lowercase host))
  load_sites_own r last key (there {d} o) good f = elim (Option-cases (load d)) [
    | inl bad ↦ cc (rw (bad, load_sites) at f)
    | inr (k, fine) ↦ load_sites_own _ last key o good (rw (fine, load_sites) at f)
  ]

  -- In a resolver that was built from a list of sites, a client that names a site gets the
  -- certificate of that site, however the name is capitalised, if no site behind it in the list
  -- has the name.
  pub resolve-own :
      (sites : List (Text × TlsConfig)) (r : SniCertResolver K) (host sni : Text) (cfg : TlsConfig)
      (key : K)
      → build_resolver load dh sites ≡ some r
      → LastOfName host cfg sites
      → load cfg ≡ some key
      → to_ascii_lowercase sni ≡ to_ascii_lowercase host
      → resolve r (some sni) ≡ some key
  unfolding build_resolver resolve
  resolve-own [] r host sni cfg key e o good same = cc
  resolve-own (site ∷ sites) r host sni cfg key e o good same =
      elim (Option-cases
        (load_sites load dh (site ∷ sites) (record { entries = []; default = none }))) [
          | inl bad ↦ cc (rw (bad, build_resolver) at e)
          | inr (last, done) ↦
              let own = load_sites_own _ last key o good done in
              let built : record last {
                default = or_else last.default (first_by_name last.entries);
              }
                  ≡ r =
                cc (rw (done, build_resolver) at e) in
              rw (sym built) (rw same (rw own))
        ]

  entries_grow :
      (sites : List (Text × TlsConfig)) (r last : SniCertResolver K)
      → load_sites load dh sites r ≡ some last
      → length r.entries ≤ length last.entries
  unfolding load_sites
  entries_grow [] r last f = ground arith
  entries_grow ((host, cfg) ∷ sites) r last f = elim (Option-cases (load cfg)) [
    | inl bad ↦ cc (rw (bad, load_sites) at f)
    | inr (key, good) ↦ omega (arith, entries_grow sites _ last (rw (good, load_sites) at f))
  ]

pub least_name-get_entry :
    {K : Type 0} (m : List (Text × K)) (n : Text)
    → least_name m ≡ some n
    → (key : K) × (get_entry n m ≡ some key)
unfolding least_name get_entry
least_name-get_entry [] n e = cc
least_name-get_entry ((j, k) ∷ m) n e = elim (Bool-cases (text_eq j n)) [
  | inl same ↦ (k, rw same)
  | inr other ↦ elim (Option-cases (least_name m)) [
    | inl none_left ↦ ground (arith, text_eq_iff j n)
    | inr (i, least) ↦
        let (key, found) = least_name-get_entry m n (ground (arith, text_eq_iff j n)) in
        (key, rw other found)
  ]
]

least_name-some :
    {K : Type 0} (x : Text × K) (m : List (Text × K)) → (n : Text) × (least_name (x ∷ m) ≡ some n)
unfolding least_name
least_name-some (j, k) m = elim (Option-cases (least_name m)) [
  | inl none_left ↦ (j, rw none_left)
  | inr (i, least) ↦ (if text_le j i then j else i, rw least)
]

first_by_name-some :
    {K : Type 0} (m : List (Text × K)) → 0 < length m → (key : K) × (first_by_name m ≡ some key)
unfolding first_by_name
first_by_name-some [] e = absurd (omega (arith, e))
first_by_name-some (x ∷ m) e =
    let (n, least) = least_name-some x m in
    let (key, found) = least_name-get_entry (x ∷ m) n least in
    (key, rw (least, first_by_name) found)

default_some :
    {K : Type 0} (a b : Option K) (k : K) → b ≡ some k → (key : K) × (or_else a b ≡ some key)
default_some none b k e = (k, e)
default_some (some a) b k e = (a, refl)

module _ {K : Type 0} (load : TlsConfig → Option K) (dh : Option Text) where
  -- A resolver that was built has a default certificate.
  pub build_resolver-default :
      (sites : List (Text × TlsConfig)) (r : SniCertResolver K)
      → build_resolver load dh sites ≡ some r
      → (key : K) × (r.default ≡ some key)
  unfolding build_resolver load_sites
  build_resolver-default [] r e = cc
  build_resolver-default ((host, cfg) ∷ sites) r e = elim (Option-cases (load cfg)) [
    | inl bad ↦ cc (rw (bad, build_resolver, load_sites) at e)
    | inr (key, good) ↦
        let entered : SniCertResolver K = record {
          entries = (to_ascii_lowercase host, key) ∷ [];
          default = if is_default dh host then some key else none;
        } in
        elim (Option-cases (load_sites load dh sites entered)) [
          | inl bad ↦ cc (rw (good, bad, build_resolver, load_sites) at e)
          | inr (last, done) ↦
              let built : record last {
                default = or_else last.default (first_by_name last.entries);
              }
                  ≡ r =
                cc (rw (good, done, build_resolver, load_sites) at e) in
              let (k, least) =
                first_by_name-some last.entries
                  (omega (arith, entries_grow load dh sites entered last done)) in
              rw (sym built) (default_some last.default (first_by_name last.entries) k least)
        ]
  ]
