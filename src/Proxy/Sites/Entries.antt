-- ===== src/Proxy/Sites/Entries.antt =====
-- The entries of a configuration, and what the lookups of src/proxy/handler.rs find in them.
use mathlib.Core.Path.{subst}
use tiny_proxy.Base.{
  Bool-cases, List, Option-cases, [], and_parts, arith, inl, inr, is_some, none, refl, some, sym,
  true, ◌↔◌, ◌∙◌, ◌∷◌, ◌≡◌, ◌⊎◌,
}
use tiny_proxy.Base.Text.{Text, eq_ignore_ascii_case, text_eq}
use tiny_proxy.Base.Text.Eq.{text_eq_iff}
use tiny_proxy.Config.Address.{extract_hostname}
use tiny_proxy.Config.Models.{SiteConfig}
use tiny_proxy.Proxy.Sites.{get_site, sni_matches, sni_sites}

-- An entry of the configuration.
abbrev pub Entry : Text → SiteConfig → List (Text × SiteConfig) → Type 0
Entry k s [] = ⊥
Entry k s ((j, t) ∷ m) = ((j ≡ k) × (t ≡ s)) ⊎ Entry k s m

abbrev pub NoKey : Text → List (Text × SiteConfig) → Type 0
NoKey k m = (s : SiteConfig) → Entry k s m → ⊥

-- The keys of a hash map are distinct.
abbrev pub Distinct : List (Text × SiteConfig) → Type 0
Distinct [] = Unit
Distinct ((k, s) ∷ m) = NoKey k m × Distinct m

-- A site with TLS whose name is the host, without regard to case.
abbrev pub Named : Text → SiteConfig → Type 0
Named host s =
    (is_some s.tls ≡ true) × (eq_ignore_ascii_case (extract_hostname s.address) host ≡ true)

pub get_site-Entry :
    (k : Text) (m : List (Text × SiteConfig)) (s : SiteConfig) → get_site k m ≡ some s → Entry k s m
unfolding get_site
get_site-Entry k [] s e = cc
get_site-Entry k ((j, t) ∷ m) s e = elim (Bool-cases (text_eq j k)) [
  | inl hit ↦ inl ((text_eq_iff j k).0 hit, ground arith)
  | inr miss ↦ inr (get_site-Entry k m s (ground arith))
]

pub Entry-get_site :
    (k : Text) (m : List (Text × SiteConfig)) (s : SiteConfig)
    → Distinct m
    → Entry k s m
    → get_site k m ≡ some s
unfolding get_site
Entry-get_site k [] s d found = elim found [ ]
Entry-get_site k ((j, t) ∷ m) s d (inl (same, as_found)) = ground (arith, text_eq_iff j k)
Entry-get_site k ((j, t) ∷ m) s (free, d) (inr e) = elim (Bool-cases (text_eq j k)) [
  | inl hit ↦ absurd (free s (subst (λ x. Entry x s m) (sym ((text_eq_iff j k).0 hit)) e))
  | inr miss ↦ ground (arith, Entry-get_site k m s d e)
]

pub get_site-NoKey :
    (k : Text) (m : List (Text × SiteConfig)) → Distinct m → get_site k m ≡ none → NoKey k m
get_site-NoKey k m d e s found = cc (e, Entry-get_site k m s d found)

pub NoKey-get_site : (k : Text) (m : List (Text × SiteConfig)) → NoKey k m → get_site k m ≡ none
NoKey-get_site k m free = elim (Option-cases (get_site k m)) [
  | inl missing ↦ missing
  | inr (s, found) ↦ absurd (free s (get_site-Entry k m s found))
]

sni_matches_iff : (host : Text) (s : SiteConfig) → (sni_matches host s ≡ true) ↔ Named host s
unfolding sni_matches
sni_matches_iff host s = (
  and_parts (is_some s.tls) (eq_ignore_ascii_case (extract_hostname s.address) host),
  λ named. ground (arith, named),
)

-- No site has the name exactly if none is left by the filter.
sni_sites-none :
    (host : Text) (m : List (Text × SiteConfig))
    → sni_sites host m ≡ []
    → (k : Text) (s : SiteConfig) → Entry k s m
    → Named host s
    → ⊥
unfolding sni_sites
sni_sites-none host [] e k s found named = elim found [ ]
sni_sites-none host ((j, t) ∷ m) e k s (inl (same, as_found)) named =
    ground (arith, (sni_matches_iff host t).1 (subst (Named host) (sym as_found) named))
sni_sites-none host ((j, t) ∷ m) e k s (inr found) named = elim (Bool-cases (sni_matches host t)) [
  | inl hit ↦ ground arith
  | inr miss ↦ sni_sites-none host m (ground arith) k s found named
]

none-sni_sites :
    (host : Text) (m : List (Text × SiteConfig))
    → ((k : Text) (s : SiteConfig) → Entry k s m → Named host s → ⊥)
    → sni_sites host m ≡ []
unfolding sni_sites
none-sni_sites host [] free = refl
none-sni_sites host ((j, t) ∷ m) free = elim (Bool-cases (sni_matches host t)) [
  | inl hit ↦ absurd (free j t (inl (refl, refl)) ((sni_matches_iff host t).0 hit))
  | inr miss ↦ ground (arith, none-sni_sites host m (λ k s found. free k s (inr found)))
]

-- One site is left by the filter exactly if it is the only one of the name.
abbrev pub Only : Text → List (Text × SiteConfig) → Text → SiteConfig → Type 0
Only host m k s =
    Entry k s m × Named host s × ((j : Text) (t : SiteConfig) → Entry j t m → Named host t → j ≡ k)

pub sni_sites-Only :
    (host : Text) (m : List (Text × SiteConfig)) (s : SiteConfig)
    → sni_sites host m ≡ s ∷ []
    → (k : Text) × Only host m k s
unfolding sni_sites
sni_sites-Only host [] s e = cc
sni_sites-Only host ((j, t) ∷ m) s e = elim (Bool-cases (sni_matches host t)) [
  | inl hit ↦
      let as_found : t ≡ s = ground arith in
      let no_more = sni_sites-none host m (ground arith) in
      (
        j,
        (
          inl (refl, as_found),
          subst (Named host) as_found ((sni_matches_iff host t).0 hit),
          λ i u found named. elim found [
            | inl (same, _) ↦ sym same
            | inr further ↦ absurd (no_more i u further named)
          ],
        ),
      )
  | inr miss ↦
      let (k, (found, named, unique)) = sni_sites-Only host m s (ground arith) in
      (
        k,
        (
          inr found,
          named,
          λ i u other also. elim other [
            | inl (_, same) ↦
                ground (arith, (sni_matches_iff host t).1 (subst (Named host) (sym same) also))
            | inr further ↦ unique i u further also
          ],
        ),
      )
]

pub Only-sni_sites :
    (host : Text) (m : List (Text × SiteConfig)) (k : Text) (s : SiteConfig)
    → Distinct m
    → Only host m k s
    → sni_sites host m ≡ s ∷ []
unfolding sni_sites
Only-sni_sites host [] k s d (found, named, unique) = elim found [ ]
Only-sni_sites host ((j, t) ∷ m) k s (free, d) (inl (same, as_found), named, unique) =
    let hit = (sni_matches_iff host t).1 (subst (Named host) (sym as_found) named) in
    let no_more = none-sni_sites host m (λ i u found also.
      free u (subst (λ x. Entry x u m) (unique i u (inr found) also ∙ sym same) found)) in
    ground (arith, hit, no_more)
Only-sni_sites host ((j, t) ∷ m) k s (free, d) (inr found, named, unique) =
    elim (Bool-cases (sni_matches host t)) [
      | inl hit ↦
          let same = unique j t (inl (refl, refl)) ((sni_matches_iff host t).0 hit) in
          absurd (free s (subst (λ x. Entry x s m) (sym same) found))
      | inr miss ↦ ground (
        arith,
        Only-sni_sites host m k s d (found, named, λ i u other also. unique i u (inr other) also),
      )
    ]
