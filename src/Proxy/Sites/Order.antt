-- ===== src/Proxy/Sites/Order.antt =====
-- The order of the sites for `find_site`: in the source they are in a hash map.
use mathlib.Core.List.{Permᴰ}
use mathlib.Core.Path.{subst}
use tiny_proxy.Base.{
  Bool, Bool-cases, List, [], ap, arith, inl, inr, is_empty, perm_refl, refl, some, true, ◌++◌, ◌∙◌,
  ◌∷◌, ◌≡◌,
}
use tiny_proxy.Base.Text.{Text}
use tiny_proxy.Base.Text.Eq.{text_eq_iff, text_eq_sym}
use tiny_proxy.Config.Models.{Config, SiteConfig}
use tiny_proxy.Config.Parser.{has_key}
use tiny_proxy.Config.Parser.Invariant.{keyed}
use tiny_proxy.Proxy.Sites.{
  default_port, find_site, get_site, only, sni_matches, sni_sites, strip_port,
}

abbrev Sites : Type 0
Sites = List (Text × SiteConfig)

has_key-perm : (k : Text) {m m' : Sites} → Permᴰ m m' → has_key k m ≡ has_key k m'
unfolding has_key
has_key-perm k Permᴰ.nil = refl
has_key-perm k (Permᴰ.cons e p) = rw (e, has_key-perm k p) refl
has_key-perm k {m = a ∷ b ∷ m} (Permᴰ.swap e f) = rw⁻¹ (e, f) (ground arith)
has_key-perm k (Permᴰ.trans p q) = has_key-perm k p ∙ has_key-perm k q

keyed_swap :
    (a b : Text × SiteConfig) (m : Sites) → keyed (a ∷ b ∷ m) ≡ true → keyed (b ∷ a ∷ m) ≡ true
unfolding keyed has_key
keyed_swap a b m h = ground (arith, text_eq_sym a.0 b.0)

keyed-perm : {m m' : Sites} → Permᴰ m m' → keyed m ≡ true → keyed m' ≡ true
unfolding keyed has_key
keyed-perm Permᴰ.nil h = h
keyed-perm {m = a ∷ m} (Permᴰ.cons {l₂ = m'} e p) h =
    rw⁻¹ e (ground (arith, has_key-perm a.0 p, keyed-perm p))
keyed-perm {m = a ∷ b ∷ m} (Permᴰ.swap e f) h =
    subst (λ l. keyed l ≡ true) (λ i. f i ∷ e i ∷ m) (keyed_swap a b m h)
keyed-perm (Permᴰ.trans p q) h = keyed-perm q (keyed-perm p h)

get_site-perm :
    (k : Text) {m m' : Sites} → Permᴰ m m' → keyed m ≡ true → get_site k m ≡ get_site k m'
unfolding get_site keyed has_key
get_site-perm k Permᴰ.nil h = refl
get_site-perm k {m = a ∷ m} (Permᴰ.cons e p) h = rw⁻¹ e (ground (arith, get_site-perm k p))
get_site-perm k {m = a ∷ b ∷ m} (Permᴰ.swap e f) h =
    rw⁻¹ (e, f) (ground (arith, text_eq_iff a.0 k, text_eq_iff b.0 k, text_eq_iff b.0 a.0))
get_site-perm k (Permᴰ.trans p q) h = get_site-perm k p h ∙ get_site-perm k q (keyed-perm p h)

sni_sites-perm :
    (host : Text) {m m' : Sites} → Permᴰ m m' → Permᴰ (sni_sites host m) (sni_sites host m')
unfolding sni_sites
sni_sites-perm host Permᴰ.nil = Permᴰ.nil
sni_sites-perm host {m = a ∷ m} (Permᴰ.cons e p) =
    rw⁻¹ e (elim (Bool-cases (sni_matches host a.1)) [
      | inl hit ↦ rw hit (Permᴰ.cons refl (sni_sites-perm host p))
      | inr miss ↦ rw miss (sni_sites-perm host p)
    ])
sni_sites-perm host {m = a ∷ b ∷ m} (Permᴰ.swap e f) =
    rw⁻¹ (e, f)
      (elim (Bool-cases (sni_matches host a.1)) [
        | inl hit ↦ elim (Bool-cases (sni_matches host b.1)) [
          | inl too ↦ rw (hit, too) (Permᴰ.swap refl refl)
          | inr miss ↦ rw (hit, miss) (perm_refl _)
        ]
        | inr miss ↦ elim (Bool-cases (sni_matches host b.1)) [
          | inl too ↦ rw (miss, too) (perm_refl _)
          | inr both ↦ rw (miss, both) (perm_refl _)
        ]
      ])
sni_sites-perm host (Permᴰ.trans p q) = Permᴰ.trans (sni_sites-perm host p) (sni_sites-perm host q)

empty-perm : {xs ys : List SiteConfig} → Permᴰ xs ys → is_empty xs ≡ is_empty ys
empty-perm Permᴰ.nil = refl
empty-perm (Permᴰ.cons e p) = refl
empty-perm (Permᴰ.swap e f) = refl
empty-perm (Permᴰ.trans p q) = empty-perm p ∙ empty-perm q

only-perm : {xs ys : List SiteConfig} → Permᴰ xs ys → only xs ≡ only ys
only-perm Permᴰ.nil = refl
only-perm {xs = x ∷ []} {ys = y ∷ []} (Permᴰ.cons e p) = ap some e
only-perm {xs = x ∷ []} {ys = y ∷ z ∷ ys} (Permᴰ.cons e p) = cc (empty-perm p)
only-perm {xs = x ∷ w ∷ xs} {ys = y ∷ []} (Permᴰ.cons e p) = cc (empty-perm p)
only-perm {xs = x ∷ w ∷ xs} {ys = y ∷ z ∷ ys} (Permᴰ.cons e p) = refl
only-perm (Permᴰ.swap e f) = refl
only-perm (Permᴰ.trans p q) = only-perm p ∙ only-perm q

-- Two configurations with the same entries, in any order, and distinct keys: they find the same
-- site for each host.
pub find_site-perm :
    (config config' : Config) (host : Text) (is_tls : Bool)
    → Permᴰ config.sites config'.sites
    → keyed config.sites ≡ true
    → find_site config host is_tls ≡ find_site config' host is_tls
unfolding find_site
find_site-perm config config' host is_tls p h = ground (
  arith,
  get_site-perm host p h,
  get_site-perm (host ++ default_port is_tls) p h,
  get_site-perm (strip_port host) p h,
  only-perm (sni_sites-perm host p),
)
