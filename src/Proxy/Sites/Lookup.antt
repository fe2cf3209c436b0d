-- ===== src/Proxy/Sites/Lookup.antt =====
-- Which site `find_site` finds, src/proxy/handler.rs.
use tiny_proxy.Base.{
  Bool, Bool-cases, List, Option-cases, [], ap, arith, false, inl, inr, some, true, ◌++◌, ◌↔◌, ◌∷◌,
  ◌≡◌,
}
use tiny_proxy.Base.Text.{Text, codes}
use tiny_proxy.Config.Models.{Config, SiteConfig}
use tiny_proxy.Proxy.Sites.{
  default_port, find_site, get_site, has_port, only, sni_sites, strip_port,
}
use tiny_proxy.Proxy.Sites.Entries.{
  Distinct, Entry, Entry-get_site, Named, NoKey, NoKey-get_site, Only-sni_sites, get_site-Entry,
  get_site-NoKey, sni_sites-Only,
}
use tiny_proxy.Proxy.Sites.Hosts.{Ported, Ported-has_port, has_port-Ported}

abbrev pub Bare : Text → Type 0
Bare host = (name : Text) → Ported host name → ⊥

-- Why a site answers for a host: the keys come first that are the host, then the others. To a host
-- without a port, which is bare, the port of the scheme is added, and under TLS the only site of
-- that name will do; a port that is there is left out.
pub data Answers (m : List (Text × SiteConfig)) (host : Text) (is_tls : Bool) (s : SiteConfig)
    : Type 0 where
  exactly : Entry host s m → Answers m host is_tls s
  on_port_80 :
      NoKey host m
      → Bare host
      → is_tls ≡ false
      → Entry (host ++ codes ":80") s m
      → Answers m host is_tls s
  on_port_443 :
      NoKey host m
      → Bare host
      → is_tls ≡ true
      → Entry (host ++ codes ":443") s m
      → Answers m host is_tls s
  by_name :
      (k : Text)
      → NoKey host m
      → Bare host
      → is_tls ≡ true
      → NoKey (host ++ codes ":443") m
      → Entry k s m
      → Named host s
      → ((j : Text) (t : SiteConfig) → Entry j t m → Named host t → j ≡ k)
      → Answers m host is_tls s
  without_port :
      (name : Text) → NoKey host m → Ported host name → Entry name s m → Answers m host is_tls s

only-some : {A : Type 0} (xs : List A) (x : A) → only xs ≡ some x → xs ≡ x ∷ []
only-some [] x e = cc
only-some (y ∷ []) x e = cc e
only-some (y ∷ z ∷ xs) x e = cc

has_port-Bare : (host : Text) → has_port host ≡ false → Bare host
has_port-Bare host e name p = cc ((Ported-has_port host name p).0, e)

Bare-has_port : (host : Text) → Bare host → has_port host ≡ false
Bare-has_port host bare = elim (Bool-cases (has_port host)) [
  | inl ported ↦ absurd (bare (strip_port host) (has_port-Ported host ported))
  | inr free ↦ free
]

find_site-Answers :
    (config : Config) (host : Text) (is_tls : Bool) (s : SiteConfig)
    → Distinct config.sites
    → find_site config host is_tls ≡ some s
    → Answers config.sites host is_tls s
unfolding find_site default_port
find_site-Answers config host is_tls s d e =
    let m = config.sites in
    elim (Option-cases (get_site host m)) [
      | inr (t, hit) ↦ exactly (get_site-Entry host m s (ground arith))
      | inl miss ↦
          let free = get_site-NoKey host m d miss in
          elim (Bool-cases (has_port host)) [
            | inl ported ↦
                without_port (strip_port host) free (has_port-Ported host ported)
                  (get_site-Entry (strip_port host) m s (ground arith))
            | inr no_port ↦
                let bare = has_port-Bare host no_port in
                elim (Bool-cases is_tls) [
                  | inr insecure ↦
                      on_port_80 free bare insecure
                        (get_site-Entry (host ++ codes ":80") m s (ground arith))
                  | inl is_secure ↦ elim (Option-cases (get_site (host ++ codes ":443") m)) [
                    | inr (t, hit) ↦
                        on_port_443 free bare is_secure
                          (get_site-Entry (host ++ codes ":443") m s (ground arith))
                    | inl none_there ↦
                        let (k, (found, named, unique)) =
                          sni_sites-Only host m s (only-some (sni_sites host m) s (ground arith)) in
                        by_name k free bare is_secure
                          (get_site-NoKey (host ++ codes ":443") m d none_there) found named unique
                  ]
                ]
          ]
    ]

Answers-find_site :
    (config : Config) (host : Text) (is_tls : Bool) (s : SiteConfig)
    → Distinct config.sites
    → Answers config.sites host is_tls s
    → find_site config host is_tls ≡ some s
unfolding find_site default_port
Answers-find_site config host is_tls s d (exactly found) =
    ground (arith, Entry-get_site host config.sites s d found)
Answers-find_site config host is_tls s d (on_port_80 free bare insecure found) = ground (
  arith,
  NoKey-get_site host config.sites free,
  Bare-has_port host bare,
  Entry-get_site (host ++ codes ":80") config.sites s d found,
)
Answers-find_site config host is_tls s d (on_port_443 free bare is_secure found) = ground (
  arith,
  NoKey-get_site host config.sites free,
  Bare-has_port host bare,
  Entry-get_site (host ++ codes ":443") config.sites s d found,
)
Answers-find_site config host is_tls s d
      (by_name k free bare is_secure free_443 found named unique) =
    ground (
      arith,
      NoKey-get_site host config.sites free,
      Bare-has_port host bare,
      NoKey-get_site (host ++ codes ":443") config.sites free_443,
      Only-sni_sites host config.sites k s d (found, named, unique),
    )
Answers-find_site config host is_tls s d (without_port name free ported found) =
    let (seen, cut) = Ported-has_port host name ported in
    ground (
      arith,
      NoKey-get_site host config.sites free,
      seen,
      ap (λ k. get_site k config.sites) cut,
      Entry-get_site name config.sites s d found,
    )

-- In a configuration with distinct keys a site is found for a host exactly if it answers for it.
-- The entry whose key is the host comes first. If there is none, a host with a port finds the entry
-- of its name: what stands before the last colon, or between brackets. A host without a port finds
-- the entry of the host with `:443` under TLS and with `:80` else; under TLS, where there is none,
-- the site with TLS whose name is the host, without regard to case, if it is the only one.
pub find_site_iff :
    (config : Config) (host : Text) (is_tls : Bool) (s : SiteConfig)
    → Distinct config.sites
    → (find_site config host is_tls ≡ some s) ↔ Answers config.sites host is_tls s
find_site_iff config host is_tls s d =
    (find_site-Answers config host is_tls s d, Answers-find_site config host is_tls s d)
