-- ===== src/Server/Groups.antt =====
-- The sites by their sockets, the first loop of `start_all`.
-- A property of each site of each group.
use mathlib.Core.Path.{subst}
use tiny_proxy.Base.{
  All, All-intro, Bool, Bool-cases, List, Option-cases, [], arith, inl, inr, not, refl, some, sym,
  true, ◌&&◌, ◌++◌, ◌↔◌, ◌∷◌, ◌≡◌,
}
use tiny_proxy.Base.Result.{ok}
use tiny_proxy.Base.Text.{Text, join}
use tiny_proxy.Config.Address.{SocketAddr, resolve_listen_addr}
use tiny_proxy.Config.Models.{SiteConfig}
use tiny_proxy.Config.Sockets.{addr_eq}
use tiny_proxy.Config.Sockets.Steps.{addr_eq_iff}
use tiny_proxy.Http.{Codec}
use tiny_proxy.Server.{Groups, group_sites, push_site}

abbrev pub AllGroups : (SiteConfig → Type 0) → Groups → Type 0
AllGroups P groups = All (λ g. All P g.1) groups

pub All-concat :
    (P : SiteConfig → Type 0) (xs : List SiteConfig) (s : SiteConfig)
    → All P (xs ++ s ∷ []) ↔ (All P xs × P s)
All-concat P [] s = (λ h. (tt, h.0), λ h. (h.1, tt))
All-concat P (x ∷ xs) s =
    let rest = All-concat P xs s in
    (λ h. ((h.0, (rest.0 h.1).0), (rest.0 h.1).1), λ h. (h.0.0, rest.1 (h.0.1, h.1)))

pub push_site-AllGroups :
    (P : SiteConfig → Type 0) (a : SocketAddr) (s : SiteConfig) (groups : Groups)
    → AllGroups P (push_site a s groups) ↔ (P s × AllGroups P groups)
unfolding push_site
push_site-AllGroups P a s [] = (λ h. (h.0.0, tt), λ h. ((h.0, tt), tt))
push_site-AllGroups P a s ((b, sites) ∷ groups) = elim (Bool-cases (addr_eq b a)) [
  | inl same ↦
      let one = All-concat P sites s in
      rw same (λ h. ((one.0 h.0).1, ((one.0 h.0).0, h.1)), λ h. (one.1 (h.1.0, h.0), h.1.1))
  | inr other ↦
      let rest = push_site-AllGroups P a s groups in
      rw other (λ h. ((rest.0 h.1).0, (h.0, (rest.0 h.1).1)), λ h. (h.1.0, rest.1 (h.0, h.1.1)))
]

-- Whether no group has the socket, and whether the groups have different sockets.
unfoldable pub no_group : SocketAddr → Groups → Bool
no_group a [] = true
no_group a ((b, sites) ∷ groups) = not (addr_eq b a) && no_group a groups

unfoldable pub distinct_groups : Groups → Bool
distinct_groups [] = true
distinct_groups ((b, sites) ∷ groups) = no_group b groups && distinct_groups groups

no_group-push_site :
    (b a : SocketAddr) (s : SiteConfig) (groups : Groups)
    → no_group b (push_site a s groups) ≡ (not (addr_eq a b) && no_group b groups)
unfolding no_group push_site
no_group-push_site b a s [] = ground arith
no_group-push_site b a s ((d, sites) ∷ groups) =
    ground
      (arith, no_group-push_site b a s groups, addr_eq_iff d a, addr_eq_iff d b, addr_eq_iff a b)

addr_eq_sym : (a b : SocketAddr) → addr_eq a b ≡ addr_eq b a
addr_eq_sym a b = ground (arith, addr_eq_iff a b, addr_eq_iff b a)

push_site-distinct :
    (a : SocketAddr) (s : SiteConfig) (groups : Groups)
    → distinct_groups groups ≡ true
    → distinct_groups (push_site a s groups) ≡ true
unfolding distinct_groups push_site no_group
push_site-distinct a s [] h = refl
push_site-distinct a s ((d, sites) ∷ groups) h =
    ground (arith, push_site-distinct a s groups, no_group-push_site d a s groups, addr_eq_sym d a)

-- What holds of each group with its socket.
abbrev pub EachGroup : (SocketAddr → List SiteConfig → Type 0) → Groups → Type 0
EachGroup Q groups = All (λ g. Q g.0 g.1) groups

-- The groups after the loop: a property of all sites holds of all that are grouped, and back.
module _ ⦃c : Codec⦄ where
  pub group_sites-distinct :
      (sites : List (Text × SiteConfig)) (groups out : Groups)
      → group_sites sites groups ≡ ok out
      → distinct_groups groups ≡ true
      → distinct_groups out ≡ true
  unfolding group_sites
  group_sites-distinct [] groups out e h = cc (e, h)
  group_sites-distinct ((k, s) ∷ sites) groups out e h =
      elim (Option-cases (resolve_listen_addr s.address)) [
        | inl bad ↦ cc (rw (bad, group_sites) at e)
        | inr (a, good) ↦
            group_sites-distinct sites (push_site a s groups) out (rw (good, group_sites) at e)
              (push_site-distinct a s groups h)
      ]

  pub group_sites-AllGroups :
      (P : SiteConfig → Type 0) (sites : List (Text × SiteConfig)) (groups out : Groups)
      → group_sites sites groups ≡ ok out
      → AllGroups P out ↔ (All (λ e. P e.1) sites × AllGroups P groups)
  unfolding group_sites
  group_sites-AllGroups P [] groups out e =
      let same : groups ≡ out = cc e in
      (λ h. (tt, subst (AllGroups P) (sym same) h), λ h. subst (AllGroups P) same h.1)
  group_sites-AllGroups P ((k, s) ∷ sites) groups out e =
      elim (Option-cases (resolve_listen_addr s.address)) [
        | inl bad ↦ cc (rw (bad, group_sites) at e)
        | inr (a, good) ↦
            let rest =
              group_sites-AllGroups P sites (push_site a s groups) out
                (rw (good, group_sites) at e) in
            let pushed = push_site-AllGroups P a s groups in
            (
              λ h.
                  let (tail, grouped) = rest.0 h in
                  let (own, old) = pushed.0 grouped in ((own, tail), old),
              λ ((own, tail), old). rest.1 (tail, pushed.1 (own, old)),
            )
      ]

pub push_site-EachGroup :
    (Q : SocketAddr → List SiteConfig → Type 0) (P : SiteConfig → Type 0) (a : SocketAddr)
    (s : SiteConfig) (groups : Groups)
    → Q a (s ∷ [])
    → ((sites : List SiteConfig) → All P sites → Q a sites → Q a (sites ++ s ∷ []))
    → AllGroups P groups
    → EachGroup Q groups
    → EachGroup Q (push_site a s groups)
unfolding push_site
push_site-EachGroup Q P a s [] own join held each = (own, tt)
push_site-EachGroup Q P a s ((b, sites) ∷ groups) own join (p, held) (q, each) =
    elim (Bool-cases (addr_eq b a)) [
      | inl same ↦
          let one = (addr_eq_iff b a).0 same in
          rw same (
            subst (λ x. Q x (sites ++ s ∷ [])) (sym one)
                (join sites p (subst (λ x. Q x sites) one q)),
            each,
          )
      | inr other ↦ rw other (q, push_site-EachGroup Q P a s groups own join held each)
    ]

module _ ⦃c : Codec⦄ where
  -- A site has the socket of its group.
  abbrev pub ListensOn : SocketAddr → SiteConfig → Type 0
  ListensOn a s = resolve_listen_addr s.address ≡ some a

  abbrev pub AllListen : SocketAddr → List SiteConfig → Type 0
  AllListen a sites = All (ListensOn a) sites

  pub group_sites-AllListen :
      (sites : List (Text × SiteConfig)) (groups out : Groups)
      → group_sites sites groups ≡ ok out
      → EachGroup AllListen groups
      → EachGroup AllListen out
  unfolding group_sites
  group_sites-AllListen [] groups out e h =
      let same : groups ≡ out = cc e in subst (EachGroup AllListen) same h
  group_sites-AllListen ((k, s) ∷ sites) groups out e h =
      elim (Option-cases (resolve_listen_addr s.address)) [
        | inl bad ↦ cc (rw (bad, group_sites) at e)
        | inr (a, good) ↦
            group_sites-AllListen sites (push_site a s groups) out (rw (good, group_sites) at e) (
              push_site-EachGroup AllListen (λ s. Unit) a s groups (good, tt)
                (λ others _ at_a. (All-concat (ListensOn a) others s).1 (at_a, good))
                (All-intro _ (λ g. All-intro (λ s. Unit) (λ s. tt) g.1) groups) h)
      ]
