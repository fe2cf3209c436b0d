-- ===== src/Server/Agreeing.antt =====
-- The groups of sites that agree: those of one socket are alike, and their names differ.
-- Two sites of one socket: both without TLS, or both with TLS and different names.
use tiny_proxy.Base.{All, List, [], is_some, refl, true, ◌++◌, ◌∷◌, ◌≡◌, ◌≢◌}
use tiny_proxy.Base.Result.{ok}
use tiny_proxy.Base.Text.{Text}
use tiny_proxy.Config.Address.{SocketAddr}
use tiny_proxy.Config.Models.{SiteConfig}
use tiny_proxy.Config.Sockets.{sni_of}
use tiny_proxy.Config.Sockets.Agreement.{Agree, AllAgree, both_plain, other_name, other_socket}
use tiny_proxy.Http.{Codec}
use tiny_proxy.Server.{Groups, group_sites, push_site}
use tiny_proxy.Server.Groups.{
  All-concat, AllGroups, AllListen, EachGroup, ListensOn, push_site-AllGroups, push_site-EachGroup,
}

abbrev pub Together : SiteConfig → SiteConfig → Type 0
Together s t = (is_some s.tls ≡ is_some t.tls) × (is_some s.tls ≡ true → sni_of s ≢ sni_of t)

abbrev pub AllTogether : List SiteConfig → Type 0
AllTogether [] = Unit
AllTogether (s ∷ sites) = All (Together s) sites × AllTogether sites

AllTogether-concat :
    (sites : List SiteConfig) (s : SiteConfig)
    → All (λ x. Together x s) sites
    → AllTogether sites
    → AllTogether (sites ++ s ∷ [])
AllTogether-concat [] s h k = (tt, tt)
AllTogether-concat (x ∷ sites) s (p, h) (q, k) =
    ((All-concat (Together x) sites s).1 (q, p), AllTogether-concat sites s h k)

module _ ⦃c : Codec⦄ where
  Agree-Together :
      (a : SocketAddr) (s t : SiteConfig) → ListensOn a s → ListensOn a t → Agree s t → Together s t
  Agree-Together a s t e f (other_socket b d e' f' ne) = absurd (ne (cc (e, e', f, f')))
  Agree-Together a s t e f (both_plain b e' f' p q) = (cc (p, q), λ secure. cc (p, secure))
  Agree-Together a s t e f (other_name b e' f' p q ne) = (cc (p, q), λ secure. ne)

  -- The sites of a group.
  abbrev pub Alike : SocketAddr → List SiteConfig → Type 0
  Alike a sites = AllListen a sites × AllTogether sites

  AllTogether-last :
      (a : SocketAddr) (s : SiteConfig) (sites : List SiteConfig)
      → ListensOn a s
      → AllListen a sites
      → All (λ x. Agree x s) sites
      → All (λ x. Together x s) sites
  AllTogether-last a s [] e l h = tt
  AllTogether-last a s (x ∷ sites) e (f, l) (p, h) =
      (Agree-Together a x s f e p, AllTogether-last a s sites e l h)

  -- A site that agrees with those of its group joins them.
  Alike-concat :
      (a : SocketAddr) (s : SiteConfig)
      → ListensOn a s
      → (sites : List SiteConfig) → All (λ x. Agree x s) sites
      → Alike a sites
      → Alike a (sites ++ s ∷ [])
  Alike-concat a s e sites h (l, k) = (
    (All-concat (ListensOn a) sites s).1 (l, e),
    AllTogether-concat sites s (AllTogether-last a s sites e l h) k,
  )

  -- Each site of the groups agrees with the sites that are left.
  abbrev AgreeAll : List (Text × SiteConfig) → SiteConfig → Type 0
  AgreeAll sites x = All (λ e. Agree x e.1) sites

  AllGroups-parts :
      (P Q : SiteConfig → Type 0) (groups : Groups)
      → AllGroups (λ x. P x × Q x) groups
      → AllGroups P groups × AllGroups Q groups
  AllGroups-parts P Q [] h = (tt, tt)
  AllGroups-parts P Q ((a, sites) ∷ groups) (g, h) =
      let (p, q) = parts sites g in
      let (ps, qs) = AllGroups-parts P Q groups h in ((p, ps), (q, qs))
    where
      parts : (sites : List SiteConfig) → All (λ x. P x × Q x) sites → All P sites × All Q sites
      parts [] h = (tt, tt)
      parts (x ∷ sites) ((p, q), h) = let (ps, qs) = parts sites h in ((p, ps), (q, qs))

  -- Sites that agree are all grouped, with sites that they are alike to.
  pub group_sites-Alike :
      (sites : List (Text × SiteConfig)) (groups : Groups)
      → AllAgree sites
      → AllGroups (AgreeAll sites) groups
      → EachGroup Alike groups
      → (out : Groups) × (group_sites sites groups ≡ ok out) × EachGroup Alike out
  unfolding group_sites
  group_sites-Alike [] groups agree held each = (groups, refl, each)
  group_sites-Alike ((k, s) ∷ sites) groups ((a, e), away, agree) held each =
      let (own, left) = AllGroups-parts (λ x. Agree x s) (AgreeAll sites) groups held in
      let (out, done, alike) =
        group_sites-Alike sites (push_site a s groups) agree
          ((push_site-AllGroups (AgreeAll sites) a s groups).1 (away, left))
          (push_site-EachGroup Alike (λ x. Agree x s) a s groups ((e, tt), (tt, tt))
            (Alike-concat a s e) own each) in
      (out, rw e done, alike)
