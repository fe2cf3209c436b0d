-- ===== src/Config/Sockets/Order.antt =====
-- The validation of listen sockets goes through a hash map, whose order is arbitrary.
use mathlib.Core.List.{Permᴰ}
use mathlib.Core.Path.{subst}
use tiny_proxy.Base.{All-perm, List, perm_sym, sym, ◌↔◌, ◌∷◌, ◌≡◌}
use tiny_proxy.Base.Result.{ok}
use tiny_proxy.Base.Text.{Text}
use tiny_proxy.Config.Models.{SiteConfig}
use tiny_proxy.Config.Sockets.{Seen, validate_listen_sockets}
use tiny_proxy.Config.Sockets.Agreement.{
  Agree, AllAgree, both_plain, other_name, other_socket, validate_listen_sockets_iff,
}
use tiny_proxy.Http.{Codec}

module _ ⦃c : Codec⦄ where
  Agree-sym : (s t : SiteConfig) → Agree s t → Agree t s
  Agree-sym s t (other_socket a b e f ne) = other_socket b a f e (λ x. ne (sym x))
  Agree-sym s t (both_plain a e f p q) = both_plain a f e q p
  Agree-sym s t (other_name a e f p q ne) = other_name a f e q p (λ x. ne (sym x))

  AllAgree-perm : {m m' : List (Text × SiteConfig)} → Permᴰ m m' → AllAgree m → AllAgree m'
  AllAgree-perm Permᴰ.nil h = tt
  AllAgree-perm {m = a ∷ m} (Permᴰ.cons e p) ((at, listens), away, agree) =
      rw⁻¹ e ((at, listens), All-perm _ p away, AllAgree-perm p agree)
  AllAgree-perm {m = a ∷ b ∷ m} (Permᴰ.swap e f) (a_at, (ab, away), (b_at, baway, agree)) =
      subst AllAgree (λ i. f i ∷ e i ∷ m) (b_at, (Agree-sym a.1 b.1 ab, baway), (a_at, away, agree))
  AllAgree-perm (Permᴰ.trans p q) h = AllAgree-perm q (AllAgree-perm p h)

  -- Whether the sites of a configuration are accepted does not depend on the order in which the
  -- hash map of the sites gives them.
  pub validate_listen_sockets-perm :
      (m m' : List (Text × SiteConfig))
      → Permᴰ m m'
      → ((last : Seen) × (validate_listen_sockets m ≡ ok last))
        ↔ ((last : Seen) × (validate_listen_sockets m' ≡ ok last))
  validate_listen_sockets-perm m m' p = (
    λ h. (validate_listen_sockets_iff m').1 (AllAgree-perm p ((validate_listen_sockets_iff m).0 h)),
    λ h.
        (validate_listen_sockets_iff m).1
          (AllAgree-perm (perm_sym p) ((validate_listen_sockets_iff m').0 h)),
  )
