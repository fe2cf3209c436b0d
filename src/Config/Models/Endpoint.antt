-- ===== src/Config/Models/Endpoint.antt =====
-- What a validated auth endpoint is.
use tiny_proxy.Base.{Option-cases, ap, arith, inl, inr, refl, some, sym, ◌∙◌, ◌≡◌, ◌⊎◌}
use tiny_proxy.Base.Result.{ok}
use tiny_proxy.Base.Text.{Text, codes}
use tiny_proxy.Base.Text.Eq.{text_eq_iff}
use tiny_proxy.Config.Models.{normalize_auth_endpoint, with_default_path}
use tiny_proxy.Http.{Codec, Uri}

-- An endpoint that subrequests can go to: a scheme of HTTP, an authority, and a path.
abbrev pub IsEndpoint : Uri → Uri → Type 0
IsEndpoint uri u =
    ((u.scheme ≡ some (codes "http")) ⊎ (u.scheme ≡ some (codes "https")))
    × ((a : Text) × (u.authority ≡ some a) × (uri.authority ≡ some a))
    × ((p : Text) × (u.path_and_query ≡ some p))

module _ ⦃c : Codec⦄ where
  with_default_path_ok :
      (uri u : Uri)
      → with_default_path uri ≡ ok u
      → (u.scheme ≡ uri.scheme)
        × (u.authority ≡ uri.authority)
        × ((p : Text) × (u.path_and_query ≡ some p))
  unfolding with_default_path
  with_default_path_ok uri u e = elim (Option-cases uri.path_and_query) [
    | inr (p, there) ↦
        let same : uri ≡ u = cc (rw (there, with_default_path) at e) in
        (
          ap (λ x. x.scheme) (sym same),
          ap (λ x. x.authority) (sym same),
          (p, ap (λ x. x.path_and_query) (sym same) ∙ there),
        )
    | inl missing ↦ elim (Option-cases (c.path_and_query_from_str (codes "/"))) [
      | inl bad ↦ cc (rw (missing, bad, with_default_path) at e)
      | inr (slash, good) ↦
          let parts : Uri = record uri { path_and_query = some slash } in
          elim (Option-cases (c.uri_from_parts parts)) [
            | inl wrong ↦ cc (rw (missing, good, wrong, with_default_path) at e)
            | inr (v, right) ↦
                let same : v ≡ u = cc (rw (missing, good, right, with_default_path) at e) in
                let whole : u ≡ parts = sym same ∙ c.uri_from_parts_eq parts slash v refl right in
                (
                  ap (λ x. x.scheme) whole,
                  ap (λ x. x.authority) whole,
                  (slash, ap (λ x. x.path_and_query) whole),
                )
          ]
    ]
  ]

  -- An endpoint that is accepted has the scheme `http` or `https`, the authority that was given,
  -- and a path.
  pub normalize_auth_endpoint-IsEndpoint :
      (uri u : Uri) → normalize_auth_endpoint uri ≡ ok u → IsEndpoint uri u
  unfolding normalize_auth_endpoint
  normalize_auth_endpoint-IsEndpoint uri u e = elim (Option-cases uri.scheme) [
    | inl none_given ↦ ground arith
    | inr (scheme, given) ↦ elim (Option-cases uri.authority) [
      | inl nowhere ↦ ground arith
      | inr (a, there) ↦
          let done : with_default_path uri ≡ ok u = ground arith in
          let (same_scheme, same_authority, path) = with_default_path_ok uri u done in
          (
            ground (arith, text_eq_iff scheme (codes "http"), text_eq_iff scheme (codes "https")),
            (a, same_authority ∙ there, there),
            path,
          )
    ]
  ]
