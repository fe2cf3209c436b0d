-- ===== src/Config/Parser/Typed/Blocks.antt =====
-- The directive that a closed block stands for has values in the ranges of the Rust types.
use mathlib.Core.Option
use mathlib.Core.Path.{subst}
use tiny_proxy.Base.{
  All, List, Option, Option-cases, [], arith, inl, inr, map, none, refl, some, ℕ, ◌<◌, ◌∷◌,
}
use tiny_proxy.Base.Result.{
  Gives, Gives-bind, Gives-collect, Gives-intro, Gives-map, Gives-map_err, Gives-ok_or, gives,
  map_err, ok, ok_or, stops,
}
use tiny_proxy.Base.Text.{Text, codes}
use tiny_proxy.Config.Address.{u64_bound}
use tiny_proxy.Config.Models.{
  Directives, default_auth_timeout_secs, default_request_headers, normalize_auth_endpoint,
}
use tiny_proxy.Config.Models.Endpoint.{IsEndpoint, normalize_auth_endpoint-IsEndpoint}
use tiny_proxy.Config.Models.Ranges.{AllInRange, AreNames, Below, InRange, IsEndpoint-own, IsName}
use tiny_proxy.Config.Parser.{
  ForwardAuthBlock, PendingBlock, forward_auth_bad_endpoint, invalid_header_name,
}
use tiny_proxy.Config.Parser.Blocks.{build_forward_auth, complete_block, parse_headers}
use tiny_proxy.Config.Parser.Typed.{BlockInRange, PendingInRange, SettingsInRange}
use tiny_proxy.Http.{Codec, Uri}

module _ ⦃c : Codec⦄ where
  names_of-IsName :
      (names : List Text) (what : Text) (line : ℕ)
      → All
          (Gives IsName)
          (map (λ n. ok_or (c.name_from_bytes n) (invalid_header_name n what line)) names)
  names_of-IsName [] what line = tt
  names_of-IsName (n ∷ names) what line =
      (Gives-ok_or (c.name_from_bytes n) _ (λ a e. (n, e)), names_of-IsName names what line)

  parse_headers-IsName :
      (names : List Text) (what : Text) (line : ℕ)
      → Gives (All IsName) (parse_headers names what line)
  unfolding parse_headers
  parse_headers-IsName names what line = Gives-collect _ (names_of-IsName names what line)

  request_headers-AreNames :
      (names : Option (List Text)) (line : ℕ)
      → Gives AreNames (elim names [
        | some ns ↦ parse_headers ns (codes "request_headers") line
        | none ↦ ok default_request_headers
      ])
  request_headers-AreNames none line = gives _ (inl refl)
  request_headers-AreNames (some ns) line =
      Gives-map (λ _ p. inr p) (parse_headers-IsName ns (codes "request_headers") line)

  response_headers-IsName :
      (names : Option (List Text)) (line : ℕ)
      → Gives
          (All IsName)
          (elim names [ some ns ↦ parse_headers ns (codes "response_headers") line | none ↦ ok [] ])
  response_headers-IsName none line = gives _ tt
  response_headers-IsName (some ns) line = parse_headers-IsName ns (codes "response_headers") line

  validated-IsEndpoint :
      (raw : Text) (line : ℕ) (uri : Uri)
      → Gives
          (λ u. IsEndpoint u u)
          (map_err (forward_auth_bad_endpoint raw line) (normalize_auth_endpoint uri))
  validated-IsEndpoint raw line uri = Gives-map_err _ (
      Gives-intro (normalize_auth_endpoint uri)
        (λ u e. IsEndpoint-own uri u (normalize_auth_endpoint-IsEndpoint uri u e)))

  timeout-lt :
      (t : Option ℕ) → Below u64_bound t → Option.get_or t default_auth_timeout_secs < u64_bound
  unfolding default_auth_timeout_secs
  timeout-lt none h = omega arith
  timeout-lt (some n) h = h

  build_forward_auth-InRange :
      (p : ForwardAuthBlock) (line : ℕ)
      → SettingsInRange p
      → Gives InRange (build_forward_auth p line)
  unfolding build_forward_auth InRange
  build_forward_auth-InRange p line h =
      Gives-bind (Gives-ok_or {P = λ x. Unit {0}} p.to _ (λ a e. tt)) λ raw _.
        Gives-bind (Gives-ok_or {P = λ x. Unit {0}} (c.uri_from_str raw) _ (λ a e. tt)) λ uri _.
          Gives-bind (validated-IsEndpoint raw line uri) λ u valid.
            Gives-bind (request_headers-AreNames p.request_headers line) λ rs are.
              Gives-bind (response_headers-IsName p.response_headers line)
                λ ss have. gives _ (valid, are, have, timeout-lt p.timeout h)

  pub complete_block-InRange :
      (b : PendingBlock) (ds : Directives) (line : ℕ)
      → BlockInRange b
      → AllInRange ds
      → Gives InRange (complete_block b ds line)
  unfolding complete_block InRange
  complete_block-InRange b ds line (dial, wait, auth) h = elim (Option-cases b.forward_auth) [
    | inl missing ↦ grind (arith, gives, stops)
    | inr (p, has) ↦
        let sound : SettingsInRange p = subst PendingInRange has auth in
        grind (arith, gives, stops, build_forward_auth-InRange p line sound)
  ]
