-- ===== src/Config/Models/Ranges.antt =====
-- The values that the types of src/config/models.rs allow: `u16` and `u64` are numbers below a
-- bound here, a `HeaderName` is what a conversion gives, and an endpoint is a normalized URI.
use tiny_proxy.Base.{All, List, Option, arith, none, some, ℕ, ◌<◌, ◌≡◌, ◌⊎◌}
use tiny_proxy.Base.Result.{ok}
use tiny_proxy.Base.Text.{Text, text_eq}
use tiny_proxy.Config.Address.{u16_bound, u64_bound}
use tiny_proxy.Config.Models.{
  Directive, Directives, ForwardAuthConfig, SiteConfig, cons, default_request_headers, forward_auth,
  handle_path, header, method, nil, normalize_auth_endpoint, push, redirect, respond, reverse_proxy,
  strip_prefix, uri_replace, with_default_path,
}
use tiny_proxy.Config.Models.Endpoint.{IsEndpoint}
use tiny_proxy.Http.{Codec, HeaderName, Uri}

abbrev pub Below : ℕ → Option ℕ → Type 0
Below bound none = Unit
Below bound (some n) = n < bound

module _ ⦃c : Codec⦄ where
  -- A text that was converted to a header name.
  abbrev pub IsName : HeaderName → Type 0
  IsName n = (t : Text) × (c.name_from_bytes t ≡ some n)

  -- Names that were converted, or the ones that stand for a missing setting.
  abbrev pub AreNames : List HeaderName → Type 0
  AreNames ns = (ns ≡ default_request_headers) ⊎ All IsName ns

  abbrev pub AuthInRange : ForwardAuthConfig → Type 0
  AuthInRange f =
      IsEndpoint f.endpoint f.endpoint
      × AreNames f.request_headers
      × All IsName f.response_headers
      × (f.timeout_secs < u64_bound)

  unfoldable mutual
    pub InRange : Directive → Type 0
    InRange (reverse_proxy to dial wait up) = Below u64_bound dial × Below u64_bound wait
    InRange (handle_path p ds) = AllInRange ds
    InRange (uri_replace find by) = Unit
    InRange (header name value) = Unit
    InRange (method names ds) = AllInRange ds
    InRange (strip_prefix p) = Unit
    InRange (redirect status url) = status < u16_bound
    InRange (respond status body) = status < u16_bound
    InRange (forward_auth f) = AuthInRange f

    -- All directives, those inside of blocks included.
    pub AllInRange : Directives → Type 0
    AllInRange nil = Unit
    AllInRange (cons d ds) = InRange d × AllInRange ds

  -- Every site has such directives.
  abbrev pub SitesInRange : List (Text × SiteConfig) → Type 0
  SitesInRange sites = All (λ e. AllInRange e.1.directives) sites

  pub push-AllInRange :
      (ds : Directives) (d : Directive) → AllInRange ds → InRange d → AllInRange (push ds d)
  unfolding push AllInRange
  push-AllInRange nil d h p = (p, tt)
  push-AllInRange (cons e ds) d (q, h) p = (q, push-AllInRange ds d h p)

  -- What the validation returns needs no further change.
  pub IsEndpoint-own : (uri u : Uri) → IsEndpoint uri u → IsEndpoint u u
  IsEndpoint-own uri u (scheme, (a, here', given), path) = (scheme, (a, here', here'), path)

  -- An endpoint that was validated is accepted again, as it is.
  pub normalize_auth_endpoint_again : (u : Uri) → IsEndpoint u u → normalize_auth_endpoint u ≡ ok u
  unfolding normalize_auth_endpoint with_default_path text_eq
  normalize_auth_endpoint_again u (scheme, (a, e, _), (p, f)) = ground (arith, scheme, e, f)
