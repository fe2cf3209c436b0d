-- ===== src/Config/Models.antt =====
-- The configuration tree, src/config/models.rs, and the validation of auth endpoints.
pub mod Endpoint
pub mod Ranges
pub mod Serde
use tiny_proxy.Base.{
  Bool, List, Option, [], false, if◌then◌else◌, inl, inr, none, not, refl, some, true, ℕ, ◌&&◌, ◌∷◌,
  ◌≡◌, ◌⊎◌,
}
use tiny_proxy.Base.Result.{Result, err, ok, ok_or, ◌>>=◌}
use tiny_proxy.Base.Text.{Text, codes, text_eq}
use tiny_proxy.Http.{Codec, HeaderName, Uri}

pub record TlsConfig : Type 0 where
  pub cert_path : Text
  pub key_path : Text

-- `value` is `none` where the header is to be removed.
pub record HeaderDirective : Type 0 where
  pub name : Text
  pub value : Option Text

pub data FailureMode : Type 0 where
  closed open_mode : FailureMode

pub FailureMode-cases : (m : FailureMode) → (m ≡ closed) ⊎ (m ≡ open_mode)
FailureMode-cases closed = inl refl
FailureMode-cases open_mode = inr refl

pub record ForwardAuthConfig : Type 0 where
  pub endpoint : Uri
  pub request_headers : List HeaderName
  pub response_headers : List HeaderName
  pub failure_mode : FailureMode
  pub timeout_secs : ℕ

mutual
  pub data Directive : Type 0 where
    reverse_proxy : Text → Option ℕ → Option ℕ → List HeaderDirective → Directive
    handle_path : Text → Directives → Directive
    uri_replace : Text → Text → Directive
    header : Text → Option Text → Directive
    method : List Text → Directives → Directive
    strip_prefix : Text → Directive
    redirect : ℕ → Text → Directive
    respond : ℕ → Text → Directive
    forward_auth : ForwardAuthConfig → Directive

  -- `Vec<Directive>`.
  pub data Directives : Type 0 where
    nil : Directives
    cons : Directive → Directives → Directives

-- `push`.
unfoldable pub push : Directives → Directive → Directives
push nil d = cons d nil
push (cons e ds) d = cons e (push ds d)

unfoldable pub no_directives : Directives → Bool
no_directives nil = true
no_directives (cons d ds) = false

pub record SiteConfig : Type 0 where
  pub address : Text
  pub directives : Directives
  pub tls : Option TlsConfig

-- `HashMap<String, SiteConfig>`, in some order.
pub record Config : Type 0 where
  pub sites : List (Text × SiteConfig)

unfoldable pub default_request_headers : List HeaderName
default_request_headers = codes "authorization" ∷ codes "cookie" ∷ []

unfoldable pub default_auth_timeout_secs : ℕ
default_auth_timeout_secs = 5

pub data EndpointError : Type 0 where
  missing_scheme : EndpointError
  unsupported_scheme : Text → EndpointError
  missing_host : EndpointError
  no_default_path : EndpointError
  bad_parts : EndpointError

module _ ⦃c : Codec⦄ where
  -- The last steps: an empty path is replaced by `/`.
  unfoldable pub with_default_path : Uri → Result EndpointError Uri
  with_default_path uri = elim uri.path_and_query [
    | some p ↦ ok uri
    | none ↦ do
      slash ← ok_or (c.path_and_query_from_str (codes "/")) no_default_path
      ok_or (c.uri_from_parts (record uri { path_and_query = some slash })) bad_parts
  ]

  unfoldable pub normalize_auth_endpoint : Uri → Result EndpointError Uri
  normalize_auth_endpoint uri = do
    scheme ← ok_or uri.scheme missing_scheme
    let unsupported = not (text_eq scheme (codes "http")) && not (text_eq scheme (codes "https"))
    let rest = ok_or uri.authority missing_host >>= λ _. with_default_path uri
    if unsupported then err (unsupported_scheme scheme) else rest
