-- ===== src/Api/Middleware.antt =====
-- The key of the management API, src/api/middleware.rs, which no server calls, and the validation
-- of tokens, src/auth/validator.rs, which does not ask the validator yet.
-- The requests that `auth_middleware` turns away; both get status 401.
use mathlib.Core.Option
use tiny_proxy.Api.{ApiResponse}
use tiny_proxy.Base.{
  Bool, Bool-cases, Option-cases, ap, arith, if◌then◌else◌, inl, inr, none, refl, some, true, ◌++◌,
  ◌∙◌, ◌≡◌, ◌≢◌, ◌⊎◌,
}
use tiny_proxy.Base.Result.{Result, err, ok}
use tiny_proxy.Base.Text.{Text, codes, text_eq}
use tiny_proxy.Base.Text.Eq.{text_eq_iff}
use tiny_proxy.Http.{Codec, HeaderName, Headers, Request, get, get_str}

pub data Unauthorized : Type 0 where
  invalid_api_key : Unauthorized
  missing_api_key : Unauthorized

unfoldable pub unauthorized_message : Unauthorized → Text
unauthorized_message invalid_api_key = codes "Invalid API key"
unauthorized_message missing_api_key = codes "Missing API key"

unfoldable pub unauthorized_response : Text → ApiResponse
unauthorized_response message = record {
  status = 401;
  content_type = some (codes "application/json");
  body = codes "{\"error\": \"Unauthorized\", \"message\": \"" ++ (message ++ codes "\"}");
}

abbrev pub api_key_name : HeaderName
api_key_name = codes "x-api-key"

module _ {M : Type 0} ⦃h : Headers M⦄ ⦃c : Codec⦄ where
  -- The client that `logging_middleware` names.
  unfoldable pub client_ip : M → Text
  client_ip headers = elim (get headers (codes "x-real-ip")) [
    | some v ↦ Option.get_or (c.to_str v) (codes "unknown")
    | none ↦ Option.get_or (get_str headers (codes "x-forwarded-for")) (codes "unknown")
  ]

module _ {M Body : Type 0} ⦃h : Headers M⦄ ⦃c : Codec⦄ where
  unfoldable pub auth_middleware : Request M Body → Text → Result ApiResponse (Request M Body)
  auth_middleware req api_key = elim (get_str req.headers api_key_name) [
    | none ↦ err (unauthorized_response (unauthorized_message missing_api_key))
    | some key ↦
        if text_eq key api_key
        then ok req
        else err (unauthorized_response (unauthorized_message invalid_api_key))
  ]

  -- The error is the name of the header that is missing.
  unfoldable pub validate_token : Request M Body → Text → Result Text Bool
  validate_token req validator_url = elim (get_str req.headers (codes "authorization")) [
    | none ↦ err (codes "Missing Authorization header")
    | some token ↦ ok true
  ]

  -- A text that is no header name is the name of no header.
  unfoldable pub validate_token_with_header : Request M Body → Text → Text → Result Text Bool
  validate_token_with_header req validator_url header_name = elim (c.name_from_bytes header_name) [
    | none ↦ err (codes "Missing " ++ (header_name ++ codes " header"))
    | some name ↦ elim (get_str req.headers name) [
      | none ↦ err (codes "Missing " ++ (header_name ++ codes " header"))
      | some token ↦ ok true
    ]
  ]

  -- `auth_middleware` lets a request through, unchanged, if its first `X-API-Key` is a text equal to
  -- the key; each other request gets status 401.
  pub auth_middleware_lem :
      (req : Request M Body) (api_key : Text)
      → ((auth_middleware req api_key ≡ ok req) × (get_str req.headers api_key_name ≡ some api_key))
        ⊎ ((reply : ApiResponse) × (auth_middleware req api_key ≡ err reply)
            × (reply.status ≡ 401)
            × (get_str req.headers api_key_name ≢ some api_key))
  unfolding auth_middleware unauthorized_response
  auth_middleware_lem req api_key = elim (Option-cases (get_str req.headers api_key_name)) [
    | inl missing ↦ inr (
      unauthorized_response (unauthorized_message missing_api_key),
      rw (missing, auth_middleware) refl,
      refl,
      λ e. cc (missing, e),
    )
    | inr (key, sent) ↦ elim (Bool-cases (text_eq key api_key)) [
      | inl same ↦ inl (
        rw (sent, auth_middleware) (rw same refl),
        sent ∙ ap some ((text_eq_iff key api_key).0 same),
      )
      | inr other ↦ inr (
        unauthorized_response (unauthorized_message invalid_api_key),
        rw (sent, auth_middleware) (rw other refl),
        refl,
        λ e. ground (arith, e, sent, text_eq_iff key api_key),
      )
    ]
  ]
