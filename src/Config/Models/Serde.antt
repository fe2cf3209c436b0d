-- ===== src/Config/Models/Serde.antt =====
-- The JSON form of a `forward_auth`, src/config/models.rs: the module `serde_impl`, and the
-- attributes of `ForwardAuthConfig` and `FailureMode` that say which fields may be missing, what
-- stands for them and how they are named. An object is what `serde` finds of these fields in it.
use tiny_proxy.Base.{
  All, List, Option, [], arith, if◌then◌else◌, ltb, map, none, refl, some, ℕ, ◌∷◌, ◌≡◌,
}
use tiny_proxy.Base.Result.{Result, collect, err, map_err, ok, ok_or, ◌>>=◌}
use tiny_proxy.Base.Text.{Text, codes, text_eq}
use tiny_proxy.Config.Address.{u64_bound}
use tiny_proxy.Config.Models.{
  EndpointError, FailureMode, ForwardAuthConfig, closed, default_auth_timeout_secs,
  default_request_headers, normalize_auth_endpoint, open_mode,
}
use tiny_proxy.Config.Models.Ranges.{AuthInRange, normalize_auth_endpoint_again}
use tiny_proxy.Http.{Codec, HeaderName, Uri}

pub record ForwardAuthObject : Type 0 where
  pub to : Option Text
  pub request_headers : Option (List Text)
  pub response_headers : Option (List Text)
  pub failure_mode : Option Text
  pub timeout_secs : Option ℕ

-- Why `serde` refuses an object.
pub data SerdeError : Type 0 where
  missing_field : Text → SerdeError
  invalid_uri : Text → SerdeError
  invalid_endpoint : EndpointError → SerdeError
  invalid_name : Text → SerdeError
  unknown_variant : Text → SerdeError
  out_of_range : ℕ → SerdeError

module _ ⦃c : Codec⦄ where
  -- `uri::deserialize`.
  unfoldable pub deserialize_uri : Text → Result SerdeError Uri
  deserialize_uri s = do
    uri ← ok_or (c.uri_from_str s) (invalid_uri s)
    map_err invalid_endpoint (normalize_auth_endpoint uri)

  -- `header_name_list::deserialize`.
  unfoldable pub deserialize_names : List Text → Result SerdeError (List HeaderName)
  deserialize_names raw = collect (map (λ s. ok_or (c.name_from_bytes s) (invalid_name s)) raw)

-- `header_name_list::serialize`: a name is its `as_str`.
unfoldable pub serialize_names : List HeaderName → List Text
serialize_names names = names

-- `FailureMode` with its variants in lower case.
unfoldable pub mode_name : FailureMode → Text
mode_name closed = codes "closed"
mode_name open_mode = codes "open"

unfoldable pub deserialize_mode : Text → Result SerdeError FailureMode
deserialize_mode s =
    if text_eq s (codes "closed")
    then ok closed
    else if text_eq s (codes "open")
    then ok open_mode
    else err (unknown_variant s)

-- A `u64`.
unfoldable pub deserialize_secs : ℕ → Result SerdeError ℕ
deserialize_secs n = if ltb n u64_bound then ok n else err (out_of_range n)

-- A field that may be missing.
abbrev pub or_default :
    {A B : Type 0} → Option A → (A → Result SerdeError B) → B → Result SerdeError B
or_default none read d = ok d
or_default (some a) read d = read a

module _ ⦃c : Codec⦄ where
  -- `ForwardAuthConfig::deserialize`.
  unfoldable pub deserialize_auth : ForwardAuthObject → Result SerdeError ForwardAuthConfig
  deserialize_auth object = do
    raw ← ok_or object.to (missing_field (codes "to"))
    endpoint ← deserialize_uri raw
    request_headers ← or_default object.request_headers deserialize_names default_request_headers
    response_headers ← or_default object.response_headers deserialize_names []
    failure_mode ← or_default object.failure_mode deserialize_mode closed
    timeout_secs ← or_default object.timeout_secs deserialize_secs default_auth_timeout_secs
    ok (record {
      endpoint = endpoint;
      request_headers = request_headers;
      response_headers = response_headers;
      failure_mode = failure_mode;
      timeout_secs = timeout_secs;
    })

-- `ForwardAuthConfig::serialize`; `uri::serialize` takes the text that `Uri` prints as.
unfoldable pub serialize_auth : (Uri → Text) → ForwardAuthConfig → ForwardAuthObject
serialize_auth to_string f = record {
  to = some (to_string f.endpoint);
  request_headers = some (serialize_names f.request_headers);
  response_headers = some (serialize_names f.response_headers);
  failure_mode = some (mode_name f.failure_mode);
  timeout_secs = some f.timeout_secs;
}

module _ ⦃c : Codec⦄ where
  deserialize-serialize_names :
      (names : List HeaderName)
      → All (λ n. c.name_from_bytes n ≡ some n) names
      → deserialize_names (serialize_names names) ≡ ok names
  unfolding deserialize_names serialize_names collect
  deserialize-serialize_names [] h = refl
  deserialize-serialize_names (n ∷ names) (e, h) =
      let rest = deserialize-serialize_names names h in rw (e, rest) refl

  pub deserialize-mode_name : (m : FailureMode) → deserialize_mode (mode_name m) ≡ ok m
  unfolding deserialize_mode mode_name text_eq
  deserialize-mode_name closed = refl
  deserialize-mode_name open_mode = refl

  -- A `forward_auth` with a validated endpoint, whose endpoint and header names can be read from
  -- what they print as and whose timeout is below 2^64, is read back from its JSON object.
  pub deserialize-serialize_auth :
      (to_string : Uri → Text) (f : ForwardAuthConfig)
      → AuthInRange f
      → c.uri_from_str (to_string f.endpoint) ≡ some f.endpoint
      → All (λ n. c.name_from_bytes n ≡ some n) f.request_headers
      → All (λ n. c.name_from_bytes n ≡ some n) f.response_headers
      → deserialize_auth (serialize_auth to_string f) ≡ ok f
  unfolding deserialize_auth serialize_auth deserialize_uri deserialize_secs
  deserialize-serialize_auth to_string f (valid, _, _, lt) e rs ss = ground (
    arith,
    e,
    normalize_auth_endpoint_again f.endpoint valid,
    deserialize-serialize_names f.request_headers rs,
    deserialize-serialize_names f.response_headers ss,
    deserialize-mode_name f.failure_mode,
  )
