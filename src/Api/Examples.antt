-- ===== src/Api/Examples.antt =====
-- The management API at small requests.
-- Serialized configurations as these examples need them: one text for each number of sites.
use tiny_proxy.Api.{
  Json, error_response_of, from_utf8, handle_api_request, handle_get_config, handle_health_check,
  handle_post_config, json_response, lead_byte, post_message, read_config, utf8_from,
}
use tiny_proxy.Api.Middleware.{
  auth_middleware, unauthorized_message, unauthorized_response, validate_token,
}
use tiny_proxy.Api.Updates.{Leaves, handle_api_request-Leaves, handle_api_request-restores}
use tiny_proxy.Base.{List, Option, [], if◌then◌else◌, none, refl, some, true, ℕ, ◌++◌, ◌∷◌, ◌≡◌}
use tiny_proxy.Base.Result.{Result, err, ok}
use tiny_proxy.Base.Text.{Text, codes, text_eq}
use tiny_proxy.Base.Text.Runs.{text_runs}
use tiny_proxy.Config.Models.{Config, nil}
use tiny_proxy.Http.{Request, values_of}
use tiny_proxy.Http.Sample.{Entries, drop_name, sample_codec, sample_headers}

abbrev one_site : Config
one_site = record {
  sites = (codes "a:80", record { address = codes "a:80"; directives = nil; tls = none }) ∷ [];
}

abbrev no_sites : Config
no_sites = record { sites = [] }

unfoldable read_json : Text → Result Text Config
read_json text =
    if text_eq text (codes "é")
    then ok one_site
    else if text_eq text (codes "0")
    then ok no_sites
    else err (codes "expected value")

unfoldable print_json : Config → Option Text
print_json config = elim config.sites [ [] ↦ some (codes "0") | x ∷ xs ↦ some (codes "é") ]

unfoldable print_object : List (Text × Text) → Text
print_object [] = []
print_object ((k, v) ∷ fields) = k ++ (codes ":" ++ (v ++ (codes ";" ++ print_object fields)))

instance abbrev sample_json : Json
sample_json = record {
  to_string_pretty = print_json;
  config_from_str = read_json;
  object = print_object;
}

api_runs : Unit {0}
unfolding handle_api_request handle_post_config handle_get_config handle_health_check read_config
    error_response_of post_message json_response from_utf8 utf8_from lead_byte read_json print_json
    print_object auth_middleware unauthorized_response unauthorized_message validate_token values_of
    drop_name text_runs
api_runs = tt

-- A body is its bytes.
abbrev bytes_of : List ℕ → Result Text (List ℕ)
bytes_of bytes = ok bytes

abbrev api_request : Text → Text → List ℕ → Request Entries (List ℕ)
api_request name path bytes = record {
  method = name;
  uri = record { scheme = none; authority = none; path_and_query = some path };
  headers = (codes "x-api-key", codes "k") ∷ [];
  body = bytes;
}

abbrev get_request : Request Entries (List ℕ)
get_request = api_request (codes "GET") (codes "/config") []

abbrev post_request : Request Entries (List ℕ)
post_request = api_request (codes "POST") (codes "/config") (0xc3 ∷ 0xa9 ∷ [])

shown_is_restored :
    ((handle_api_request bytes_of (codes "1") post_request no_sites).0.status ≡ 200)
    × ((handle_api_request bytes_of (codes "1") post_request no_sites).1 ≡ one_site)
    × (handle_api_request bytes_of
          (codes "1")
          get_request
          (handle_api_request bytes_of (codes "1") post_request no_sites).1
        ≡ handle_api_request bytes_of (codes "1") get_request one_site)
unfolding api_runs
shown_is_restored =
    handle_api_request-restores bytes_of (codes "1") get_request post_request one_site no_sites
      (codes "é") (0xc3 ∷ 0xa9 ∷ []) refl refl (refl, refl) (refl, refl) refl refl

handle_api_request-Leaves_example :
    Leaves bytes_of post_request no_sites
      (handle_api_request bytes_of (codes "1") post_request no_sites)
handle_api_request-Leaves_example =
    handle_api_request-Leaves bytes_of (codes "1") post_request no_sites

key_accepted : auth_middleware get_request (codes "k") ≡ ok get_request
unfolding api_runs
key_accepted = refl

-- Bytes that are no UTF-8: an overlong form, a surrogate, a number past the last one, and a
-- character that breaks off.
not_utf8_bytes :
    ((from_utf8 (0xc0 ∷ 0x80 ∷ []) ≡ none) × (from_utf8 (0xed ∷ 0xa0 ∷ 0x80 ∷ []) ≡ none))
    × ((from_utf8 (0xf4 ∷ 0x90 ∷ 0x80 ∷ 0x80 ∷ []) ≡ none) × (from_utf8 (0xe2 ∷ 0x82 ∷ []) ≡ none))
unfolding api_runs
not_utf8_bytes = ((refl, refl), (refl, refl))

euro_and_emoji :
    from_utf8 (0xe2 ∷ 0x82 ∷ 0xac ∷ 0xf0 ∷ 0x9f ∷ 0x98 ∷ 0x80 ∷ []) ≡ some (0x20ac ∷ 0x1f600 ∷ [])
unfolding api_runs
euro_and_emoji = refl

-- A configuration is posted without any key.
posted_without_key :
    (handle_api_request bytes_of (codes "1") (record post_request { headers = [] }) no_sites).1
    ≡ one_site
unfolding api_runs
posted_without_key = refl

-- Any token is valid.
any_token :
    validate_token
      (record get_request { headers = (codes "authorization", codes "x") ∷ [] })
      (codes "http://validator")
    ≡ ok true
unfolding api_runs
any_token = refl
