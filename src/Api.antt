-- ===== src/Api.antt =====
-- The management API, src/api/endpoints.rs and `handle_api_request` of src/api/server.rs. What the
-- crate `serde_json` does and how a body is collected are parameters; a handler gets the current
-- configuration, and gives its reply with the configuration that then stands. The bytes of a reply
-- are those of a text, and the text stands for them.
pub mod Updates
mod Examples
pub mod Middleware
use mathlib.Core.Option
use tiny_proxy.Base.{
  Bool, List, Option, [], if◌then◌else◌, leb, ltb, none, some, suc, zero, ℕ, ◌&&◌, ◌*◌, ◌++◌, ◌+◌,
  ◌-◌, ◌==◌, ◌∷◌,
}
use tiny_proxy.Base.Result.{Result, err, map_err, ok, ok_or, ◌>>=◌}
use tiny_proxy.Base.Text.{Text, codes, text_eq}
use tiny_proxy.Config.Models.{Config}
use tiny_proxy.Http.{Codec, Request}

abbrev within : ℕ → ℕ → ℕ → Bool
within lo hi b = leb lo b && leb b hi

-- What a first byte says: how many bytes follow, the bounds of the next one, and its own bits.
unfoldable pub lead_byte : ℕ → Option (ℕ × ℕ × ℕ × ℕ)
lead_byte b =
    if ltb b 0x80
    then some (0, 0, 0, b)
    else if within 0xc2 0xdf b
    then some (1, 0x80, 0xbf, b - 0xc0)
    else if b == 0xe0
    then some (2, 0xa0, 0xbf, 0)
    else if b == 0xed
    then some (2, 0x80, 0x9f, 0xd)
    else if within 0xe1 0xef b
    then some (2, 0x80, 0xbf, b - 0xe0)
    else if b == 0xf0
    then some (3, 0x90, 0xbf, 0)
    else if b == 0xf4
    then some (3, 0x80, 0x8f, 4)
    else if within 0xf1 0xf3 b
    then some (3, 0x80, 0xbf, b - 0xf0)
    else none

-- A character that is complete stands before the rest.
abbrev emit : ℕ → ℕ → Option Text → Option Text
emit zero n rest = Option.map (λ s. n ∷ s) rest
emit (suc more) n rest = rest

-- `std::str::from_utf8`, where so many bytes of a character are still to come, the next one between
-- two bounds, after those that have this value.
unfoldable pub utf8_from : ℕ → ℕ → ℕ → ℕ → List ℕ → Option Text
utf8_from zero lo hi n [] = some []
utf8_from (suc more) lo hi n [] = none
utf8_from zero lo hi n (b ∷ bytes) = elim (lead_byte b) [
  | none ↦ none
  | some (more, low, high, value) ↦ emit more value (utf8_from more low high value bytes)
]
utf8_from (suc more) lo hi n (b ∷ bytes) =
    let value = n * 64 + (b - 0x80) in
    let rest = emit more value (utf8_from more 0x80 0xbf value bytes) in
    if within lo hi b then rest else none

unfoldable pub from_utf8 : List ℕ → Option Text
from_utf8 bytes = utf8_from 0 0 0 0 bytes

-- `serde_json`, for the derived implementations of `Config` and for objects of texts.
pub record Json : Type 0 where
  pub to_string_pretty : Config → Option Text
  pub config_from_str : Text → Result Text Config
  pub object : List (Text × Text) → Text

pub record ApiResponse : Type 0 where
  pub status : ℕ
  pub content_type : Option Text
  pub body : Text

unfoldable pub json_response : ℕ → Text → ApiResponse
json_response status body = record {
  status = status;
  content_type = some (codes "application/json");
  body = body;
}

-- The messages of a configuration that is not accepted.
pub data PostError : Type 0 where
  unreadable_body : Text → PostError
  not_utf8 : PostError
  not_a_config : Text → PostError

unfoldable pub post_message : PostError → Text
post_message (unreadable_body e) = codes "Failed to read request body: " ++ e
post_message not_utf8 = codes "Invalid UTF-8 in request body"
post_message (not_a_config e) = codes "Invalid configuration JSON: " ++ e

module _ ⦃json : Json⦄ where
  unfoldable pub error_response_of : Text → ApiResponse
  error_response_of message =
      json_response 400
        (json.object ((codes "status", codes "error") ∷ (codes "message", message) ∷ []))

  unfoldable pub handle_get_config : Config → ApiResponse
  handle_get_config config = json_response 200 (
      Option.get_or (json.to_string_pretty config)
        (codes "{\"error\": \"Failed to serialize config\"}"))

  -- The version is that of the package.
  unfoldable pub handle_health_check : Text → ApiResponse
  handle_health_check version = json_response 200 (
      json.object (
        (codes "status", codes "healthy")
        ∷ (codes "service", codes "tiny-proxy")
        ∷ (codes "version", version)
        ∷ []))

  abbrev pub not_found : ApiResponse
  not_found = record { status = 404; content_type = none; body = codes "Not Found" }

  -- Collecting a body may fail.
  module _ {Body : Type 0} (collect_body : Body → Result Text (List ℕ)) where
    -- The configuration in a body.
    unfoldable pub read_config : Body → Result PostError Config
    read_config body = do
      bytes ← map_err unreadable_body (collect_body body)
      text ← ok_or (from_utf8 bytes) not_utf8
      map_err not_a_config (json.config_from_str text)

    unfoldable pub handle_post_config : Body → Config → ApiResponse × Config
    handle_post_config body config = elim (read_config body) [
      | ok new_config ↦ (
        json_response 200
            (codes "{\"status\": \"success\", \"message\": \"Configuration updated\"}"),
        new_config,
      )
      | err e ↦ (error_response_of (post_message e), config)
    ]

    unfoldable pub handle_api_request :
        {M : Type 0} ⦃c : Codec⦄ → Text → Request M Body → Config → ApiResponse × Config
    handle_api_request ⦃c⦄ version req config =
        let path = c.uri_path req.uri in
        if text_eq req.method (codes "GET") && text_eq path (codes "/config")
        then (handle_get_config config, config)
        else if text_eq req.method (codes "POST") && text_eq path (codes "/config")
        then handle_post_config req.body config
        else if text_eq req.method (codes "GET") && text_eq path (codes "/health")
        then (handle_health_check version, config)
        else (not_found, config)
