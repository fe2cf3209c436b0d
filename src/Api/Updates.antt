-- ===== src/Api/Updates.antt =====
-- What the management API does to the configuration.
use mathlib.Core.Path.{subst}
use tiny_proxy.Api.{
  ApiResponse, Json, PostError, error_response_of, from_utf8, handle_api_request, handle_get_config,
  handle_post_config, json_response, read_config,
}
use tiny_proxy.Base.{
  Bool-cases, List, and_parts, ap, arith, false, inl, inr, refl, some, sym, true, ℕ, ◌&&◌, ◌∙◌, ◌≡◌,
}
use tiny_proxy.Base.Result.{Result, Result-cases, err, ok}
use tiny_proxy.Base.Text.{Text, codes, text_eq}
use tiny_proxy.Base.Text.Eq.{text_eq_iff}
use tiny_proxy.Config.Models.{Config}
use tiny_proxy.Http.{Codec, Request}

module _ ⦃json : Json⦄ {Body : Type 0} (collect_body : Body → Result Text (List ℕ)) where
  -- A request for a method on a path.
  abbrev pub Asks : {M : Type 0} ⦃c : Codec⦄ → Text → Text → Request M Body → Type 0
  Asks ⦃c⦄ name path req =
      (text_eq req.method name ≡ true) × (text_eq (c.uri_path req.uri) path ≡ true)

  -- The request posts a configuration that can be read.
  abbrev pub Posts : {M : Type 0} ⦃c : Codec⦄ → Request M Body → Config → Type 0
  Posts req config =
      Asks (codes "POST") (codes "/config") req × (read_config collect_body req.body ≡ ok config)

  -- What a request leaves: a configuration that it posts, with status 200; the one before, with
  -- status 400, if it posts what is no configuration; the one before, if it is no such request.
  pub data Leaves {M : Type 0} ⦃c : Codec⦄ (req : Request M Body) (old : Config)
      : ApiResponse × Config → Type 0 where
    replaced :
        (after : ApiResponse × Config)
        → Posts req after.1
        → after.0.status ≡ 200
        → Leaves req old after
    refused :
        (after : ApiResponse × Config) (e : PostError)
        → Asks (codes "POST") (codes "/config") req
        → read_config collect_body req.body ≡ err e
        → after.0.status ≡ 400
        → after.1 ≡ old
        → Leaves req old after
    kept :
        (after : ApiResponse × Config)
        → (Asks (codes "POST") (codes "/config") req → ⊥)
        → after.1 ≡ old
        → Leaves req old after

  post_is_no_get : (t : Text) → text_eq t (codes "POST") ≡ true → text_eq t (codes "GET") ≡ false
  unfolding text_eq
  post_is_no_get t e =
      subst (λ x. text_eq x (codes "GET") ≡ false) (sym ((text_eq_iff t (codes "POST")).0 e)) refl

  handle_post_config-Leaves :
      {M : Type 0} ⦃c : Codec⦄ (req : Request M Body) (old : Config)
      → Asks (codes "POST") (codes "/config") req
      → Leaves req old (handle_post_config collect_body req.body old)
  unfolding handle_post_config error_response_of json_response
  handle_post_config-Leaves req old asks = elim (Result-cases (read_config collect_body req.body)) [
    | inl (config, good) ↦ rw (good, handle_post_config) (replaced _ (asks, good) refl)
    | inr (e, bad) ↦ rw (bad, handle_post_config) (refused _ e asks bad refl refl)
  ]

  -- A request to the management API replaces the configuration exactly if it is a `POST` to
  -- `/config` whose body can be read as a configuration; that one then stands, and the status is
  -- 200. On another `POST` to `/config` the status is 400; it and all other requests keep the
  -- configuration.
  pub handle_api_request-Leaves :
      {M : Type 0} ⦃c : Codec⦄ (version : Text) (req : Request M Body) (old : Config)
      → Leaves req old (handle_api_request collect_body version req old)
  unfolding handle_api_request
  handle_api_request-Leaves ⦃c⦄ version req old =
      let path = c.uri_path req.uri in
      elim (Bool-cases (text_eq req.method (codes "POST") && text_eq path (codes "/config"))) [
        | inl posts ↦
            let (named, at_config) =
              and_parts (text_eq req.method (codes "POST")) (text_eq path (codes "/config"))
                posts in
            subst (Leaves req old) (ground (arith, post_is_no_get req.method named))
              (handle_post_config-Leaves req old (named, at_config))
        | inr other ↦ kept _ (λ asks. ground arith) (ground (arith, other))
      ]

  answer_get :
      {M : Type 0} ⦃c : Codec⦄ (version : Text) (req : Request M Body) (config : Config)
      → Asks (codes "GET") (codes "/config") req
      → handle_api_request collect_body version req config ≡ (handle_get_config config, config)
  unfolding handle_api_request
  answer_get version req config asks = ground (arith, asks)

  answer_post :
      {M : Type 0} ⦃c : Codec⦄ (version : Text) (req : Request M Body) (config : Config)
      → Asks (codes "POST") (codes "/config") req
      → handle_api_request collect_body version req config
        ≡ handle_post_config collect_body req.body config
  unfolding handle_api_request
  answer_post version req config (named, at_config) =
      ground (arith, post_is_no_get req.method named)

  shown_body :
      (config : Config) (text : Text)
      → json.to_string_pretty config ≡ some text
      → (handle_get_config config).body ≡ text
  unfolding handle_get_config json_response
  shown_body config text e = rw e refl

  read_shown :
      (body : Body) (bytes : List ℕ) (text : Text) (config : Config)
      → collect_body body ≡ ok bytes
      → from_utf8 bytes ≡ some text
      → json.config_from_str text ≡ ok config
      → read_config collect_body body ≡ ok config
  unfolding read_config
  read_shown body bytes text config b u r = rw (b, u, r, read_config) refl

  -- The answer to a configuration that is accepted, and what then stands.
  abbrev accepted : Config → ApiResponse × Config
  accepted config = (
    json_response 200 (codes "{\"status\": \"success\", \"message\": \"Configuration updated\"}"),
    config,
  )

  post_readable :
      (body : Body) (old config : Config)
      → read_config collect_body body ≡ ok config
      → handle_post_config collect_body body old ≡ accepted config
  unfolding handle_post_config
  post_readable body old config e = rw (e, handle_post_config) refl

  -- What the API shows of a configuration restores it: if the JSON of a configuration can be read
  -- back as it, a `POST` to `/config` with the body of the answer to `GET` puts the configuration in
  -- place of any other one, with status 200, and a further `GET` gives that answer again.
  pub handle_api_request-restores :
      {M : Type 0} ⦃c : Codec⦄ (version : Text) (fetch post : Request M Body) (shown old : Config)
      (text : Text) (bytes : List ℕ)
      → json.to_string_pretty shown ≡ some text
      → json.config_from_str text ≡ ok shown
      → Asks (codes "GET") (codes "/config") fetch
      → Asks (codes "POST") (codes "/config") post
      → collect_body post.body ≡ ok bytes
      → from_utf8 bytes ≡ some (handle_api_request collect_body version fetch shown).0.body
      → ((handle_api_request collect_body version post old).0.status ≡ 200)
        × ((handle_api_request collect_body version post old).1 ≡ shown)
        × (handle_api_request collect_body version fetch
              (handle_api_request collect_body version post old).1
            ≡ (handle_api_request collect_body version fetch shown))
  unfolding json_response
  handle_api_request-restores version fetch post shown old text bytes p r gets posts b u =
      let answer = answer_get version fetch shown gets in
      let same = ap (λ (x : ApiResponse × Config). x.0.body) answer ∙ shown_body shown text p in
      let stored =
        answer_post version post old posts
        ∙ post_readable post.body old shown
            (read_shown post.body bytes text shown b (u ∙ ap some same) r) in
      (
        ap (λ (x : ApiResponse × Config). x.0.status) stored,
        ap (λ (x : ApiResponse × Config). x.1) stored,
        ap (λ (x : ApiResponse × Config). handle_api_request collect_body version fetch x.1) stored,
      )
