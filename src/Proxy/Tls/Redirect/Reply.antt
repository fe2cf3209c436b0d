-- ===== src/Proxy/Tls/Redirect/Reply.antt =====
-- The reply of `listen_http_redirect`, src/proxy/tls.rs, to one request; `none` stands for the
-- failed `expect` on a location that is no header value.
use mathlib.Core.Option
use tiny_proxy.Base.{Option, Option-cases, [], ap, inl, inr, some, sym, ℕ, ◌++◌, ◌∙◌, ◌∷◌, ◌≡◌}
use tiny_proxy.Base.Text.{Text, byte_len, codes, text_eq}
use tiny_proxy.Base.Text.Decimal.{to_string}
use tiny_proxy.Http.{Codec, HeaderName, HeaderValue, Headers, Uri, append, get_all}
use tiny_proxy.Proxy.Forward.{content_length_name}
use tiny_proxy.Proxy.Responses.{Response, full}
use tiny_proxy.Proxy.Tls.Redirect.{redirect_target}

abbrev location_name : HeaderName
location_name = codes "location"

abbrev content_type_name : HeaderName
content_type_name = codes "content-type"

unfoldable pub moved_page : Text → Text
moved_page location =
    codes "<!DOCTYPE html><html><head><title>301 Moved</title></head>"
    ++ (codes "<body><h1>Moved Permanently</h1><p>The document has moved "
        ++ (codes "<a href=\"" ++ (location ++ codes "\">here</a>.</p></body></html>")))

module _ {M : Type 0} ⦃h : Headers M⦄ where
  unfoldable pub moved_headers : HeaderValue → Text → M
  moved_headers location body =
      append
        (append (append h.empty location_name location) content_type_name
          (codes "text/html; charset=utf-8"))
        content_length_name (to_string (byte_len body))

  abbrev moved : {Body : Type 0} → Text → HeaderValue → Response M Body
  moved location v = record {
    status = 301;
    headers = moved_headers v (moved_page location);
    body = full (moved_page location);
  }

  unfoldable pub redirect_reply :
      {Body : Type 0} ⦃c : Codec⦄ → M → Uri → ℕ → Option (Response M Body)
  redirect_reply ⦃c⦄ m uri tls_port =
      let location = redirect_target m uri tls_port (to_string tls_port) in
      Option.map (moved location) (c.value_try_from location)

module _ (M : Type 0) ⦃h : Headers M⦄ where
  moved_headers-location :
      (v : HeaderValue) (body : Text) → h.get_all (moved_headers v body) location_name ≡ v ∷ []
  unfolding moved_headers text_eq
  moved_headers-location v body =
      h.get_all-append _ content_length_name _ location_name
      ∙ h.get_all-append _ content_type_name _ location_name
      ∙ h.get_all-append h.empty location_name v location_name
      ∙ ap (λ vs. vs ++ v ∷ []) (h.get_all-empty location_name)

  moved_headers-length :
      (v : HeaderValue) (body : Text)
      → h.get_all (moved_headers v body) content_length_name ≡ to_string (byte_len body) ∷ []
  unfolding moved_headers text_eq
  moved_headers-length v body =
      h.get_all-append _ content_length_name _ content_length_name
      ∙ ap (λ vs. vs ++ to_string (byte_len body) ∷ [])
          (h.get_all-append _ content_type_name _ content_length_name
            ∙ h.get_all-append h.empty location_name v content_length_name
            ∙ h.get_all-empty content_length_name)

module _ {M : Type 0} ⦃h : Headers M⦄ where
  -- The reply of the redirect to a request, if its target is a header value: status 301, the target
  -- as the only location, and as the only length that of its page.
  pub redirect_reply_lem :
      {Body : Type 0} ⦃c : Codec⦄ (m : M) (uri : Uri) (tls_port : ℕ) (r : Response M Body)
      → redirect_reply m uri tls_port ≡ some r
      → (r.status ≡ 301)
        × ((v : HeaderValue) × (c.value_try_from
                (redirect_target m uri tls_port (to_string tls_port))
              ≡ some v)
            × (get_all r.headers location_name ≡ v ∷ []))
        × ((body : Text) × (r.body ≡ full body)
            × (get_all r.headers content_length_name ≡ to_string (byte_len body) ∷ []))
  unfolding redirect_reply
  redirect_reply_lem ⦃c⦄ m uri tls_port r e =
      let location = redirect_target m uri tls_port (to_string tls_port) in
      elim (Option-cases (c.value_try_from location)) [
        | inl bad ↦ cc (rw (bad, redirect_reply) at e)
        | inr (v, good) ↦
            let made : moved location v ≡ r = cc (rw (good, redirect_reply) at e) in
            let page = moved_page location in
            (
              ap (λ x. x.status) (sym made),
              (
                v,
                good,
                ap (λ x. h.get_all x.headers location_name) (sym made)
                    ∙ moved_headers-location M v page,
              ),
              (
                page,
                ap (λ x. x.body) (sym made),
                ap (λ x. h.get_all x.headers content_length_name) (sym made)
                    ∙ moved_headers-length M v page,
              ),
            )
      ]
