-- ===== src/Proxy/Tls/Redirect.antt =====
-- The redirect from HTTP to HTTPS, `listen_http_redirect` of src/proxy/tls.rs: the target of one
-- request. A port is given with its digits.
pub mod Reply
use mathlib.Core.Option
use tiny_proxy.Base.{[], arith, false, if◌then◌else◌, none, refl, some, ℕ, ◌++◌, ◌==◌, ◌∷◌, ◌≡◌}
use tiny_proxy.Base.Text.{
  Text, codes, contains_char, split_first, split_once, starts_with, strip_prefix as strip_prefix_of,
}
use tiny_proxy.Http.{Codec, Headers, Uri, get_str}
use tiny_proxy.Proxy.ForwardAuth.{host_name}

unfoldable pub hostname_from_host_header : Text → Text
hostname_from_host_header [] = split_first b':' []
hostname_from_host_header (c ∷ s) =
    elim (if starts_with (c ∷ s) (codes "[") then split_once b']' s else none) [
      | some (inner, rest) ↦ inner
      | none ↦ split_first b':' (c ∷ s)
    ]

unfoldable pub redirect_location : Text → Text → ℕ → Text → Text
redirect_location host uri tls_port digits =
    let hostname = hostname_from_host_header host in
    if tls_port == 443
    then codes "https://" ++ (hostname ++ uri)
    else codes "https://" ++ (hostname ++ (codes ":" ++ (digits ++ uri)))

-- The headers of the redirect; an unreadable `Host` counts as `localhost`, a missing target as `/`.
module _ {M : Type 0} ⦃h : Headers M⦄ ⦃c : Codec⦄ where
  unfoldable pub redirect_target : M → Uri → ℕ → Text → Text
  redirect_target m uri tls_port digits =
      redirect_location (Option.get_or (get_str m host_name) (codes "localhost"))
        (Option.get_or uri.path_and_query (codes "/")) tls_port digits

split_first_colon :
    (name rest : Text)
    → contains_char b':' name ≡ false
    → split_first b':' (name ++ (b':' ∷ rest)) ≡ name
unfolding split_first
split_first_colon [] rest e = refl
split_first_colon (c ∷ name) rest e = ground (arith, split_first_colon name rest)

split_first_whole : (name : Text) → contains_char b':' name ≡ false → split_first b':' name ≡ name
unfolding split_first
split_first_whole [] e = refl
split_first_whole (c ∷ name) e = ground (arith, split_first_whole name)

-- A name that is not an address in brackets goes into the redirect without its port: the target is
-- the same for `name` and for `name:port`, and it is the name with the port of the TLS listener,
-- where that is not 443.
pub redirect_location_named :
    (d : ℕ) (name port uri : Text) (tls_port : ℕ) (digits : Text)
    → (d == b'[') ≡ false
    → contains_char b':' (d ∷ name) ≡ false
    → (redirect_location ((d ∷ name) ++ (b':' ∷ port)) uri tls_port digits
        ≡ redirect_location (d ∷ name) uri tls_port digits)
      × (redirect_location (d ∷ name) uri tls_port digits
          ≡ codes "https://"
            ++ ((d ∷ name) ++ (if tls_port == 443 then uri else codes ":" ++ (digits ++ uri))))
unfolding redirect_location hostname_from_host_header strip_prefix_of
redirect_location_named d name port uri tls_port digits e f = (
  ground (arith, split_first_colon (d ∷ name) port f, split_first_whole (d ∷ name) f),
  ground (arith, split_first_whole (d ∷ name) f),
)
