-- ===== src/Proxy/ForwardAuth/Subrequest.antt =====
-- What the auth service gets to see.
use tiny_proxy.Base.{All, List, Option, [], arith, false, none, refl, some, ◌∙◌, ◌∷◌, ◌≡◌}
use tiny_proxy.Base.Text.{Text, codes, text_eq}
use tiny_proxy.Base.Text.Eq.{text_eq_refl}
use tiny_proxy.Config.Models.{ForwardAuthConfig}
use tiny_proxy.Http.{Codec, HeaderName, HeaderValue, Headers, get}
use tiny_proxy.Http.Laws.{get_all-insert_value}
use tiny_proxy.Proxy.ForwardAuth.{
  auth_headers, copy_as, copy_listed, host_name, put_endpoint, put_text,
}
use tiny_proxy.Proxy.ForwardAuth.Identity.{get_all-copy_listed, listed}
use tiny_proxy.Proxy.State.{AuthCtx}

-- The names that the proxy itself puts into a subrequest, `Host` first.
abbrev pub later_names : List HeaderName
later_names =
    codes "x-original-uri"
    ∷ codes "x-original-method"
    ∷ codes "x-forwarded-for"
    ∷ codes "x-forwarded-host"
    ∷ codes "x-forwarded-proto"
    ∷ codes "x-request-id"
    ∷ []

abbrev pub system_names : List HeaderName
system_names = host_name ∷ later_names

none_listed :
    (n : HeaderName) (ns : List HeaderName)
    → listed n ns ≡ false
    → All (λ k. text_eq k n ≡ false) ns
none_listed n [] e = tt
none_listed n (k ∷ ns) e = (ground arith, none_listed n ns (ground arith))

later_ne_host : All (λ k. text_eq k host_name ≡ false) later_names
unfolding text_eq
later_ne_host = (refl, (refl, (refl, (refl, (refl, (refl, tt))))))

module _ {M : Type 0} ⦃h : Headers M⦄ ⦃c : Codec⦄ where
  -- Steps that concern another name.
  skip_put :
      (k : HeaderName) (s : Text) (m : M) (n : HeaderName)
      → text_eq k n ≡ false
      → h.get_all (put_text k s m) n ≡ h.get_all m n
  unfolding put_text
  skip_put k s m n e = rw (get_all-insert_value k (c.value_from_str s) m n) (rw e)

  skip_copy :
      (k j : HeaderName) (from to : M) (n : HeaderName)
      → text_eq j n ≡ false
      → h.get_all (copy_as k j from to) n ≡ h.get_all to n
  unfolding copy_as
  skip_copy k j from to n e = rw (get_all-insert_value j (get from k) to n) (rw e)

  -- The headers up to and with `Host`.
  hosted : M → ForwardAuthConfig → M
  hosted client cfg =
      put_endpoint cfg.endpoint.authority (copy_listed cfg.request_headers client h.empty)

  -- The system headers that follow `Host` leave every other name alone.
  auth_headers-hosted :
      (ctx : AuthCtx) (name : Text) (client : M) (cfg : ForwardAuthConfig) (n : HeaderName)
      → All (λ k. text_eq k n ≡ false) later_names
      → h.get_all (auth_headers ctx name client cfg) n ≡ h.get_all (hosted client cfg) n
  unfolding auth_headers hosted
  auth_headers-hosted ctx name client cfg n (uri, (way, (for, (host, (proto, (id, _)))))) =
      skip_copy _ _ _ _ n id
      ∙ skip_put _ _ _ n proto
      ∙ skip_copy _ _ _ _ n host
      ∙ skip_put _ _ _ n for
      ∙ skip_put _ _ _ n way
      ∙ skip_put _ _ _ n uri

  hosted_other :
      (authority : Option Text) (m : M) (n : HeaderName)
      → text_eq host_name n ≡ false
      → h.get_all (put_endpoint authority m) n ≡ h.get_all m n
  unfolding put_endpoint
  hosted_other none m n e = refl
  hosted_other (some a) m n e = skip_put host_name a m n e

  hosted_self :
      (authority : Option Text) (m : M) (a : Text) (v : HeaderValue)
      → authority ≡ some a
      → c.value_from_str a ≡ some v
      → h.get_all (put_endpoint authority m) host_name ≡ v ∷ []
  unfolding put_endpoint put_text
  hosted_self none m a v e valid = cc
  hosted_self (some b) m a v e valid = ground (
    arith,
    get_all-insert_value host_name (c.value_from_str b) m host_name,
    text_eq_refl host_name,
  )

  -- A header reaches the auth service only if it is listed in `request_headers` or is one that the
  -- proxy puts in itself.
  pub auth_headers-listed :
      (ctx : AuthCtx) (name : Text) (client : M) (cfg : ForwardAuthConfig) (n : HeaderName)
      → listed n cfg.request_headers ≡ false
      → listed n system_names ≡ false
      → h.get_all (auth_headers ctx name client cfg) n ≡ []
  unfolding hosted
  auth_headers-listed ctx name client cfg n unlisted other =
      let (host, later) = none_listed n system_names other in
      auth_headers-hosted ctx name client cfg n later
      ∙ hosted_other cfg.endpoint.authority _ n host
      ∙ get_all-copy_listed cfg.request_headers client h.empty n
      ∙ rw unlisted (h.get_all-empty n)

  -- The `Host` of the subrequest is the authority of the endpoint, whatever the client sends and
  -- whatever `request_headers` lists.
  pub auth_headers_host :
      (ctx : AuthCtx) (name : Text) (client : M) (cfg : ForwardAuthConfig) (a : Text)
      (v : HeaderValue)
      → cfg.endpoint.authority ≡ some a
      → c.value_from_str a ≡ some v
      → h.get_all (auth_headers ctx name client cfg) host_name ≡ v ∷ []
  unfolding hosted
  auth_headers_host ctx name client cfg a v e valid =
      auth_headers-hosted ctx name client cfg host_name later_ne_host
      ∙ hosted_self cfg.endpoint.authority _ a v e valid
