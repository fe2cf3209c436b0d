-- ===== src/Proxy/Forward/Laws.antt =====
-- The headers of the backend request and of the response, for every name.
use mathlib.Core.List.{append-nil, append_assoc}
use tiny_proxy.Base.{
  List, Option, [], arith, false, if◌then◌else◌, none, refl, some, ◌++◌, ◌||◌, ◌∷◌, ◌≡◌, ◌⊎◌,
}
use tiny_proxy.Base.Text.{Text, codes, text_eq}
use tiny_proxy.Base.Text.Eq.{text_eq_exclusive, text_eq_iff}
use tiny_proxy.Http.{Codec, HeaderName, HeaderValue, Headers, get, insert_value, values_of}
use tiny_proxy.Http.Laws.{get_all-insert_value, value_or}
use tiny_proxy.Proxy.Forward.{
  accept_encoding_name, connection_name, content_length_name, copy_response_headers,
  default_headers, forwarded_for_name, forwarded_host_name, forwarded_proto_name, insert_text,
  is_hop_header,
}
use tiny_proxy.Proxy.ForwardAuth.{host_name}
use tiny_proxy.Proxy.State.{AuthCtx}

for_proto :
    (n : HeaderName)
    → (text_eq forwarded_for_name n ≡ false) ⊎ (text_eq forwarded_proto_name n ≡ false)
unfolding text_eq
for_proto n = text_eq_exclusive forwarded_for_name forwarded_proto_name n refl

for_host :
    (n : HeaderName)
    → (text_eq forwarded_for_name n ≡ false) ⊎ (text_eq forwarded_host_name n ≡ false)
unfolding text_eq
for_host n = text_eq_exclusive forwarded_for_name forwarded_host_name n refl

for_own : (n : HeaderName) → (text_eq forwarded_for_name n ≡ false) ⊎ (text_eq host_name n ≡ false)
unfolding text_eq
for_own n = text_eq_exclusive forwarded_for_name host_name n refl

host_own :
    (n : HeaderName) → (text_eq forwarded_host_name n ≡ false) ⊎ (text_eq host_name n ≡ false)
unfolding text_eq
host_own n = text_eq_exclusive forwarded_host_name host_name n refl

-- The value of a text, where the text is there and is a valid value.
abbrev pub text_values : ⦃c : Codec⦄ → Option Text → List HeaderValue → List HeaderValue
text_values none old = old
text_values ⦃c⦄ (some s) old = value_or (c.value_from_str s) old

module _ {M : Type 0} ⦃h : Headers M⦄ ⦃c : Codec⦄ where
  get_all-insert_text :
      (k : HeaderName) (o : Option Text) (m : M) (n : HeaderName)
      → h.get_all (insert_text k o m) n
        ≡ (if text_eq k n then text_values o (h.get_all m n) else h.get_all m n)
  unfolding insert_text
  get_all-insert_text k none m n = ground arith
  get_all-insert_text k (some s) m n = get_all-insert_value k (c.value_from_str s) m n

  -- What the default headers are, by name: `Host` is the backend's authority, `X-Forwarded-Host`
  -- the client's first `Host`, if it sent one, `X-Forwarded-For` the address of the peer, if that
  -- is a header value, and `X-Forwarded-Proto` the scheme; `Connection` and `Accept-Encoding` are
  -- gone, and every other header is the client's.
  pub get_all-default_headers :
      (ctx : AuthCtx) (authority : Option Text) (m : M) (n : HeaderName)
      → h.get_all (default_headers ctx authority m) n ≡ (
          if text_eq accept_encoding_name n || text_eq connection_name n
          then []
          else if text_eq forwarded_for_name n
          then text_values (some ctx.remote_addr.ip) (h.get_all m n)
          else if text_eq forwarded_proto_name n
          then (if ctx.is_tls then codes "https" else codes "http") ∷ []
          else if text_eq forwarded_host_name n
          then value_or (get m host_name) (h.get_all m n)
          else if text_eq host_name n
          then text_values authority []
          else h.get_all m n)
  unfolding default_headers
  get_all-default_headers ctx authority m n =
      let unhosted = h.remove m host_name in
      let hosted = insert_text host_name authority unhosted in
      let with_host = insert_value forwarded_host_name (get m host_name) hosted in
      let scheme = if ctx.is_tls then codes "https" else codes "http" in
      let with_proto = h.insert with_host forwarded_proto_name scheme in
      let with_for = insert_text forwarded_for_name (some ctx.remote_addr.ip) with_proto in
      let closed_off = h.remove with_for connection_name in
      ground (
        arith,
        h.get_all-remove closed_off accept_encoding_name n,
        h.get_all-remove with_for connection_name n,
        get_all-insert_text forwarded_for_name (some ctx.remote_addr.ip) with_proto n,
        h.get_all-insert with_host forwarded_proto_name scheme n,
        get_all-insert_value forwarded_host_name (get m host_name) hosted n,
        get_all-insert_text host_name authority unhosted n,
        h.get_all-remove m host_name n,
        for_proto n,
        for_host n,
        for_own n,
        host_own n,
      )

module _ {M : Type 0} ⦃h : Headers M⦄ where
  -- What the client gets of the backend's headers, by name: all values in their order, but those
  -- of the hop-by-hop headers and of `Content-Length`.
  pub get_all-copy_response_headers :
      (es : List (HeaderName × HeaderValue)) (m : M) (n : HeaderName)
      → h.get_all (copy_response_headers es m) n ≡ (
          if is_hop_header n || text_eq n content_length_name
          then h.get_all m n
          else h.get_all m n ++ values_of n es)
  unfolding copy_response_headers values_of
  get_all-copy_response_headers [] m n = ground (arith, append-nil (h.get_all m n))
  get_all-copy_response_headers ((k, v) ∷ es) m n = ground (
    arith,
    h.get_all-append m k v n,
    get_all-copy_response_headers es m n,
    get_all-copy_response_headers es (h.append m k v) n,
    text_eq_iff k n,
    append_assoc (h.get_all m n) (v ∷ []) (values_of n es),
  )
