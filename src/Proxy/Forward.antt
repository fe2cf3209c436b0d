-- ===== src/Proxy/Forward.antt =====
-- The request that is sent to the backend: the arm `ActionResult::ReverseProxy` of `proxy`,
-- src/proxy/handler.rs, up to the call of the client, and the filter of the response headers.
pub mod Laws
pub mod Target
use mathlib.Core.Option
use tiny_proxy.Base.{Bool, not, ◌&&◌, ◌||◌, Option, none, some, List, [], ◌∷◌, ◌++◌, if◌then◌else◌}
use tiny_proxy.Base.Text.{
  Text, codes, text_eq, starts_with, strip_prefix as strip_prefix_of, contains_char,
}
use tiny_proxy.Base.Result.{Result, ok_or, ◌>>=◌}
use tiny_proxy.Http.{
  insert_value, HeaderName, HeaderValue, Headers, Uri, Codec, Request, get, insert, append, remove,
}
use tiny_proxy.Config.Models.{HeaderDirective}
use tiny_proxy.Proxy.Substitution.{extract_remote_ip}
use tiny_proxy.Proxy.State.{World, AuthCtx, Current}
use tiny_proxy.Proxy.Headers.{apply_header_up}
use tiny_proxy.Proxy.ForwardAuth.{host_name}

-- `?` on a conversion of the crate `http`: `proxy` returns the error.
pub data ProxyFailure : Type 0 where
  bad_backend_url : ProxyFailure
  bad_path : ProxyFailure
  bad_uri_parts : ProxyFailure
  bad_response : ProxyFailure

abbrev pub forwarded_host_name : HeaderName
forwarded_host_name = codes "x-forwarded-host"

abbrev pub forwarded_proto_name : HeaderName
forwarded_proto_name = codes "x-forwarded-proto"

abbrev pub forwarded_for_name : HeaderName
forwarded_for_name = codes "x-forwarded-for"

abbrev pub accept_encoding_name : HeaderName
accept_encoding_name = codes "accept-encoding"

abbrev pub connection_name : HeaderName
connection_name = codes "connection"

-- "Add protocol if missing".
unfoldable pub with_protocol : Text → Text
with_protocol url =
    if starts_with url (codes "http://") || starts_with url (codes "https://")
    then url
    else codes "http://" ++ url

-- The path with the client's query, unless the path carries a query already.
unfoldable pub with_query : Text → Option Text → Text
with_query path none = path
with_query path (some q) = if not (contains_char b'?' path) then path ++ (b'?' ∷ q) else path

-- The URI of the backend request.
unfoldable pub backend_uri : ⦃c : Codec⦄ → Text → Text → Uri → Result ProxyFailure Uri
backend_uri ⦃c⦄ backend_url path_to_send client_uri = do
  base ← ok_or (c.uri_from_str (with_protocol backend_url)) bad_backend_url
  target ←
      ok_or (c.path_and_query_from_str (with_query path_to_send (c.uri_query client_uri))) bad_path
  ok_or (c.uri_from_parts (record base { path_and_query = some target })) bad_uri_parts

module _ {M : Type 0} ⦃h : Headers M⦄ ⦃c : Codec⦄ where
  -- `parse` to a header value and `insert`, where the text is there and is a valid value.
  unfoldable pub insert_text : HeaderName → Option Text → M → M
  insert_text n none m = m
  insert_text n (some s) m = insert_value n (c.value_from_str s) m

  -- The headers before `header_up`: `Host` of the backend, `X-Forwarded-*`, and two removals.
  unfoldable pub default_headers : AuthCtx → Option Text → M → M
  default_headers ctx authority m =
      let original_host = get m host_name in
      let hosted = insert_text host_name authority (remove m host_name) in
      let forwarded_host = insert_value forwarded_host_name original_host hosted in
      let scheme = if ctx.is_tls then codes "https" else codes "http" in
      let forwarded_proto = insert forwarded_host forwarded_proto_name scheme in
      let forwarded_for =
        insert_text forwarded_for_name (some ctx.remote_addr.ip) forwarded_proto in
      remove (remove forwarded_for connection_name) accept_encoding_name

  -- The request for a target, or `none` if a substitution of `header_up` does not end.
  unfoldable pub backend_request :
      {Body : Type 0}
      → World M
      → AuthCtx
      → Uri
      → List HeaderDirective
      → Current M Body
      → Option (Request M Body)
  backend_request w ctx new_uri header_up s =
      let original_request_uri = Option.get_or s.req.uri.path_and_query [] in
      let upstream_host = Option.get_or new_uri.authority [] in
      let remote_ip = Option.get_or (extract_remote_ip s.req.headers) ctx.remote_addr.ip in
      elim (apply_header_up w s.calls header_up upstream_host original_request_uri remote_ip
        (default_headers ctx new_uri.authority s.req.headers)) [
          | none ↦ none
          | some m ↦ some (record (s.req) { uri = new_uri; headers = m })
        ]

-- `is_hop_header`.
unfoldable pub is_hop_header : HeaderName → Bool
is_hop_header n =
    text_eq n (codes "connection")
    || text_eq n (codes "upgrade")
    || text_eq n (codes "te")
    || text_eq n (codes "trailer")
    || text_eq n (codes "proxy-authenticate")
    || text_eq n (codes "proxy-authorization")

abbrev pub content_length_name : HeaderName
content_length_name = codes "content-length"

-- The loop that copies the backend's headers to the response.
unfoldable pub copy_response_headers :
    {M : Type 0} ⦃h : Headers M⦄ → List (HeaderName × HeaderValue) → M → M
copy_response_headers [] m = m
copy_response_headers ((n, v) ∷ es) m =
    copy_response_headers es
      (if not (is_hop_header n) && not (text_eq n content_length_name) then append m n v else m)
