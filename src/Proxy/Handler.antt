-- ===== src/Proxy/Handler.antt =====
-- `proxy` of src/proxy/handler.rs: one request from its arrival to the response, with the access
-- log and the request metrics.
pub mod Accounting
pub mod Protection
pub mod Identification
pub mod Origin
use mathlib.Core.Option
use tiny_proxy.Proxy.AccessLog
use tiny_proxy.Base.{Bool, List, Option, [], none, some, ◌++◌}
use tiny_proxy.Base.Result.{Result, err, ok, ◌>>=◌}
use tiny_proxy.Base.Text.{Text, codes}
use tiny_proxy.Config.Address.{SocketAddr}
use tiny_proxy.Config.Models.{Config, HeaderDirective}
use tiny_proxy.Http.{Codec, Headers, Request, get_str}
use tiny_proxy.Proxy.AccessLog.{AccessLogGuard}
use tiny_proxy.Proxy.Forward.{ProxyFailure, backend_request, backend_uri}
use tiny_proxy.Proxy.ForwardAuth.{host_name}
use tiny_proxy.Proxy.Pipeline.{Outcome, action, hangs, no_action, process_directives}
use tiny_proxy.Proxy.RequestId.{ensure_request_id, final_request_id, request_id_name}
use tiny_proxy.Proxy.Responses.{
  Backend, Served, backend_response, denied_body, denied_headers, direct_response, error_response,
  failure, hung, served, status_or, with_text,
}
use tiny_proxy.Proxy.Sites.{find_site}
use tiny_proxy.Proxy.State.{
  ActionResult, AuthCtx, Current, World, auth_denied, proxy_to, redirect_to, respond_with,
}

abbrev pub no_action_message : Text → Text
no_action_message path =
    codes "No action directive (respond or reverse_proxy) found in configuration for path: " ++ path

abbrev pub no_site_message : Text → Text
no_site_message host = codes "No configuration found for host: " ++ host

module _ {M : Type 0} ⦃h : Headers M⦄ ⦃c : Codec⦄ where
  unfoldable pub host_of : M → Text
  host_of m = Option.get_or (get_str m host_name) (codes "localhost")

module _ {M Body : Type 0} ⦃h : Headers M⦄ ⦃c : Codec⦄ where
  -- The arm `ReverseProxy`.
  unfoldable pub reverse_proxy_action :
      World M
      → Backend M Body
      → AuthCtx
      → Text
      → Text
      → List HeaderDirective
      → Text
      → AccessLogGuard
      → Current M Body
      → Served M Body
  reverse_proxy_action w backend ctx backend_url path_to_send header_up request_id guard s =
      elim (backend_uri backend_url path_to_send s.req.uri) [
        | err e ↦ served (failure e guard none)
        | ok new_uri ↦ elim (backend_request w ctx new_uri header_up s) [
          | none ↦ hung
          | some out ↦ served (backend_response (backend out) request_id guard out)
        ]
      ]

  -- "Execute action".
  unfoldable pub execute :
      World M
      → Backend M Body
      → AuthCtx
      → ActionResult
      → Text
      → AccessLogGuard
      → Current M Body
      → Served M Body
  execute w backend ctx (redirect_to status url) request_id guard s =
      let located : Result ProxyFailure M = with_text (codes "location") url h.empty in
      served (
        direct_response (status_or status 302) []
          (located >>= λ m. with_text request_id_name request_id m) guard)
  execute w backend ctx (respond_with status body) request_id guard s = served (
      direct_response (status_or status 200) body (with_text request_id_name request_id h.empty)
        guard)
  execute w backend ctx (auth_denied status challenge) request_id guard s = served (
      direct_response (status_or status 403) (denied_body (status_or status 403))
        (denied_headers request_id challenge) guard)
  execute w backend ctx (proxy_to url path ct rt header_up) request_id guard s =
      reverse_proxy_action w backend ctx url path header_up request_id guard s

  -- From the outcome of the directives to the response; the ID is read again from the request.
  unfoldable pub finish_request :
      World M → Backend M Body → AuthCtx → Outcome M Body → Text → AccessLogGuard → Served M Body
  finish_request w backend ctx (action a s) initial_id guard =
      let id = final_request_id s.req.headers initial_id in
      execute w backend ctx a id (AccessLog.set_request_id guard id) s
  finish_request w backend ctx (no_action path s) initial_id guard =
      let id = final_request_id s.req.headers initial_id in
      served (
        error_response 500 (codes "500") (no_action_message path) id
          (AccessLog.set_request_id guard id) none)
  finish_request w backend ctx hangs initial_id guard = hung

  -- The context that stays the same while the request is worked on, and the request as it enters
  -- the pipeline: with the headers `m`, after one outside call.
  abbrev pub ctx_of : SocketAddr → Bool → Request M Body → AuthCtx
  ctx_of remote_addr is_tls req = record {
    original_uri = Option.get_or req.uri.path_and_query [];
    remote_addr = remote_addr;
    is_tls = is_tls;
  }

  abbrev pub arrival : M → Request M Body → Current M Body
  arrival m req = record { req = record req { headers = m }; calls = 1 }

  -- `proxy`. The first UUID of the world is the one made for the request ID.
  unfoldable pub proxy :
      World M → Backend M Body → Config → SocketAddr → Bool → Request M Body → Served M Body
  proxy w backend config remote_addr is_tls req =
      let (initial_id, m) = ensure_request_id (w.uuid 0) req.headers in
      let path = c.uri_path req.uri in
      let host = host_of m in
      let guard = AccessLog.new initial_id remote_addr req.method path host in
      let ctx = ctx_of remote_addr is_tls req in
      let start = arrival m req in
      elim (find_site config host is_tls) [
        | none ↦
            served (error_response 404 (codes "404") (no_site_message host) initial_id guard none)
        | some site ↦
            finish_request w backend ctx (process_directives w ctx site.directives path path start)
              initial_id guard
      ]
