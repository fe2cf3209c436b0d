-- ===== src/Proxy/Pipeline.antt =====
-- `process_directives` of src/proxy/handler.rs.
pub mod Rules
pub mod Gates
pub mod Outcomes
pub mod Routing
use tiny_proxy.Base.{true, false, none, some}
use tiny_proxy.Base.Text.{Text}
use tiny_proxy.Http.{Headers, Codec}
use tiny_proxy.Config.Models.{
  closed, open_mode, ForwardAuthConfig, reverse_proxy, handle_path, uri_replace, header, method,
  strip_prefix, redirect, respond, forward_auth, Directives, nil, cons,
}
use tiny_proxy.Proxy.Paths.{match_pattern, handle_uri_replace, handle_strip_prefix}
use tiny_proxy.Proxy.State.{
  World, AuthCtx, Current, ActionResult, respond_with, proxy_to, redirect_to, auth_denied,
  set_headers, count_call,
}
use tiny_proxy.Proxy.Headers.{handle_header, handle_method}
use tiny_proxy.Proxy.ForwardAuth.{
  AuthResult, allowed, denied, failed, scrub_identity_headers, apply_identity_headers, resolve_auth,
}

-- What the pipeline ends with: an action, the error that there is none for the path, or a header
-- substitution that does not end.
pub data Outcome (M Body : Type 0) : Type 0 where
  action : ActionResult → Current M Body → Outcome M Body
  no_action : Text → Current M Body → Outcome M Body
  hangs : Outcome M Body

-- What one `forward_auth` directive does: the request goes on, or the action is known.
pub data Gate (M Body : Type 0) : Type 0 where
  proceed : Current M Body → Gate M Body
  reject : ActionResult → Current M Body → Gate M Body

module _ {M Body : Type 0} ⦃h : Headers M⦄ ⦃c : Codec⦄ (w : World M) (ctx : AuthCtx) where
  -- `Directive::ForwardAuth`, after the scrub.
  unfoldable pub after_auth : ForwardAuthConfig → AuthResult M → Current M Body → Gate M Body
  after_auth cfg (allowed identity) s =
      proceed (set_headers s (apply_identity_headers identity s.req.headers))
  after_auth cfg (denied status challenge) s = reject (auth_denied status challenge) s
  after_auth cfg (failed reason) s = elim cfg.failure_mode [
    | closed ↦ reject (auth_denied 503 none) s
    | open_mode ↦ proceed s
  ]

  unfoldable pub forward_auth_step : ForwardAuthConfig → Current M Body → Gate M Body
  forward_auth_step cfg s =
      let scrubbed = set_headers s (scrub_identity_headers cfg s.req.headers) in
      after_auth cfg (resolve_auth w scrubbed.calls ctx scrubbed.req cfg) (count_call scrubbed)

  -- The arguments are the directives, `modified_path`, `current_path` and the request. A call for
  -- the rest of a list waits in an `elim` or in the result of a bind.
  unfoldable pub process_directives : Directives → Text → Text → Current M Body → Outcome M Body
  process_directives nil path cur s = no_action cur s
  process_directives (cons (header name value) ds) path cur s =
      elim (handle_header w s.calls name value s.req.headers) [
        | none ↦ hangs
        | some m ↦ process_directives ds path cur (count_call (set_headers s m))
      ]
  process_directives (cons (uri_replace find by) ds) path cur s =
      process_directives ds (handle_uri_replace find by path) cur s
  process_directives (cons (strip_prefix prefix) ds) path cur s =
      process_directives ds (handle_strip_prefix prefix path) cur s
  process_directives (cons (handle_path pattern inner) ds) path cur s =
      elim (match_pattern pattern path) [
        | some remaining ↦ process_directives inner remaining remaining s
        | none ↦ process_directives ds path cur s
      ]
  process_directives (cons (method methods inner) ds) path cur s =
      elim (handle_method methods s.req.method) [
        | true ↦ process_directives inner path path s
        | false ↦ process_directives ds path cur s
      ]
  process_directives (cons (redirect status url) ds) path cur s = action (redirect_to status url) s
  process_directives (cons (respond status body) ds) path cur s =
      action (respond_with status body) s
  process_directives (cons (reverse_proxy to ct rt up) ds) path cur s =
      action (proxy_to to path ct rt up) s
  process_directives (cons (forward_auth cfg) ds) path cur s = elim (forward_auth_step cfg s) [
    | proceed s' ↦ process_directives ds path cur s'
    | reject a s' ↦ action a s'
  ]
