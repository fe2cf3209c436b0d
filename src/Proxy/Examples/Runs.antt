-- ===== src/Proxy/Examples/Runs.antt =====
-- Opens the whole of request handling.
use tiny_proxy.Base.Text.Runs.{text_runs}
use tiny_proxy.Http.{insert_value, values_of}
use tiny_proxy.Http.Sample.{drop_name, sample_codec, sample_headers, sample_uri}
use tiny_proxy.Proxy.AccessLog.{logged_status}
use tiny_proxy.Proxy.Forward.{
  backend_request, backend_uri, copy_response_headers, default_headers, insert_text, is_hop_header,
  with_protocol, with_query,
}
use tiny_proxy.Proxy.ForwardAuth.{
  apply_identity_headers, auth_headers, body_breaks, build_auth_request, classify, classify_reply,
  copy_as, copy_listed, insert_all, put_endpoint, put_text, remove_all, resolve_auth,
  scrub_identity_headers,
}
use tiny_proxy.Proxy.Handler.{execute, finish_request, host_of, proxy, reverse_proxy_action}
use tiny_proxy.Proxy.Headers.{
  apply_header_up, handle_header, handle_method, header_up_step, put, put_substituted,
}
use tiny_proxy.Proxy.Paths.{handle_strip_prefix, handle_uri_replace, match_pattern, with_slash}
use tiny_proxy.Proxy.Pipeline.{after_auth, forward_auth_step, process_directives}
use tiny_proxy.Proxy.RequestId.{ensure_request_id, final_request_id}
use tiny_proxy.Proxy.Responses.{
  backend_response, denied_headers, direct_response, error_headers, error_page, error_response,
  failure, with_text,
}
use tiny_proxy.Proxy.Sites.{
  default_port, find_site, get_site, has_port, sni_matches, sni_sites, strip_port,
}
use tiny_proxy.Proxy.Substitution.{
  expand, extract_remote_ip, header_value, process_header_substitution,
  process_upstream_substitution,
}

unfoldable pub proxy_runs : Unit {0}
unfolding proxy finish_request execute reverse_proxy_action host_of backend_response direct_response
    error_response failure with_text error_headers denied_headers error_page backend_uri with_query
    with_protocol insert_text default_headers backend_request is_hop_header copy_response_headers
    process_directives forward_auth_step after_auth remove_all scrub_identity_headers insert_all
    apply_identity_headers copy_as copy_listed put_text put_endpoint auth_headers build_auth_request
    classify classify_reply resolve_auth body_breaks match_pattern handle_uri_replace
    handle_strip_prefix with_slash find_site get_site has_port sni_matches sni_sites strip_port
    default_port ensure_request_id final_request_id logged_status handle_header header_up_step
    apply_header_up handle_method put put_substituted expand header_value
    process_header_substitution process_upstream_substitution extract_remote_ip insert_value
    values_of drop_name sample_uri text_runs
proxy_runs = tt
