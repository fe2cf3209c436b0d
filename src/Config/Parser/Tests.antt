-- ===== src/Config/Parser/Tests.antt =====
-- Runs of the parser on small files.
use mathlib.Core.List.{Permᴰ}
use tiny_proxy.Base.{List, [], arith, none, refl, some, true, ◌<◌, ◌↔◌, ◌∷◌, ◌≡◌}
use tiny_proxy.Base.Result.{collect, ok}
use tiny_proxy.Base.Text.{Text, codes}
use tiny_proxy.Base.Text.Runs.{text_runs}
use tiny_proxy.Config.Address.{SocketAddr, extract_hostname, resolve_listen_addr, u64_bound}
use tiny_proxy.Config.Duration.{parse_duration, parse_trimmed, scale, split_unit}
use tiny_proxy.Config.Duration.Bounds.{parse_duration-lt}
use tiny_proxy.Config.Models.{
  Directives, ForwardAuthConfig, SiteConfig, closed, cons, default_auth_timeout_secs,
  default_request_headers, forward_auth, handle_path, nil, no_directives, normalize_auth_endpoint,
  push, respond, reverse_proxy, with_default_path,
}
use tiny_proxy.Config.Models.Endpoint.{IsEndpoint, normalize_auth_endpoint-IsEndpoint}
use tiny_proxy.Config.Models.Ranges.{SitesInRange}
use tiny_proxy.Config.Models.Serde.{deserialize_auth}
use tiny_proxy.Config.Parser.{ForwardAuthBlock, default_block, has_key, initial}
use tiny_proxy.Config.Parser.Blocks.{
  build_forward_auth, close_block, close_nested, close_site, close_stack, complete_block,
  filter_not_brace, open_block, parse_headers, push_last,
}
use tiny_proxy.Config.Parser.Formats.{build_forward_auth_iff, object_of}
use tiny_proxy.Config.Parser.Invariant.{kept, keyed, step_line-kept, well_formed}
use tiny_proxy.Config.Parser.Lines.{
  directive_of, from_str, header_of, plain_line, redirect_of, respond_of, run_lines, simple_line,
  simple_words, step_line, uri_replace_of,
}
use tiny_proxy.Config.Parser.Outcome.{Valid, from_str-Valid}
use tiny_proxy.Config.Parser.Settings.{
  auth_setting, failure_mode_of, header_up_of, proxy_setting, tls_line,
}
use tiny_proxy.Config.Parser.Typed.Loop.{from_str-InRange}
use tiny_proxy.Config.Sockets.{
  Seen, addr_eq, check_site, check_sites, check_sni, check_tls, sni_at, tls_at,
  validate_listen_sockets,
}
use tiny_proxy.Config.Sockets.Agreement.{both_plain, validate_listen_sockets_iff}
use tiny_proxy.Config.Sockets.Order.{validate_listen_sockets-perm}
use tiny_proxy.Http.{Uri}
use tiny_proxy.Http.Sample.{sample_codec, sample_headers, sample_uri}

-- Opens the whole parser.
unfoldable pub parser_runs : Unit {0}
unfolding from_str run_lines step_line simple_words simple_line plain_line directive_of header_of
    redirect_of respond_of uri_replace_of open_block filter_not_brace close_block close_stack
    close_nested close_site complete_block build_forward_auth parse_headers push_last auth_setting
    proxy_setting header_up_of failure_mode_of tls_line has_key validate_listen_sockets check_sites
    check_site check_tls check_sni tls_at sni_at addr_eq resolve_listen_addr extract_hostname
    parse_duration parse_trimmed split_unit scale normalize_auth_endpoint with_default_path
    default_request_headers default_auth_timeout_secs push no_directives collect sample_uri
    text_runs
parser_runs = tt

abbrev file : Text
file =
    codes
      "# demo\nlocalhost:8080 {\n  handle_path /api/* {\n    forward_auth {\n      to http://auth/v\n      timeout 2m\n    }\n    reverse_proxy b:1\n  }\n  respond 200 ok\n}\n"

abbrev expected : Directives
expected =
    cons
      (handle_path (codes "/api/*") (
        cons
          (forward_auth (record {
            endpoint = record {
              scheme = some (codes "http");
              authority = some (codes "auth");
              path_and_query = some (codes "/v");
            };
            request_headers = codes "authorization" ∷ codes "cookie" ∷ [];
            response_headers = [];
            failure_mode = closed;
            timeout_secs = 120;
          }))
          (cons (reverse_proxy (codes "b:1") none none []) nil)))
      (cons (respond 200 (codes "ok")) nil)

from_str-file :
    from_str file
    ≡ ok (record {
      sites =
          (
            codes "localhost:8080",
            record { address = codes "localhost:8080"; directives = expected; tls = none },
          )
          ∷ [];
    })
unfolding parser_runs
from_str-file = refl

-- A site block that is never closed is lost without an error.
unclosed_site_lost :
    from_str (codes "localhost:8080 {\n  respond 200 ok\n") ≡ ok (record { sites = [] })
unfolding parser_runs
unclosed_site_lost = refl

from_str-Valid_example : Valid (from_str file)
from_str-Valid_example = from_str-Valid file

first_line_kept : kept (step_line (codes "localhost:8080 {") 1 initial) ≡ true
unfolding well_formed keyed
first_line_kept = step_line-kept (codes "localhost:8080 {") 1 initial refl

abbrev plain_site : Text → SiteConfig
plain_site address = record { address = address; directives = nil; tls = none }

abbrev two_sites : List (Text × SiteConfig)
two_sites =
    (codes "a:80", plain_site (codes "a:80")) ∷ (codes "b:80", plain_site (codes "b:80")) ∷ []

abbrev port_80 : SocketAddr
port_80 = record { ip = codes "0.0.0.0"; port = 80 }

validate_listen_sockets_iff_example : (last : Seen) × (validate_listen_sockets two_sites ≡ ok last)
unfolding parser_runs
validate_listen_sockets_iff_example =
    (validate_listen_sockets_iff two_sites).1
      ((port_80, refl), (both_plain port_80 refl refl refl refl, tt), ((port_80, refl), tt, tt))

two_minutes_lt : 120 < u64_bound
unfolding parser_runs
two_minutes_lt = parse_duration-lt (codes "2m") 120 refl

abbrev auth_uri : Uri
auth_uri = record {
  scheme = some (codes "http");
  authority = some (codes "a");
  path_and_query = none;
}

abbrev auth_endpoint : Uri
auth_endpoint = record auth_uri { path_and_query = some (codes "/") }

normalize_auth_endpoint-IsEndpoint_example : IsEndpoint auth_uri auth_endpoint
unfolding parser_runs
normalize_auth_endpoint-IsEndpoint_example =
    normalize_auth_endpoint-IsEndpoint auth_uri auth_endpoint refl

-- The example of the README for `respond`: the body is the first word, with its quotation mark.
respond_first_word :
    from_str (codes "localhost:8080 {\n    respond 200 \"Service is healthy\"\n}\n")
    ≡ ok (record {
      sites =
          (
            codes "localhost:8080",
            record {
              address = codes "localhost:8080";
              directives = cons (respond 200 (codes "\"Service")) nil;
              tls = none;
            },
          )
          ∷ [];
    })
unfolding parser_runs
respond_first_word = refl

abbrev parsed_sites : List (Text × SiteConfig)
parsed_sites =
    (
      codes "localhost:8080",
      record { address = codes "localhost:8080"; directives = expected; tls = none },
    )
    ∷ []

from_str-InRange_example : SitesInRange parsed_sites
unfolding parser_runs
from_str-InRange_example = from_str-InRange file (record { sites = parsed_sites }) refl

validate_listen_sockets-perm_example :
    ((last : Seen) × (validate_listen_sockets two_sites ≡ ok last)) ↔ (
      (last : Seen) × (validate_listen_sockets (
          (codes "b:80", plain_site (codes "b:80"))
          ∷ (codes "a:80", plain_site (codes "a:80"))
          ∷ [])
        ≡ ok last))
validate_listen_sockets-perm_example =
    validate_listen_sockets-perm two_sites _ (Permᴰ.swap refl refl)

abbrev auth_block_settings : ForwardAuthBlock
auth_block_settings = record default_block {
  to = some (codes "http://auth/v");
  response_headers = some (codes "X-User" ∷ []);
  timeout = some 9;
}

abbrev auth_config : ForwardAuthConfig
auth_config = record {
  endpoint = record {
    scheme = some (codes "http");
    authority = some (codes "auth");
    path_and_query = some (codes "/v");
  };
  request_headers = codes "authorization" ∷ codes "cookie" ∷ [];
  response_headers = codes "x-user" ∷ [];
  failure_mode = closed;
  timeout_secs = 9;
}

build_forward_auth_iff_example :
    (build_forward_auth auth_block_settings 3 ≡ ok (forward_auth auth_config))
    ↔ (deserialize_auth (object_of auth_block_settings) ≡ ok auth_config)
build_forward_auth_iff_example =
    build_forward_auth_iff auth_block_settings 3 auth_config (omega arith)
