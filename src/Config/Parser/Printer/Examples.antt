-- ===== src/Config/Parser/Printer/Examples.antt =====
-- A configuration with most of the directives, printed.
use tiny_proxy.Base.{Option, [], arith, inl, inr, none, refl, some, ◌++◌, ◌∷◌, ◌≡◌}
use tiny_proxy.Base.Result.{ok}
use tiny_proxy.Base.Text.{Text, codes}
use tiny_proxy.Base.Text.Decimal.{digits_before, to_string}
use tiny_proxy.Base.Text.Printed.{unlines}
use tiny_proxy.Base.Text.Words.{is_word}
use tiny_proxy.Config.Models.{
  Config, Directives, ForwardAuthConfig, SiteConfig, cons, forward_auth, handle_path, header,
  method, nil, open_mode, redirect, respond, reverse_proxy,
}
use tiny_proxy.Config.Models.Serde.{
  deserialize-serialize_auth, deserialize_auth, mode_name, serialize_auth,
}
use tiny_proxy.Config.Parser.Invariant.{keyed}
use tiny_proxy.Config.Parser.Lines.{from_str}
use tiny_proxy.Config.Parser.Printer.{
  Printable, auth_lines, header_up_lines, is_head, is_plain, plain_end, print_config,
  print_directives, print_site, print_sites,
}
use tiny_proxy.Config.Parser.Printer.RoundTrip.{from_str-print_config}
use tiny_proxy.Config.Parser.Tests.{parser_runs}
use tiny_proxy.Http.{Uri}
use tiny_proxy.Http.Sample.{sample_codec, sample_headers}

abbrev show_part : Option Text → Text
show_part none = []
show_part (some s) = s

abbrev show_sample : Uri → Text
show_sample u =
    show_part u.scheme ++ (codes "://" ++ (show_part u.authority ++ show_part u.path_and_query))

abbrev printed_directives : Directives
printed_directives =
    cons
      (handle_path (codes "/api/*") (
        cons
          (forward_auth (record {
            endpoint = record {
              scheme = some (codes "http");
              authority = some (codes "auth");
              path_and_query = some (codes "/v");
            };
            request_headers = codes "authorization" ∷ codes "cookie" ∷ [];
            response_headers = codes "x-user" ∷ [];
            failure_mode = open_mode;
            timeout_secs = 120;
          }))
          (cons
            (reverse_proxy (codes "b:1") (some 5) none (
              record { name = codes "Host"; value = some (codes "a b") }
              ∷ record { name = codes "X"; value = none }
              ∷ []))
            nil)))
      (cons (method (codes "GET" ∷ codes "PUT" ∷ []) (cons (redirect 308 (codes "/n")) nil))
        (cons (header (codes "X-A") none) (cons (respond 200 (codes "ok")) nil)))

abbrev printed_site : SiteConfig
printed_site = record {
  address = codes "b:443";
  directives = printed_directives;
  tls = some (record { cert_path = codes "c"; key_path = codes "k" });
}

abbrev printed_config : Config
printed_config = record { sites = (codes "b:443", printed_site) ∷ [] }

printer_runs : Unit {0}
unfolding print_config print_sites print_site print_directives auth_lines header_up_lines unlines
    plain_end is_plain is_head is_word Printable keyed mode_name to_string digits_before parser_runs
printer_runs = tt

printed_text :
    print_config show_sample (record {
      sites =
          (
            codes "a:80",
            record { address = codes "a:80"; directives = cons (respond 204 []) nil; tls = none },
          )
          ∷ [];
    })
    ≡ codes "a:80 {\nrespond 204\n}\n"
unfolding printer_runs
printed_text = refl

from_str-print_config_example :
    from_str (print_config show_sample printed_config) ≡ ok printed_config
unfolding printer_runs
from_str-print_config_example =
    from_str-print_config show_sample printed_config refl
      ((record { ip = codes "0.0.0.0"; port = 443 }, refl), tt, tt)
      (
        (
          refl,
          (refl, refl),
          (
            refl,
            (
              (
                ((inl refl, (codes "auth", refl, refl), (codes "/v", refl)), refl, refl),
                (refl, (refl, (refl, (refl, tt)))),
                (refl, (refl, tt)),
                omega arith,
              ),
              ((refl, omega arith, tt, (((refl, refl), (refl, refl, refl)), (refl, tt))), tt),
            ),
            (refl, ((omega arith, refl), tt), (refl, ((omega arith, refl), tt))),
          ),
        ),
        tt,
      )

abbrev sample_auth : ForwardAuthConfig
sample_auth = record {
  endpoint = record {
    scheme = some (codes "http");
    authority = some (codes "auth");
    path_and_query = some (codes "/v");
  };
  request_headers = codes "cookie" ∷ [];
  response_headers = codes "x-user" ∷ [];
  failure_mode = open_mode;
  timeout_secs = 7;
}

deserialize-serialize_auth_example :
    deserialize_auth (serialize_auth show_sample sample_auth) ≡ ok sample_auth
unfolding printer_runs
deserialize-serialize_auth_example =
    deserialize-serialize_auth show_sample sample_auth
      (
        (inl refl, (codes "auth", refl, refl), (codes "/v", refl)),
        inr ((codes "cookie", refl), tt),
        ((codes "x-user", refl), tt),
        omega arith,
      )
      refl (refl, tt) (refl, tt)
