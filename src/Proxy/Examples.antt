-- ===== src/Proxy/Examples.antt =====
-- The theorems about request handling at concrete requests: a site whose requests pass an auth
-- service and go to a backend.
mod Runs
mod Requests
mod Auth
mod Headers
mod Certificates
mod Sites
use tiny_proxy.Base.{List, [], false, none, some, true, ◌∷◌}
use tiny_proxy.Base.Text.{Text, codes}
use tiny_proxy.Config.Address.{SocketAddr}
use tiny_proxy.Config.Models.{
  Config, Directives, ForwardAuthConfig, HeaderDirective, SiteConfig, closed, cons, forward_auth,
  method, nil, reverse_proxy,
}
use tiny_proxy.Http.{Request}
use tiny_proxy.Http.Sample.{Entries, sample_codec, sample_headers}
use tiny_proxy.Proxy.Responses.{Backend}
use tiny_proxy.Proxy.State.{
  ActionResult, AuthCtx, AuthResponse, Current, World, answered, proxy_to, timed_out,
}

abbrev pub auth_config : ForwardAuthConfig
auth_config = record {
  endpoint = record {
    scheme = some (codes "http");
    authority = some (codes "auth");
    path_and_query = some (codes "/v");
  };
  request_headers = codes "cookie" ∷ [];
  response_headers = codes "x-user" ∷ [];
  failure_mode = closed;
  timeout_secs = 5;
}

-- The `header_up` rules of the backend.
abbrev pub up_rules : List HeaderDirective
up_rules = record { name = codes "X-Real"; value = some (codes "{remote_ip}") } ∷ []

abbrev pub site_directives : Directives
site_directives =
    cons (forward_auth auth_config) (cons (reverse_proxy (codes "b:1") none none up_rules) nil)

abbrev pub site_config : SiteConfig
site_config = record { address = codes "h:80"; directives = site_directives; tls = none }

abbrev pub config : Config
config = record { sites = (codes "h:80", site_config) ∷ [] }

abbrev pub grant : AuthResponse Entries
grant = record { status = 200; headers = (codes "x-user", codes "ann") ∷ []; frames = true ∷ [] }

abbrev pub world : World Entries
world = record {
  env = λ name. none;
  uuid = λ k. codes "id";
  auth = λ k q. answered grant;
  can_build = λ u. true;
  fuel = 4;
}

abbrev pub silent_world : World Entries
silent_world = record world { auth = λ k q. timed_out }

abbrev pub peer : SocketAddr
peer = record { ip = codes "10.0.0.9"; port = 4000 }

abbrev pub client_request : Request Entries (Unit {0})
client_request = record {
  method = codes "GET";
  uri = record { scheme = none; authority = none; path_and_query = some (codes "/a?q=1") };
  headers =
      (codes "host", codes "h") ∷ (codes "x-user", codes "root") ∷ (codes "cookie", codes "c") ∷ [];
  body = tt;
}

abbrev pub context : AuthCtx
context = record { original_uri = codes "/a?q=1"; remote_addr = peer; is_tls = false }

abbrev pub entering : Current Entries (Unit {0})
entering = record {
  req = record client_request {
    headers = (codes "x-request-id", codes "id") ∷ client_request.headers;
  };
  calls = 1;
}

abbrev pub backend : Backend Entries (Unit {0})
backend out = answered (record {
  status = 204;
  headers = (codes "connection", codes "close") ∷ (codes "etag", codes "e") ∷ [];
  stream = tt;
})

-- The request that the backend gets.
abbrev pub forwarded_request : Request Entries (Unit {0})
forwarded_request = record {
  method = codes "GET";
  uri = record {
    scheme = some (codes "http");
    authority = some (codes "b:1");
    path_and_query = some (codes "/a?q=1");
  };
  headers =
      (codes "x-real", codes "10.0.0.9")
      ∷ (codes "x-forwarded-for", codes "10.0.0.9")
      ∷ (codes "x-forwarded-proto", codes "http")
      ∷ (codes "x-forwarded-host", codes "h")
      ∷ (codes "host", codes "b:1")
      ∷ (codes "x-user", codes "ann")
      ∷ (codes "x-request-id", codes "id")
      ∷ (codes "cookie", codes "c")
      ∷ [];
  body = tt;
}

-- The request behind the gate.
abbrev pub admitted : Current Entries (Unit {0})
admitted = record {
  req = record client_request {
    headers =
        (codes "x-user", codes "ann")
        ∷ (codes "x-request-id", codes "id")
        ∷ (codes "host", codes "h")
        ∷ (codes "cookie", codes "c")
        ∷ [];
  };
  calls = 2;
}

abbrev pub path_a : Text
path_a = codes "/a"

abbrev pub to_backend : ActionResult
to_backend = proxy_to (codes "b:1") path_a none none up_rules
