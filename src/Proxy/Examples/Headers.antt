-- ===== src/Proxy/Examples/Headers.antt =====
-- Headers and paths.

use tiny_proxy.Base.{[], arith, none, refl, some, ◌∷◌, ◌≡◌, ◌≢◌}
use tiny_proxy.Base.Text.{Text, codes}
use tiny_proxy.Http.{values_of}
use tiny_proxy.Http.Sample.{Entries, sample_codec, sample_headers}
use tiny_proxy.Proxy.Examples.{client_request, context, forwarded_request}
use tiny_proxy.Proxy.Examples.Runs.{proxy_runs}
use tiny_proxy.Proxy.Forward.{copy_response_headers, default_headers}
use tiny_proxy.Proxy.Forward.Laws.{get_all-copy_response_headers, get_all-default_headers}
use tiny_proxy.Proxy.Forward.Target.{Target, backend_uri_iff}
use tiny_proxy.Proxy.Paths.{handle_strip_prefix, match_pattern}
use tiny_proxy.Proxy.Paths.Laws.{
  IsRooted, below, handle_strip_prefix-IsRooted, match_pattern-not_rooted, match_pattern_iff,
}
use tiny_proxy.Proxy.Substitution.{
  diverges, env_marker, expand, process_header_substitution, replaced,
}
use tiny_proxy.Proxy.Substitution.Ends.{
  Ends, Settles, count, expand-Settles, process_header_substitution-Ends,
  process_header_substitution-diverges,
}

get_all-default_headers_example :
    values_of (codes "host") (default_headers context (some (codes "b:1")) client_request.headers)
    ≡ codes "b:1" ∷ []
unfolding proxy_runs
get_all-default_headers_example =
    get_all-default_headers context (some (codes "b:1")) client_request.headers (codes "host")

get_all-copy_response_headers_example :
    values_of (codes "etag") (
      copy_response_headers
        ((codes "connection", codes "close") ∷ (codes "etag", codes "e") ∷ [])
        [])
    ≡ codes "e" ∷ []
unfolding proxy_runs
get_all-copy_response_headers_example =
    get_all-copy_response_headers {M = Entries}
      ((codes "connection", codes "close") ∷ (codes "etag", codes "e") ∷ []) [] (codes "etag")

match_pattern_iff_example : match_pattern (codes "/api/*") (codes "/api/x") ≡ some (codes "/x")
match_pattern_iff_example =
    (match_pattern_iff (codes "/api/*") (codes "/api/x") (codes "/x")).1
      (below (codes "/api") refl refl)

rest_without_slash :
    (match_pattern (codes "/api/*") (codes "/apifoo") ≡ some (codes "foo"))
    × ((t : Text) → codes "foo" ≢ b'/' ∷ t)
unfolding proxy_runs
rest_without_slash = match_pattern-not_rooted (codes "/api") (codes "foo") refl

stripped-IsRooted : IsRooted (handle_strip_prefix (codes "/api") (codes "/apix"))
stripped-IsRooted = handle_strip_prefix-IsRooted (codes "/api") (codes "/apix") (codes "apix", refl)

one_round_ends :
    Settles env_marker
      (codes "a{env.X}")
      (expand (λ name. codes "v") env_marker 3 (codes "a{env.X}"))
unfolding count
one_round_ends =
    expand-Settles (λ name. codes "v") (codes "env.") 3 (codes "a{env.X}") (λ name. refl)
      (omega arith)

process_header_substitution-Ends_example : Ends (
    process_header_substitution {M = Entries} (λ name. none) (codes "id") 3 (codes "{header.x}") [])
unfolding proxy_runs count
process_header_substitution-Ends_example =
    process_header_substitution-Ends {M = Entries} (λ name. none) (codes "id") 3
      (codes "{header.x}") [] (λ name. refl) (λ name. refl) (omega arith)

abbrev cycle : Entries
cycle = (codes "x", codes "{header.x}") ∷ []

process_header_substitution-diverges_example :
    process_header_substitution (λ name. none) (codes "id") 100 (codes "{header.x}") cycle
    ≡ diverges
unfolding proxy_runs count
process_header_substitution-diverges_example =
    process_header_substitution-diverges (λ name. none) (codes "id") 100 (codes "x") cycle refl refl

backend_uri_iff_example : Target (codes "b:1") (codes "/a") client_request.uri forwarded_request.uri
unfolding proxy_runs
backend_uri_iff_example =
    (backend_uri_iff (codes "b:1") (codes "/a") client_request.uri forwarded_request.uri).0 refl

abbrev probing : Entries
probing = (codes "x", codes "{env.KEY}") ∷ []

-- A client that sends the placeholder of an environment variable in a header that is copied gets
-- the value of the variable in its place.
client_reads_env :
    process_header_substitution
      (λ name. some (codes "secret"))
      (codes "id")
      9
      (codes "{header.x}")
      probing
    ≡ replaced (codes "secret")
unfolding proxy_runs
client_reads_env = refl
