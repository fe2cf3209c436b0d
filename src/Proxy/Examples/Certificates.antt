-- ===== src/Proxy/Examples/Certificates.antt =====
-- Certificates and redirects at two TLS sites.
use tiny_proxy.Base.{List, Option, [], none, refl, some, ◌∷◌, ◌≡◌}
use tiny_proxy.Base.Text.{Text, codes}
use tiny_proxy.Base.Text.Runs.{text_runs}
use tiny_proxy.Config.Models.{TlsConfig}
use tiny_proxy.Http.Sample.{sample_codec, sample_headers}
use tiny_proxy.Proxy.Tls.{
  SniCertResolver, build_resolver, first_by_name, get_entry, is_default, least_name, load_sites,
  resolve, text_le,
}
use tiny_proxy.Proxy.Tls.Certificates.{build_resolver-default, has_name, here, resolve-own, there}
use tiny_proxy.Proxy.Tls.Redirect.{
  hostname_from_host_header, redirect_location, redirect_location_named,
}

abbrev pair_of : Text → TlsConfig
pair_of name = record { cert_path = name; key_path = name }

abbrev named_sites : List (Text × TlsConfig)
named_sites = (codes "a.org", pair_of (codes "a")) ∷ (codes "B.org", pair_of (codes "b")) ∷ []

-- A key pair is named by its file here.
abbrev load_name : TlsConfig → Option Text
load_name cfg = some cfg.cert_path

abbrev two_certificates : SniCertResolver Text
two_certificates = record {
  entries = (codes "b.org", codes "b") ∷ (codes "a.org", codes "a") ∷ [];
  default = some (codes "a");
}

tls_runs : Unit {0}
unfolding load_sites build_resolver first_by_name least_name get_entry resolve is_default text_le
    has_name redirect_location hostname_from_host_header text_runs
tls_runs = tt

resolve-own_example : resolve two_certificates (some (codes "b.ORG")) ≡ some (codes "b")
unfolding tls_runs
resolve-own_example =
    resolve-own load_name none named_sites two_certificates (codes "B.org") (codes "b.ORG")
      (pair_of (codes "b")) (codes "b") refl (there (here refl)) refl refl

build_resolver-default_example : (key : Text) × (two_certificates.default ≡ some key)
unfolding tls_runs
build_resolver-default_example =
    build_resolver-default load_name none named_sites two_certificates refl

redirect_location_named_example :
    (redirect_location (codes "a.org:80") (codes "/x") 8443 (codes "8443")
      ≡ redirect_location (codes "a.org") (codes "/x") 8443 (codes "8443"))
    × (redirect_location (codes "a.org") (codes "/x") 8443 (codes "8443")
        ≡ codes "https://a.org:8443/x")
redirect_location_named_example =
    redirect_location_named b'a' (codes ".org") (codes "80") (codes "/x") 8443 (codes "8443") refl
      refl

-- An IPv6 address loses its brackets in the redirect.
redirect_unbracketed :
    redirect_location (codes "[::1]:80") (codes "/x") 443 (codes "443") ≡ codes "https://::1/x"
unfolding tls_runs
redirect_unbracketed = refl
