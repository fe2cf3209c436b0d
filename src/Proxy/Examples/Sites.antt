-- ===== src/Proxy/Examples/Sites.antt =====
-- The lookup of sites.
use mathlib.Core.List.{Permᴰ}
use tiny_proxy.Base.{[], arith, false, inl, inr, none, refl, some, true, ◌∷◌, ◌≡◌, ◌≢◌}
use tiny_proxy.Base.Text.{Text, codes, text_eq}
use tiny_proxy.Base.Text.Eq.{text_eq_iff}
use tiny_proxy.Config.Address.{extract_hostname}
use tiny_proxy.Config.Models.{Config, SiteConfig, nil}
use tiny_proxy.Config.Parser.{has_key}
use tiny_proxy.Config.Parser.Invariant.{keyed}
use tiny_proxy.Http.Sample.{sample_codec, sample_headers}
use tiny_proxy.Proxy.Examples.Runs.{proxy_runs}
use tiny_proxy.Proxy.Sites.{find_site}
use tiny_proxy.Proxy.Sites.Entries.{Distinct}
use tiny_proxy.Proxy.Sites.Lookup.{Answers, find_site_iff}
use tiny_proxy.Proxy.Sites.Order.{find_site-perm}

abbrev named_site : Text → SiteConfig
named_site address = record { address = address; directives = nil; tls = none }

abbrev one_order : Config
one_order = record {
  sites =
      (codes "a:80", named_site (codes "a:80")) ∷ (codes "b:80", named_site (codes "b:80")) ∷ [];
}

abbrev other_order : Config
other_order = record {
  sites =
      (codes "b:80", named_site (codes "b:80")) ∷ (codes "a:80", named_site (codes "a:80")) ∷ [];
}

find_site-perm_example :
    find_site one_order (codes "b") false ≡ find_site other_order (codes "b") false
unfolding keyed has_key text_eq
find_site-perm_example =
    find_site-perm one_order other_order (codes "b") false (Permᴰ.swap refl refl) refl

-- Under TLS a name without a port finds its site at another port, as the only one of the name.
abbrev tls_site : Text → SiteConfig
tls_site address = record {
  address = address;
  directives = nil;
  tls = some (record { cert_path = codes "c"; key_path = codes "k" });
}

abbrev high_ports : Config
high_ports = record {
  sites =
      (codes "a:8443", tls_site (codes "a:8443"))
      ∷ (codes "b:8443", tls_site (codes "b:8443"))
      ∷ [];
}

texts_apart : (s t : Text) → text_eq s t ≡ false → s ≢ t
texts_apart s t e same = ground (arith, text_eq_iff s t)

high_ports-Distinct : Distinct high_ports.sites
unfolding text_eq
high_ports-Distinct = (
  λ s found. elim found [
    | inl (e, _) ↦ texts_apart (codes "b:8443") (codes "a:8443") refl e
    | inr none_left ↦ none_left
  ],
  (λ s found. found, tt),
)

find_site_iff_example : Answers high_ports.sites (codes "B") true (tls_site (codes "b:8443"))
unfolding proxy_runs extract_hostname
find_site_iff_example =
    (find_site_iff high_ports (codes "B") true (tls_site (codes "b:8443")) high_ports-Distinct).0
      refl
