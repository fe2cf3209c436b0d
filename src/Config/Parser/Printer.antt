-- ===== src/Config/Parser/Printer.antt =====
-- A printer of configurations, in the language of the text parser, and which configurations it can
-- print: words may not contain white space nor end with a brace. A URI is given with the text that
-- it prints as.
pub mod Lines
pub mod Settings
pub mod Auth
pub mod Bodies
pub mod Clean
pub mod RoundTrip
mod Examples
use tiny_proxy.Base.{
  All, Bool, List, Option, [], all, false, is_empty, none, not, some, true, ℕ, ◌&&◌, ◌++◌, ◌<◌,
  ◌==◌, ◌||◌, ◌∷◌, ◌≡◌,
}
use tiny_proxy.Base.Text.{Text, codes, join, split_whitespace, starts_with}
use tiny_proxy.Base.Text.Decimal.{to_string}
use tiny_proxy.Base.Text.Printed.{unlines}
use tiny_proxy.Base.Text.Words.{is_word, last_of}
use tiny_proxy.Config.Address.{u16_bound, u64_bound}
use tiny_proxy.Config.Models.{
  Config, Directives, ForwardAuthConfig, HeaderDirective, SiteConfig, TlsConfig, cons, forward_auth,
  handle_path, header, method, nil, redirect, respond, reverse_proxy, strip_prefix, uri_replace,
}
use tiny_proxy.Config.Models.Endpoint.{IsEndpoint}
use tiny_proxy.Config.Models.Ranges.{Below}
use tiny_proxy.Config.Models.Serde.{mode_name}
use tiny_proxy.Config.Parser.Grammar.{brace}
use tiny_proxy.Http.{Codec, HeaderName, Uri}

abbrev pub print_line : List Text → Text
print_line ws = join (codes " ") ws

abbrev pub close_line : Text
close_line = codes "}"

abbrev pub timeout_lines : Text → Option ℕ → List Text
timeout_lines name none = []
timeout_lines name (some n) = print_line (name ∷ to_string n ∷ []) ∷ []

abbrev pub header_up_words : HeaderDirective → List Text
header_up_words d = elim d.value [
  | none ↦ (codes "-" ++ d.name) ∷ []
  | some v ↦ d.name ∷ split_whitespace v
]

unfoldable pub header_up_lines : List HeaderDirective → List Text
header_up_lines [] = []
header_up_lines (d ∷ ds) = print_line (codes "header_up" ∷ header_up_words d) ∷ header_up_lines ds

abbrev pub response_lines : List HeaderName → List Text
response_lines [] = []
response_lines (n ∷ ns) = print_line (codes "response_headers" ∷ n ∷ ns) ∷ []

abbrev pub header_words : Text → Option Text → List Text
header_words name none = (codes "-" ++ name) ∷ []
header_words name (some v) = name ∷ v ∷ []

abbrev pub respond_words : ℕ → Text → List Text
respond_words status [] = to_string status ∷ []
respond_words status (c ∷ s) = to_string status ∷ (c ∷ s) ∷ []

abbrev pub tls_lines_of : Option TlsConfig → List Text
tls_lines_of none = []
tls_lines_of (some t) = print_line (codes "tls" ∷ t.cert_path ∷ t.key_path ∷ []) ∷ []

module _ (show_uri : Uri → Text) where
  unfoldable pub auth_lines : ForwardAuthConfig → List Text
  auth_lines f =
      print_line (codes "to" ∷ show_uri f.endpoint ∷ [])
      ∷ print_line (codes "request_headers" ∷ f.request_headers)
      ∷ (response_lines f.response_headers
          ++ print_line (codes "failure_mode" ∷ mode_name f.failure_mode ∷ [])
            ∷ print_line (codes "timeout" ∷ to_string f.timeout_secs ∷ [])
            ∷ [])

  unfoldable pub print_directives : Directives → List Text
  print_directives nil = []
  print_directives (cons (reverse_proxy to dial wait up) ds) =
      print_line (codes "reverse_proxy" ∷ to ∷ brace)
      ∷ ((timeout_lines (codes "connect_timeout") dial
            ++ (timeout_lines (codes "read_timeout") wait ++ header_up_lines up))
          ++ close_line ∷ print_directives ds)
  print_directives (cons (handle_path p inner) ds) =
      print_line (codes "handle_path" ∷ p ∷ brace)
      ∷ (print_directives inner ++ close_line ∷ print_directives ds)
  print_directives (cons (uri_replace find by) ds) =
      print_line (codes "uri_replace" ∷ find ∷ by ∷ []) ∷ print_directives ds
  print_directives (cons (header name value) ds) =
      print_line (codes "header" ∷ header_words name value) ∷ print_directives ds
  print_directives (cons (method names inner) ds) =
      print_line (codes "method" ∷ (names ++ brace))
      ∷ (print_directives inner ++ close_line ∷ print_directives ds)
  print_directives (cons (strip_prefix p) ds) =
      print_line (codes "strip_prefix" ∷ p ∷ []) ∷ print_directives ds
  print_directives (cons (redirect status url) ds) =
      print_line (codes "redirect" ∷ to_string status ∷ url ∷ []) ∷ print_directives ds
  print_directives (cons (respond status body) ds) =
      print_line (codes "respond" ∷ respond_words status body) ∷ print_directives ds
  print_directives (cons (forward_auth f) ds) =
      print_line (codes "forward_auth" ∷ brace) ∷ (auth_lines f ++ close_line ∷ print_directives ds)

  unfoldable pub print_site : SiteConfig → List Text
  print_site s =
      print_line (s.address ∷ brace)
      ∷ (tls_lines_of s.tls ++ (print_directives s.directives ++ close_line ∷ []))

  -- The parser puts each site in front of those before it.
  unfoldable pub print_sites : List (Text × SiteConfig) → List Text
  print_sites [] = []
  print_sites ((k, s) ∷ sites) = print_sites sites ++ print_site s

  unfoldable pub print_config : Config → Text
  print_config config = unlines (print_sites config.sites)

-- A word that may end a line.
unfoldable pub plain_end : Option ℕ → Bool
plain_end none = true
plain_end (some c) = not (c == b'{')

unfoldable pub is_plain : Text → Bool
is_plain w = is_word w && plain_end (last_of w)

-- A word that may begin a line.
unfoldable pub is_head : Text → Bool
is_head [] = false
is_head (c ∷ w) = is_word (c ∷ w) && not (c == b'#') && not (c == b'}')

abbrev pub Phrase : Text → Type 0
Phrase v =
    (join (codes " ") (split_whitespace v) ≡ v)
    × (is_empty v ≡ false)
    × (all is_plain (split_whitespace v) ≡ true)

-- A name that stands for itself, and is not taken for one that is removed.
abbrev pub IsSetName : Text → Type 0
IsSetName n = (is_plain n ≡ true) × (starts_with n (codes "-") ≡ false)

abbrev pub HeaderPrintable : (Text → Type 0) → Text → Option Text → Type 0
HeaderPrintable P name none = is_plain name ≡ true
HeaderPrintable P name (some v) = IsSetName name × P v

abbrev pub TlsPrintable : Option TlsConfig → Type 0
TlsPrintable none = Unit
TlsPrintable (some t) = (is_plain t.cert_path ≡ true) × (is_plain t.key_path ≡ true)

module _ ⦃c : Codec⦄ (show_uri : Uri → Text) where
  abbrev pub NamesPrintable : List HeaderName → Type 0
  NamesPrintable ns = (all is_plain ns ≡ true) × All (λ n. c.name_from_bytes n ≡ some n) ns

  abbrev pub AuthPrintable : ForwardAuthConfig → Type 0
  AuthPrintable f =
      (IsEndpoint f.endpoint f.endpoint
        × (c.uri_from_str (show_uri f.endpoint) ≡ some f.endpoint)
        × (is_plain (show_uri f.endpoint) ≡ true))
      × ((is_empty f.request_headers ≡ false) × NamesPrintable f.request_headers)
      × NamesPrintable f.response_headers
      × (f.timeout_secs < u64_bound)

  unfoldable pub Printable : Directives → Type 0
  Printable nil = Unit
  Printable (cons (reverse_proxy to dial wait up) ds) =
      ((is_plain to ≡ true)
        × Below u64_bound dial
        × Below u64_bound wait
        × All (λ d. HeaderPrintable Phrase d.name d.value) up)
      × Printable ds
  Printable (cons (handle_path p inner) ds) = (is_plain p ≡ true) × Printable inner × Printable ds
  Printable (cons (uri_replace find by) ds) =
      ((is_plain find ≡ true) × (is_plain by ≡ true)) × Printable ds
  Printable (cons (header name value) ds) =
      HeaderPrintable (λ v. is_plain v ≡ true) name value × Printable ds
  Printable (cons (method names inner) ds) =
      (all is_plain names ≡ true) × Printable inner × Printable ds
  Printable (cons (strip_prefix p) ds) = (is_plain p ≡ true) × Printable ds
  Printable (cons (redirect status url) ds) =
      ((status < u16_bound) × (is_plain url ≡ true)) × Printable ds
  Printable (cons (respond status body) ds) =
      ((status < u16_bound) × ((is_empty body || is_plain body) ≡ true)) × Printable ds
  Printable (cons (forward_auth f) ds) = AuthPrintable f × Printable ds

  abbrev pub SitePrintable : SiteConfig → Type 0
  SitePrintable s = (is_head s.address ≡ true) × TlsPrintable s.tls × Printable s.directives
