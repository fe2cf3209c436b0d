-- ===== src/Config/Parser/Grammar/Examples.antt =====
-- A file that the rules derive.
use tiny_proxy.Base.{List, [], none, refl, some, ◌∷◌, ◌≡◌}
use tiny_proxy.Base.Result.{ok}
use tiny_proxy.Base.Text.{Text, codes, lines}
use tiny_proxy.Config.Models.{
  Directives, HeaderDirective, SiteConfig, cons, handle_path, nil, reverse_proxy,
}
use tiny_proxy.Config.Parser.{PendingBlock}
use tiny_proxy.Config.Parser.Completeness.{from_str-WritesFile}
use tiny_proxy.Config.Parser.Grammar.{
  Writes, WritesSite, brace, done, file_done, file_site, handle_path_block, opened, proxy_done,
  proxy_set, reverse_proxy_block, tls_lines,
}
use tiny_proxy.Config.Parser.Lines.{from_str}
use tiny_proxy.Config.Parser.Tests.{parser_runs}
use tiny_proxy.Http.Sample.{sample_codec, sample_headers}

abbrev opening : Text
opening = codes "b:443 { # demo {"

abbrev tls_pair : Text
tls_pair = codes "  tls c k"

abbrev path_line : Text
path_line = codes "  handle_path /x {"

abbrev proxy_line : Text
proxy_line = codes "    reverse_proxy d:1 {"

abbrev header_up_line : Text
header_up_line = codes "      header_up A b c"

abbrev small_file : Text
small_file =
    codes
      "b:443 { # demo {\n  tls c k\n  handle_path /x {\n    reverse_proxy d:1 {\n      header_up A b c\n    }\n  }\n}\n"

abbrev up_header : HeaderDirective
up_header = record { name = codes "A"; value = some (codes "b c") }

abbrev proxy_block : PendingBlock
proxy_block = record (opened (codes "reverse_proxy") (codes "d:1" ∷ [])) {
  header_up = up_header ∷ [];
}

abbrev inner_directives : Directives
inner_directives = cons (reverse_proxy (codes "d:1") none none (up_header ∷ [])) nil

abbrev small_site : SiteConfig
small_site = record {
  address = codes "b:443";
  directives = cons (handle_path (codes "/x") inner_directives) nil;
  tls = some (record { cert_path = codes "c"; key_path = codes "k" });
}

abbrev inner_lines : List Text
inner_lines = proxy_line ∷ header_up_line ∷ codes "    }" ∷ []

inner_written : Writes 3 inner_directives inner_lines
unfolding parser_runs
inner_written =
    reverse_proxy_block 3 (codes "d:1") proxy_block nil proxy_line (codes "    }")
      (header_up_line ∷ []) [] (refl, refl, refl) refl
      (proxy_set 4 (opened (codes "reverse_proxy") (codes "d:1" ∷ [])) proxy_block proxy_block
        (codes "header_up") (codes "A" ∷ codes "b" ∷ codes "c" ∷ []) header_up_line []
        (refl, refl, refl, refl) refl (proxy_done 5 proxy_block))
      refl (done 6)

site_written : WritesSite 0 small_site (
    opening
    ∷ tls_pair
    ∷ path_line
    ∷ proxy_line
    ∷ header_up_line
    ∷ codes "    }"
    ∷ codes "  }"
    ∷ codes "}"
    ∷ [])
unfolding parser_runs
site_written =
    tls_lines 0 (codes "b:443") (codes "c") (codes "k")
      (codes "{" ∷ codes "#" ∷ codes "demo" ∷ brace) []
      (cons (handle_path (codes "/x") inner_directives) nil) opening tls_pair (codes "}")
      (path_line ∷ proxy_line ∷ header_up_line ∷ codes "    }" ∷ codes "  }" ∷ [])
      (refl, refl, refl) (refl, refl, refl, refl)
      (handle_path_block 2 (codes "/x") inner_directives nil path_line (codes "  }") inner_lines []
        (refl, refl, refl) refl inner_written refl (done 7))
      refl

from_str-WritesFile_example :
    from_str small_file ≡ ok (record { sites = (codes "b:443", small_site) ∷ [] })
unfolding parser_runs
from_str-WritesFile_example =
    from_str-WritesFile small_file ((codes "b:443", small_site) ∷ [])
      (file_site 0 small_site [] ((codes "b:443", small_site) ∷ []) (lines small_file) []
        site_written refl (file_done 8 ((codes "b:443", small_site) ∷ [])))
      ((record { ip = codes "0.0.0.0"; port = 443 }, refl), tt, tt)
