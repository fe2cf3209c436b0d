-- ===== src/Config/Parser/Printer/RoundTrip.antt =====
-- The printed text of a configuration, and the parser on it.
use mathlib.Core.List.{append-nil, append_assoc}
use mathlib.Core.Path.{subst}
use tiny_proxy.Base.{
  All, List, Option, [], arith, false, length, length-append, none, refl, some, sym, true, ℕ, ◌++◌,
  ◌+◌, ◌∷◌, ◌≡◌,
}
use tiny_proxy.Base.Result.{ok}
use tiny_proxy.Base.Text.{Text, codes, is_whitespace, lines}
use tiny_proxy.Base.Text.Eq.{text_eq_iff}
use tiny_proxy.Base.Text.Printed.{lines-unlines}
use tiny_proxy.Base.Text.Words.{is_word}
use tiny_proxy.Config.Models.{Config, Directives, SiteConfig, TlsConfig}
use tiny_proxy.Config.Parser.{has_key}
use tiny_proxy.Config.Parser.Completeness.{from_str-WritesFile}
use tiny_proxy.Config.Parser.Grammar.{
  WritesFile, WritesSite, brace, file_blank, file_done, file_site, plain_lines, tls_lines,
}
use tiny_proxy.Config.Parser.Invariant.{keyed}
use tiny_proxy.Config.Parser.Lines.{from_str}
use tiny_proxy.Config.Parser.Printer.{
  Printable, SitePrintable, TlsPrintable, close_line, is_head, is_plain, plain_end, print_config,
  print_site, print_sites,
}
use tiny_proxy.Config.Parser.Printer.Bodies.{print_directives-Writes}
use tiny_proxy.Config.Parser.Printer.Clean.{
  CleanLines, CleanLines-clean, append_clean, close_clean, end_lines, head_clean, head_word,
  line_and, print_directives-clean, tls_clean, two_plain_under,
}
use tiny_proxy.Config.Parser.Printer.Lines.{
  close_line-ClosesBlock, print_line-HasWords, print_line-OpensBlock,
}
use tiny_proxy.Config.Sockets.Agreement.{AllAgree}
use tiny_proxy.Http.{Codec, Uri}

module _ ⦃c : Codec⦄ where
  -- The lines of further sites below those of a file.
  WritesFile-append :
      (n : ℕ) (old sites more : List (Text × SiteConfig)) (ls rs : List Text)
      → WritesFile n old sites ls
      → WritesFile (n + length ls) sites more rs
      → WritesFile n old more (ls ++ rs)
  WritesFile-append n old sites more ls rs (file_done _ _) v =
      subst (λ k. WritesFile k sites more rs) (omega arith) v
  WritesFile-append n old sites more ls rs (file_blank _ _ _ l rest e w) v =
      file_blank n old more l (rest ++ rs) e (
        WritesFile-append (n + 1) old sites more rest rs w
          (subst (λ k. WritesFile k sites more rs) (omega arith) v))
  WritesFile-append n old sites more ls rs (file_site _ s _ _ own rest w new_key v) u =
      subst (WritesFile n old more) (sym (append_assoc own rest rs)) (
        file_site n s old more own (rest ++ rs) w new_key (
          WritesFile-append (n + length own) ((s.address, s) ∷ old) sites more rest rs v
            (subst (λ k. WritesFile k sites more rs) (omega (arith, length-append own rest)) u)))

  module _ (show_uri : Uri → Text) where
    site_written :
        (n : ℕ) (address : Text) (ds : Directives) (tls : Option TlsConfig)
        → is_head address ≡ true
        → TlsPrintable tls
        → Printable show_uri ds
        → WritesSite n
            (record { address = address; directives = ds; tls = tls })
            (print_site show_uri (record { address = address; directives = ds; tls = tls }))
    unfolding print_site is_head is_plain is_word is_whitespace plain_end
    site_written n address ds none h t p =
        plain_lines n address brace ds _ close_line _ (print_line-OpensBlock address [] h refl)
          (print_directives-Writes show_uri ds (n + 1) p) close_line-ClosesBlock
    site_written n address ds (some pair) h (cert, key) p =
        tls_lines n address pair.cert_path pair.key_path brace [] ds _ _ close_line _
          (print_line-OpensBlock address [] h refl)
          (print_line-HasWords (codes "tls") (pair.cert_path ∷ pair.key_path ∷ []) refl
            (two_plain_under (codes "tls") pair.cert_path pair.key_path refl cert key))
          (print_directives-Writes show_uri ds (n + 2) p) close_line-ClosesBlock

    site_clean : (s : SiteConfig) → SitePrintable show_uri s → CleanLines (print_site show_uri s)
    unfolding print_site
    site_clean s (h, t, p) = line_and (head_clean s.address [] (head_word s.address h) refl) (
        append_clean (tls_clean s.tls t)
          (close_clean (print_directives-clean show_uri s.directives p) end_lines))

    sites_clean :
        (sites : List (Text × SiteConfig))
        → All (λ e. SitePrintable show_uri e.1) sites
        → CleanLines (print_sites show_uri sites)
    unfolding print_sites
    sites_clean [] h = end_lines
    sites_clean ((k, s) ∷ sites) (p, h) = append_clean (sites_clean sites h) (site_clean s p)

    sites_written :
        (sites : List (Text × SiteConfig))
        → keyed sites ≡ true
        → All (λ e. SitePrintable show_uri e.1) sites
        → WritesFile 0 [] sites (print_sites show_uri sites)
    unfolding print_sites keyed
    sites_written [] h p = file_done 0 []
    sites_written ((k, s) ∷ sites) h ((head, tls, p), q) =
        let before = print_sites show_uri sites in
        let named : s.address ≡ k = (text_eq_iff s.address k).0 (ground arith) in
        let new_key : has_key s.address sites ≡ false = rw named (ground arith) in
        let own =
          file_site (0 + length before) s sites ((s.address, s) ∷ sites) (print_site show_uri s) []
            (site_written (0 + length before) s.address s.directives s.tls head tls p) new_key
            (file_done _ ((s.address, s) ∷ sites)) in
        subst (λ x. WritesFile 0 [] ((x, s) ∷ sites) (before ++ print_site show_uri s)) named
          (WritesFile-append 0 [] sites ((s.address, s) ∷ sites) before (print_site show_uri s)
            (sites_written sites (ground arith) q)
            (subst (WritesFile (0 + length before) sites ((s.address, s) ∷ sites))
              (append-nil (print_site show_uri s)) own))

    -- A configuration that can be printed, with sites that have distinct keys, each its own address,
    -- and agree on their listen sockets: the file that is printed is parsed, as that configuration.
    pub from_str-print_config :
        (config : Config)
        → keyed config.sites ≡ true
        → AllAgree config.sites
        → All (λ e. SitePrintable show_uri e.1) config.sites
        → from_str (print_config show_uri config) ≡ ok config
    unfolding print_config
    from_str-print_config config h agree p =
        let found : lines (print_config show_uri config) ≡ print_sites show_uri config.sites =
          lines-unlines (print_sites show_uri config.sites)
            (CleanLines-clean (sites_clean config.sites p)) in
        from_str-WritesFile (print_config show_uri config) config.sites
          (subst (WritesFile 0 [] config.sites) (sym found) (sites_written config.sites h p)) agree
