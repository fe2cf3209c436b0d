-- ===== src/Config/Parser/Completeness.antt =====
-- Every file that the rules of the language derive is read, as the configuration that they derive.
use mathlib.Core.List.{append_assoc}
use tiny_proxy.Base.{
  List, Option, [], ap, arith, false, length, length-append, none, refl, some, suc, ℕ, ◌++◌, ◌+◌,
  ◌∙◌, ◌∷◌, ◌≡◌,
}
use tiny_proxy.Base.Result.{ok}
use tiny_proxy.Base.Text.{Text, codes, lines, text_eq}
use tiny_proxy.Config.Models.{Directives, SiteConfig, TlsConfig, nil}
use tiny_proxy.Config.Parser.{State, has_key, initial}
use tiny_proxy.Config.Parser.Blocks.{close_block, close_site, close_stack, open_block}
use tiny_proxy.Config.Parser.Grammar.{
  ClosesBlock, Writes, WritesFile, WritesSite, file_blank, file_done, file_site, plain_lines,
  tls_lines,
}
use tiny_proxy.Config.Parser.Grammar.Bodies.{plain_place, run_directives}
use tiny_proxy.Config.Parser.Grammar.Steps.{
  behind, inside, recount, run-Blank, run_closes, run_opens, run_words,
}
use tiny_proxy.Config.Parser.Lines.{from_str, plain_line, run_lines, simple_line, simple_words}
use tiny_proxy.Config.Parser.Settings.{tls_line}
use tiny_proxy.Config.Sockets.Agreement.{AllAgree, validate_listen_sockets_iff}
use tiny_proxy.Http.{Codec}

module _ ⦃c : Codec⦄ where
  -- The state between two sites.
  abbrev fresh : List (Text × SiteConfig) → State
  fresh sites = record initial { sites = sites }

  open_site :
      (address : Text) (rest : List Text) (sites : List (Text × SiteConfig))
      → open_block (address ∷ rest) (fresh sites) ≡ inside sites address none (nil ∷ []) []
  unfolding open_block
  open_site address rest sites = refl

  shut_site :
      (sites : List (Text × SiteConfig)) (address : Text) (tls : Option TlsConfig) (ds : Directives)
      (n : ℕ)
      → has_key address sites ≡ false
      → close_block (inside sites address tls (ds ∷ []) []) n
        ≡ ok (fresh ((address, record { address = address; directives = ds; tls = tls }) ∷ sites))
  unfolding close_block close_stack close_site
  shut_site sites address tls ds n e = rw (e, close_block, close_stack, close_site) refl

  -- The lines of the directives of a site, and its last line.
  run_body :
      (n : ℕ) (ds : Directives) (ls : List Text) (r : Text) (more : List Text)
      (sites : List (Text × SiteConfig)) (address : Text) (tls : Option TlsConfig)
      → Writes n ds ls
      → ClosesBlock r
      → has_key address sites ≡ false
      → run_lines ((ls ++ r ∷ []) ++ more) n (inside sites address tls (nil ∷ []) [])
        ≡ run_lines more
            (n + length (ls ++ r ∷ []))
            (fresh ((address, record { address = address; directives = ds; tls = tls }) ∷ sites))
  unfolding behind plain_place
  run_body n ds ls r more sites address tls w shut new_key =
      ap (λ x. run_lines x n (inside sites address tls (nil ∷ []) []))
        (append_assoc ls (r ∷ []) more)
      ∙ run_directives n ds ls w sites address tls nil [] [] (r ∷ more) refl
      ∙ run_closes r more (n + length ls) (inside sites address tls (ds ∷ []) [])
          (fresh ((address, record { address = address; directives = ds; tls = tls }) ∷ sites)) shut
          (shut_site sites address tls ds (n + length ls + 1) new_key)
      ∙ recount more (n + length ls + 1) (n + length (ls ++ r ∷ []))
          (fresh ((address, record { address = address; directives = ds; tls = tls }) ∷ sites))
          (omega (arith, length-append ls (r ∷ [])))

  tls_step :
      (cert key : Text) (more : List Text) (n : ℕ) (sites : List (Text × SiteConfig))
      (address : Text)
      → simple_words (codes "tls" ∷ cert ∷ key ∷ more) n (inside sites address none (nil ∷ []) [])
        ≡ ok (
            inside sites address (some (record { cert_path = cert; key_path = key })) (nil ∷ []) [])
  unfolding simple_words simple_line plain_line tls_line text_eq
  tls_step cert key more n sites address = refl

  run_site :
      (n : ℕ) (s : SiteConfig) (ls : List Text)
      → WritesSite n s ls
      → (sites : List (Text × SiteConfig)) (more : List Text) → has_key s.address sites ≡ false
      → run_lines (ls ++ more) n (fresh sites)
        ≡ run_lines more (n + length ls) (fresh ((s.address, s) ∷ sites))
  run_site n s ls (plain_lines _ address rest ds l r ins opens w shut) sites more new_key =
      run_opens l (address ∷ rest) ((ins ++ r ∷ []) ++ more) n (fresh sites) opens
      ∙ ap (run_lines ((ins ++ r ∷ []) ++ more) (n + 1)) (open_site address rest sites)
      ∙ run_body (n + 1) ds ins r more sites address none w shut new_key
      ∙ recount more (n + 1 + length (ins ++ r ∷ [])) (n + suc (length (ins ++ r ∷ [])))
          (fresh ((s.address, s) ∷ sites)) (omega arith)
  run_site n s ls (tls_lines _ address cert key rest words ds l t r ins opens says w shut) sites
        more new_key =
      let pair : TlsConfig = record { cert_path = cert; key_path = key } in
      run_opens l (address ∷ rest) (t ∷ ((ins ++ r ∷ []) ++ more)) n (fresh sites) opens
      ∙ ap (run_lines (t ∷ ((ins ++ r ∷ []) ++ more)) (n + 1)) (open_site address rest sites)
      ∙ run_words t (codes "tls" ∷ cert ∷ key ∷ words) ((ins ++ r ∷ []) ++ more) (n + 1)
          (inside sites address none (nil ∷ []) []) (inside sites address (some pair) (nil ∷ []) [])
          says (tls_step cert key words (n + 1 + 1) sites address)
      ∙ recount ((ins ++ r ∷ []) ++ more) (n + 1 + 1) (n + 2)
          (inside sites address (some pair) (nil ∷ []) []) (omega arith)
      ∙ run_body (n + 2) ds ins r more sites address (some pair) w shut new_key
      ∙ recount more (n + 2 + length (ins ++ r ∷ [])) (n + suc (suc (length (ins ++ r ∷ []))))
          (fresh ((s.address, s) ∷ sites)) (omega arith)

  run_file :
      (n : ℕ) (old sites : List (Text × SiteConfig)) (ls : List Text)
      → WritesFile n old sites ls
      → run_lines ls n (fresh old) ≡ ok (fresh sites)
  unfolding run_lines
  run_file n old sites ls (file_done _ _) = refl
  run_file n old sites ls (file_blank _ _ _ l rest e w) =
      run-Blank l rest n (fresh old) e ∙ run_file (n + 1) old sites rest w
  run_file n old sites ls (file_site _ s _ _ own rest w new_key more) =
      run_site n s own w old rest new_key
      ∙ run_file (n + length own) ((s.address, s) ∷ old) sites rest more

  -- A file whose lines are derived by the rules of the language, for sites with distinct addresses
  -- that agree on their listen sockets, is read, and gives just these sites.
  pub from_str-WritesFile :
      (content : Text) (sites : List (Text × SiteConfig))
      → WritesFile 0 [] sites (lines content)
      → AllAgree sites
      → from_str content ≡ ok (record { sites = sites })
  unfolding from_str
  from_str-WritesFile content sites w agree =
      let (seen, fine) = (validate_listen_sockets_iff sites).1 agree in
      rw (run_file 0 [] sites (lines content) w, from_str) (rw fine refl)
