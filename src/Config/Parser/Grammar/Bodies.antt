-- ===== src/Config/Parser/Grammar/Bodies.antt =====
-- The lines of directives that the rules derive, as the loop of the parser reads them.
-- A place where lines are directives: no `reverse_proxy` or `forward_auth` block is the innermost.
use tiny_proxy.Base.{
  Bool, List, Option, [], and_parts, ap, arith, false, length, not, refl, suc, sym, true, ℕ, ◌&&◌,
  ◌++◌, ◌+◌, ◌∙◌, ◌∷◌, ◌≡◌,
}
use tiny_proxy.Base.Result.{ok}
use tiny_proxy.Base.Text.{Text, codes, text_eq}
use tiny_proxy.Config.Models.{
  Directive, Directives, SiteConfig, TlsConfig, handle_path, method, nil, no_directives, push,
  reverse_proxy,
}
use tiny_proxy.Config.Parser.{ForwardAuthBlock, PendingBlock, default_block}
use tiny_proxy.Config.Parser.Blocks.{
  build_forward_auth, complete_block, filter_not_brace, push_last,
}
use tiny_proxy.Config.Parser.Grammar.{
  Writes, blank, brace, directive, done, forward_auth_block, handle_path_block, method_block,
  opened, reverse_proxy_block,
}
use tiny_proxy.Config.Parser.Grammar.Settings.{
  ProxySettings-args, auth_block, run-AuthSettings, run-ProxySettings,
}
use tiny_proxy.Config.Parser.Grammar.Steps.{
  behind, behind-nil, behind-push, filter_not_brace-NoBrace, inside, recount, run-Blank, run_block,
  run_words,
}
use tiny_proxy.Config.Parser.Lines.{directive_of, plain_line, run_lines, simple_line, simple_words}
use tiny_proxy.Http.{Codec}

unfoldable pub plain_place : List PendingBlock → Bool
plain_place [] = true
plain_place (b ∷ blocks) =
    not (text_eq b.directive_type (codes "forward_auth"))
    && not (text_eq b.directive_type (codes "reverse_proxy"))

module _ ⦃c : Codec⦄ where
  directive_line :
      (name : Text) (args : List Text) (n : ℕ) (d : Directive) (sites : List (Text × SiteConfig))
      (address : Text) (tls : Option TlsConfig) (top : Directives) (stack : List Directives)
      (blocks : List PendingBlock)
      → plain_place blocks ≡ true
      → text_eq name (codes "tls") ≡ false
      → directive_of name args n ≡ ok d
      → simple_words (name ∷ args) n (inside sites address tls (top ∷ stack) blocks)
        ≡ ok (inside sites address tls (push top d ∷ stack) blocks)
  unfolding simple_words simple_line plain_line push_last plain_place
  directive_line name args n d sites address tls top stack [] h no_tls e =
      rw (no_tls, simple_words, simple_line, plain_line) (rw e refl)
  directive_line name args n d sites address tls top stack (b ∷ blocks) h no_tls e =
      let (no_auth, no_proxy) =
        and_parts (not (text_eq b.directive_type (codes "forward_auth")))
          (not (text_eq b.directive_type (codes "reverse_proxy"))) h in
      let kind_a : text_eq b.directive_type (codes "forward_auth") ≡ false = ground arith in
      let kind_p : text_eq b.directive_type (codes "reverse_proxy") ≡ false = ground arith in
      rw (kind_a, simple_words, simple_line) (rw (kind_p, no_tls, plain_line) (rw e refl))

  complete_proxy :
      (to : Text) (b : PendingBlock) (n : ℕ)
      → b.directive_type ≡ codes "reverse_proxy"
      → b.args ≡ to ∷ []
      → complete_block b nil n ≡ ok (reverse_proxy to b.connect_timeout b.read_timeout b.header_up)
  unfolding complete_block text_eq
  complete_proxy to b n kind given = rw (kind, complete_block) (rw given refl)

  complete_auth :
      (p : ForwardAuthBlock) (d : Directive) (n : ℕ)
      → build_forward_auth p n ≡ ok d
      → complete_block (auth_block p) nil n ≡ ok d
  unfolding complete_block text_eq no_directives
  complete_auth p d n e = rw (e, complete_block) refl

  -- The lines of some directives add them to those of the innermost block.
  pub run_directives :
      (n : ℕ) (ds : Directives) (ls : List Text)
      → Writes n ds ls
      → (sites : List (Text × SiteConfig)) (address : Text) (tls : Option TlsConfig)
        (top : Directives) (stack : List Directives) (blocks : List PendingBlock) (more : List Text)
      → plain_place blocks ≡ true
      → run_lines (ls ++ more) n (inside sites address tls (top ∷ stack) blocks)
        ≡ run_lines more (n + length ls) (inside sites address tls (behind top ds ∷ stack) blocks)
  unfolding plain_place complete_block text_eq filter_not_brace no_directives behind
  run_directives n ds ls (done _) sites address tls top stack blocks more h =
      recount more n (n + 0) (inside sites address tls (top ∷ stack) blocks) (omega arith)
      ∙ ap (λ x. run_lines more (n + 0) (inside sites address tls (x ∷ stack) blocks))
          (sym (behind-nil top))
  run_directives n ds ls (blank _ _ l rest e w) sites address tls top stack blocks more h =
      run-Blank l (rest ++ more) n (inside sites address tls (top ∷ stack) blocks) e
      ∙ run_directives (n + 1) ds rest w sites address tls top stack blocks more h
      ∙ recount more (n + 1 + length rest) (n + suc (length rest))
          (inside sites address tls (behind top ds ∷ stack) blocks) (omega arith)
  run_directives n ds ls (directive _ d es name args l rest words no_tls e w) sites address tls top
        stack blocks more h =
      run_words l (name ∷ args) (rest ++ more) n (inside sites address tls (top ∷ stack) blocks)
        (inside sites address tls (push top d ∷ stack) blocks) words
        (directive_line name args (n + 1) d sites address tls top stack blocks h no_tls e)
      ∙ run_directives (n + 1) es rest w sites address tls (push top d) stack blocks more h
      ∙ recount more (n + 1 + length rest) (n + suc (length rest))
          (inside sites address tls (behind (push top d) es ∷ stack) blocks) (omega arith)
      ∙ ap
          (λ x.
            run_lines more (n + suc (length rest)) (inside sites address tls (x ∷ stack) blocks))
          (behind-push top d es)
  run_directives n ds ls (handle_path_block _ pattern inner es l r ins rs opens fine w shut u) sites
        address tls top stack blocks more h =
      run_block n (codes "handle_path") (pattern ∷ brace) (pattern ∷ [])
        (opened (codes "handle_path") (pattern ∷ [])) inner top es (handle_path pattern inner) l r
        ins rs more sites address tls stack blocks opens
        (filter_not_brace-NoBrace (pattern ∷ []) (fine, tt))
        (λ more.
          run_directives (n + 1) inner ins w sites address tls nil (top ∷ stack)
            (opened (codes "handle_path") (pattern ∷ []) ∷ blocks) more refl)
        shut refl
        (run_directives (n + 1 + length ins + 1) es rs u sites address tls
          (push top (handle_path pattern inner)) stack blocks more h)
  run_directives n ds ls (method_block _ names inner es l r ins rs opens fine w shut u) sites
        address tls top stack blocks more h =
      run_block n (codes "method") (names ++ brace) names (opened (codes "method") names) inner top
        es (method names inner) l r ins rs more sites address tls stack blocks opens
        (filter_not_brace-NoBrace names fine)
        (λ more.
          run_directives (n + 1) inner ins w sites address tls nil (top ∷ stack)
            (opened (codes "method") names ∷ blocks) more refl)
        shut refl
        (run_directives (n + 1 + length ins + 1) es rs u sites address tls
          (push top (method names inner)) stack blocks more h)
  run_directives n ds ls (reverse_proxy_block _ to b es l r ins rs opens fine w shut u) sites
        address tls top stack blocks more h =
      let d = reverse_proxy to b.connect_timeout b.read_timeout b.header_up in
      let (kind, given) =
        ProxySettings-args (n + 1) (opened (codes "reverse_proxy") (to ∷ [])) b ins w in
      run_block n (codes "reverse_proxy") (to ∷ brace) (to ∷ []) b nil top es d l r ins rs more
        sites address tls stack blocks opens (filter_not_brace-NoBrace (to ∷ []) (fine, tt))
        (λ more.
          run-ProxySettings (n + 1) (opened (codes "reverse_proxy") (to ∷ [])) b ins w refl sites
            address tls (nil ∷ top ∷ stack) blocks more)
        shut (complete_proxy to b (n + 1 + length ins + 1) kind given)
        (run_directives (n + 1 + length ins + 1) es rs u sites address tls (push top d) stack blocks
          more h)
  run_directives n ds ls (forward_auth_block _ p d es l r ins rs opens w shut built u) sites address
        tls top stack blocks more h =
      run_block n (codes "forward_auth") brace [] (auth_block p) nil top es d l r ins rs more sites
        address tls stack blocks opens refl
        (λ more.
          run-AuthSettings (n + 1) default_block p ins w sites address tls (nil ∷ top ∷ stack)
            blocks more)
        shut (complete_auth p d (n + 1 + length ins + 1) built)
        (run_directives (n + 1 + length ins + 1) es rs u sites address tls (push top d) stack blocks
          more h)
