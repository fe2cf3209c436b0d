-- ===== src/Config/Parser/Grammar/Settings.antt =====
-- The settings of the blocks `reverse_proxy` and `forward_auth`.
-- A setting leaves the type and the arguments of its block alone.
use tiny_proxy.Base.{
  List, Option, [], arith, false, length, refl, some, suc, true, ℕ, ◌++◌, ◌+◌, ◌∙◌, ◌∷◌, ◌≡◌,
}
use tiny_proxy.Base.Result.{ok}
use tiny_proxy.Base.Text.{Text, codes, text_eq}
use tiny_proxy.Config.Models.{Directives, SiteConfig, TlsConfig}
use tiny_proxy.Config.Parser.{ForwardAuthBlock, PendingBlock}
use tiny_proxy.Config.Parser.Grammar.{
  AuthSettings, ProxySettings, auth_blank, auth_done, auth_set, opened, proxy_blank, proxy_done,
  proxy_set,
}
use tiny_proxy.Config.Parser.Grammar.Steps.{inside, recount, run-Blank, run_words}
use tiny_proxy.Config.Parser.Lines.{run_lines, simple_line, simple_words}
use tiny_proxy.Config.Parser.Settings.{auth_setting, proxy_setting}
use tiny_proxy.Http.{Codec}

pub proxy_setting-type :
    (name : Text) (args : List Text) (n : ℕ) (b b' : PendingBlock)
    → proxy_setting name args n b ≡ ok b'
    → (b'.directive_type ≡ b.directive_type) × (b'.args ≡ b.args)
unfolding proxy_setting
proxy_setting-type name args n b b' e = ground (arith, e)

-- A `forward_auth` block with its settings so far.
abbrev pub auth_block : ForwardAuthBlock → PendingBlock
auth_block p = record (opened (codes "forward_auth") []) { forward_auth = some p }

module _ ⦃c : Codec⦄ where
  proxy_line_step :
      (name : Text) (args : List Text) (n : ℕ) (b b' : PendingBlock)
      (sites : List (Text × SiteConfig)) (address : Text) (tls : Option TlsConfig)
      (stack : List Directives) (blocks : List PendingBlock)
      → b.directive_type ≡ codes "reverse_proxy"
      → proxy_setting name args n b ≡ ok b'
      → simple_words (name ∷ args) n (inside sites address tls stack (b ∷ blocks))
        ≡ ok (inside sites address tls stack (b' ∷ blocks))
  unfolding simple_words simple_line text_eq
  proxy_line_step name args n b b' sites address tls stack blocks kind e =
      let no_auth : text_eq b.directive_type (codes "forward_auth") ≡ false = rw kind refl in
      let is_proxy : text_eq b.directive_type (codes "reverse_proxy") ≡ true = rw kind refl in
      rw (no_auth, simple_words, simple_line) (rw is_proxy (rw e refl))

  auth_line_step :
      (name : Text) (args : List Text) (n : ℕ) (p p' : ForwardAuthBlock)
      (sites : List (Text × SiteConfig)) (address : Text) (tls : Option TlsConfig)
      (stack : List Directives) (blocks : List PendingBlock)
      → auth_setting name args n p ≡ ok p'
      → simple_words (name ∷ args) n (inside sites address tls stack (auth_block p ∷ blocks))
        ≡ ok (inside sites address tls stack (auth_block p' ∷ blocks))
  unfolding simple_words simple_line text_eq
  auth_line_step name args n p p' sites address tls stack blocks e =
      rw (e, simple_words, simple_line) refl

  pub run-ProxySettings :
      (n : ℕ) (b b' : PendingBlock) (ls : List Text)
      → ProxySettings n b b' ls
      → b.directive_type ≡ codes "reverse_proxy"
      → (sites : List (Text × SiteConfig)) (address : Text) (tls : Option TlsConfig)
        (stack : List Directives) (blocks : List PendingBlock) (more : List Text)
      → run_lines (ls ++ more) n (inside sites address tls stack (b ∷ blocks))
        ≡ run_lines more (n + length ls) (inside sites address tls stack (b' ∷ blocks))
  run-ProxySettings n b b' ls (proxy_done _ _) kind sites address tls stack blocks more =
      recount more n (n + 0) (inside sites address tls stack (b ∷ blocks)) (omega arith)
  run-ProxySettings n b b' ls (proxy_blank _ _ _ l rest e w) kind sites address tls stack blocks
        more =
      run-Blank l (rest ++ more) n (inside sites address tls stack (b ∷ blocks)) e
      ∙ run-ProxySettings (n + 1) b b' rest w kind sites address tls stack blocks more
      ∙ recount more (n + 1 + length rest) (n + suc (length rest))
          (inside sites address tls stack (b' ∷ blocks)) (omega arith)
  run-ProxySettings n b b' ls (proxy_set _ _ m _ name args l rest words e w) kind sites address tls
        stack blocks more =
      let (same, _) = proxy_setting-type name args (n + 1) b m e in
      run_words l (name ∷ args) (rest ++ more) n (inside sites address tls stack (b ∷ blocks))
        (inside sites address tls stack (m ∷ blocks)) words
        (proxy_line_step name args (n + 1) b m sites address tls stack blocks kind e)
      ∙ run-ProxySettings (n + 1) m b' rest w (same ∙ kind) sites address tls stack blocks more
      ∙ recount more (n + 1 + length rest) (n + suc (length rest))
          (inside sites address tls stack (b' ∷ blocks)) (omega arith)

  pub ProxySettings-args :
      (n : ℕ) (b b' : PendingBlock) (ls : List Text)
      → ProxySettings n b b' ls
      → (b'.directive_type ≡ b.directive_type) × (b'.args ≡ b.args)
  ProxySettings-args n b b' ls (proxy_done _ _) = (refl, refl)
  ProxySettings-args n b b' ls (proxy_blank _ _ _ l rest e w) =
      ProxySettings-args (n + 1) b b' rest w
  ProxySettings-args n b b' ls (proxy_set _ _ m _ name args l rest words e w) =
      let (kind, given) = proxy_setting-type name args (n + 1) b m e in
      let (later_kind, later_given) = ProxySettings-args (n + 1) m b' rest w in
      (later_kind ∙ kind, later_given ∙ given)

  pub run-AuthSettings :
      (n : ℕ) (p p' : ForwardAuthBlock) (ls : List Text)
      → AuthSettings n p p' ls
      → (sites : List (Text × SiteConfig)) (address : Text) (tls : Option TlsConfig)
        (stack : List Directives) (blocks : List PendingBlock) (more : List Text)
      → run_lines (ls ++ more) n (inside sites address tls stack (auth_block p ∷ blocks))
        ≡ run_lines more (n + length ls) (inside sites address tls stack (auth_block p' ∷ blocks))
  run-AuthSettings n p p' ls (auth_done _ _) sites address tls stack blocks more =
      recount more n (n + 0) (inside sites address tls stack (auth_block p ∷ blocks)) (omega arith)
  run-AuthSettings n p p' ls (auth_blank _ _ _ l rest e w) sites address tls stack blocks more =
      run-Blank l (rest ++ more) n (inside sites address tls stack (auth_block p ∷ blocks)) e
      ∙ run-AuthSettings (n + 1) p p' rest w sites address tls stack blocks more
      ∙ recount more (n + 1 + length rest) (n + suc (length rest))
          (inside sites address tls stack (auth_block p' ∷ blocks)) (omega arith)
  run-AuthSettings n p p' ls (auth_set _ _ m _ name args l rest words e w) sites address tls stack
        blocks more =
      run_words l (name ∷ args) (rest ++ more) n
        (inside sites address tls stack (auth_block p ∷ blocks))
        (inside sites address tls stack (auth_block m ∷ blocks)) words
        (auth_line_step name args (n + 1) p m sites address tls stack blocks e)
      ∙ run-AuthSettings (n + 1) m p' rest w sites address tls stack blocks more
      ∙ recount more (n + 1 + length rest) (n + suc (length rest))
          (inside sites address tls stack (auth_block p' ∷ blocks)) (omega arith)
