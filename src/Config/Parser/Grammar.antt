-- ===== src/Config/Parser/Grammar.antt =====
-- The language of configuration files, as rules: which lines write a directive, a list of
-- directives, a site and a file. A rule says what stands on its lines by `trim` and
-- `split_whitespace`; between the lines there may be empty ones and comments. The first number of a
-- family is that of the lines in front.
-- A line that says nothing.
mod Examples
pub mod Steps
pub mod Settings
pub mod Bodies
use tiny_proxy.Base.{
  All, List, [], false, if◌then◌else◌, is_empty, length, none, some, true, ℕ, ◌++◌, ◌+◌, ◌||◌, ◌∷◌,
  ◌≡◌,
}
use tiny_proxy.Base.Result.{ok}
use tiny_proxy.Base.Text.{Text, codes, ends_with, split_whitespace, starts_with, text_eq, trim}
use tiny_proxy.Config.Models.{
  Directive, Directives, SiteConfig, cons, handle_path, method, nil, reverse_proxy,
}
use tiny_proxy.Config.Parser.{ForwardAuthBlock, PendingBlock, default_block, has_key}
use tiny_proxy.Config.Parser.Blocks.{build_forward_auth}
use tiny_proxy.Config.Parser.Lines.{directive_of}
use tiny_proxy.Config.Parser.Settings.{auth_setting, proxy_setting}
use tiny_proxy.Http.{Codec}

abbrev pub Blank : Text → Type 0
Blank l = (is_empty (trim l) || starts_with (trim l) (codes "#")) ≡ true

-- A line of words, without a brace at its end.
abbrev pub HasWords : Text → List Text → Type 0
HasWords l ws =
    ((is_empty (trim l) || starts_with (trim l) (codes "#")) ≡ false)
    × (ends_with (trim l) (codes "{") ≡ false)
    × (text_eq (trim l) (codes "}") ≡ false)
    × (split_whitespace (trim l) ≡ ws)

-- A line of words with a brace at its end.
abbrev pub OpensBlock : Text → List Text → Type 0
OpensBlock l ws =
    ((is_empty (trim l) || starts_with (trim l) (codes "#")) ≡ false)
    × (ends_with (trim l) (codes "{") ≡ true)
    × (split_whitespace (trim l) ≡ ws)

-- A line that is a closing brace.
abbrev pub ClosesBlock : Text → Type 0
ClosesBlock l = trim l ≡ codes "}"

abbrev pub brace : List Text
brace = codes "{" ∷ []

-- Words none of which is a brace.
abbrev pub NoBrace : List Text → Type 0
NoBrace ws = All (λ w. text_eq w (codes "{") ≡ false) ws

-- A block as it is opened.
abbrev pub opened : Text → List Text → PendingBlock
opened name args = record {
  directive_type = name;
  args = args;
  connect_timeout = none;
  read_timeout = none;
  header_up = [];
  forward_auth = if text_eq name (codes "forward_auth") then some default_block else none;
}

-- The settings of a `reverse_proxy` block, from one state of the block to another.
pub data ProxySettings : ℕ → PendingBlock → PendingBlock → List Text → Type 0 where
  proxy_done : (n : ℕ) (b : PendingBlock) → ProxySettings n b b []
  proxy_blank :
      (n : ℕ) (b b' : PendingBlock) (l : Text) (ls : List Text)
      → Blank l
      → ProxySettings (n + 1) b b' ls
      → ProxySettings n b b' (l ∷ ls)
  proxy_set :
      (n : ℕ) (b b' b'' : PendingBlock) (name : Text) (args : List Text) (l : Text) (ls : List Text)
      → HasWords l (name ∷ args)
      → proxy_setting name args (n + 1) b ≡ ok b'
      → ProxySettings (n + 1) b' b'' ls
      → ProxySettings n b b'' (l ∷ ls)

-- The settings of a `forward_auth` block.
pub data AuthSettings : ℕ → ForwardAuthBlock → ForwardAuthBlock → List Text → Type 0 where
  auth_done : (n : ℕ) (p : ForwardAuthBlock) → AuthSettings n p p []
  auth_blank :
      (n : ℕ) (p p' : ForwardAuthBlock) (l : Text) (ls : List Text)
      → Blank l
      → AuthSettings (n + 1) p p' ls
      → AuthSettings n p p' (l ∷ ls)
  auth_set :
      (n : ℕ) (p p' p'' : ForwardAuthBlock) (name : Text) (args : List Text) (l : Text)
      (ls : List Text)
      → HasWords l (name ∷ args)
      → auth_setting name args (n + 1) p ≡ ok p'
      → AuthSettings (n + 1) p' p'' ls
      → AuthSettings n p p'' (l ∷ ls)

module _ ⦃c : Codec⦄ where
  -- The lines of a list of directives.
  pub data Writes : ℕ → Directives → List Text → Type 0 where
    done : (n : ℕ) → Writes n nil []
    blank :
        (n : ℕ) (ds : Directives) (l : Text) (ls : List Text)
        → Blank l
        → Writes (n + 1) ds ls
        → Writes n ds (l ∷ ls)
    directive :
        (n : ℕ) (d : Directive) (ds : Directives) (name : Text) (args : List Text) (l : Text)
        (ls : List Text)
        → HasWords l (name ∷ args)
        → text_eq name (codes "tls") ≡ false
        → directive_of name args (n + 1) ≡ ok d
        → Writes (n + 1) ds ls
        → Writes n (cons d ds) (l ∷ ls)
    handle_path_block :
        (n : ℕ) (pattern : Text) (inner ds : Directives) (l r : Text) (ls rs : List Text)
        → OpensBlock l (codes "handle_path" ∷ pattern ∷ brace)
        → text_eq pattern (codes "{") ≡ false
        → Writes (n + 1) inner ls
        → ClosesBlock r
        → Writes (n + 1 + length ls + 1) ds rs
        → Writes n (cons (handle_path pattern inner) ds) (l ∷ (ls ++ r ∷ rs))
    method_block :
        (n : ℕ) (names : List Text) (inner ds : Directives) (l r : Text) (ls rs : List Text)
        → OpensBlock l (codes "method" ∷ (names ++ brace))
        → NoBrace names
        → Writes (n + 1) inner ls
        → ClosesBlock r
        → Writes (n + 1 + length ls + 1) ds rs
        → Writes n (cons (method names inner) ds) (l ∷ (ls ++ r ∷ rs))
    reverse_proxy_block :
        (n : ℕ) (to : Text) (b : PendingBlock) (ds : Directives) (l r : Text) (ls rs : List Text)
        → OpensBlock l (codes "reverse_proxy" ∷ to ∷ brace)
        → text_eq to (codes "{") ≡ false
        → ProxySettings (n + 1) (opened (codes "reverse_proxy") (to ∷ [])) b ls
        → ClosesBlock r
        → Writes (n + 1 + length ls + 1) ds rs
        → Writes n
            (cons (reverse_proxy to b.connect_timeout b.read_timeout b.header_up) ds)
            (l ∷ (ls ++ r ∷ rs))
    forward_auth_block :
        (n : ℕ) (p : ForwardAuthBlock) (d : Directive) (ds : Directives) (l r : Text)
        (ls rs : List Text)
        → OpensBlock l (codes "forward_auth" ∷ brace)
        → AuthSettings (n + 1) default_block p ls
        → ClosesBlock r
        → build_forward_auth p (n + 1 + length ls + 1) ≡ ok d
        → Writes (n + 1 + length ls + 1) ds rs
        → Writes n (cons d ds) (l ∷ (ls ++ r ∷ rs))

  -- The lines of a site: its address, `tls` if it has TLS, and its directives.
  pub data WritesSite : ℕ → SiteConfig → List Text → Type 0 where
    plain_lines :
        (n : ℕ) (address : Text) (rest : List Text) (ds : Directives) (l r : Text) (ls : List Text)
        → OpensBlock l (address ∷ rest)
        → Writes (n + 1) ds ls
        → ClosesBlock r
        → WritesSite n
            (record { address = address; directives = ds; tls = none })
            (l ∷ (ls ++ r ∷ []))
    tls_lines :
        (n : ℕ) (address cert key : Text) (rest more : List Text) (ds : Directives) (l t r : Text)
        (ls : List Text)
        → OpensBlock l (address ∷ rest)
        → HasWords t (codes "tls" ∷ cert ∷ key ∷ more)
        → Writes (n + 2) ds ls
        → ClosesBlock r
        → WritesSite n
            (record {
              address = address;
              directives = ds;
              tls = some (record { cert_path = cert; key_path = key });
            })
            (l ∷ t ∷ (ls ++ r ∷ []))

  -- The lines of a file, after some sites; the last site stands first.
  pub data WritesFile
      : ℕ → List (Text × SiteConfig) → List (Text × SiteConfig) → List Text → Type 0 where
    file_done : (n : ℕ) (sites : List (Text × SiteConfig)) → WritesFile n sites sites []
    file_blank :
        (n : ℕ) (old sites : List (Text × SiteConfig)) (l : Text) (ls : List Text)
        → Blank l
        → WritesFile (n + 1) old sites ls
        → WritesFile n old sites (l ∷ ls)
    file_site :
        (n : ℕ) (s : SiteConfig) (old sites : List (Text × SiteConfig)) (ls rs : List Text)
        → WritesSite n s ls
        → has_key s.address old ≡ false
        → WritesFile (n + length ls) ((s.address, s) ∷ old) sites rs
        → WritesFile n old sites (ls ++ rs)
