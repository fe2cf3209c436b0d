-- ===== src/Config/Parser/Printer/Bodies.antt =====
-- The printed lines of directives are derived by the rules of the language.
-- A word that is no brace.
use tiny_proxy.Base.{
  List, Option, [], all, and_parts, arith, false, is_empty, none, refl, some, true, ℕ, ◌&&◌, ◌++◌,
  ◌+◌, ◌<◌, ◌||◌, ◌∷◌, ◌≡◌,
}
use tiny_proxy.Base.Result.{ok}
use tiny_proxy.Base.Text.{Text, codes, is_whitespace, join, text_eq}
use tiny_proxy.Base.Text.Decimal.{parse_uint-to_string, to_string}
use tiny_proxy.Base.Text.Words.{is_word}
use tiny_proxy.Config.Address.{u16_bound}
use tiny_proxy.Config.Models.{
  Directive, Directives, cons, forward_auth, handle_path, header, method, nil, redirect, respond,
  reverse_proxy, strip_prefix, uri_replace,
}
use tiny_proxy.Config.Parser.Grammar.{
  NoBrace, Writes, directive, done, forward_auth_block, handle_path_block, method_block,
  reverse_proxy_block,
}
use tiny_proxy.Config.Parser.Lines.{
  directive_of, header_of, redirect_of, respond_of, uri_replace_of,
}
use tiny_proxy.Config.Parser.Printer.{
  HeaderPrintable, Printable, close_line, header_words, is_head, is_plain, plain_end,
  print_directives, print_line, respond_words,
}
use tiny_proxy.Config.Parser.Printer.Auth.{auth_settings, AuthSettings-read, build_printed}
use tiny_proxy.Config.Parser.Printer.Lines.{
  close_line-ClosesBlock, print_line-HasWords, print_line-OpensBlock, to_string-plain,
  words_of_plain,
}
use tiny_proxy.Config.Parser.Printer.Settings.{
  dash-plain, no_dash, not_empty_plain, proxy_block, ProxySettings-read, strip_prefix-dash,
}
use tiny_proxy.Http.{Codec, Uri}

not_brace : (w : Text) → is_plain w ≡ true → text_eq w (codes "{") ≡ false
unfolding is_plain plain_end text_eq
not_brace [] h = refl
not_brace (c ∷ []) h = ground arith
not_brace (c ∷ d ∷ w) h = ground arith

no_braces : (ws : List Text) → all is_plain ws ≡ true → NoBrace ws
no_braces [] h = tt
no_braces (w ∷ ws) h =
    let (fit, more) = and_parts (is_plain w) (all is_plain ws) h in
    (not_brace w fit, no_braces ws more)

pub one_plain : (w : Text) → is_plain w ≡ true → all is_plain (w ∷ []) ≡ true
one_plain w h = ground (arith, h)

pub one_word : (w : Text) → is_plain w ≡ true → all is_word (w ∷ []) ≡ true
one_word w h = words_of_plain (w ∷ []) (one_plain w h)

pub two_plain :
    (v w : Text) → is_plain v ≡ true → is_plain w ≡ true → all is_plain (v ∷ w ∷ []) ≡ true
two_plain v w h g = ground (arith, h, g)

pub header_read :
    (name : Text) (value : Option Text)
    → HeaderPrintable (λ v. is_plain v ≡ true) name value
    → (header_of (header_words name value) ≡ ok (header name value))
      × (all is_plain (header_words name value) ≡ true)
unfolding header_of
header_read name none h = (
  ground (arith, strip_prefix-dash name, not_empty_plain name h),
  one_plain (codes "-" ++ name) (dash-plain name h),
)
header_read name (some v) ((fit, bare), word) =
    (rw (no_dash name bare, header_of) refl, two_plain name v fit word)

pub respond_read :
    (status : ℕ) (body : Text)
    → status < u16_bound
    → (is_empty body || is_plain body) ≡ true
    → (respond_of (respond_words status body) ≡ ok (respond status body))
      × (all is_plain (respond_words status body) ≡ true)
unfolding respond_of
respond_read status [] lt h = (
  rw (parse_uint-to_string u16_bound status lt) refl,
  one_plain (to_string status) (to_string-plain status),
)
respond_read status (c ∷ s) lt h = (
  rw (parse_uint-to_string u16_bound status lt) refl,
  two_plain (to_string status) (c ∷ s) (to_string-plain status) h,
)

redirect_read :
    (status : ℕ) (url : Text)
    → status < u16_bound
    → redirect_of (to_string status ∷ url ∷ []) ≡ ok (redirect status url)
unfolding redirect_of join
redirect_read status url lt = rw (parse_uint-to_string u16_bound status lt) refl

module _ ⦃c : Codec⦄ (show_uri : Uri → Text) where
  -- A directive on one line.
  one_line :
      (n : ℕ) (name : Text) (args : List Text) (d : Directive) (ds : Directives) (ls : List Text)
      → (is_head name && is_plain name) ≡ true
      → all is_plain args ≡ true
      → text_eq name (codes "tls") ≡ false
      → directive_of name args (n + 1) ≡ ok d
      → Writes (n + 1) ds ls
      → Writes n (cons d ds) (print_line (name ∷ args) ∷ ls)
  one_line n name args d ds ls h plain no_tls read rest =
      let (head, fit) = and_parts (is_head name) (is_plain name) h in
      directive n d ds name args _ ls
        (print_line-HasWords name args head (ground (arith, fit, plain))) no_tls read rest

  -- The lines of printable directives, from any line on.
  pub print_directives-Writes :
      (ds : Directives) (n : ℕ) → Printable show_uri ds → Writes n ds (print_directives show_uri ds)
  unfolding print_directives Printable directive_of uri_replace_of text_eq is_head is_plain is_word
      is_whitespace plain_end
  print_directives-Writes nil n h = done n
  print_directives-Writes (cons (reverse_proxy to dial wait up) ds) n ((fit, small, lt, ups), h) =
      reverse_proxy_block n to (proxy_block to dial wait up) ds _ close_line _ _
        (print_line-OpensBlock (codes "reverse_proxy") (to ∷ []) refl (one_word to fit))
        (not_brace to fit) (ProxySettings-read (n + 1) to dial wait up small lt ups)
        close_line-ClosesBlock (print_directives-Writes ds _ h)
  print_directives-Writes (cons (handle_path p inner) ds) n (fit, ins, h) =
      handle_path_block n p inner ds _ close_line _ _
        (print_line-OpensBlock (codes "handle_path") (p ∷ []) refl (one_word p fit))
        (not_brace p fit) (print_directives-Writes inner (n + 1) ins) close_line-ClosesBlock
        (print_directives-Writes ds _ h)
  print_directives-Writes (cons (uri_replace find by) ds) n ((f, b), h) =
      one_line n (codes "uri_replace") (find ∷ by ∷ []) _ ds _ refl (two_plain find by f b) refl
        refl (print_directives-Writes ds (n + 1) h)
  print_directives-Writes (cons (header name value) ds) n (p, h) =
      let (read, plain) = header_read name value p in
      one_line n (codes "header") (header_words name value) _ ds _ refl plain refl read
        (print_directives-Writes ds (n + 1) h)
  print_directives-Writes (cons (method names inner) ds) n (fit, ins, h) =
      method_block n names inner ds _ close_line _ _
        (print_line-OpensBlock (codes "method") names refl (words_of_plain names fit))
        (no_braces names fit) (print_directives-Writes inner (n + 1) ins) close_line-ClosesBlock
        (print_directives-Writes ds _ h)
  print_directives-Writes (cons (strip_prefix p) ds) n (fit, h) =
      one_line n (codes "strip_prefix") (p ∷ []) _ ds _ refl (one_plain p fit) refl refl
        (print_directives-Writes ds (n + 1) h)
  print_directives-Writes (cons (redirect status url) ds) n ((lt, fit), h) =
      one_line n (codes "redirect") (to_string status ∷ url ∷ []) _ ds _ refl
        (two_plain (to_string status) url (to_string-plain status) fit) refl
        (redirect_read status url lt) (print_directives-Writes ds (n + 1) h)
  print_directives-Writes (cons (respond status body) ds) n ((lt, fit), h) =
      let (read, plain) = respond_read status body lt fit in
      one_line n (codes "respond") (respond_words status body) _ ds _ refl plain refl read
        (print_directives-Writes ds (n + 1) h)
  print_directives-Writes (cons (forward_auth f) ds) n (p, h) =
      forward_auth_block n (auth_settings (show_uri f.endpoint) f) (forward_auth f) ds _ close_line
        _ _ (print_line-OpensBlock (codes "forward_auth") [] refl refl)
        (AuthSettings-read show_uri (n + 1) f p) close_line-ClosesBlock
        (build_printed show_uri f _ p) (print_directives-Writes ds _ h)
