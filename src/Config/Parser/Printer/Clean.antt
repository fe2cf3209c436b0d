-- ===== src/Config/Parser/Printer/Clean.antt =====
-- The printed lines hold no end of a print_line, so `lines` finds them again.
use tiny_proxy.Base.{All, List, Option, [], all, arith, none, refl, some, true, ℕ, ◌++◌, ◌∷◌, ◌≡◌}
use tiny_proxy.Base.Text.{Text, codes, is_whitespace}
use tiny_proxy.Base.Text.Decimal.{to_string}
use tiny_proxy.Base.Text.Printed.{is_clean, join-clean}
use tiny_proxy.Base.Text.Words.{is_word}
use tiny_proxy.Config.Models.{
  Directives, ForwardAuthConfig, HeaderDirective, TlsConfig, cons, forward_auth, handle_path,
  header, method, nil, redirect, respond, reverse_proxy, strip_prefix, uri_replace,
}
use tiny_proxy.Config.Models.Serde.{mode_name}
use tiny_proxy.Config.Parser.Grammar.{brace}
use tiny_proxy.Config.Parser.Printer.{
  AuthPrintable, HeaderPrintable, Phrase, Printable, TlsPrintable, auth_lines, close_line,
  header_up_lines, header_up_words, header_words, is_head, is_plain, plain_end, print_directives,
  print_line, respond_words, response_lines, timeout_lines, tls_lines_of,
}
use tiny_proxy.Config.Parser.Printer.Auth.{mode-plain}
use tiny_proxy.Config.Parser.Printer.Bodies.{
  header_read, one_plain, one_word, respond_read, two_plain,
}
use tiny_proxy.Config.Parser.Printer.Lines.{all_word-brace, to_string-plain, words_of_plain}
use tiny_proxy.Config.Parser.Printer.Settings.{header_up_of_words}
use tiny_proxy.Http.{Codec, HeaderName, Uri}

pub data CleanLines : List Text → Type 0 where
  end_lines : CleanLines []
  line_and :
      {l : Text} {ls : List Text} → all is_clean l ≡ true → CleanLines ls → CleanLines (l ∷ ls)

pub CleanLines-clean : {ls : List Text} → CleanLines ls → all (all is_clean) ls ≡ true
CleanLines-clean end_lines = refl
CleanLines-clean (line_and h c) = ground (arith, h, CleanLines-clean c)

line_clean : (ws : List Text) → all is_word ws ≡ true → all is_clean (print_line ws) ≡ true
line_clean ws h = join-clean ws h

plain_clean : (ws : List Text) → all is_plain ws ≡ true → all is_clean (print_line ws) ≡ true
plain_clean ws h = line_clean ws (words_of_plain ws h)

under_plain :
    (name : Text) (ws : List Text)
    → is_plain name ≡ true
    → all is_plain ws ≡ true
    → all is_clean (print_line (name ∷ ws)) ≡ true
under_plain name ws h g = plain_clean (name ∷ ws) (ground (arith, h, g))

pub head_clean :
    (name : Text) (args : List Text)
    → is_word name ≡ true
    → all is_word args ≡ true
    → all is_clean (print_line (name ∷ (args ++ brace))) ≡ true
head_clean name args h g =
    line_clean (name ∷ (args ++ brace)) (ground (arith, h, all_word-brace args g))

pub append_clean : {ls rs : List Text} → CleanLines ls → CleanLines rs → CleanLines (ls ++ rs)
append_clean end_lines d = d
append_clean (line_and h c) d = line_and h (append_clean c d)

pub close_clean :
    {ls rs : List Text} → CleanLines ls → CleanLines rs → CleanLines (ls ++ close_line ∷ rs)
close_clean c d = append_clean c (line_and refl d)

timeout_clean :
    (name : Text) (t : Option ℕ) → is_plain name ≡ true → CleanLines (timeout_lines name t)
timeout_clean name none h = end_lines
timeout_clean name (some n) h =
    line_and (under_plain name (to_string n ∷ []) h (one_plain (to_string n) (to_string-plain n)))
      end_lines

ups_clean :
    (up : List HeaderDirective)
    → All (λ d. HeaderPrintable Phrase d.name d.value) up
    → CleanLines (header_up_lines up)
unfolding header_up_lines is_plain is_word is_whitespace plain_end
ups_clean [] h = end_lines
ups_clean (d ∷ up) (p, h) =
    line_and
      (under_plain (codes "header_up") (header_up_words d) refl
        (header_up_of_words d.name d.value 0 p).1)
      (ups_clean up h)

responses_clean : (ns : List HeaderName) → all is_plain ns ≡ true → CleanLines (response_lines ns)
unfolding is_plain is_word is_whitespace plain_end
responses_clean [] h = end_lines
responses_clean (n ∷ ns) h =
    line_and (under_plain (codes "response_headers") (n ∷ ns) refl h) end_lines

module _ ⦃c : Codec⦄ (show_uri : Uri → Text) where
  auth_clean :
      (f : ForwardAuthConfig) → AuthPrintable show_uri f → CleanLines (auth_lines show_uri f)
  unfolding auth_lines is_plain is_word is_whitespace plain_end
  auth_clean f ((_, _, word), (_, (requests, _)), (responses, _), _) =
      line_and
        (under_plain (codes "to") (show_uri f.endpoint ∷ []) refl
          (one_plain (show_uri f.endpoint) word))
        (line_and (under_plain (codes "request_headers") f.request_headers refl requests) (
          append_clean (responses_clean f.response_headers responses) (
            line_and
              (under_plain (codes "failure_mode") (mode_name f.failure_mode ∷ []) refl
                (one_plain (mode_name f.failure_mode) (mode-plain f.failure_mode)))
              (line_and
                (under_plain (codes "timeout") (to_string f.timeout_secs ∷ []) refl
                  (one_plain (to_string f.timeout_secs) (to_string-plain f.timeout_secs)))
                end_lines))))

  pub print_directives-clean :
      (ds : Directives) → Printable show_uri ds → CleanLines (print_directives show_uri ds)
  unfolding print_directives Printable is_plain is_word is_whitespace plain_end
  print_directives-clean nil h = end_lines
  print_directives-clean (cons (reverse_proxy to dial wait up) ds) ((fit, _, _, ups), h) =
      line_and (head_clean (codes "reverse_proxy") (to ∷ []) refl (one_word to fit)) (
        close_clean
          (append_clean (timeout_clean (codes "connect_timeout") dial refl)
            (append_clean (timeout_clean (codes "read_timeout") wait refl) (ups_clean up ups)))
          (print_directives-clean ds h))
  print_directives-clean (cons (handle_path p inner) ds) (fit, ins, h) =
      line_and (head_clean (codes "handle_path") (p ∷ []) refl (one_word p fit))
        (close_clean (print_directives-clean inner ins) (print_directives-clean ds h))
  print_directives-clean (cons (uri_replace find by) ds) ((f, b), h) =
      line_and (under_plain (codes "uri_replace") (find ∷ by ∷ []) refl (two_plain find by f b))
        (print_directives-clean ds h)
  print_directives-clean (cons (header name value) ds) (p, h) =
      line_and
        (under_plain (codes "header") (header_words name value) refl (header_read name value p).1)
        (print_directives-clean ds h)
  print_directives-clean (cons (method names inner) ds) (fit, ins, h) =
      line_and (head_clean (codes "method") names refl (words_of_plain names fit))
        (close_clean (print_directives-clean inner ins) (print_directives-clean ds h))
  print_directives-clean (cons (strip_prefix p) ds) (fit, h) =
      line_and (under_plain (codes "strip_prefix") (p ∷ []) refl (one_plain p fit))
        (print_directives-clean ds h)
  print_directives-clean (cons (redirect status url) ds) ((_, fit), h) =
      line_and
        (under_plain (codes "redirect") (to_string status ∷ url ∷ []) refl
          (two_plain (to_string status) url (to_string-plain status) fit))
        (print_directives-clean ds h)
  print_directives-clean (cons (respond status body) ds) ((lt, fit), h) =
      line_and
        (under_plain (codes "respond") (respond_words status body) refl
          (respond_read status body lt fit).1)
        (print_directives-clean ds h)
  print_directives-clean (cons (forward_auth f) ds) (p, h) =
      line_and (head_clean (codes "forward_auth") [] refl refl)
        (close_clean (auth_clean f p) (print_directives-clean ds h))

pub two_plain_under :
    (name v w : Text)
    → is_plain name ≡ true
    → is_plain v ≡ true
    → is_plain w ≡ true
    → all is_plain (name ∷ v ∷ w ∷ []) ≡ true
two_plain_under name v w h f g = ground (arith, h, f, g)

pub head_word : (w : Text) → is_head w ≡ true → is_word w ≡ true
unfolding is_head
head_word [] h = absurd (ground arith)
head_word (c ∷ w) h = ground (arith, h)

pub tls_clean : (t : Option TlsConfig) → TlsPrintable t → CleanLines (tls_lines_of t)
unfolding is_plain is_word is_whitespace plain_end
tls_clean none h = end_lines
tls_clean (some t) (cert, key) =
    line_and
      (under_plain (codes "tls") (t.cert_path ∷ t.key_path ∷ []) refl
        (two_plain t.cert_path t.key_path cert key))
      end_lines
