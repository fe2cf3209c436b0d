-- ===== src/Config/Parser/Printer/Settings.antt =====
-- The printed settings of the blocks `reverse_proxy` and `forward_auth` are read.
use mathlib.Core.List.{append-nil, append_assoc}
use mathlib.Core.Path.{subst}
use tiny_proxy.Base.{
  All, List, List-cases, Option, Option-cases, [], all, ap, arith, false, inl, inr, is_empty,
  is_some, none, refl, some, sym, true, ℕ, ◌++◌, ◌+◌, ◌<◌, ◌∙◌, ◌∷◌, ◌≡◌,
}
use tiny_proxy.Base.Result.{ok}
use tiny_proxy.Base.Text.{
  Text, codes, is_whitespace, join, starts_with, strip_prefix as strip_prefix_of, text_eq, trim,
}
use tiny_proxy.Base.Text.Decimal.{parse_uint-to_string, to_string, to_string-not_empty}
use tiny_proxy.Base.Text.Printed.{line_of_words}
use tiny_proxy.Base.Text.Words.{is_word, last_of-append}
use tiny_proxy.Config.Address.{u64_bound}
use tiny_proxy.Config.Duration.{parse_duration, parse_trimmed}
use tiny_proxy.Config.Models.{HeaderDirective}
use tiny_proxy.Config.Models.Ranges.{Below}
use tiny_proxy.Config.Parser.{PendingBlock}
use tiny_proxy.Config.Parser.Grammar.{ProxySettings, opened, proxy_done, proxy_set}
use tiny_proxy.Config.Parser.Printer.{
  HeaderPrintable, Phrase, header_up_lines, header_up_words, is_head, is_plain, plain_end,
  timeout_lines,
}
use tiny_proxy.Config.Parser.Printer.Lines.{print_line-HasWords, to_string-plain}
use tiny_proxy.Config.Parser.Settings.{header_up_of, proxy_setting}

pub not_empty_plain : (w : Text) → is_plain w ≡ true → is_empty w ≡ false
unfolding is_plain is_word
not_empty_plain w h = ground arith

-- A name with a dash in front.
pub dash-plain : (w : Text) → is_plain w ≡ true → is_plain (codes "-" ++ w) ≡ true
unfolding is_plain is_word is_whitespace
dash-plain w h =
    let last = last_of-append (codes "-") w (not_empty_plain w h) in ground (arith, last)

pub strip_prefix-dash : (w : Text) → strip_prefix_of (codes "-" ++ w) (codes "-") ≡ some w
unfolding strip_prefix_of
strip_prefix-dash w = refl

pub no_dash : (w : Text) → starts_with w (codes "-") ≡ false → strip_prefix_of w (codes "-") ≡ none
no_dash w h = elim (Option-cases (strip_prefix_of w (codes "-"))) [
  | inl nothing ↦ nothing
  | inr (r, some_there) ↦ cc (h, ap is_some some_there)
]

trim-digits : (n : ℕ) → trim (to_string n) ≡ to_string n
unfolding join is_plain
trim-digits n = elim (List-cases (to_string n)) [
  | inl nothing ↦ cc (to_string-not_empty n, ap is_empty nothing)
  | inr (c, s, same) ↦
      let word : is_word (c ∷ s) ≡ true =
        ap is_word (sym same) ∙ ground (arith, to_string-plain n) in
      let (_, _, trims) = line_of_words c s [] (ground (arith, word)) in
      ap trim same ∙ trims ∙ sym same
]

-- A number of seconds is read back.
pub parse_duration-to_string : (n : ℕ) → n < u64_bound → parse_duration (to_string n) ≡ ok n
unfolding parse_duration parse_trimmed
parse_duration-to_string n lt =
    ap parse_trimmed (trim-digits n)
    ∙ rw (to_string-not_empty n, parse_uint-to_string u64_bound n lt) refl

abbrev up_of : Text → Option Text → HeaderDirective
up_of name value = record { name = name; value = value }

pub header_up_of_words :
    (name : Text) (value : Option Text) (n : ℕ)
    → HeaderPrintable Phrase name value
    → (header_up_of (header_up_words (up_of name value)) n ≡ ok (up_of name value))
      × (all is_plain (header_up_words (up_of name value)) ≡ true)
unfolding header_up_of
header_up_of_words name none n h = (
  ground (arith, strip_prefix-dash name, not_empty_plain name h),
  ground (arith, dash-plain name h),
)
header_up_of_words name (some v) n ((fit, bare), (same, not_blank, words)) =
    (rw (no_dash name bare, header_up_of) (rw same (rw not_blank refl)), ground (arith, fit, words))

-- A `reverse_proxy` block with its settings so far.
abbrev pub proxy_block : Text → Option ℕ → Option ℕ → List HeaderDirective → PendingBlock
proxy_block to dial wait up = record (opened (codes "reverse_proxy") (to ∷ [])) {
  connect_timeout = dial;
  read_timeout = wait;
  header_up = up;
}

abbrev UpsPrintable : List HeaderDirective → Type 0
UpsPrintable up = All (λ d. HeaderPrintable Phrase d.name d.value) up

header_up_step :
    (d : HeaderDirective) (n : ℕ) (to : Text) (dial wait : Option ℕ) (up : List HeaderDirective)
    → HeaderPrintable Phrase d.name d.value
    → proxy_setting (codes "header_up") (header_up_words d) n (proxy_block to dial wait up)
      ≡ ok (proxy_block to dial wait (up ++ d ∷ []))
unfolding proxy_setting text_eq
header_up_step d n to dial wait up h = rw (header_up_of_words d.name d.value n h).0 refl

ups_read :
    (n : ℕ) (to : Text) (dial wait : Option ℕ) (up more : List HeaderDirective)
    → UpsPrintable more
    → ProxySettings n
        (proxy_block to dial wait up)
        (proxy_block to dial wait (up ++ more))
        (header_up_lines more)
unfolding header_up_lines is_head is_word is_whitespace is_plain plain_end
ups_read n to dial wait up [] h =
    subst (λ x. ProxySettings n (proxy_block to dial wait up) (proxy_block to dial wait x) [])
      (sym (append-nil up)) (proxy_done n (proxy_block to dial wait up))
ups_read n to dial wait up (d ∷ more) (p, h) =
    let words = (header_up_of_words d.name d.value (n + 1) p).1 in
    subst
      (λ x.
        ProxySettings n (proxy_block to dial wait up) (proxy_block to dial wait x)
          (header_up_lines (d ∷ more)))
      (append_assoc up (d ∷ []) more)
      (proxy_set n _ _ _ (codes "header_up") (header_up_words d) _ _
        (print_line-HasWords (codes "header_up") (header_up_words d) refl words)
        (header_up_step d (n + 1) to dial wait up p)
        (ups_read (n + 1) to dial wait (up ++ d ∷ []) more h))

pub keyword_words :
    (name : Text) (w : Text)
    → is_plain name ≡ true
    → is_plain w ≡ true
    → all is_plain (name ∷ w ∷ []) ≡ true
keyword_words name w h g = ground (arith, h, g)

read_step :
    (n line_number : ℕ) (to : Text) (dial : Option ℕ) (up : List HeaderDirective)
    → n < u64_bound
    → proxy_setting
        (codes "read_timeout")
        (to_string n ∷ [])
        line_number
        (proxy_block to dial none up)
      ≡ ok (proxy_block to dial (some n) up)
unfolding proxy_setting text_eq
read_step n line_number to dial up lt = rw (parse_duration-to_string n lt) refl

connect_step :
    (n line_number : ℕ) (to : Text)
    → n < u64_bound
    → proxy_setting
        (codes "connect_timeout")
        (to_string n ∷ [])
        line_number
        (proxy_block to none none [])
      ≡ ok (proxy_block to (some n) none [])
unfolding proxy_setting text_eq
connect_step n line_number to lt = rw (parse_duration-to_string n lt) refl

waits_read :
    (n : ℕ) (to : Text) (dial wait : Option ℕ) (up : List HeaderDirective)
    → Below u64_bound wait
    → UpsPrintable up
    → ProxySettings n
        (proxy_block to dial none [])
        (proxy_block to dial wait up)
        (timeout_lines (codes "read_timeout") wait ++ header_up_lines up)
unfolding is_head is_word is_whitespace is_plain plain_end
waits_read n to dial none up lt h = ups_read n to dial none [] up h
waits_read n to dial (some secs) up lt h =
    proxy_set n _ _ _ (codes "read_timeout") (to_string secs ∷ []) _ _
      (print_line-HasWords (codes "read_timeout") (to_string secs ∷ []) refl
        (keyword_words (codes "read_timeout") (to_string secs) refl (to_string-plain secs)))
      (read_step secs (n + 1) to dial [] lt) (ups_read (n + 1) to dial (some secs) [] up h)

-- The settings of a printed `reverse_proxy` block.
pub ProxySettings-read :
    (n : ℕ) (to : Text) (dial wait : Option ℕ) (up : List HeaderDirective)
    → Below u64_bound dial
    → Below u64_bound wait
    → All (λ d. HeaderPrintable Phrase d.name d.value) up
    → ProxySettings n (proxy_block to none none []) (proxy_block to dial wait up) (
        timeout_lines (codes "connect_timeout") dial
        ++ (timeout_lines (codes "read_timeout") wait ++ header_up_lines up))
unfolding is_head is_word is_whitespace is_plain plain_end
ProxySettings-read n to none wait up small lt h = waits_read n to none wait up lt h
ProxySettings-read n to (some secs) wait up small lt h =
    proxy_set n _ _ _ (codes "connect_timeout") (to_string secs ∷ []) _ _
      (print_line-HasWords (codes "connect_timeout") (to_string secs ∷ []) refl
        (keyword_words (codes "connect_timeout") (to_string secs) refl (to_string-plain secs)))
      (connect_step secs (n + 1) to small) (waits_read (n + 1) to (some secs) wait up lt h)
