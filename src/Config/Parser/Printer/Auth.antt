-- ===== src/Config/Parser/Printer/Auth.antt =====
-- The printed settings of a `forward_auth` block are read, and make up its configuration.
use tiny_proxy.Base.{
  All-map, List, Option, [], all, inr, none, refl, some, true, ℕ, ◌++◌, ◌+◌, ◌<◌, ◌∙◌, ◌∷◌, ◌≡◌,
}
use tiny_proxy.Base.Result.{collect, ok}
use tiny_proxy.Base.Text.{Text, codes, is_whitespace, text_eq}
use tiny_proxy.Base.Text.Decimal.{to_string}
use tiny_proxy.Base.Text.Words.{is_word}
use tiny_proxy.Config.Address.{u64_bound}
use tiny_proxy.Config.Models.{FailureMode, ForwardAuthConfig, closed, forward_auth, open_mode}
use tiny_proxy.Config.Models.Ranges.{AuthInRange, IsName}
use tiny_proxy.Config.Models.Serde.{
  deserialize-serialize_auth, deserialize_auth, deserialize_names, mode_name, serialize_auth,
  serialize_names,
}
use tiny_proxy.Config.Parser.{ForwardAuthBlock, default_block}
use tiny_proxy.Config.Parser.Blocks.{build_forward_auth}
use tiny_proxy.Config.Parser.Formats.{build_forward_auth_iff, object_of}
use tiny_proxy.Config.Parser.Grammar.{AuthSettings, auth_done, auth_set}
use tiny_proxy.Config.Parser.Printer.{
  AuthPrintable, auth_lines, is_head, is_plain, plain_end, print_line, response_lines,
}
use tiny_proxy.Config.Parser.Printer.Lines.{print_line-HasWords, to_string-plain}
use tiny_proxy.Config.Parser.Printer.Settings.{keyword_words, parse_duration-to_string}
use tiny_proxy.Config.Parser.Settings.{auth_setting, failure_mode_of}
use tiny_proxy.Http.{Codec, HeaderName, Uri}

abbrev response_setting : List HeaderName → Option (List Text)
response_setting [] = none
response_setting (n ∷ ns) = some (n ∷ ns)

-- What the settings of a printed block come to.
abbrev pub auth_settings : Text → ForwardAuthConfig → ForwardAuthBlock
auth_settings raw f = record {
  to = some raw;
  request_headers = some f.request_headers;
  response_headers = response_setting f.response_headers;
  failure_mode = some f.failure_mode;
  timeout = some f.timeout_secs;
}

module _ ⦃c : Codec⦄ (show_uri : Uri → Text) where
  own-IsName : (n : HeaderName) → c.name_from_bytes n ≡ some n → IsName n
  own-IsName n e = (n, e)

  same_object :
      (f : ForwardAuthConfig) (names : List HeaderName)
      → f.response_headers ≡ names
      → deserialize_auth (object_of (auth_settings (show_uri f.endpoint) f))
        ≡ deserialize_auth (serialize_auth show_uri f)
  unfolding object_of serialize_auth serialize_names deserialize_auth deserialize_names collect
  same_object f [] e = rw e refl
  same_object f (n ∷ names) e = rw e refl

  -- The block is built into the configuration that was printed.
  pub build_printed :
      (f : ForwardAuthConfig) (line_number : ℕ)
      → AuthPrintable show_uri f
      → build_forward_auth (auth_settings (show_uri f.endpoint) f) line_number ≡ ok (forward_auth f)
  build_printed f line_number ((valid, read, _), (_, (_, requests)), (_, responses), lt) =
      let in_range : AuthInRange f = (
        valid,
        inr (All-map own-IsName f.request_headers requests),
        All-map own-IsName f.response_headers responses,
        lt,
      ) in
      (build_forward_auth_iff (auth_settings (show_uri f.endpoint) f) line_number f lt).1 (
        same_object f f.response_headers refl
        ∙ deserialize-serialize_auth show_uri f in_range read requests responses)

-- The state of a block after each of its lines.
abbrev after_to : Text → ForwardAuthBlock
after_to raw = record default_block { to = some raw }

abbrev after_requests : Text → List Text → ForwardAuthBlock
after_requests raw names = record default_block { to = some raw; request_headers = some names }

abbrev after_responses : Text → List Text → List HeaderName → ForwardAuthBlock
after_responses raw names responses = record (after_requests raw names) {
  response_headers = response_setting responses;
}

abbrev after_mode : Text → List Text → List HeaderName → FailureMode → ForwardAuthBlock
after_mode raw names responses mode = record (after_responses raw names responses) {
  failure_mode = some mode;
}

pub mode-plain : (m : FailureMode) → is_plain (mode_name m) ≡ true
unfolding is_plain is_word is_whitespace plain_end mode_name
mode-plain closed = refl
mode-plain open_mode = refl

mode_read : (m : FailureMode) (n : ℕ) → failure_mode_of (mode_name m) n ≡ ok m
unfolding failure_mode_of mode_name text_eq
mode_read closed n = refl
mode_read open_mode n = refl

end_read :
    (n : ℕ) (raw : Text) (names : List Text) (responses : List HeaderName) (mode : FailureMode)
    (secs : ℕ)
    → secs < u64_bound
    → AuthSettings n
        (after_responses raw names responses)
        (record (after_mode raw names responses mode) { timeout = some secs })
        (print_line (codes "failure_mode" ∷ mode_name mode ∷ [])
          ∷ print_line (codes "timeout" ∷ to_string secs ∷ [])
          ∷ [])
unfolding auth_setting text_eq is_head is_word is_whitespace is_plain plain_end
end_read n raw names responses mode secs lt =
    auth_set n _ (after_mode raw names responses mode) _ (codes "failure_mode")
      (mode_name mode ∷ []) _ _
      (print_line-HasWords (codes "failure_mode") (mode_name mode ∷ []) refl
        (keyword_words (codes "failure_mode") (mode_name mode) refl (mode-plain mode)))
      (rw (mode_read mode (n + 1)) refl)
      (auth_set (n + 1) _ (record (after_mode raw names responses mode) { timeout = some secs }) _
        (codes "timeout") (to_string secs ∷ []) _ _
        (print_line-HasWords (codes "timeout") (to_string secs ∷ []) refl
          (keyword_words (codes "timeout") (to_string secs) refl (to_string-plain secs)))
        (rw (parse_duration-to_string secs lt) refl) (auth_done (n + 1 + 1) _))

responses_read :
    (n : ℕ) (raw : Text) (names : List Text) (responses : List HeaderName) (mode : FailureMode)
    (secs : ℕ)
    → all is_plain responses ≡ true
    → secs < u64_bound
    → AuthSettings n
        (after_requests raw names)
        (record (after_mode raw names responses mode) { timeout = some secs })
        (response_lines responses
          ++ print_line (codes "failure_mode" ∷ mode_name mode ∷ [])
            ∷ print_line (codes "timeout" ∷ to_string secs ∷ [])
            ∷ [])
unfolding auth_setting text_eq is_head is_word is_whitespace is_plain plain_end
responses_read n raw names [] mode secs h lt = end_read n raw names [] mode secs lt
responses_read n raw names (r ∷ responses) mode secs h lt =
    auth_set n _ (after_responses raw names (r ∷ responses)) _ (codes "response_headers")
      (r ∷ responses) _ _ (print_line-HasWords (codes "response_headers") (r ∷ responses) refl h)
      refl (end_read (n + 1) raw names (r ∷ responses) mode secs lt)

module _ ⦃c : Codec⦄ (show_uri : Uri → Text) where
  requests_read :
      (n : ℕ) (f : ForwardAuthConfig)
      → AuthPrintable show_uri f
      → auth_setting (codes "request_headers") f.request_headers n (after_to (show_uri f.endpoint))
        ≡ ok (after_requests (show_uri f.endpoint) f.request_headers)
  unfolding auth_setting text_eq
  requests_read n f (_, (some_there, _), _, _) = rw some_there refl

  -- The settings of a printed `forward_auth` block.
  pub AuthSettings-read :
      (n : ℕ) (f : ForwardAuthConfig)
      → AuthPrintable show_uri f
      → AuthSettings n default_block (auth_settings (show_uri f.endpoint) f) (auth_lines show_uri f)
  unfolding auth_lines auth_setting text_eq is_head is_word is_whitespace is_plain plain_end
  AuthSettings-read n f
        ((valid, read, word), (some_there, (requests, named)), (responses, more), lt) =
      let raw = show_uri f.endpoint in
      auth_set n _ (after_to raw) _ (codes "to") (raw ∷ []) _ _
        (print_line-HasWords (codes "to") (raw ∷ []) refl
          (keyword_words (codes "to") raw refl word))
        refl
        (auth_set (n + 1) _ (after_requests raw f.request_headers) _ (codes "request_headers")
          f.request_headers _ _
          (print_line-HasWords (codes "request_headers") f.request_headers refl requests)
          (requests_read (n + 1 + 1) f
            ((valid, read, word), (some_there, (requests, named)), (responses, more), lt))
          (responses_read (n + 1 + 1) raw f.request_headers f.response_headers f.failure_mode
            f.timeout_secs responses lt))
