-- ===== src/Base/Text/Runs.antt =====
-- Opens every function on texts at once, for tests that compute.
use tiny_proxy.Base.Text.{
  text_eq, strip_prefix, strip_suffix, find_split, replace_from, replace_empty, replace,
  is_whitespace, trim_start, trim, words_from, split_whitespace, lines_from, lines, join,
  to_ascii_lowercase, eq_ignore_ascii_case, split_once, rsplit_once, split_first, digits_onto,
  parse_digits, parse_uint, byte_len,
}

unfoldable pub text_runs : Unit {0}
unfolding text_eq strip_prefix strip_suffix find_split replace_from replace_empty replace
    is_whitespace trim_start trim words_from split_whitespace lines_from lines join
    to_ascii_lowercase eq_ignore_ascii_case split_once rsplit_once split_first digits_onto
    parse_digits parse_uint byte_len
text_runs = tt
