-- ===== src/Proxy/Paths.antt =====
-- Operations on paths: `match_pattern` of src/proxy/handler.rs, and `handle_uri_replace` and
-- `handle_strip_prefix` of src/proxy/directives.rs.
pub mod Laws
use tiny_proxy.Base.{not, ◌||◌, Option, none, some, ◌∷◌, if◌then◌else◌, is_empty}
use tiny_proxy.Base.Text.{
  Text, codes, text_eq, starts_with, strip_prefix as strip_prefix_of, strip_suffix, replace,
}

-- What a pattern leaves of a path; `/*` at its end matches any rest.
unfoldable pub match_pattern : Text → Text → Option Text
match_pattern pattern path = elim (strip_suffix pattern (codes "/*")) [
  | some prefix ↦ strip_prefix_of path prefix
  | none ↦ if text_eq pattern path then some (codes "/") else none
]

unfoldable pub handle_uri_replace : Text → Text → Text → Text
handle_uri_replace find by path = replace path find by

unfoldable pub with_slash : Text → Text
with_slash stripped =
    if is_empty stripped || not (starts_with stripped (codes "/"))
    then b'/' ∷ stripped
    else stripped

unfoldable pub handle_strip_prefix : Text → Text → Text
handle_strip_prefix prefix path = elim (strip_prefix_of path prefix) [
  | some stripped ↦ with_slash stripped
  | none ↦ path
]
