-- ===== src/Config/Parser.antt =====
-- The text parser, src/config/parser.rs: `Config::from_str` reads a file line by line.
-- `State` holds the variables of its loop; the vectors that it uses as stacks have their top at
-- the head here. A step returns `err (panic _)` where the source calls `expect`.
pub mod Blocks
pub mod Settings
pub mod Lines
pub mod Posts
pub mod Invariant
pub mod Grammar
pub mod Completeness
pub mod Typed
pub mod Formats
pub mod Printer
pub mod Outcome
pub mod Tests
use tiny_proxy.Base.{
  ℕ, ◌+◌, ◌≡◌, refl, Bool, true, false, not, ◌&&◌, ◌||◌, Option, none, some, List, [], ◌∷◌, ◌++◌,
  map, if◌then◌else◌, is_some, is_empty, head?, get_elem?, ltb,
}
use tiny_proxy.Base.Text.{
  Text, codes, text_eq, trim, starts_with, ends_with, split_whitespace,
  strip_prefix as strip_prefix_of, join, lines, parse_uint,
}
use tiny_proxy.Base.Result.{Result, ok, err, ok_or, map_err, collect, ◌>>=◌}
use tiny_proxy.Http.{HeaderName, Uri, Codec}
use tiny_proxy.Config.Address.{u16_bound}
use tiny_proxy.Config.Duration.{DurationError, parse_duration}
use tiny_proxy.Config.Models.{
  TlsConfig, HeaderDirective, FailureMode, closed, open_mode, ForwardAuthConfig, Directive,
  reverse_proxy, handle_path, uri_replace, header, method, strip_prefix, redirect, respond,
  forward_auth, Directives, nil, cons, push, no_directives, SiteConfig, Config,
  default_request_headers, default_auth_timeout_secs, EndpointError, normalize_auth_endpoint,
}

-- `ForwardAuthBlock`.
pub record ForwardAuthBlock : Type 0 where
  pub to : Option Text
  pub request_headers : Option (List Text)
  pub response_headers : Option (List Text)
  pub failure_mode : Option FailureMode
  pub timeout : Option ℕ

abbrev pub default_block : ForwardAuthBlock
default_block = record {
  to = none;
  request_headers = none;
  response_headers = none;
  failure_mode = none;
  timeout = none;
}

-- `PendingBlock`.
pub record PendingBlock : Type 0 where
  pub directive_type : Text
  pub args : List Text
  pub connect_timeout : Option ℕ
  pub read_timeout : Option ℕ
  pub header_up : List HeaderDirective
  pub forward_auth : Option ForwardAuthBlock

-- The variables of the loop.
pub record State : Type 0 where
  pub sites : List (Text × SiteConfig)
  pub current_site_address : Option Text
  pub current_site_tls : Option TlsConfig
  pub directive_stack : List Directives
  pub block_stack : List PendingBlock

-- `ProxyError::Parse`, by the message; a number is the line that the message names.
pub data ParseError : Type 0 where
  panic : Text → ParseError
  forward_auth_missing_to : ℕ → ParseError
  forward_auth_bad_uri : ℕ → ParseError
  forward_auth_bad_endpoint : Text → ℕ → EndpointError → ParseError
  invalid_header_name : Text → Text → ℕ → ParseError
  nested_in_forward_auth : ℕ → ParseError
  block_state_missing : ParseError
  unknown_block_type : Text → ParseError
  duplicate_site_address : Text → ParseError
  missing_argument : Text → ℕ → ParseError
  missing_value : Text → ParseError
  invalid_failure_mode : Text → ℕ → ParseError
  invalid_timeout : Text → ℕ → DurationError → ParseError
  unexpected_directive : Text → Text → ℕ → ParseError
  duplicate_tls : ℕ → ParseError
  invalid_status : Text → ParseError
  unknown_directive : Text → ℕ → ParseError
  cannot_parse_address : Text → ParseError
  mixed_tls : Text → ParseError
  duplicate_sni : Text → Text → Text → ParseError

abbrev pub Parsed : Type 0 → Type 0
Parsed A = Result ParseError A

-- `contains_key` of a `HashMap`.
unfoldable pub has_key {ℓ} : {V : Type ℓ} → Text → List (Text × V) → Bool
has_key k [] = false
has_key k ((j, v) ∷ m) = text_eq j k || has_key k m

abbrev pub initial : State
initial = record {
  sites = [];
  current_site_address = none;
  current_site_tls = none;
  directive_stack = nil ∷ [];
  block_stack = [];
}
