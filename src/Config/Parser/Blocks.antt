-- ===== src/Config/Parser/Blocks.antt =====
-- Opening and closing a block: the first two cases of the loop, and `build_forward_auth`.
use mathlib.Core.Option
use tiny_proxy.Base.{
  ℕ, not, ◌&&◌, ◌==◌, none, some, List, [], ◌∷◌, map, if◌then◌else◌, is_some, head?, length,
}
use tiny_proxy.Base.Text.{Text, codes, text_eq}
use tiny_proxy.Base.Result.{ok, err, ok_or, map_err, collect, ◌>>=◌}
use tiny_proxy.Http.{HeaderName, Codec}
use tiny_proxy.Config.Models.{
  closed, Directive, reverse_proxy, handle_path, method, forward_auth, Directives, nil, push,
  no_directives, default_request_headers, default_auth_timeout_secs, normalize_auth_endpoint,
}
use tiny_proxy.Config.Parser.{
  ForwardAuthBlock, default_block, PendingBlock, State, panic, forward_auth_missing_to,
  forward_auth_bad_uri, forward_auth_bad_endpoint, invalid_header_name, nested_in_forward_auth,
  block_state_missing, unknown_block_type, duplicate_site_address, Parsed, has_key,
}

module _ ⦃c : Codec⦄ where
  -- The closure `parse_headers`.
  unfoldable pub parse_headers : List Text → Text → ℕ → Parsed (List HeaderName)
  parse_headers names what line =
      collect (map (λ n. ok_or (c.name_from_bytes n) (invalid_header_name n what line)) names)

  -- `build_forward_auth`.
  unfoldable pub build_forward_auth : ForwardAuthBlock → ℕ → Parsed Directive
  build_forward_auth pending line = do
    raw_to ← ok_or pending.to (forward_auth_missing_to line)
    uri ← ok_or (c.uri_from_str raw_to) (forward_auth_bad_uri line)
    endpoint ← map_err (forward_auth_bad_endpoint raw_to line) (normalize_auth_endpoint uri)
    request_headers ← elim pending.request_headers [
      | some names ↦ parse_headers names (codes "request_headers") line
      | none ↦ ok default_request_headers
    ]
    response_headers ← elim pending.response_headers [
      | some names ↦ parse_headers names (codes "response_headers") line
      | none ↦ ok []
    ]
    ok (
        forward_auth (record {
          endpoint = endpoint;
          request_headers = request_headers;
          response_headers = response_headers;
          failure_mode = Option.get_or pending.failure_mode closed;
          timeout_secs = Option.get_or pending.timeout default_auth_timeout_secs;
        }))

  -- The directive that a closed block stands for.
  unfoldable pub complete_block : PendingBlock → Directives → ℕ → Parsed Directive
  complete_block block finished line =
      let first_arg = Option.get_or (head? block.args) [] in
      let auth : Parsed Directive =
        if not (no_directives finished)
        then err (nested_in_forward_auth line)
        else (ok_or block.forward_auth block_state_missing >>= λ p. build_forward_auth p line) in
      if text_eq block.directive_type (codes "handle_path")
      then ok (handle_path first_arg finished)
      else if text_eq block.directive_type (codes "method")
      then ok (method block.args finished)
      else if text_eq block.directive_type (codes "reverse_proxy")
      then ok (reverse_proxy first_arg block.connect_timeout block.read_timeout block.header_up)
      else if text_eq block.directive_type (codes "forward_auth")
      then auth
      else err (unknown_block_type block.directive_type)

-- `directive_stack.last_mut().expect(…).push(d)`.
unfoldable pub push_last : Directive → List Directives → Parsed (List Directives)
push_last d [] = err (panic (codes "directive_stack is non-empty"))
push_last d (ds ∷ stack) = ok (push ds d ∷ stack)

unfoldable pub filter_not_brace : List Text → List Text
filter_not_brace [] = []
filter_not_brace (w ∷ ws) =
    if text_eq w (codes "{") then filter_not_brace ws else w ∷ filter_not_brace ws

-- A line that ends with `{`.
unfoldable pub open_block : List Text → State → State
open_block [] s = s
open_block (name ∷ rest) s =
    let opened : PendingBlock = record {
      directive_type = name;
      args = filter_not_brace rest;
      connect_timeout = none;
      read_timeout = none;
      header_up = [];
      forward_auth = if text_eq name (codes "forward_auth") then some default_block else none;
    } in
    if length s.directive_stack == 1 && not (is_some s.current_site_address)
    then record s { current_site_address = some name }
    else record s {
      block_stack = opened ∷ s.block_stack;
      directive_stack = nil ∷ s.directive_stack;
    }

-- A line that is `}`: the end of a nested block, or of a site.
module _ ⦃c : Codec⦄ where
  unfoldable pub close_nested : Directives → List Directives → State → ℕ → Parsed State
  close_nested finished parents s line = elim s.block_stack [
    | [] ↦ err (panic (codes "block_stack has matching entry"))
    | block ∷ blocks ↦ do
      completed ← complete_block block finished line
      stack ← push_last completed parents
      ok (record s { directive_stack = stack; block_stack = blocks })
  ]

unfoldable pub close_site : State → Parsed State
close_site s = elim s.current_site_address [
  | none ↦ ok s
  | some address ↦ elim s.directive_stack [
    | [] ↦ err (panic (codes "site directive_stack is non-empty"))
    | directives ∷ stack ↦
        if has_key address s.sites
        then err (duplicate_site_address address)
        else ok (record {
          sites =
              (
                address,
                record { address = address; directives = directives; tls = s.current_site_tls },
              )
              ∷ s.sites;
          current_site_address = none;
          current_site_tls = none;
          directive_stack = nil ∷ stack;
          block_stack = s.block_stack;
        })
  ]
]

unfoldable pub close_stack : ⦃c : Codec⦄ → List Directives → State → ℕ → Parsed State
close_stack (finished ∷ parent ∷ parents) s line = close_nested finished (parent ∷ parents) s line
close_stack _ s line = close_site s

unfoldable pub close_block : ⦃c : Codec⦄ → State → ℕ → Parsed State
close_block s line = close_stack s.directive_stack s line
