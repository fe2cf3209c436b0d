-- ===== src/Errors.antt =====
-- The errors of the library, src/error.rs. The message of an I/O error and that of a bad address
-- are texts that the standard library makes; the errors stand for them.
use tiny_proxy.Base.{refl, ◌++◌, ◌≡◌}
use tiny_proxy.Base.Text.{Text, codes}

pub data ProxyError : Type 0 where
  config_error : Text → ProxyError
  backend_error : Text → ProxyError
  parse_error : Text → ProxyError
  io_error : Text → ProxyError
  http_error : Text → ProxyError
  connection_error : Text → ProxyError
  directive_error : Text → ProxyError
  invalid_url : Text → ProxyError
  address_error : Text → ProxyError

unfoldable pub prefix_of : ProxyError → Text
prefix_of (config_error m) = codes "Configuration error: "
prefix_of (backend_error m) = codes "Backend error: "
prefix_of (parse_error m) = codes "Parse error: "
prefix_of (io_error m) = codes "I/O error: "
prefix_of (http_error m) = codes "HTTP error: "
prefix_of (connection_error m) = codes "Connection error: "
prefix_of (directive_error m) = codes "Directive error: "
prefix_of (invalid_url m) = codes "Invalid URL: "
prefix_of (address_error m) = codes "Invalid address: "

unfoldable pub message_of : ProxyError → Text
message_of (config_error m) = m
message_of (backend_error m) = m
message_of (parse_error m) = m
message_of (io_error m) = m
message_of (http_error m) = m
message_of (connection_error m) = m
message_of (directive_error m) = m
message_of (invalid_url m) = m
message_of (address_error m) = m

-- `Display`.
unfoldable pub display : ProxyError → Text
display e = prefix_of e ++ message_of e

-- `From<AddrParseError>`, for an error with this message.
unfoldable pub from_addr_parse_error : Text → ProxyError
from_addr_parse_error message = address_error message

displayed : display (from_addr_parse_error (codes "x")) ≡ codes "Invalid address: x"
unfolding display prefix_of message_of from_addr_parse_error
displayed = refl
