-- ===== src/Lib.antt =====
-- Verification of tiny-proxy, an HTTP reverse proxy in Rust.
--
-- A configuration file names sites; a site has an address and directives. A request is matched with
-- a site by its `Host` header, runs through the directives of the site, which rewrite its path and
-- its headers, ask an authorization service, and end with an action: a response of the proxy, a
-- redirect, or a request to a backend whose response is streamed to the client.
--
-- The parts, and where their code is modelled:
--
--   Base              shared names, and the methods of `str` over lists of Unicode scalar values
--                     (Base/Text), decimal numbers and lines there as they are printed, results with `?`
--                     as bind (Base/Result).
--   Http              the crates `http` and `hyper`, as an interface: header maps with the laws of
--                     their operations, and conversions as partial functions. Nothing of their code
--                     is defined. Http/Sample has an instance, which shows that the laws can hold.
--   Config/Models     src/config/models.rs: the configuration tree, `normalize_auth_endpoint`. Ranges
--                     has the bounds of its types, Serde the JSON form of a `forward_auth`.
--   Config/Address    src/config/address.rs, all three functions.
--   Config/Duration   `parse_duration` of src/config/parser.rs.
--   Config/Parser     `Config::from_str` of src/config/parser.rs. Blocks has the lines that open or
--                     close a block and `build_forward_auth`, Settings the lines inside `forward_auth`
--                     and `reverse_proxy` blocks and `tls`, Lines the other directives and the loop.
--                     Grammar states the language of the files as rules, apart from the parser; Printer
--                     writes a configuration in that language, Typed is about the types of what is
--                     read, Formats about the text and the JSON form of a `forward_auth`.
--   Config/Sockets    `validate_listen_sockets` of src/config/parser.rs.
--   Proxy/Sites       `find_site` of src/proxy/handler.rs; Hosts has the parts of a `Host` header,
--                     Entries the lookups in the map of the sites.
--   Proxy/Paths       `match_pattern` there, and the path operations of src/proxy/directives.rs.
--   Proxy/Substitution  src/auth/headers.rs.
--   Proxy/Headers     the header operations of src/proxy/directives.rs.
--   Proxy/RequestId, Proxy/AccessLog  src/proxy/access_log.rs: the identifier of a request, the guard
--                     and the entry that it writes.
--   Metrics, Errors   src/metrics/recorder.rs and src/error.rs.
--   Proxy/State       the request as the directives change it, the outside world, src/proxy/types.rs.
--   Proxy/ForwardAuth src/proxy/forward_auth.rs.
--   Proxy/Pipeline    `process_directives` of src/proxy/handler.rs.
--   Proxy/Forward, Proxy/Responses, Proxy/Handler  `proxy` and `error_response_with_id` there.
--   Proxy/Tls         the certificate resolver of src/proxy/tls.rs; in Proxy/Tls/Loading its key pairs,
--                     and in Proxy/Tls/Redirect its redirect, the target and the reply.
--   Server            src/proxy/proxy.rs: which listeners are started for a configuration, and, in
--                     Server/Connections, the proxy while it runs: the accept loops (that of
--                     src/proxy/tls.rs included), connections, and the methods that change the proxy.
--                     Server/Moves has the events as rules.
--   Api               src/api/endpoints.rs and `handle_api_request` of src/api/server.rs; in
--                     Api/Middleware src/api/middleware.rs and src/auth/validator.rs.
--   Startup           src/main.rs: from the arguments to the listeners and the limit, and the waits at
--                     the end of `run_with_api`.
--
-- The parts meet where the program joins them: `Config/Parser` gives the configuration that `Server`
-- starts listeners for, their certificates are those of `Proxy/Tls`, the management API replaces the
-- configuration, and each request of a running connection is given the one that then stands, with which
-- `Proxy/Handler` serves it.
--
-- State is passed explicitly: `Current` is the request with the number of outside calls made for it,
-- `Parser.State` the variables of the parser's loop. What the code gets from outside is the record
-- `World`: the environment, fresh UUIDs, and the answer to each subrequest; the backend is a function
-- from requests to replies. A reply may be an error or come at the timeout. An `expect` of the source
-- is an error `panic`. The running proxy is `Running`; what happens to it is a list of events, in any
-- order in which they can happen. A semaphore of tokio is an interface with its documented laws.
--
-- The loops of `process_header_substitution` run on the fuel of the world, since they need not end: a
-- value that is put in is read again. Where the fuel does not suffice the result is `diverges`, and
-- what becomes of the request is `hung`; no theorem takes it for a result. All other functions are
-- total.
--
-- Machine integers: durations are reduced modulo 2^64 where the source multiplies, ports are read
-- below 2^16, and `tls_redirect_port` saturates.
--
-- A hash map is an association list. Where the code walks through the map of the sites, to find one or
-- to validate the listen sockets, Proxy/Sites/Order and Config/Sockets/Order compare the orders in
-- which it may do so. The access log and the metrics are given times as they print.
--
-- Not modelled: the opening of files and the PEM format (parameters of Proxy/Tls/Loading), sockets,
-- HTTP/1.1 parsing, the JSON of the whole configuration (`serde_json` and the derived code are a
-- parameter of the management API), the metrics that `forward_auth` reports, the panic of a semaphore
-- that is made with more permits than tokio allows, signals and channels of tokio, the parsing of arguments, and the
-- exporter of the metrics. Log output other than that of the access log is left out. `connect_timeout`
-- is parsed and, as in the source, not used.
pub mod Base
pub mod Http
pub mod Config
pub mod Proxy
pub mod Api
pub mod Errors
pub mod Metrics
pub mod Server
pub mod Startup
