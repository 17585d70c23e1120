-- ===== src/Lib.antt =====
-- Verification of the OAuth 1.0 client library (lib/oauth) and of the scripts of its documentation
-- (docs/js).
--
-- The library signs HTTP requests. `OAuth::Helper` escapes, normalises and parses texts; a request
-- proxy gives the parameters, the address and the method of a request, and builds its signature
-- base string; a signature class signs this string with the secrets of consumer and token, or
-- checks the signature of a request; `OAuth::Consumer` opens the connection, has a request signed,
-- sends it, and follows the redirects of a token request. The documentation is a page that loads
-- other pages into itself and a frame with a list that can be searched; the two exchange messages.
--
-- Prelude and its children: names of the libraries, Boolean tests, and lemmas on lists, orders,
--   bits and ASCII texts that the components share.
-- Params: Ruby's parameter hashes and their values. Uri: a parsed URI. Outcome: exceptions as
--   values, with the classes of lib/oauth/errors.
-- Helper/Escape, Helper/Normalize, Helper/Header: lib/oauth/helper.rb (`escape`, `unescape`,
--   `normalize`, `parse_header`), and the header written by `header` of lib/oauth/client/helper.rb.
--   Helper/Normalize/Unordered: hashes without the order of their entries.
-- RequestProxy: lib/oauth/request_proxy/base.rb and mock_request.rb, from the readers to
--   `signature_base_string`; a proxy is a record of method, address and parameters.
-- Signature, Signature/Compare, Signature/Base64: lib/oauth/signature.rb and signature/*.rb:
--   `build` (`method_of`), `sign`, `verify`, `sign!` (`sign_request`), the constant-time
--   comparison and the encoding of the digest.
-- RequestProxy/SignedUri: `signed_uri` and `oauth_header` of base.rb. Params/Stored: writing a key.
-- RequestProxy/NetHttp, RequestProxy/Rack: lib/oauth/request_proxy/net_http.rb and
--   rack_request.rb, with `header_params` of base.rb: the proxies that a client and a server make
--   of a request.
-- Client: lib/oauth/client/helper.rb: `oauth_parameters`, `signature` (`helper_signature`) and
--   `header`. Client/Sent to Client/Accepted follow a header from the client to the server.
-- Client/NetHttp: lib/oauth/client/net_http.rb: `oauth!` (`oauth_request`) with its three schemes,
--   and `hash_body` and `amend_user_agent_header` of the helper; Client/NetHttp/Address:
--   `oauth_full_request_uri`; Forms to Served follow a path from the client to the server.
-- Consumer: `request` and `create_http` of lib/oauth/consumer.rb. The state is a Trace: the world,
--   the connection `@http`, and what was sent over which connection. Consumer/TokenRequest:
--   `token_request` with its redirects. Consumer/AccessToken: `uri`, and `request` of
--   lib/oauth/tokens/access_token.rb. Consumer/Tokens: `get_request_token` and `get_access_token`
--   with the paths and addresses of the options, and lib/oauth/tokens; Consumer/Tokens/Authorize:
--   the addresses that lib/oauth/tokens/request_token.rb builds.
-- Docs/Loading: the loading indicator of docs/js/app.js, with the pending timers of the browser.
-- Docs/Page, Docs/Navigation: `navigateTo`, its load handler and `completeNavigation`, as events on
--   the state of the page. Docs/Toc: the loop of `generateTOC`; Docs/Toc/Shown: its guards.
-- Docs/Frame, Docs/Unfold, Docs/Summary: the listeners of docs/js/app.js for the search frame, for
--   the links that unfold a part of the page, and for the summaries: by toggles, and
--   (Docs/Summary/Nodes) on the nodes of the page, among which compact copies are inserted;
--   Docs/Summary/Both: the toggles of the methods and of the constants over one storage,
--   Docs/Summary/Shortened: the nodes of the compact copy that `buildCompactSummary` makes.
--   Docs/Constants: the compact copy that `buildCompactConstants` makes. Docs/Reveal: the links of
--   `createSourceLinks`, and the box around the table of contents.
-- Docs/Setup: `window.__app` and the end of the script, with the listeners that they bind, and
--   `navExpander`; Docs/Setup/Events: the script, the end of the document, pages shown, loads of
--   the frame and timers as events. Docs/Resizer: the widths of `navResizer` and
--   `sessionStorage.navWidth`.
-- Docs/Search: the search of docs/js/full_list.js on its items. Docs/Tree: its tree: visibility,
--   clicks, stripes and `expandTo`. Docs/Session: the search and the tree in one state, over the
--   inputs of the user and the timeouts of the browser. Docs/Start: its start, and the scrolling
--   of `expandTo`.
-- Examples: concrete inputs.
--
-- Strings are lists of bytes, or of code units in the scripts. Parsing and joining URIs, HMAC,
-- signing and sending a Net::HTTP request, `new URL`, `decodeURIComponent` and the engine of
-- regular expressions belong to other libraries and are arguments; so do `CGI.parse`, the reading
-- and writing of forms, the random nonce and the clock. Fuel stands for two recursions:
-- `token_request` runs on one more than the redirects that are left, which each redirect lowers by
-- one, and a search on one batch for every fifty items; in a session the batches are timeouts, and
-- runs are lists of events. The removal of quotes looks at no more lines than the text has bytes
-- and one. The loops of `generateTOC` run as often as two levels differ.
--
-- Not modelled: the encodings of Ruby's strings, random keys and timestamps, RSA signatures, the
-- body of a request that the consumer builds, the adapters to HTTP libraries other than Net::HTTP,
-- and, in the scripts, the focus of elements, the frame that pages are loaded into, and links put
-- into a page; what `__app` does is a call in a list for Docs/Navigation, and what the functions
-- of other modules do is one for Docs/Setup. docs/js/jquery.js is a copy of another project. The
-- rounding of the progress to floating-point numbers is left out; a width in pixels is modelled by
-- the digits that `String` prints.
pub mod Prelude
pub mod Params
pub mod Uri
pub mod Outcome
pub mod Helper
pub mod RequestProxy
pub mod Signature
pub mod Client
pub mod Consumer
pub mod Docs
pub mod Examples
