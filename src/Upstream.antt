-- ===== src/Upstream.antt =====
-- internal/upstream/upstream.go: the list of upstreams with its random choice, the parsing of
-- addresses, and the TLS configuration for upstreams. url.Parse, the choice of math/rand, the file
-- system and the parser of certificates are arguments.
pub mod Address
pub mod Upstreams
pub mod Choice
pub mod Tls
