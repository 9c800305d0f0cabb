-- ===== src/Start.antt =====
-- cmd/proxy/main.go: the start of the program.
pub mod Server
pub mod Tls
pub mod Main
pub mod Exit
