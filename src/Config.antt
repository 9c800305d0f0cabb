-- ===== src/Config.antt =====
-- internal/config: the command line. `Prefix` has the scheme prefixes, `Addresses` the list of
-- upstreams, `Values` the flags.
pub mod Values
pub mod Flags
pub mod Prefix
pub mod Addresses
pub mod Listing
