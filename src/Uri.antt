-- ===== src/Uri.antt =====
-- src/support/uri.cc: the percent encoding of query strings.
pub mod Codec
pub mod Trip
pub mod Tests
