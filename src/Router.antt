-- ===== src/Router.antt =====
-- src/url_router/url_router.cc: routes with parameters and a terminal, kept in a trie.
pub mod Pattern
pub mod Convert
pub mod Trie
pub mod Insert
pub mod Match
pub mod Duplicates
pub mod Endless
pub mod Spelling
pub mod Accepts
pub mod Finds
pub mod Tests
