-- ===== src/Args.antt =====
-- src/support/string_util.cc: the arguments of a query string, the cookies, file names and a header line.
pub mod Decode
pub mod Parse
pub mod Rounds
pub mod Trip
pub mod Names
pub mod Cookies
pub mod Steps
pub mod Pairs
pub mod CookiesEnd
pub mod Tests
