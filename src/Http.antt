-- ===== src/Http.antt =====
-- HTTP messages: the classes `hmsg`, `rqst` and `resp`, and the callbacks of the parser.
pub mod State
pub mod Calls
pub mod Parts
pub mod Group
pub mod Lookup
pub mod Url
pub mod Feed
pub mod Slices
pub mod Fits
pub mod Query
pub mod Tests
pub mod Reports
pub mod EachCall
pub mod Reported
