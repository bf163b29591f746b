-- ===== src/Ja3.antt =====
-- The TLS fingerprint of src/support/ja3.cc.
pub mod State
pub mod Parse
pub mod Safe
pub mod Rounds
pub mod Bounds
pub mod Hello
pub mod Steps
pub mod Exts
pub mod Trip
pub mod Print
pub mod Spelling
pub mod Whole
pub mod Tests
