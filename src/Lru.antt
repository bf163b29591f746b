-- ===== src/Lru.antt =====
-- The least recently used list of src/support/nlru.h.
pub mod State
pub mod Entries
pub mod Rep
pub mod Ideal
pub mod Takes
pub mod Tests
