-- ===== src/Evr.antt =====
-- The timers of the event loop, src/evr/evr.cc.
pub mod State
pub mod Sound
pub mod Rounds
pub mod View
pub mod Order
pub mod Ends
pub mod Cancelled
pub mod Tests
