-- ===== src/Nconn.antt =====
-- Connections: src/nconn/nconn.cc on top of the block queues.
pub mod Status
pub mod Transfer
pub mod Input
pub mod Output
pub mod Channel
pub mod Drain
pub mod Tests
