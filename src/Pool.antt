-- ===== src/Pool.antt =====
-- The pool of upstream connections of src/srvr/nconn_pool.cc.
pub mod State
pub mod Counts
pub mod Active
pub mod Ledger
pub mod Calls
pub mod Returns
pub mod Run
pub mod Reuse
pub mod Evict
pub mod Tests
