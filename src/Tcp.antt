-- ===== src/Tcp.antt =====
-- The TCP connections of src/nconn/nconn_tcp.cc.
pub mod State
pub mod Relay
pub mod Receive
pub mod Tests
