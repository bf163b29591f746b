-- ===== src/Nbq.antt =====
-- src/support/nbq.cc and include/is2/support/nbq.h: the queue of blocks through which every
-- session reads and writes. `State` has the blocks and the cursors, the modules named for
-- operations have these, and the others their properties.
pub mod State
pub mod Ops
pub mod Shape
pub mod Write
pub mod Read
pub mod Seek
pub mod ReadFrom
pub mod Transfer
pub mod Shrink
pub mod Join
pub mod Tests
