-- ===== src/ObjPool.antt =====
-- The pool of objects that are used again, src/support/obj_pool.h.
pub mod State
pub mod Places
pub mod Run
pub mod Tests
