-- ===== src/Gc.antt =====
-- The garbage collector: src/slp_gc.c.
pub mod Objects
pub mod Points
pub mod Mark
pub mod Sweep
pub mod Marks
pub mod Followed
pub mod Trace
pub mod Swept
pub mod Kept
mod Tests
