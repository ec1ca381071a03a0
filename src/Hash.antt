-- ===== src/Hash.antt =====
-- Hash tables: the SlpObjHash of include/slp_value.h and its functions in src/slp_value.c.

pub mod Table
pub mod Probe
pub mod View
pub mod Insert
pub mod Slots
pub mod Grow
pub mod Rehash
pub mod Refines
pub mod Map
pub mod Reads
pub mod Behaviour
pub mod Key
mod Tests
