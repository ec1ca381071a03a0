-- ===== src/Bytecode.antt =====
-- The binary form of compiled functions: src/slp_bytecode.c and include/slp_bytecode.h.
pub mod Writer
pub mod Reader
pub mod Growth
pub mod Rest
mod ValueTrip
mod PoolTrip
pub mod RoundTrip
pub mod Truncated
pub mod Print
pub mod Parse
