-- ===== src/Compiler.antt =====
-- The compiler's output and its scopes: include/slp_compiler.h and lines 6 to 193 of
-- src/slp_compiler.c.

pub mod Emit
pub mod Jumps
pub mod Scopes
pub mod Innermost
pub mod Upvalues
mod Tests
