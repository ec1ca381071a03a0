-- ===== src/Lexer.antt =====
-- The scanner: src/slp_lexer.c and include/slp_lexer.h.
pub mod Token
pub mod State
pub mod Keywords
pub mod Scan
mod Moves
pub mod Blanks
pub mod Skipped
pub mod Tiles
pub mod Stream
