-- ===== src/Parser.antt =====
-- The parser: src/slp_parser.c, include/slp_parser.h and slp_lexer_copy_lexeme of src/slp_lexer.c.

pub mod Kinds
pub mod Ast
pub mod State
pub mod Keeps
pub mod Strings
pub mod Segments
pub mod Literals
pub mod Calls
pub mod Expressions
pub mod Objects
pub mod Rules
pub mod Precedence
pub mod Statements
pub mod Declarations
pub mod Closed
pub mod KeptExpressions
pub mod KeptRules
pub mod KeptStatements
pub mod Steady
pub mod Errors
pub mod Ends
mod Tests
pub mod Advance
pub mod Tight
pub mod Turns
pub mod Rounds
pub mod Quoted
pub mod Ready
pub mod Steps
pub mod Branches
pub mod Braces
pub mod Total
