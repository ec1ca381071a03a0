-- ===== src/Lexer/Token.antt =====
-- Token kinds and tokens: include/slp_lexer.h.
use slp.Prelude.{ℕ, Bytes}

pub data TokenType : Type 0 where
  bang dot ampersand at comma slash equal percent backslash minus plus lower_x star : TokenType
  caret pipe colon semicolon right_brace left_brace left_bracket right_bracket : TokenType
  left_paren right_paren less greater : TokenType
  assert break callcc catch continue done else' for foreach from halt if' import return : TokenType
  throw try while yield inline sub copy addall println removeall retainall local this : TokenType
  andequal catequal divequal lshiftequal minusequal orequal plusequal rshiftequal : TokenType
  timesequal xorequal : TokenType
  address arg_passed_by_name arrow backtick_expr class_literal dec double eof eq eqi : TokenType
  exp expequal true' false' ge id import_path inc land le literal long lor lshift ne : TokenType
  neqi null number rshift scalar spaceship string unary_predicate_bridge : TokenType
  builtin_binary_predicate_bridge bin_pred error : TokenType

-- `start` is the text from the token on: a C pointer is the bytes that it points at.
pub record Token : Type 0 where
  pub type : TokenType
  pub start : Bytes
  pub length : ℕ
  pub line : ℕ
