-- ===== src/Parser/Closed.antt =====
-- What a property of the parser's state must be kept by, so that all of the parser keeps it, and the
-- moves over the tokens of src/slp_parser.c.
use slp.Lexer.Token.{TokenType, Token}
use slp.Parser.Ast.{Nodes}
use slp.Parser.Calls.{
  Calls, expression, next_token_of, restore_current, restore_line, restore_start_line, block_round,
  arg_round,
}
use slp.Parser.Keeps.{Leads, Keeps, keeps_rules}
use slp.Parser.Declarations.{import_round}
use slp.Parser.Expressions.{tuple_round}
use slp.Parser.Literals.{identifier, previous, string_val}
use slp.Parser.Objects.{component_round}
use slp.Parser.Precedence.{string_round, enter, leave}
use slp.Parser.Statements.{for_round}
use slp.Parser.State.{
  Parser, Message, write_buffer, loop, error_at, error, error_at_current, advance, check, match,
  consume, line,
}
use slp.Prelude.{ℕ, suc, Bytes}

-- The moves that the functions are made of.
pub record Moves (P : Parser → Type 0) : Type 0 where
  pub advances : Keeps P advance
  pub fails : (token : Token) (message : Message) → Keeps P (error_at token message)
  pub writes : (s : Bytes) → Keeps P (write_buffer s)
  pub looks : Keeps P (next_token_of restore_current)
  pub looks_line : Keeps P (next_token_of restore_line)
  pub looks_start_line : Keeps P (next_token_of restore_start_line)
  pub enters : Keeps P enter
  pub leaves : Keeps P leave

-- The functions that are called in turn.
pub record Called (c : Calls) (P : Parser → Type 0) : Type 0 where
  pub parse_precedence : (k : ℕ) → Keeps P (c.parse_precedence (suc k))
  pub statement : Keeps P c.statement
  pub declaration : Keeps P c.declaration
  pub block : Keeps P c.block

-- The loops of the functions, but for those of the precedences and of the script, and parsed strings.
pub record Loops (c : Calls) (P : Parser → Type 0) : Type 0 where
  pub block_loop : (ns : Nodes) → Keeps P (loop (block_round c) ns)
  pub arg_loop : (type : TokenType) (ns : Nodes) → Keeps P (loop (arg_round c type) ns)
  pub tuple_loop : (ns : Nodes) → Keeps P (loop (tuple_round c) ns)
  pub component_loop : (s : Bytes) → Keeps P (loop component_round s)
  pub string_loop : (s : Bytes) → Keeps P (loop string_round s)
  pub for_loop : (type : TokenType) (ns : Nodes) → Keeps P (loop (for_round c type) ns)
  pub import_loop : (s : Bytes) → Keeps P (loop import_round s)
  pub quoted : Keeps P (string_val (expression c))

module _ {P : Parser → Type 0} (moves : Moves P) where
  pub advance-Keeps : Keeps P advance
  advance-Keeps = moves.advances

  pub write_buffer-Keeps : (s : Bytes) → Keeps P (write_buffer s)
  write_buffer-Keeps s = moves.writes s

  pub looks-Keeps : Keeps P (next_token_of restore_current)
  looks-Keeps = moves.looks

  pub looks_line-Keeps : Keeps P (next_token_of restore_line)
  looks_line-Keeps = moves.looks_line

  pub looks_start_line-Keeps : Keeps P (next_token_of restore_start_line)
  looks_start_line-Keeps = moves.looks_start_line

  pub enter-Keeps : Keeps P enter
  enter-Keeps = moves.enters

  pub leave-Keeps : Keeps P leave
  leave-Keeps = moves.leaves

  pub error-Keeps : (message : Message) → Keeps P (error message)
  unfolding error
  error-Keeps message = let h = moves.fails in search (keeps_rules, h)

  pub error_at_current-Keeps : (message : Message) → Keeps P (error_at_current message)
  unfolding error_at_current
  error_at_current-Keeps message = let h = moves.fails in search (keeps_rules, h)

  pub check-Keeps : (type : TokenType) → Keeps P (check type)
  unfolding check
  check-Keeps type = search keeps_rules

  pub match-Keeps : (type : TokenType) → Keeps P (match type)
  unfolding match
  match-Keeps type = search (keeps_rules, check-Keeps, advance-Keeps)

  pub consume-Keeps : (type : TokenType) (message : Message) → Keeps P (consume type message)
  unfolding consume
  consume-Keeps type message =
      search (keeps_rules, check-Keeps, advance-Keeps, error_at_current-Keeps)

  pub line-Keeps : Keeps P line
  unfolding line
  line-Keeps = search keeps_rules

  pub previous-Keeps : Keeps P previous
  unfolding previous
  previous-Keeps = search keeps_rules

  pub identifier-Keeps : Keeps P identifier
  unfolding identifier
  identifier-Keeps = search (keeps_rules, line-Keeps, previous-Keeps)

pub ruleset moves_rules = (
  keeps_rules, advance-Keeps, write_buffer-Keeps, error-Keeps, error_at_current-Keeps, check-Keeps,
  match-Keeps, consume-Keeps, line-Keeps, previous-Keeps, identifier-Keeps, looks-Keeps,
  looks_line-Keeps, looks_start_line-Keeps, enter-Keeps, leave-Keeps,
)
