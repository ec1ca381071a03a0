-- ===== src/Parser/Calls.antt =====
-- What the functions of the parser call of one another, and what they share: block, parse_args and the
-- looks at the token behind the current one, of src/slp_parser.c.
use slp.Lexer.Scan.{scan_token}
use slp.Lexer.State.{Lexer, codes}
use slp.Lexer.Token.{TokenType, Token}
use slp.Parser.Ast.{Node, Nodes, nil, snoc}
use slp.Parser.Kinds.{same_type}
use slp.Parser.Literals.{identifier}
use slp.Parser.State.{
  Parser, Do, Message, write_buffer, pure, gets, loop, ◌>>=◌, ◌>>◌, text, error, advance, check,
  match, consume, line,
}
use slp.Parser.Strings.{is_absent}
use slp.Prelude.{
  ℕ, Bool, true, false, not, ◌&&◌, ◌||◌, Option, some, none, Bytes, ◌++◌, get_or, ◌==◌,
  if◌then◌else◌,
}

-- The functions that the others call in turn.
pub record Calls : Type 0 where
  pub parse_precedence : ℕ → Do Node
  pub statement : Do Node
  pub declaration : Do Node
  pub block : Do Node

-- PREC_ASSIGNMENT is 1.
unfoldable pub expression : Calls → Do Node
expression c = c.parse_precedence 1

-- The next token, with what is restored of the lexer after it was read.
unfoldable pub next_token_of : (Lexer → Lexer → Lexer) → Do Token
next_token_of restore p =
    let (token, lexer) = scan_token p.lexer in (token, record p { lexer = restore p.lexer lexer })

unfoldable pub restore_current : Lexer → Lexer → Lexer
restore_current saved l = record l { current = saved.current }

unfoldable pub restore_line : Lexer → Lexer → Lexer
restore_line saved l = record l { current = saved.current; line = saved.line }

unfoldable pub restore_start_line : Lexer → Lexer → Lexer
restore_start_line saved l = record l {
  current = saved.current;
  line = saved.line;
  start_line = saved.start_line;
}

unfoldable pub add_statement : Nodes → Node → Nodes
add_statement ns s = if is_absent s then ns else snoc ns s

unfoldable pub at_block_end : Parser → Bool
at_block_end p =
    same_type p.current.type TokenType.right_brace
    || same_type p.current.type TokenType.eof
    || p.had_error

-- A round of the loops of block and block_expr.
unfoldable pub block_round : Calls → Nodes → Do (Nodes × Bool)
block_round c ns = do
  stop ← gets at_block_end
  if stop then pure (ns, false) else (do s ← c.declaration; pure (add_statement ns s, true))

unfoldable pub block : Calls → Do Node
block c = do
  consume TokenType.left_brace (text "Expect '{' to start block.")
  l ← line
  ns ← loop (block_round c) nil
  consume TokenType.right_brace (text "Expect '}' after block.")
  pure (Node.block l ns)

unfoldable pub is_lone_x : Token → Bool
is_lone_x token =
    (same_type token.type TokenType.lower_x || same_type token.type TokenType.id)
    && token.length == 1
    && get_or token.start 0 0 == b'x'

-- An `x` before `=>` is a name. The line of the lexer is not restored after the look ahead.
unfoldable pub arg_expression : Calls → Do Node
arg_expression c = do
  lone ← gets (λ p. is_lone_x p.current)
  if lone
      then (do
        next ← next_token_of restore_current
        if same_type next.type TokenType.arrow then (do advance; identifier) else expression c)
      else expression c

-- The text of a name that may stand in the message on a missing comma.
unfoldable pub name_text : Node → Option Bytes
name_text (Node.scalar l s) = some s
name_text (Node.array l s) = some s
name_text (Node.hashtable l s) = some s
name_text (Node.identifier l s) = some s
name_text (Node.string l s) = some s
name_text _ = none

-- The buffer is written also where an earlier error stands, whose message may be there.
unfoldable pub missing_comma : Option Bytes → Do (Unit {0})
missing_comma none = error (text "Expect ',' between arguments")
missing_comma (some name) = do
  write_buffer
      (codes "key/value pair specified for '" ++ (name ++ codes "', did you forget a comma?"))
  error Message.buffer

unfoldable pub named_arg : Calls → Node → Do (Node × Node)
named_arg c expr = do
  arrow ← match TokenType.arrow
  if arrow then (do value ← expression c; pure (expr, value)) else pure (Node.absent, expr)

-- Behind an argument: whether a comma leads to another.
unfoldable pub arg_separator : TokenType → Node → Do Bool
arg_separator end_token name = do
  stop ← check end_token
  if stop then pure false else (do
    comma ← match TokenType.comma
    if comma then gets (λ p. not p.had_error) else (do missing_comma (name_text name); pure false))

unfoldable pub one_arg : Calls → TokenType → Nodes → Do (Nodes × Bool)
one_arg c end_token args = do
  expr ← arg_expression c
  l ← line
  pair ← named_arg c expr
  again ← arg_separator end_token pair.0
  pure (snoc args (Node.arg l pair.0 pair.1), again)

unfoldable pub arg_round : Calls → TokenType → Nodes → Do (Nodes × Bool)
arg_round c end_token args = do
  stop ← check end_token
  if stop then pure (args, false) else one_arg c end_token args

unfoldable pub parse_args : Calls → TokenType → Do Nodes
parse_args c end_token = do
  stop ← check end_token
  if stop then pure nil else loop (arg_round c end_token) nil
