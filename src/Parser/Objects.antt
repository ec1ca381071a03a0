-- ===== src/Parser/Objects.antt =====
-- Object expressions and commands: object_target_starts_qualified_name to obj_expr, and command, of
-- src/slp_parser.c.
use slp.Lexer.Token.{TokenType, Token}
use slp.Parser.Ast.{Node, Nodes, nil, Command}
use slp.Parser.Calls.{Calls, expression, next_token_of, restore_start_line, parse_args}
use slp.Parser.Kinds.{same_type}
use slp.Parser.Literals.{previous, identifier}
use slp.Parser.State.{
  Parser, Do, pure, gets, loop, ◌>>=◌, ◌>>◌, text, error, advance, check, match, consume, line,
  copy_lexeme,
}
use slp.Prelude.{
  ◌+◌, Bool, true, false, not, ◌&&◌, ◌||◌, Bytes, [], ◌∷◌, ◌++◌, length, ltb, leb, if◌then◌else◌,
}

unfoldable pub object_target_starts_qualified_name : Do Bool
object_target_starts_qualified_name = do
  id ← check TokenType.id
  if id
      then (do next ← next_token_of restore_start_line; pure (same_type next.type TokenType.dot))
      else pure false

-- The buffer has 512 bytes; a name that is too long ends the loop with what is there.
unfoldable pub with_dot : Bytes → Bytes
with_dot qualified =
    if ltb 0 (length qualified) && ltb (length qualified + 1) 512
    then qualified ++ b'.' ∷ []
    else qualified

unfoldable pub component_round : Bytes → Do (Bytes × Bool)
component_round qualified = do
  consume TokenType.id (text "Expect class name component after '.'.")
  component ← previous
  let dotted = with_dot qualified
  if leb 512 (length dotted + component.length)
      then (do error (text "Qualified class name is too long."); pure (dotted, false))
      else (do more ← match TokenType.dot; pure (dotted ++ copy_lexeme component, more))

unfoldable pub qualified_object_target : Do Node
qualified_object_target = do
  name ← loop component_round []
  l ← line
  pure (Node.class_literal l name)

unfoldable pub is_command_keyword : TokenType → Bool
is_command_keyword t =
    same_type t TokenType.return
    || same_type t TokenType.throw
    || same_type t TokenType.yield
    || same_type t TokenType.assert
    || same_type t TokenType.callcc
    || same_type t TokenType.halt
    || same_type t TokenType.done
    || same_type t TokenType.local
    || same_type t TokenType.this
    || same_type t TokenType.break
    || same_type t TokenType.continue

unfoldable pub is_nil : Nodes → Bool
is_nil nil = true
is_nil _ = false

unfoldable pub message_args : Calls → Do Nodes
message_args c = do
  args ← parse_args c TokenType.right_bracket
  if is_nil args
      then (do error (text "Expect at least one argument after ':'."); pure args)
      else pure args

unfoldable pub object_message : Calls → Do Node
object_message c = do
  command ← gets (λ p. is_command_keyword p.current.type)
  if command then (do advance; identifier) else expression c

unfoldable pub object_target : Calls → Do Node
object_target c = do
  qualified ← object_target_starts_qualified_name
  if qualified then qualified_object_target else expression c

unfoldable pub optional_args : Calls → Do Nodes
optional_args c = do colon ← match TokenType.colon; if colon then message_args c else pure nil

-- What stands behind the target: the message and the arguments.
unfoldable pub object_rest : Calls → Do (Node × Nodes)
object_rest c = do
  colon ← match TokenType.colon
  if colon then (do args ← message_args c; pure (Node.absent, args)) else (do
    stop ← check TokenType.right_bracket
    if stop
        then pure (Node.absent, nil)
        else (do message ← object_message c; args ← optional_args c; pure (message, args)))

unfoldable pub obj_expr : Calls → Do Node
obj_expr c = do
  l ← line
  target ← object_target c
  rest ← object_rest c
  consume TokenType.right_bracket (text "Expect ']' after object expression.")
  pure (Node.obj_expr l target rest.0 rest.1)

unfoldable pub command_of : TokenType → Command
command_of TokenType.return = Command.return'
command_of TokenType.throw = Command.throw
command_of TokenType.yield = Command.yield
command_of TokenType.assert = Command.assert
command_of TokenType.callcc = Command.callcc
command_of TokenType.halt = Command.halt
command_of TokenType.done = Command.done
command_of TokenType.local = Command.local
command_of TokenType.this = Command.this
command_of TokenType.break = Command.break
command_of TokenType.continue = Command.continue
command_of _ = Command.nop

-- A value on the next line is none of `return` and `yield`.
unfoldable pub has_argument : Token → Parser → Bool
has_argument op p =
    not (same_type p.current.type TokenType.semicolon)
    && not (same_type p.current.type TokenType.eof)
    && not (same_type p.current.type TokenType.right_paren)
    && not (same_type p.current.type TokenType.right_brace)
    && not (
        (same_type op.type TokenType.return || same_type op.type TokenType.yield)
        && ltb p.previous.line p.lexer.start_line)

unfoldable pub has_message : Parser → Bool
has_message p =
    not (same_type p.current.type TokenType.semicolon)
    && not (same_type p.current.type TokenType.eof)

unfoldable pub optional_expression : Calls → Bool → Do Node
optional_expression c true = expression c
optional_expression c false = pure Node.absent

unfoldable pub assert_message : Calls → Do Node
assert_message c = do
  colon ← match TokenType.colon
  if colon then (do given ← gets has_message; optional_expression c given) else pure Node.absent

unfoldable pub command : Calls → Do Node
command c = do
  op ← previous
  l ← line
  given ← gets (has_argument op)
  value ← optional_expression c given
  message ←
      (if given && same_type op.type TokenType.assert then assert_message c else pure Node.absent)
  pure (Node.control l (command_of op.type) value message)
