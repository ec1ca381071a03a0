-- ===== src/Parser/Statements.antt =====
-- Statements and declarations: lines 1230 to 1564 of src/slp_parser.c.
use slp.Lexer.State.{codes}
use slp.Lexer.Token.{TokenType}
use slp.Parser.Ast.{Node, Nodes, nil, snoc}
use slp.Parser.Calls.{Calls, expression}
use slp.Parser.Kinds.{same_type}
use slp.Parser.Literals.{scalar_name}
use slp.Parser.Precedence.{guarded}
use slp.Parser.State.{
  Parser, Do, Message, pure, gets, loop, ◌>>=◌, ◌>>◌, text, error, advance, check, match, consume,
  line,
}
use slp.Prelude.{ℕ, Bool, true, false, ◌||◌, Option, some, none, Bytes, ltb, if◌then◌else◌}

-- A statement ends before a brace, at the end of the file, and with a line.
unfoldable pub ends_statement : Parser → Bool
ends_statement p =
    same_type p.current.type TokenType.right_brace
    || same_type p.current.type TokenType.eof
    || ltb p.previous.line p.current.line

unfoldable pub terminator : Do (Unit {0})
terminator = do
  semicolon ← match TokenType.semicolon
  ended ← gets ends_statement
  if semicolon || ended then pure tt else error (text "Missing terminator")

unfoldable pub expression_statement : Calls → Do Node
expression_statement c = do expr ← expression c; terminator; pure expr

unfoldable pub else_branch : Calls → Do Node
else_branch c = do given ← match TokenType.else'; if given then c.statement else pure Node.absent

-- `( expression )` with two messages.
unfoldable pub in_parens : Calls → Message → Message → Do Node
in_parens c before behind = do
  consume TokenType.left_paren before
  expr ← expression c
  consume TokenType.right_paren behind
  pure expr

unfoldable pub if_statement : Calls → Do Node
if_statement c = do
  l ← line
  condition ← in_parens c (text "Expect '(' after 'if'.") (text "Expect ')' after condition.")
  then_branch ← c.statement
  otherwise ← else_branch c
  pure (Node.if_stmt l condition then_branch otherwise)

-- The name of a scalar that was matched.
unfoldable pub matched_name : Bool → Do (Option Bytes)
matched_name false = pure none
matched_name true = do name ← scalar_name; pure (some name)

unfoldable pub while_node : ℕ → Option Bytes → Node → Node → Node
while_node l none condition body = Node.while_stmt l condition body
while_node l (some name) condition body = Node.assign_loop l name condition body

unfoldable pub while_statement : Calls → Do Node
while_statement c = do
  l ← line
  assigned ← match TokenType.scalar
  name ← matched_name assigned
  condition ← in_parens c (text "Expect '(' after 'while'.") (text "Expect ')' after condition.")
  body ← c.block
  pure (while_node l name condition body)

unfoldable pub stops_at : TokenType → Parser → Bool
stops_at end_token p = same_type p.current.type end_token || same_type p.current.type TokenType.eof

-- The expressions of a part of the head of a for loop.
unfoldable pub for_round : Calls → TokenType → Nodes → Do (Nodes × Bool)
for_round c end_token ns = do
  stop ← gets (stops_at end_token)
  if stop
      then pure (ns, false)
      else (do e ← expression c; more ← match TokenType.comma; pure (snoc ns e, more))

unfoldable pub for_condition : Calls → Do Node
for_condition c = do
  stop ← check TokenType.semicolon
  if stop then pure Node.absent else expression c

unfoldable pub for_statement : Calls → Do Node
for_statement c = do
  l ← line
  consume TokenType.left_paren (text "Expect '(' after 'for'.")
  initializer ← loop (for_round c TokenType.semicolon) nil
  consume TokenType.semicolon (text "Expect ';' after for loop initializer.")
  condition ← for_condition c
  consume TokenType.semicolon (text "Expect ';' after for loop condition.")
  increment ← loop (for_round c TokenType.right_paren) nil
  consume TokenType.right_paren (text "Expect ')' after for loop increment.")
  body ← c.statement
  pure (Node.for_stmt l initializer condition increment body)

unfoldable pub at_variable : Parser → Bool
at_variable p =
    same_type p.current.type TokenType.scalar
    || same_type p.current.type TokenType.percent
    || same_type p.current.type TokenType.at

unfoldable pub variable_name : Do Bytes
variable_name = do advance; scalar_name

-- Without a value variable behind the arrow, the index is the value too.
unfoldable pub foreach_value : Bytes → Do (Option Bytes × Bytes)
foreach_value first = do
  named ← gets at_variable
  if named
      then (do value ← variable_name; pure (some first, value))
      else (do error (text "Expect value variable."); pure (some first, first))

unfoldable pub foreach_names : Do (Option Bytes × Bytes)
foreach_names = do
  named ← gets at_variable
  if named
      then (do
        first ← variable_name
        arrow ← match TokenType.arrow
        if arrow then foreach_value first else pure (none, first))
      else pure (none, codes "stub_var")

unfoldable pub foreach_statement : Calls → Do Node
foreach_statement c = do
  l ← line
  names ← foreach_names
  source ←
      in_parens c (text "Expect '(' after foreach variable.") (text "Expect ')' after collection.")
  body ← c.block
  pure (Node.foreach l names.0 names.1 source body)

-- The token behind `catch` is taken for a scalar.
unfoldable pub try_statement : Calls → Do Node
try_statement c = do
  l ← line
  body ← c.block
  caught ← match TokenType.catch
  if caught
      then (do
        name ← variable_name
        handler ← c.block
        pure (Node.try_catch l body (some name) handler))
      else pure (Node.try_catch l body none Node.absent)

unfoldable pub simple_statement : Calls → Do Node
simple_statement c = do
  braced ← check TokenType.left_brace
  if braced then c.block else expression_statement c

-- The first of some keywords that matches leads to its function.
unfoldable pub when_matched : TokenType → Do Node → Do Node → Do Node
when_matched type m otherwise = do here ← match type; if here then m else otherwise

unfoldable pub nop_statement : Do Node
nop_statement = do l ← line; pure (Node.nop l)

unfoldable pub statement_inner : Calls → Do Node
statement_inner c = when_matched TokenType.semicolon nop_statement (
    when_matched TokenType.if' (if_statement c) (
      when_matched TokenType.while (while_statement c) (
        when_matched TokenType.for (for_statement c) (
          when_matched TokenType.foreach (foreach_statement c)
            (when_matched TokenType.try (try_statement c) (simple_statement c))))))

unfoldable pub statement : Calls → Do Node
statement c = guarded (text "Statements nested too deeply.") (statement_inner c)
