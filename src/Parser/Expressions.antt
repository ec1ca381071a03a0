-- ===== src/Parser/Expressions.antt =====
-- The prefix and infix functions of expressions: lines 156 to 1046 of src/slp_parser.c.
use slp.Lexer.Token.{TokenType}
use slp.Parser.Ast.{Node, Nodes, nil, snoc}
use slp.Parser.Calls.{Calls, expression, block_round, parse_args}
use slp.Parser.Kinds.{same_type}
use slp.Parser.Literals.{previous, identifier, behind_sigil}
use slp.Parser.State.{
  Do, Message, pure, gets, loop, ◌>>=◌, ◌>>◌, text, advance, check, match, consume, line,
  copy_lexeme,
}
use slp.Prelude.{
  ℕ, ◌+◌, Bool, true, false, ◌&&◌, ◌||◌, Option, some, none, Bytes, [], ◌∷◌, ◌==◌, if◌then◌else◌,
}

-- The rule's precedence comes from the table.
unfoldable pub binary : Calls → ℕ → Node → Do Node
binary c precedence left = do
  op ← previous
  right ← c.parse_precedence (precedence + 1)
  pure (Node.binop op.line left op right false)

-- PREC_EQUALITY is 7.
unfoldable pub negated_binary : Calls → Node → Do Node
negated_binary c left = do
  advance
  predicate ← previous
  right ← c.parse_precedence 7
  pure (Node.binop predicate.line left predicate right true)

-- PREC_UNARY is 13.
unfoldable pub unary : Calls → Do Node
unary c = do
  op ← previous
  operand ← c.parse_precedence 13
  pure (Node.unaryop op.line op operand false)

unfoldable pub assignment : Calls → Node → Do Node
assignment c left = do
  op ← previous
  right ← expression c
  pure (Node.assignment op.line left op right)

unfoldable pub logical : Calls → ℕ → Node → Do Node
logical c precedence left = do
  op ← previous
  right ← c.parse_precedence (precedence + 1)
  l ← line
  pure (Node.binop l left op right false)

unfoldable pub postfix : Node → Do Node
postfix left = do op ← previous; l ← line; pure (Node.unaryop l op left true)

unfoldable pub index_acc : Calls → Node → Do Node
index_acc c left = do
  element ← expression c
  consume TokenType.right_bracket (text "Expect ']' after index.")
  l ← line
  pure (Node.index l left element)

unfoldable pub call : Calls → Node → Do Node
call c left = do
  l ← line
  args ← parse_args c TokenType.right_paren
  consume TokenType.right_paren (text "Expect ')' after arguments.")
  pure (Node.call l left args)

-- `@` or `%` alone stand before a list of arguments, else before a name.
unfoldable pub container : Calls → (ℕ → Bytes → Node) → Bytes → Message → Message → Do Node
container c node sign before behind = do
  token ← previous
  if token.length == 1
      then (do
        consume TokenType.left_paren before
        l ← line
        args ← parse_args c TokenType.right_paren
        consume TokenType.right_paren behind
        pure (Node.call l (node l sign) args))
      else (do l ← line; pure (node l (copy_lexeme (behind_sigil token))))

unfoldable pub array : Calls → Do Node
array c =
    container c Node.array (b'@' ∷ []) (text "Expect '(' after '@'.")
      (text "Expect ')' after array arguments.")

unfoldable pub hash : Calls → Do Node
hash c =
    container c Node.hashtable (b'%' ∷ []) (text "Expect '(' after '%'.")
      (text "Expect ')' after hash arguments.")

unfoldable pub is_assignment : TokenType → Bool
is_assignment t =
    same_type t TokenType.equal
    || same_type t TokenType.andequal
    || same_type t TokenType.catequal
    || same_type t TokenType.divequal
    || same_type t TokenType.lshiftequal
    || same_type t TokenType.minusequal
    || same_type t TokenType.orequal
    || same_type t TokenType.plusequal
    || same_type t TokenType.rshiftequal
    || same_type t TokenType.timesequal
    || same_type t TokenType.xorequal
    || same_type t TokenType.expequal

-- The type of the expression; of `absent` C reads through NULL.
unfoldable pub is_variable : Node → Bool
is_variable (Node.scalar l s) = true
is_variable (Node.array l s) = true
is_variable (Node.hashtable l s) = true
is_variable (Node.identifier l s) = true
is_variable _ = false

unfoldable pub tuple_round : Calls → Nodes → Do (Nodes × Bool)
tuple_round c ns = do
  comma ← match TokenType.comma
  if comma then (do e ← expression c; pure (snoc ns e, true)) else pure (ns, false)

unfoldable pub tuple : Calls → Node → Do Node
tuple c expr = do
  l ← line
  ns ← loop (tuple_round c) (snoc nil expr)
  consume TokenType.right_paren (text "Expect ')' after tuple.")
  pure (Node.lvalue_tuple l ns)

unfoldable pub grouping : Calls → Do Node
grouping c = do
  expr ← expression c
  comma ← check TokenType.comma
  if comma then tuple c expr else (do
    consume TokenType.right_paren (text "Expect ')' after expression.")
    assigned ← gets (λ p. is_assignment p.current.type)
    l ← line
    pure (if assigned && is_variable expr then Node.lvalue_tuple l (snoc nil expr) else expr))

unfoldable pub block_expr : Calls → Do Node
block_expr c = do
  l ← line
  ns ← loop (block_round c) nil
  consume TokenType.right_brace (text "Expect '}' after block.")
  pure (Node.env_bridge l none none none (Node.block l ns))

unfoldable pub matched_text : Bool → Do (Option Bytes)
matched_text false = pure none
matched_text true = do token ← previous; pure (some (copy_lexeme token))

-- `match(a) || match(b)`
unfoldable pub match_either : TokenType → TokenType → Do Bool
match_either a b = do here ← match a; if here then pure true else match b

unfoldable pub optional_body : Calls → Bool → Do Node
optional_body c true = c.block
optional_body c false = pure Node.absent

unfoldable pub bridge : Calls → Do Node
bridge c = do
  keyword ← previous
  l ← line
  named ← match TokenType.id
  name ← matched_text named
  quoted ← match_either TokenType.string TokenType.literal
  string ← matched_text quoted
  braced ← check TokenType.left_brace
  body ← optional_body c braced
  pure (Node.env_bridge l (some (copy_lexeme keyword)) name string body)

unfoldable pub inline_prefix : Calls → Do Node
inline_prefix c = do paren ← check TokenType.left_paren; if paren then identifier else bridge c
