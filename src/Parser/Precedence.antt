-- ===== src/Parser/Precedence.antt =====
-- Precedence climbing: parse_precedence_inner and parse_precedence of src/slp_parser.c.
use slp.Lexer.Token.{TokenType}
use slp.Parser.Ast.{Node}
use slp.Parser.Calls.{Calls}
use slp.Parser.Kinds.{same_type}
use slp.Parser.Literals.{Numerals, previous}
use slp.Parser.Rules.{prefix_rule, infix_rule, precedence_of}
use slp.Parser.State.{
  Parser, Do, Message, pure, gets, loop, ◌>>=◌, ◌>>◌, text, error, advance, copy_lexeme,
}
use slp.Prelude.{
  ℕ, ◌+◌, ◌-◌, Bool, true, false, not, ◌&&◌, ◌||◌, Option, some, none, Bytes, ◌++◌, leb,
  if◌then◌else◌,
}

unfoldable pub at_string : Parser → Bool
at_string p =
    same_type p.current.type TokenType.string || same_type p.current.type TokenType.literal

-- The texts that are appended keep their quotes.
unfoldable pub string_round : Bytes → Do (Bytes × Bool)
string_round s = do
  more ← gets at_string
  if more
      then (do advance; token ← previous; pure (s ++ copy_lexeme token, true))
      else pure (s, false)

-- Strings side by side are one.
unfoldable pub juxtaposed : Node → Do Node
juxtaposed (Node.string l s) = do
  more ← gets at_string
  if more
      then (do whole ← loop string_round s; pure (Node.string l whole))
      else pure (Node.string l s)
juxtaposed expr = pure expr

unfoldable pub climbs : ℕ → Parser → Bool
climbs precedence p = not p.had_error && leb precedence (precedence_of p.current.type)

unfoldable pub infix_round : Calls → ℕ → Node → Do (Node × Bool)
infix_round c precedence expr = do
  more ← gets (climbs precedence)
  if more
      then (do advance; op ← previous; next ← infix_rule c op.type expr; pure (next, true))
      else pure (expr, false)

unfoldable pub climb : Calls → ℕ → Option (Do Node) → Do Node
climb c precedence none = do error (text "Expect expression."); pure Node.absent
climb c precedence (some prefix) = do
  expr ← prefix
  whole ← juxtaposed expr
  loop (infix_round c precedence) whole

unfoldable pub parse_precedence_inner : Numerals → Calls → ℕ → Do Node
parse_precedence_inner n c precedence = do
  advance
  token ← previous
  climb c precedence (prefix_rule n c token.type)

unfoldable pub enter : Do (Unit {0})
enter p = (tt, record p { depth = p.depth + 1 })

unfoldable pub leave : Do (Unit {0})
leave p = (tt, record p { depth = p.depth - 1 })

-- SLP_PARSER_MAX_DEPTH is 100.
unfoldable pub guarded : Message → Do Node → Do Node
guarded message m = do
  deep ← gets (λ p. leb 100 p.depth)
  if deep then (do error message; pure Node.absent) else (do enter; node ← m; leave; pure node)

unfoldable pub parse_precedence : Numerals → Calls → ℕ → Do Node
parse_precedence n c precedence =
    guarded (text "Expression nested too deeply.") (parse_precedence_inner n c precedence)
