-- ===== src/Parser/Literals.antt =====
-- The expressions of a single token: string_val to scalar, address_expr, class_expr and identifier of
-- src/slp_parser.c.
use slp.Lexer.State.{is_digit}
use slp.Lexer.Token.{TokenType, Token}
use slp.Parser.Ast.{Node}
use slp.Parser.Kinds.{same_type}
use slp.Parser.Segments.{parse_double_quoted_string}
use slp.Parser.State.{Do, pure, gets, ◌>>=◌, line, copy_lexeme}
use slp.Parser.Strings.{copy_unquoted_lexeme}
use slp.Prelude.{
  ℕ, ◌-◌, Bool, true, false, not, ◌&&◌, ◌||◌, Bytes, take, drop, get_or, ltb, ◌==◌, if◌then◌else◌,
}
use slp.Value.{long_to_double}

-- The calls of the C library: strtoll with base 0, as the 64-bit pattern of its result, and strtod, as
-- that of the double.
pub record Numerals : Type 0 where
  pub strtoll : Bytes → ℕ
  pub strtod : Bytes → ℕ

unfoldable pub previous : Do Token
previous = gets (λ p. p.previous)

unfoldable pub identifier : Do Node
identifier = do token ← previous; l ← line; pure (Node.identifier l (copy_lexeme token))

unfoldable pub string_val : Do Node → Do Node
string_val expression = do
  token ← previous
  l ← line
  if same_type token.type TokenType.string
      then parse_double_quoted_string expression token
      else pure (Node.string l (copy_unquoted_lexeme token))

-- A number in base 16 or 8 is read by strtoll.
unfoldable pub has_base : Bytes → Bool
has_base lexeme =
    get_or lexeme 0 0 == b'0'
    && (get_or lexeme 1 0 == b'x' || get_or lexeme 1 0 == b'X' || is_digit (get_or lexeme 1 0))

unfoldable pub double_val : Numerals → Bool → Bytes → ℕ
double_val n is_double lexeme =
    if not is_double && has_base lexeme then long_to_double (n.strtoll lexeme) else n.strtod lexeme

unfoldable pub number : Numerals → Do Node
number n = do
  token ← previous
  l ← line
  let lexeme = copy_lexeme token
  let is_double = same_type token.type TokenType.double
  if same_type token.type TokenType.long
      then pure (Node.long l (n.strtoll lexeme))
      else pure (Node.number l is_double (double_val n is_double lexeme))

unfoldable pub literal : Do Node
literal = do
  token ← previous
  l ← line
  if same_type token.type TokenType.false'
      then pure (Node.boolean l false)
      else if same_type token.type TokenType.true'
      then pure (Node.boolean l true)
      else if same_type token.type TokenType.null
      then pure (Node.null l)
      else pure Node.absent

-- The token without its sigil.
unfoldable pub behind_sigil : Token → Token
behind_sigil token =
    if ltb 0 token.length
    then record token { start = drop 1 token.start; length = token.length - 1 }
    else token

unfoldable pub scalar_name : Do Bytes
scalar_name = do token ← previous; pure (copy_lexeme (behind_sigil token))

unfoldable pub scalar : Do Node
scalar = do l ← line; name ← scalar_name; pure (Node.scalar l name)

unfoldable pub address_expr : Do Node
address_expr = do l ← line; name ← scalar_name; pure (Node.address l name)

unfoldable pub class_expr : Do Node
class_expr = do l ← line; name ← scalar_name; pure (Node.class_literal l name)

-- The lexer closes every expression in backticks, so its token has two bytes at least.
unfoldable pub backtick_expr : Do Node
backtick_expr = do
  l ← line
  token ← previous
  if ltb 0 token.length
      then pure (Node.backtick l (take (token.length - 2) (drop 1 token.start)))
      else pure (Node.backtick l (copy_lexeme token))
