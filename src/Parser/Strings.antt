-- ===== src/Parser/Strings.antt =====
-- Quoted texts: copy_unquoted_lexeme to parse_double_quoted_string, lines 229 to 489 of
-- src/slp_parser.c.
use slp.Lexer.Token.{TokenType, Token}
use slp.Parser.Ast.{Node}
use slp.Parser.Kinds.{same_type}
use slp.Parser.State.{
  Parser, Do, Message, pure, ◌>>◌, text, parser_init, error, advance, copy_lexeme,
}
use slp.Prelude.{
  ℕ, ◌-◌, Bool, true, false, not, ◌||◌, Option, some, none, Bytes, [], ◌∷◌, take, drop, ltb, ◌==◌,
  if◌then◌else◌,
}

-- What a backslash and a character stand for, with the quotes of a literal or of a string.
unfoldable pub escape : Bool → ℕ → Option ℕ
escape true c = if c == b'\'' || c == b'\\' then some c else none
escape false c =
    if c == b'n'
    then some b'\n'
    else if c == b't'
    then some b'\t'
    else if c == b'r'
    then some b'\r'
    else if c == b'\\' || c == b'"' || c == b'\''
    then some c
    else none

-- The loop of copy_unquoted_lexeme.
unfoldable pub unquote : Bool → Bytes → Bytes
unquote single [] = []
unquote single (c ∷ []) = c ∷ []
unquote single (c ∷ d ∷ cs) =
    let next = unquote single (d ∷ cs) in
    let behind = unquote single cs in
    if c == b'\\'
    then elim (escape single d) [ none ↦ c ∷ next | some e ↦ e ∷ behind ]
    else c ∷ next

-- The text without its first and its last byte.
unfoldable pub inner : Token → Bytes
inner token = take (token.length - 2) (drop 1 token.start)

unfoldable pub copy_unquoted_lexeme : Token → Bytes
copy_unquoted_lexeme token =
    if ltb token.length 2
    then copy_lexeme token
    else unquote (same_type token.type TokenType.literal) (inner token)

unfoldable pub parsed_string_var_end : ℕ → Bool
parsed_string_var_end c = c == b' ' || c == b'\t' || c == b'\n' || c == b'$' || c == b'\\'

-- `cursor >= end || parsed_string_var_end(*cursor)`
unfoldable pub no_variable : Bytes → Bool
no_variable [] = true
no_variable (c ∷ cs) = parsed_string_var_end c

unfoldable pub is_absent : Node → Bool
is_absent Node.absent = true
is_absent _ = false

-- The message of the nested parser, whose error_buffer is gone behind parse_alignment_width.
unfoldable pub nested_message : Option Message → Message
nested_message none = text "Invalid alignment expression."
nested_message (some Message.buffer) = Message.stale
nested_message (some m) = m

-- `expression` on another parser, which has just the text of the width.
unfoldable pub nested_expression : Do Node → Bytes → Node × Parser
nested_expression expression source = (do advance; expression) (parser_init source)

unfoldable pub note_exhausted : Bool → Do (Unit {0})
note_exhausted b p = (tt, record p { exhausted = p.exhausted || b })

unfoldable pub check_width : Node → Parser → Do Node
check_width width nested = do
  note_exhausted nested.exhausted
  if nested.had_error || is_absent width || not (same_type nested.current.type TokenType.eof)
      then (do error (nested_message nested.error_message); pure Node.absent)
      else pure width

unfoldable pub parse_alignment_width : Do Node → Bytes → Do Node
parse_alignment_width expression source =
    let (width, nested) = nested_expression expression source in check_width width nested
