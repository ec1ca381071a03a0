-- ===== src/Parser/Declarations.antt =====
-- Imports, declarations and the whole script: import_statement, declaration and slp_parser_parse of
-- src/slp_parser.c, and the calls of one function by another, on fuel.
use slp.Lexer.Token.{TokenType}
use slp.Parser.Ast.{Node, Nodes, nil}
use slp.Parser.Calls.{Calls, next_token_of, restore_line, restore_start_line, block, add_statement}
use slp.Parser.Expressions.{bridge, match_either, matched_text}
use slp.Parser.Kinds.{same_type}
use slp.Parser.Literals.{Numerals, previous}
use slp.Parser.Precedence.{parse_precedence}
use slp.Parser.Statements.{statement}
use slp.Parser.State.{
  Do, pure, gets, loop, exhaust, ◌>>=◌, ◌>>◌, text, advance, check, match, consume, line,
  copy_lexeme,
}
use slp.Prelude.{
  ℕ, zero, suc, ◌+◌, Bool, true, false, not, ◌||◌, Option, some, none, Bytes, [], ◌∷◌, ◌++◌, length,
  ltb, if◌then◌else◌,
}

-- The buffer has 512 bytes; what does not fit below the last one is left out.
unfoldable pub append_target : Bytes → Bytes → Bytes
append_target target part = if ltb (length target + length part) 511 then target ++ part else target

unfoldable pub append_previous : Bytes → Bool → Do Bytes
append_previous target false = pure target
append_previous target true = do token ← previous; pure (append_target target (copy_lexeme token))

unfoldable pub import_part : Do Bool
import_part = do
  named ← match_either TokenType.id TokenType.string
  if named then pure true else match TokenType.star

unfoldable pub import_round : Bytes → Do (Bytes × Bool)
import_round target = do
  dot ← match TokenType.dot
  if dot
      then (do
        part ← import_part
        next ← append_previous (append_target target (b'.' ∷ [])) part
        pure (next, true))
      else pure (target, false)

unfoldable pub import_target : Do Bytes
import_target = do
  named ← match_either TokenType.id TokenType.string
  first ← append_previous [] named
  if named then loop import_round first else pure first

unfoldable pub import_path : Do (Option Bytes)
import_path = do
  from ← match TokenType.from
  if from
      then (do
        consume TokenType.colon (text "Expect ':' after FROM.")
        quoted ← match_either TokenType.string TokenType.import_path
        path ← (if quoted then pure true else match TokenType.literal)
        matched_text path)
      else pure none

unfoldable pub non_empty : Bytes → Option Bytes
non_empty [] = none
non_empty (c ∷ cs) = some (c ∷ cs)

unfoldable pub import_statement : Do Node
import_statement = do
  l ← line
  target ← import_target
  path ← import_path
  match TokenType.semicolon
  pure (Node.import l (non_empty target) path)

unfoldable pub starts_bridge : TokenType → Bool
starts_bridge t =
    same_type t TokenType.id
    || same_type t TokenType.string
    || same_type t TokenType.literal
    || same_type t TokenType.left_brace

-- Whether the keyword `inline` begins a bridge, and whether a name does.
unfoldable pub at_inline : Do Bool
at_inline = do
  here ← check TokenType.inline
  if here
      then (do
        next ← next_token_of restore_start_line
        pure (not (same_type next.type TokenType.left_paren)))
      else pure false

unfoldable pub at_bridge : Do Bool
at_bridge = do
  here ← check TokenType.id
  if here
      then (do next ← next_token_of restore_line; pure (starts_bridge next.type))
      else pure false

unfoldable pub named_declaration : Calls → Do Node
named_declaration c = do named ← at_bridge; if named then (do advance; bridge c) else c.statement

unfoldable pub import_declaration : Calls → Do Node
import_declaration c = do
  here ← match TokenType.import
  if here then import_statement else named_declaration c

unfoldable pub inline_declaration : Calls → Do Node
inline_declaration c = do
  inlined ← at_inline
  if inlined then (do advance; bridge c) else import_declaration c

unfoldable pub declaration : Calls → Do Node
declaration c = do here ← match TokenType.sub; if here then bridge c else inline_declaration c

unfoldable pub stuck : Do Node
stuck = do exhaust; pure Node.absent

-- The functions with fuel for their calls of one another.
unfoldable pub calls : Numerals → ℕ → Calls
calls n zero = record {
  parse_precedence = λ precedence. stuck;
  statement = stuck;
  declaration = stuck;
  block = stuck;
}
calls n (suc f) =
    let c = calls n f in
    record {
      parse_precedence = parse_precedence n c;
      statement = statement c;
      declaration = declaration c;
      block = block c;
    }

unfoldable pub script_round : Calls → Nodes → Do (Nodes × Bool)
script_round c ns = do
  ended ← match TokenType.eof
  failed ← gets (λ p. p.had_error)
  if ended || failed
      then pure (ns, false)
      else (do s ← c.declaration; pure (add_statement ns s, true))

unfoldable pub parse_script : Calls → Do Node
parse_script c = do l ← line; ns ← loop (script_round c) nil; pure (Node.script l ns)

unfoldable pub parse : Calls → Do Node
parse c = do
  advance
  ended ← match TokenType.eof
  if ended then pure Node.absent else parse_script c
