-- ===== src/Parser/Segments.antt =====
-- Parsed strings: parse_double_quoted_string, lines 317 to 489 of src/slp_parser.c.
use slp.Lexer.Token.{TokenType, Token}
use slp.Parser.Ast.{Node}
use slp.Parser.State.{Do, Message, pure, ◌>>=◌, ◌>>◌, exhaust, text, error, line}
use slp.Parser.Strings.{inner, parsed_string_var_end, no_variable, is_absent, parse_alignment_width}
use slp.Prelude.{
  ℕ, zero, suc, ◌+◌, ◌-◌, Bool, true, false, not, ◌&&◌, Option, some, none, Bytes, List, [], ◌∷◌,
  ◌++◌, length, take, drop, get_or, ltb, leb, ◌==◌, if◌then◌else◌,
}

-- The parts that were found, the last first and each with its line, the literal since then, and lines.
pub record Segments : Type 0 where
  pub parts : List (ℕ × Node)
  pub literal : Bytes
  pub cursor_line : ℕ
  pub literal_line : ℕ

-- FLUSH_PARSED_LITERAL
unfoldable pub flush_literal : Segments → Segments
flush_literal s =
    if ltb 0 (length s.literal)
    then record s {
      parts = (s.literal_line, Node.string s.literal_line s.literal) ∷ s.parts;
      literal = [];
    }
    else s

unfoldable pub append_literal : ℕ → Segments → Segments
append_literal c s = record s { literal = s.literal ++ c ∷ [] }

unfoldable pub count_line : ℕ → Segments → Segments
count_line c s = if c == b'\n' then record s { cursor_line = s.cursor_line + 1 } else s

unfoldable pub unescaped : ℕ → ℕ
unescaped c =
    if c == b'n' then b'\n' else if c == b't' then b'\t' else if c == b'r' then b'\r' else c

unfoldable pub newline_count : Bytes → ℕ
newline_count [] = 0
newline_count (c ∷ cs) = (if c == b'\n' then 1 else 0) + newline_count cs

abbrev pub prepend : ℕ → Option (Bytes × Bytes) → Option (Bytes × Bytes)
prepend c none = none
prepend c (some (before, behind)) = some (c ∷ before, behind)

-- The text up to the bracket that closes, and what is behind it.
unfoldable pub find_close : ℕ → Bytes → Option (Bytes × Bytes)
find_close depth [] = none
find_close depth (c ∷ cs) =
    let rest =
      find_close (if c == b'[' then depth + 1 else if c == b']' then depth - 1 else depth) cs in
    if c == b']' && depth == 1 then some ([], cs) else prepend c rest

unfoldable pub name_length : Bytes → ℕ
name_length [] = 0
name_length (c ∷ cs) = let rest = name_length cs in if parsed_string_var_end c then 0 else suc rest

-- The variable at the cursor becomes a part, with its width if it has one.
unfoldable pub add_variable : ℕ → Option (Node × Bytes) → Bytes → Segments → Segments
add_variable value_line width cs s =
    let value = Node.scalar value_line (take (name_length cs) cs) in
    let part : Node = elim width [
      | none ↦ value
      | some (node, source) ↦ Node.align value_line node value source
    ] in
    record s { parts = (value_line, part) ∷ s.parts; literal_line = s.cursor_line }

unfoldable pub fail : {A : Type 0} → Message → Do (Option A)
fail message = do error message; pure none

-- The width in brackets, and what is behind them; `none` behind an error.
unfoldable pub alignment : Do Node → Option (Bytes × Bytes) → Do (Option (Node × Bytes))
alignment expression none = do error (text "missing close brace for variable alignment"); pure none
alignment expression (some ([], behind)) = do
  error (text "Empty alignment specification")
  pure none
alignment expression (some (c ∷ source, behind)) = do
  width ← parse_alignment_width expression (c ∷ source)
  if is_absent width
      then pure none
      else if no_variable behind
      then (do error (text "can not align an empty variable"); pure none)
      else pure (some (width, c ∷ source))

unfoldable pub behind_close : Option (Bytes × Bytes) → Bytes
behind_close none = []
behind_close (some (source, behind)) = behind

unfoldable pub width_lines : Option (Bytes × Bytes) → ℕ
width_lines none = 0
width_lines (some (source, behind)) = newline_count source

unfoldable pub width_of : Do Node → Bool → Bytes → Do (Option (Option (Node × Bytes)))
width_of expression false cs = pure (some none)
width_of expression true cs = do
  r ← alignment expression (find_close 1 cs)
  elim r [ none ↦ pure none | some w ↦ pure (some (some w)) ]

-- Behind the sigil: the bracket with the width, if there is one, and the name. The result is `none`
-- behind an error, else the parts and the text from the cursor on.
unfoldable pub variable_segment : Do Node → Segments → Bytes → Do (Option (Segments × Bytes))
variable_segment expression s cs = do
  let aligned = get_or cs 0 0 == b'['
  let found = find_close 1 (drop 1 cs)
  let name = if aligned then behind_close found else cs
  let lines = if aligned then width_lines found else 0
  let s' = flush_literal s
  r ← width_of expression aligned (drop 1 cs)
  elim r [
    | none ↦ pure none
    | some width ↦ pure (
        some (
          add_variable s.cursor_line width name
              (record s' { cursor_line = s'.cursor_line + lines }),
          drop (name_length name) name,
        ))
  ]

abbrev pub starts : Bytes → ℕ → ℕ → ℕ → Bool
starts cs a b c =
    leb 3 (length cs) && get_or cs 0 0 == a && get_or cs 1 0 == b && get_or cs 2 0 == c

abbrev pub is_empty : Bytes → Bool
is_empty [] = true
is_empty (c ∷ cs) = false

-- A round of the loop, at the byte `c` and with `cs` behind it.
unfoldable pub segment : Do Node → Segments → ℕ → Bytes → Do (Option (Segments × Bytes))
segment expression s c cs =
    if leb 510 (length s.parts)
    then fail (text "String has too many interpolated segments.")
    else if c == b'\\' && not (is_empty cs)
    then pure (
        some (count_line (get_or cs 0 0) (append_literal (unescaped (get_or cs 0 0)) s), drop 1 cs))
    else if c == b' ' && starts cs b'$' b'+' b' '
    then pure (some (s, drop 3 cs))
    else if c == b'$' && get_or cs 0 0 == b'+'
    then fail (text "operator $+ must be surrounded with whitespace")
    else if c == b'$' && not (no_variable cs)
    then variable_segment expression s cs
    else pure (some (append_literal c (count_line c s), cs))

-- The loop over the text; each round takes a byte, so its length is enough fuel.
unfoldable pub segments : ℕ → Do Node → Segments → Bytes → Do (Option Segments)
segments n expression s [] = pure (some s)
segments zero expression s (c ∷ cs) = do exhaust; pure none
segments (suc n) expression s (c ∷ cs) = do
  r ← segment expression s c cs
  elim r [ none ↦ pure none | some (s', cs') ↦ segments n expression s' cs' ]

unfoldable pub dot : ℕ → Token
dot l = record { type = TokenType.dot; start = b'.' ∷ []; length = 1; line = l }

-- The parts joined from the left, with the last part first in the list.
unfoldable pub join_parts : ℕ → List (ℕ × Node) → Node
join_parts l [] = Node.string l []
join_parts l ((k, part) ∷ []) = part
join_parts l ((k, part) ∷ before ∷ parts) =
    Node.binop k (join_parts l (before ∷ parts)) (dot k) part false

unfoldable pub finish_segments : Option Segments → Do Node
finish_segments none = pure Node.absent
finish_segments (some s) = do l ← line; pure (join_parts l (flush_literal s).parts)

unfoldable pub parse_double_quoted_string : Do Node → Token → Do Node
parse_double_quoted_string expression token =
    if ltb token.length 2 then (do l ← line; pure (Node.string l [])) else do
      let first_line = token.line - newline_count (take token.length token.start)
      let cs = inner token
      r ←
          segments (length cs) expression
            (record {
              parts = [];
              literal = [];
              cursor_line = first_line;
              literal_line = first_line;
            })
            cs
      finish_segments r
