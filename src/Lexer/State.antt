-- ===== src/Lexer/State.antt =====
-- The scanner's state and its primitive moves: src/slp_lexer.c, lines 1 to 80.
use mathlib.Core.List.{tail}
use Prim.Native.Char.{code}
use Prim.Native.String.{String}
use slp.Lexer.Token.{TokenType, Token, error}
use slp.Prelude.{
  ℕ, zero, suc, ◌+◌, ◌-◌, Bool, not, ◌&&◌, ◌||◌, [], ◌∷◌, leb, ◌==◌, if◌then◌else◌, Bytes, length,
  get_or,
}

-- A pointer into the source is the bytes from there to the terminating 0, and `[]` one past it,
-- where C reads what is not the source's; the model then reads 0.
pub record Lexer : Type 0 where
  pub start : Bytes
  pub current : Bytes
  pub line : ℕ
  pub start_line : ℕ

-- The code points of a text, which is ASCII here.
abbrev pub codes : String → Bytes
codes String.[] = []
codes (String.◌∷◌ c s) = code c ∷ codes s

abbrev pub within : ℕ → ℕ → ℕ → Bool
within lo hi c = leb lo c && leb c hi

unfoldable pub is_digit : ℕ → Bool
is_digit c = within b'0' b'9' c

unfoldable pub is_alpha : ℕ → Bool
is_alpha c = within b'a' b'z' c || within b'A' b'Z' c || c == b'_'

unfoldable pub peek : Lexer → ℕ
peek l = get_or l.current 0 0

unfoldable pub is_at_end : Lexer → Bool
is_at_end l = peek l == 0

unfoldable pub peek_next : Lexer → ℕ
peek_next l = if is_at_end l then 0 else get_or l.current 1 0

-- lexer_advance; where its result is used, `peek` is taken before.
unfoldable pub advance : Lexer → Lexer
advance l = record l { current = tail l.current }

-- The test of lexer_match, which advances when it holds.
unfoldable pub lexer_match : Lexer → ℕ → Bool
lexer_match l expected = not (is_at_end l) && peek l == expected

-- `current - start`
unfoldable pub lexeme_length : Lexer → ℕ
lexeme_length l = length l.start - length l.current

unfoldable pub make_token : Lexer → TokenType → Token
make_token l type = record { type = type; start = l.start; length = lexeme_length l; line = l.line }

unfoldable pub error_token : Lexer → Bytes → Token
error_token l message = record {
  type = error;
  start = message;
  length = length message;
  line = l.line;
}

-- `while (p(peek)) advance`, on the text; the 0 at the end fails every test that is used.
unfoldable pub skip_while : (ℕ → Bool) → Bytes → Bytes
skip_while p [] = []
skip_while p (c ∷ cs) = if p c then skip_while p cs else c ∷ cs

unfoldable pub advance_while : (ℕ → Bool) → Lexer → Lexer
advance_while p l = record l { current = skip_while p l.current }

abbrev pub in_comment : ℕ → Bool
in_comment c = not (c == b'\n') && not (c == 0)

-- The loop of skip_whitespace; each round but the last takes a byte, so the length of the text is
-- enough fuel.
unfoldable pub skip_rounds : ℕ → Lexer → Lexer
skip_rounds zero l = l
skip_rounds (suc f) l =
    let blank = skip_rounds f (advance l) in
    let newline = skip_rounds f (advance (record l { line = l.line + 1 })) in
    let comment = skip_rounds f (advance_while in_comment l) in
    if peek l == b' ' || peek l == b'\r' || peek l == b'\t'
    then blank
    else if peek l == b'\n'
    then newline
    else if peek l == b'#'
    then comment
    else l

unfoldable pub skip_whitespace : Lexer → Lexer
skip_whitespace l = skip_rounds (length l.current) l

unfoldable pub lexer_init : Bytes → Lexer
lexer_init source = record { start = source; current = source; line = 1; start_line = 1 }
