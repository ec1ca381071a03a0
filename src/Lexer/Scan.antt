-- ===== src/Lexer/Scan.antt =====
-- The scanner's functions for each class of token, and the main switch: src/slp_lexer.c.
use slp.Lexer.Keywords.{identifier_type}
use slp.Lexer.State.{
  Lexer, codes, within, is_digit, is_alpha, peek, is_at_end, peek_next, advance, lexer_match,
  make_token, error_token, advance_while, skip_whitespace,
}
use slp.Lexer.Token.{TokenType, Token}
use slp.Prelude.{
  ℕ, ◌+◌, ◌-◌, Bool, false, not, ◌&&◌, ◌||◌, [], ◌∷◌, ◌==◌, if◌then◌else◌, Bytes, length, get_or,
  take,
}

abbrev pub Scanned : Type 0
Scanned = Token × Lexer

-- `return make_token(lexer, type)`
unfoldable pub emit : TokenType → Lexer → Scanned
emit type l = (make_token l type, l)

unfoldable pub fail_with : Bytes → Lexer → Scanned
fail_with message l = (error_token l message, l)

abbrev pub is_word : ℕ → Bool
is_word c = is_alpha c || is_digit c || c == b'_'

abbrev pub is_identifier : ℕ → Bool
is_identifier c = is_alpha c || is_digit c || c == b'-' || c == b'+'

unfoldable pub scan_identifier : Lexer → Scanned
scan_identifier l = let l' = advance_while is_identifier l in emit (identifier_type l') l'

abbrev pub is_hex : ℕ → Bool
is_hex c = is_digit c || within b'a' b'f' c || within b'A' b'F' c

-- The suffix of a number with no fraction and no exponent.
unfoldable pub scan_suffix : Lexer → Scanned
scan_suffix l =
    if peek l == b'L' || peek l == b'l'
    then emit TokenType.long (advance l)
    else emit TokenType.number l

unfoldable pub scan_fraction : Lexer → Lexer
scan_fraction l =
    if peek l == b'.' && is_digit (peek_next l) then advance_while is_digit (advance l) else l

-- `next2` is read only where `next` is not the end.
unfoldable pub is_exponent : Lexer → Bool
is_exponent l =
    let next = peek_next l in
    let next2 = if next == 0 then 0 else get_or l.current 2 0 in
    (peek l == b'e' || peek l == b'E')
    && (is_digit next || ((next == b'+' || next == b'-') && is_digit next2))

unfoldable pub scan_exponent : Lexer → Lexer
scan_exponent l =
    let sign = advance l in
    advance_while is_digit (if peek sign == b'+' || peek sign == b'-' then advance sign else sign)

-- The loop over the lexeme that looks for a dot.
unfoldable pub has_dot : Bytes → Bool
has_dot [] = false
has_dot (c ∷ cs) = c == b'.' || has_dot cs

unfoldable pub lexeme : Lexer → Bytes
lexeme l = take (length l.start - length l.current) l.start

unfoldable pub scan_decimal : Lexer → Scanned
scan_decimal l =
    let l' = scan_fraction (advance_while is_digit l) in
    if is_exponent l'
    then emit TokenType.double (scan_exponent l')
    else if has_dot (lexeme l')
    then emit TokenType.double l'
    else scan_suffix l'

unfoldable pub scan_number : Lexer → Scanned
scan_number l =
    if get_or l.start 0 0 == b'0' && (peek l == b'x' || peek l == b'X')
    then scan_suffix (advance_while is_hex (advance l))
    else scan_decimal l

-- The loop of scan_string. A byte behind a backslash is passed over unseen: a newline there is not
-- counted, and the terminating 0 there is passed too.
unfoldable pub string_body : ℕ → Bytes → ℕ → Bytes × ℕ
string_body quote [] n = ([], n)
string_body quote (c ∷ []) n =
    if c == quote || c == 0 then (c ∷ [], n) else ([], if c == b'\n' then n + 1 else n)
string_body quote (c ∷ d ∷ cs) n =
    let escaped = string_body quote cs n in
    let plain = string_body quote (d ∷ cs) (if c == b'\n' then n + 1 else n) in
    if c == quote || c == 0 then (c ∷ d ∷ cs, n) else if c == b'\\' then escaped else plain

abbrev pub unterminated : Bytes
unterminated = codes "Unterminated string."

unfoldable pub scan_string : ℕ → TokenType → Lexer → Scanned
scan_string quote type l =
    let (rest, line) = string_body quote l.current l.line in
    let l' = record l { current = rest; line = line } in
    if is_at_end l' then fail_with unterminated l' else emit type (advance l')

-- `if (lexer_match(lexer, ch)) yes else no`
abbrev pub on_match : Lexer → ℕ → (Lexer → Scanned) → Scanned → Scanned
on_match l ch matched other = if lexer_match l ch then matched (advance l) else other

-- The optional name behind `@` and `%`.
abbrev pub sigil_name : Lexer → Lexer
sigil_name l = if is_word (peek l) then advance_while is_word l else l

unfoldable pub scan_sigil : TokenType → Lexer → Scanned
scan_sigil type l = emit type (sigil_name l)

-- The text behind a backslash that is not `&name`.
unfoldable pub scan_passed_name : Lexer → Scanned
scan_passed_name l =
    if peek l == b'$' || peek l == b'@' || peek l == b'%'
    then emit TokenType.arg_passed_by_name (advance_while is_word (advance l))
    else emit TokenType.backslash l

-- After `\&` with no name the switch goes on behind the `&`.
unfoldable pub scan_backslash : Lexer → Scanned
scan_backslash l =
    let l' = advance l in
    if peek l == b'&'
    then if is_alpha (peek l') || peek l' == b'_'
      then emit TokenType.address (advance_while is_word l')
      else scan_passed_name l'
    else scan_passed_name l

unfoldable pub scan_dot : Lexer → Scanned
scan_dot l = on_match l b'=' (emit TokenType.catequal) (emit TokenType.dot l)

unfoldable pub scan_minus : Lexer → Scanned
scan_minus l = on_match l b'-' (emit TokenType.dec) (
    on_match l b'=' (emit TokenType.minusequal) (
      if is_alpha (peek l)
      then emit TokenType.unary_predicate_bridge (advance_while is_word (advance l))
      else emit TokenType.minus l))

unfoldable pub scan_plus : Lexer → Scanned
scan_plus l =
    on_match l b'+' (emit TokenType.inc)
      (on_match l b'=' (emit TokenType.plusequal) (emit TokenType.plus l))

unfoldable pub scan_slash : Lexer → Scanned
scan_slash l = on_match l b'=' (emit TokenType.divequal) (emit TokenType.slash l)

unfoldable pub scan_star : Lexer → Scanned
scan_star l =
    on_match l b'*' (λ l'. on_match l' b'=' (emit TokenType.expequal) (emit TokenType.exp l'))
      (on_match l b'=' (emit TokenType.timesequal) (emit TokenType.star l))

-- The loop over a class name stops before a dot that a value follows.
unfoldable pub class_name : Bytes → Bytes
class_name [] = []
class_name (c ∷ cs) =
    let next = get_or cs 0 0 in
    let value = next == b'"' || next == b'\'' || next == b'$' || next == b'@' || next == b'%' in
    if (is_word c || c == b'$' || c == b'.') && not (c == b'.' && value)
    then class_name cs
    else c ∷ cs

unfoldable pub scan_caret : Lexer → Scanned
scan_caret l = on_match l b'=' (emit TokenType.xorequal) (
    if is_alpha (peek l) || peek l == b'_' || peek l == b'$'
    then emit TokenType.class_literal (record l { current = class_name l.current })
    else emit TokenType.caret l)

unfoldable pub scan_pipe : Lexer → Scanned
scan_pipe l =
    on_match l b'|' (emit TokenType.lor)
      (on_match l b'=' (emit TokenType.orequal) (emit TokenType.pipe l))

unfoldable pub scan_ampersand : Lexer → Scanned
scan_ampersand l = on_match l b'&' (emit TokenType.land) (
    on_match l b'=' (emit TokenType.andequal) (
      if is_alpha (peek l) || peek l == b'_'
      then emit TokenType.address (advance_while is_word l)
      else emit TokenType.ampersand l))

unfoldable pub scan_bang : Lexer → Scanned
scan_bang l =
    on_match l b'=' (λ l'. on_match l' b'~' (emit TokenType.neqi) (emit TokenType.ne l'))
      (emit TokenType.bang l)

unfoldable pub scan_equal : Lexer → Scanned
scan_equal l = on_match l b'=' (emit TokenType.eq) (
    on_match l b'~' (emit TokenType.eqi)
      (on_match l b'>' (emit TokenType.arrow) (emit TokenType.equal l)))

unfoldable pub scan_less : Lexer → Scanned
scan_less l =
    on_match l b'=' (λ l'. on_match l' b'>' (emit TokenType.spaceship) (emit TokenType.le l'))
      (on_match l b'<'
        (λ l'. on_match l' b'=' (emit TokenType.lshiftequal) (emit TokenType.lshift l'))
        (emit TokenType.less l))

unfoldable pub scan_greater : Lexer → Scanned
scan_greater l = on_match l b'=' (emit TokenType.ge) (
    on_match l b'>' (λ l'. on_match l' b'=' (emit TokenType.rshiftequal) (emit TokenType.rshift l'))
      (emit TokenType.greater l))

-- Behind the four matches of "null", as many as held.
unfoldable pub scan_scalar : Lexer → Scanned
scan_scalar l =
    if peek l == b'+'
    then emit TokenType.scalar (advance l)
    else emit TokenType.scalar (advance_while is_word l)

unfoldable pub scan_dollar : Lexer → Scanned
scan_dollar l =
    on_match l b'n'
      (λ a.
        on_match a b'u'
          (λ b.
            on_match b b'l' (λ c. on_match c b'l' (emit TokenType.null) (scan_scalar c))
              (scan_scalar b))
          (scan_scalar a))
      (scan_scalar l)

abbrev pub unexpected : Bytes
unexpected = codes "Unexpected character."

-- The switch on the character `c` that was just taken.
unfoldable pub scan_symbol : ℕ → Lexer → Scanned
scan_symbol c l =
    if c == b'('
    then emit TokenType.left_paren l
    else if c == b')'
    then emit TokenType.right_paren l
    else if c == b'{'
    then emit TokenType.left_brace l
    else if c == b'}'
    then emit TokenType.right_brace l
    else if c == b'['
    then emit TokenType.left_bracket l
    else if c == b']'
    then emit TokenType.right_bracket l
    else if c == b';'
    then emit TokenType.semicolon l
    else if c == b','
    then emit TokenType.comma l
    else if c == b':'
    then emit TokenType.colon l
    else if c == b'@'
    then scan_sigil TokenType.at l
    else if c == b'\\'
    then scan_backslash l
    else if c == b'%'
    then scan_sigil TokenType.percent l
    else if c == b'.'
    then scan_dot l
    else if c == b'-'
    then scan_minus l
    else if c == b'+'
    then scan_plus l
    else if c == b'/'
    then scan_slash l
    else if c == b'*'
    then scan_star l
    else if c == b'^'
    then scan_caret l
    else if c == b'|'
    then scan_pipe l
    else if c == b'&'
    then scan_ampersand l
    else if c == b'!'
    then scan_bang l
    else if c == b'='
    then scan_equal l
    else if c == b'<'
    then scan_less l
    else if c == b'>'
    then scan_greater l
    else if c == b'"'
    then scan_string b'"' TokenType.string l
    else if c == b'\''
    then scan_string b'\'' TokenType.literal l
    else if c == b'`'
    then scan_string b'`' TokenType.backtick_expr l
    else if c == b'$'
    then scan_dollar l
    else fail_with unexpected l

unfoldable pub scan_char : ℕ → Lexer → Scanned
scan_char c l =
    if is_alpha c then scan_identifier l else if is_digit c then scan_number l else scan_symbol c l

-- slp_lexer_scan_token
unfoldable pub scan_token : Lexer → Scanned
scan_token l =
    let skipped = skip_whitespace l in
    let l' = record skipped { start = skipped.current; start_line = skipped.line } in
    if is_at_end l' then emit TokenType.eof l' else scan_char (peek l') (advance l')
