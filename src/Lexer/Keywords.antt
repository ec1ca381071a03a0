-- ===== src/Lexer/Keywords.antt =====
-- The kind of an identifier: check_keyword and identifier_type of src/slp_lexer.c.
use slp.Lexer.State.{Lexer, codes, is_digit, is_alpha, lexeme_length, skip_while}
use slp.Lexer.Token.{
  TokenType, assert, addall, break, callcc, catch, copy, continue, done, else', false', for,
  foreach, from, halt, if', import, inline, retainall, return, removeall, sub, throw, try, true',
  while, lower_x, yield, id, builtin_binary_predicate_bridge,
}
use slp.Prelude.{
  ℕ, ◌+◌, Bool, true, false, not, ◌&&◌, ◌||◌, List, [], ◌∷◌, ltb, ◌==◌, if◌then◌else◌, Bytes,
  length, get_or,
}

-- `lexer->start[i]`
abbrev at : Lexer → ℕ → ℕ
at l i = get_or l.start i 0

-- The loop that compares `rest` with the text from index i on.
unfoldable pub same_from : Bytes → ℕ → Bytes → Bool
same_from text i [] = true
same_from text i (c ∷ rest) = get_or text i 0 == c && same_from text (i + 1) rest

-- The bytes compared are those of `rest` and the 0 behind them, `length` in number.
unfoldable pub check_keyword : Lexer → ℕ → ℕ → Bytes → TokenType → TokenType
unfolding lexeme_length same_from
check_keyword l start length rest type =
    if lexeme_length l == start + length
    then (if same_from l.start start rest then type else id)
    else id

preds : List Bytes
preds =
    codes "cmp"
    ∷ codes "eq"
    ∷ codes "ge"
    ∷ codes "gt"
    ∷ codes "hasmatch"
    ∷ codes "is"
    ∷ codes "isa"
    ∷ codes "isin"
    ∷ codes "ismatch"
    ∷ codes "iswm"
    ∷ codes "in"
    ∷ codes "le"
    ∷ codes "lt"
    ∷ codes "ne"
    ∷ []

-- The loop over the built-in predicates.
is_pred : Lexer → List Bytes → Bool
unfolding same_from lexeme_length
is_pred l [] = false
is_pred l (p ∷ ps) = (lexeme_length l == length p && same_from l.start 0 p) || is_pred l ps

-- The cases of the switch on `start[0]`, one function for each that goes on.
keyword_a : Lexer → TokenType
unfolding check_keyword lexeme_length
keyword_a l =
    if ltb 1 (lexeme_length l)
    then if at l 1 == b's'
      then check_keyword l 2 4 (codes "sert") assert
      else if at l 1 == b'd'
      then check_keyword l 2 4 (codes "dAll") addall
      else id
    else id

keyword_ca : Lexer → TokenType
unfolding check_keyword lexeme_length
keyword_ca l =
    if ltb 2 (lexeme_length l)
    then if at l 2 == b'l'
      then check_keyword l 3 3 (codes "lcc") callcc
      else if at l 2 == b't'
      then check_keyword l 3 2 (codes "ch") catch
      else id
    else id

keyword_co : Lexer → TokenType
unfolding check_keyword lexeme_length
keyword_co l =
    if ltb 2 (lexeme_length l) && at l 2 == b'p' && lexeme_length l == 4 && at l 3 == b'y'
    then copy
    else check_keyword l 2 6 (codes "ntinue") continue

keyword_c : Lexer → TokenType
unfolding keyword_ca keyword_co lexeme_length
keyword_c l =
    if ltb 1 (lexeme_length l)
    then (if at l 1 == b'a' then keyword_ca l else if at l 1 == b'o' then keyword_co l else id)
    else id

keyword_e : Lexer → TokenType
unfolding lexeme_length
keyword_e l =
    if ltb 1 (lexeme_length l)
      && at l 1 == b'l'
      && lexeme_length l == 4
      && at l 2 == b's'
      && at l 3 == b'e'
    then else'
    else id

keyword_fo : Lexer → TokenType
unfolding check_keyword lexeme_length
keyword_fo l =
    if ltb 2 (lexeme_length l) && at l 2 == b'r'
    then (if lexeme_length l == 3 then for else check_keyword l 3 4 (codes "each") foreach)
    else id

keyword_f : Lexer → TokenType
unfolding keyword_fo check_keyword lexeme_length
keyword_f l =
    if ltb 1 (lexeme_length l)
    then if at l 1 == b'a'
      then check_keyword l 2 3 (codes "lse") false'
      else if at l 1 == b'o'
      then keyword_fo l
      else if at l 1 == b'r'
      then check_keyword l 2 2 (codes "om") from
      else id
    else id

keyword_h : Lexer → TokenType
unfolding lexeme_length
keyword_h l =
    if ltb 1 (lexeme_length l)
      && at l 1 == b'a'
      && lexeme_length l == 4
      && at l 2 == b'l'
      && at l 3 == b't'
    then halt
    else id

-- The literal "ine" has three bytes and its 0, and four are compared.
keyword_i : Lexer → TokenType
unfolding check_keyword lexeme_length
keyword_i l =
    if ltb 1 (lexeme_length l)
    then if at l 1 == b'f'
      then check_keyword l 2 0 [] if'
      else if at l 1 == b'm'
      then check_keyword l 2 4 (codes "port") import
      else if at l 1 == b'l'
      then check_keyword l 2 4 (b'i' ∷ b'n' ∷ b'e' ∷ 0 ∷ []) inline
      else id
    else id

keyword_re : Lexer → TokenType
unfolding check_keyword lexeme_length
keyword_re l =
    if ltb 2 (lexeme_length l)
    then if at l 2 == b't'
      then if lexeme_length l == 9
        then check_keyword l 3 6 (codes "ainAll") retainall
        else check_keyword l 3 3 (codes "urn") return
      else if at l 2 == b'm'
      then check_keyword l 3 6 (codes "oveAll") removeall
      else id
    else id

keyword_r : Lexer → TokenType
unfolding keyword_re lexeme_length
keyword_r l = if ltb 1 (lexeme_length l) && at l 1 == b'e' then keyword_re l else id

keyword_tr : Lexer → TokenType
unfolding check_keyword lexeme_length
keyword_tr l =
    if lexeme_length l == 3
    then (if at l 2 == b'y' then try else id)
    else check_keyword l 2 2 (codes "ue") true'

keyword_t : Lexer → TokenType
unfolding keyword_tr check_keyword lexeme_length
keyword_t l =
    if ltb 1 (lexeme_length l)
    then if at l 1 == b'h'
      then check_keyword l 2 3 (codes "row") throw
      else if at l 1 == b'r'
      then keyword_tr l
      else id
    else id

abbrev is_blank : ℕ → Bool
is_blank c = c == b' ' || c == b'\t' || c == b'\r' || c == b'\n'

-- What may follow the repetition operator, past blanks; the source's first test, for '=', is implied.
starts_operand : ℕ → Bool
unfolding is_digit is_alpha
starts_operand next =
    not (next == b'=')
    && (is_digit next
        || next == b'"'
        || next == b'\''
        || next == b'`'
        || next == b'_'
        || is_alpha next
        || next == b'$'
        || next == b'@'
        || next == b'%'
        || next == b'('
        || next == b'['
        || next == b'{')

keyword_x : Lexer → TokenType
unfolding starts_operand skip_while lexeme_length
keyword_x l =
    if lexeme_length l == 1 && starts_operand (get_or (skip_while is_blank l.current) 0 0)
    then lower_x
    else id

switch_first : ℕ → Lexer → TokenType
unfolding keyword_a keyword_c keyword_e keyword_f keyword_h keyword_i keyword_r keyword_t keyword_x
    check_keyword
switch_first c l =
    if c == b'a'
    then keyword_a l
    else if c == b'b'
    then check_keyword l 1 4 (codes "reak") break
    else if c == b'c'
    then keyword_c l
    else if c == b'd'
    then check_keyword l 1 3 (codes "one") done
    else if c == b'e'
    then keyword_e l
    else if c == b'f'
    then keyword_f l
    else if c == b'h'
    then keyword_h l
    else if c == b'i'
    then keyword_i l
    else if c == b'r'
    then keyword_r l
    else if c == b's'
    then check_keyword l 1 2 (codes "ub") sub
    else if c == b't'
    then keyword_t l
    else if c == b'w'
    then check_keyword l 1 4 (codes "hile") while
    else if c == b'x'
    then keyword_x l
    else if c == b'y'
    then check_keyword l 1 4 (codes "ield") yield
    else id

unfoldable pub identifier_type : Lexer → TokenType
unfolding preds is_pred switch_first
identifier_type l =
    if is_pred l preds then builtin_binary_predicate_bridge else switch_first (at l 0) l
