-- ===== src/Lexer/Tiles.antt =====
-- Tokens tile the source: slp_lexer_scan_token of src/slp_lexer.c.
use mathlib.Core.List.{tail}
use slp.Lexer.Blanks.{skip_whitespace-Moves}
use slp.Lexer.Skipped.{IsBlanks, skip_whitespace-Skips}
use slp.Lexer.Moves.{
  newlines, newlines-append, Moves, Moves-refl, past, ahead, Scans, Scans-if, Scans-emit,
  Scans-fail_with, scan_identifier-Scans, scan_suffix-Scans, scan_fraction-Moves,
  scan_exponent-Moves, scan_sigil-Scans, scan_backslash-Scans, scan_dot-Scans, scan_minus-Scans,
  scan_plus-Scans, scan_slash-Scans, scan_star-Scans, scan_caret-Scans, scan_pipe-Scans,
  scan_ampersand-Scans, scan_bang-Scans, scan_equal-Scans, scan_less-Scans, scan_greater-Scans,
  scan_dollar-Scans, scan_string-Scans,
}
use slp.Lexer.Scan.{
  Scanned, emit, scan_number, scan_decimal, scan_symbol, scan_char, scan_token, is_exponent,
  has_dot, lexeme, is_hex, scan_fraction, unexpected,
}
use slp.Lexer.State.{
  Lexer, advance, advance_while, is_digit, is_alpha, make_token, lexeme_length, is_at_end,
  skip_whitespace, peek,
}
use slp.Lexer.Token.{Token, TokenType}
use slp.Prelude.{
  ℕ, ◌+◌, ◌-◌, ◌≤◌, ◌≡◌, ◌⊎◌, inl, inr, refl, sym, subst, ap, ◌∙◌, false, [], ◌∷◌, ◌++◌, ◌==◌,
  ==_iff, Bytes, length, get_or, arith, length-append, Bool-cases,
}

module _ {l : Lexer} (a : Lexer) (m : Moves l a) where
  scan_decimal-Scans : Scans l (scan_decimal a)
  unfolding scan_decimal
  scan_decimal-Scans =
      let l' = scan_fraction (advance_while is_digit a) in
      let n = scan_fraction-Moves (advance_while is_digit a) (past is_digit m) in
      Scans-if (is_exponent l') (Scans-emit _ _ (scan_exponent-Moves l' n))
        (Scans-if (has_dot (lexeme l')) (Scans-emit _ _ n) (scan_suffix-Scans l' n))

  scan_number-Scans : Scans l (scan_number a)
  unfolding scan_number
  scan_number-Scans =
      Scans-if _ (scan_suffix-Scans (advance_while is_hex (advance a)) (past is_hex (ahead m)))
        scan_decimal-Scans

  -- Every branch of the switch.
  scan_symbol-Scans : (c : ℕ) → Scans l (scan_symbol c a)
  unfolding scan_symbol
  scan_symbol-Scans c =
      let one : (t : TokenType) → Scans l (emit t a) = λ t. Scans-emit t a m in
      Scans-if (c == b'(') (one TokenType.left_paren) (
        Scans-if (c == b')') (one TokenType.right_paren) (
          Scans-if (c == b'{') (one TokenType.left_brace) (
            Scans-if (c == b'}') (one TokenType.right_brace) (
              Scans-if (c == b'[') (one TokenType.left_bracket) (
                Scans-if (c == b']') (one TokenType.right_bracket) (
                  Scans-if (c == b';') (one TokenType.semicolon) (
                    Scans-if (c == b',') (one TokenType.comma) (
                      Scans-if (c == b':') (one TokenType.colon) (
                        Scans-if (c == b'@') (scan_sigil-Scans a m TokenType.at) (
                          Scans-if (c == b'\\') (scan_backslash-Scans a m) (
                            Scans-if (c == b'%') (scan_sigil-Scans a m TokenType.percent) (
                              Scans-if (c == b'.') (scan_dot-Scans a m) (
                                Scans-if (c == b'-') (scan_minus-Scans a m) (
                                  Scans-if (c == b'+') (scan_plus-Scans a m) (
                                    Scans-if (c == b'/') (scan_slash-Scans a m) (
                                      Scans-if (c == b'*') (scan_star-Scans a m) (
                                        Scans-if (c == b'^') (scan_caret-Scans a m) (
                                          Scans-if (c == b'|') (scan_pipe-Scans a m) (
                                            Scans-if (c == b'&') (scan_ampersand-Scans a m) (
                                              Scans-if (c == b'!') (scan_bang-Scans a m) (
                                                Scans-if (c == b'=') (scan_equal-Scans a m) (
                                                  Scans-if (c == b'<') (scan_less-Scans a m) (
                                                    Scans-if (c == b'>') (scan_greater-Scans a m) (
                                                      Scans-if (c == b'"')
                                                        (scan_string-Scans a m b'"'
                                                          TokenType.string)
                                                        (Scans-if (c == b'\'')
                                                          (scan_string-Scans a m b'\''
                                                            TokenType.literal)
                                                          (Scans-if (c == b'`')
                                                            (scan_string-Scans a m b'`'
                                                            TokenType.backtick_expr)
                                                            (Scans-if (c == b'$')
                                                            (scan_dollar-Scans a m)
                                                            (Scans-fail_with unexpected a
                                                            m))))))))))))))))))))))))))))

  scan_char-Scans : (c : ℕ) → Scans l (scan_char c a)
  unfolding scan_char
  scan_char-Scans c =
      Scans-if (is_alpha c) (scan_identifier-Scans a m)
        (Scans-if (is_digit c) scan_number-Scans (scan_symbol-Scans c))

-- What one call of the scanner does to the text: blanks and the token's text are taken from it in
-- this order, and the token stands where its text does.
pub record Tile (l : Lexer) (token : Token) (l' : Lexer) : Type 0 where
  pub blanks : Bytes
  pub text : Bytes
  pub splits : l.current ≡ blanks ++ (text ++ l'.current)
  pub blank : IsBlanks blanks (text ++ l'.current)
  pub exact :
      ((token.start ≡ text ++ l'.current) × (token.length ≡ length text))
      ⊎ (token.type ≡ TokenType.error)
  pub progress :
      (1 ≤ length text) ⊎ ((token.type ≡ TokenType.eof) × (peek l' ≡ 0) × (token.length ≡ 0))
  pub line_from : l.line ≤ token.line
  pub line_to : token.line ≤ l.line + newlines (blanks ++ text)

-- The lexer at the start of a token.
abbrev token_start : Lexer → Lexer
token_start l = let s = skip_whitespace l in record s { start = s.current; start_line = s.line }

length-taken : (t xs ys : Bytes) → t ≡ xs ++ ys → length t - length ys ≡ length xs
length-taken t xs ys e = omega (arith, ap length e, length-append xs ys)

-- The blanks have the newlines that were counted.
blanks-newlines :
    (l : Lexer) → (skip_whitespace l).line ≤ l.line + newlines (skip_whitespace-Skips l).passed
blanks-newlines l =
    let w = skip_whitespace-Moves l in
    let k = skip_whitespace-Skips l in
    let rest = (skip_whitespace l).current in
    omega (
      arith,
      w.line_to,
      ap newlines w.splits,
      ap newlines k.splits,
      newlines-append w.passed rest,
      newlines-append k.passed rest,
    )

char-Tile :
    (l : Lexer)
    → (c : ℕ) (cs : Bytes) → (skip_whitespace l).current ≡ c ∷ cs
    → (r : Scanned) → Scans (advance (token_start l)) r
    → Tile l r.0 r.1
unfolding advance make_token lexeme_length
char-Tile l c cs e r s =
    let w = skip_whitespace-Moves l in
    let k = skip_whitespace-Skips l in
    let taken : (skip_whitespace l).current ≡ c ∷ (s.moves.passed ++ r.1.current) =
      e ∙ ap (◌∷◌ c) (sym (ap tail e) ∙ s.moves.splits) in
    record {
      blanks = k.passed;
      text = c ∷ s.moves.passed;
      splits = k.splits ∙ ap (λ t. k.passed ++ t) taken;
      blank = subst (IsBlanks k.passed) taken k.blanks;
      exact = elim s.made [
        | inl made ↦ inl (
          ap Token.start made ∙ s.moves.start ∙ taken,
          ap Token.length made
              ∙ length-taken _ (c ∷ s.moves.passed) r.1.current (s.moves.start ∙ taken),
        )
        | inr error ↦ inr error
      ];
      progress = inl (omega arith);
      line_from = omega (arith, w.line_from, s.moves.line_from, s.line);
      line_to = omega (
        arith,
        blanks-newlines l,
        s.moves.line_to,
        s.line,
        newlines-append k.passed (c ∷ s.moves.passed),
        newlines-append (c ∷ []) s.moves.passed,
      );
    }

eof-Tile :
    (l : Lexer)
    → (peek (token_start l) ≡ 0)
    → Tile l (make_token (token_start l) TokenType.eof) (token_start l)
unfolding make_token lexeme_length
eof-Tile l h =
    let w = skip_whitespace-Moves l in
    let k = skip_whitespace-Skips l in
    record {
      blanks = k.passed;
      text = [];
      splits = k.splits;
      blank = k.blanks;
      exact = inl (refl, omega arith);
      progress = inr (refl, h, omega arith);
      line_from = w.line_from;
      line_to = omega (arith, blanks-newlines l, newlines-append k.passed []);
    }

not_end-cons : (t : Bytes) → (get_or t 0 0 == 0) ≡ false → (c : ℕ) × (cs : Bytes) × (t ≡ c ∷ cs)
not_end-cons [] h = absurd (ground arith)
not_end-cons (c ∷ cs) h = (c, cs, refl)

-- Each call takes, from where the lexer stands, the blanks that are there, which are white characters
-- and comments to the end of their line, and then exactly the text that the token it returns points at
-- and measures (an error token carries a message in place of it); that text begins with no blank. The
-- text is at least one byte, unless the token is the end of the file, which stands at the
-- terminating 0 and is empty. The token's line is at least the lexer's and exceeds it by at most
-- the newlines among the bytes taken.
pub scan_token-Tile : (l : Lexer) → Tile l (scan_token l).0 (scan_token l).1
unfolding scan_token is_at_end emit peek
scan_token-Tile l = elim (Bool-cases (is_at_end (token_start l))) [
  | inl e ↦ rw e (eof-Tile l ((==_iff (peek (token_start l)) 0).0 e))
  | inr e ↦
      let (c, cs, h) = not_end-cons (skip_whitespace l).current e in
      rw e (
        char-Tile l c cs h _
          (scan_char-Scans (advance (token_start l)) (Moves-refl _) (peek (token_start l))))
]
