-- ===== src/Lexer/Stream.antt =====
-- The calls of slp_lexer_scan_token of src/slp_lexer.c in a row, as the parser makes them.
use slp.Lexer.Scan.{scan_token, emit}
use slp.Lexer.State.{Lexer, peek, is_at_end, make_token, skip_rounds, skip_whitespace}
use slp.Lexer.Tiles.{scan_token-Tile}
use slp.Lexer.Token.{TokenType}
use slp.Prelude.{
  ℕ, zero, suc, ◌≤◌, ◌≡◌, refl, inl, inr, ap, ◌++◌, length, arith, length-append, Bytes, get_or, [],
  ◌∷◌,
}

-- The lexer after `n` calls.
unfoldable pub scan_many : ℕ → Lexer → Lexer
scan_many zero l = l
scan_many (suc n) l = scan_many n (scan_token l).1

skip_rounds-at_end : (f : ℕ) (l : Lexer) → peek l ≡ 0 → skip_rounds f l ≡ l
unfolding skip_rounds
skip_rounds-at_end zero l h = refl
skip_rounds-at_end (suc f) l h = rw h refl

-- At the terminating 0 the scanner returns the end of the file and stays.
at_end-eof :
    (l : Lexer) → peek l ≡ 0 → ((scan_token l).0.type ≡ TokenType.eof) × (peek (scan_token l).1 ≡ 0)
unfolding scan_token skip_whitespace is_at_end emit make_token peek
at_end-eof l h = let still = skip_rounds-at_end (length l.current) l h in rw (still, h) (refl, h)

many-at_end : (n : ℕ) (l : Lexer) → peek l ≡ 0 → (scan_token (scan_many n l)).0.type ≡ TokenType.eof
unfolding scan_many
many-at_end zero l h = (at_end-eof l h).0
many-at_end (suc n) l h = many-at_end n (scan_token l).1 (at_end-eof l h).1

nothing_left : (l : Lexer) → length l.current ≤ 0 → peek l ≡ 0
unfolding peek
nothing_left l h = ended l.current h
  where
    ended : (t : Bytes) → length t ≤ 0 → get_or t 0 0 ≡ 0
    ended [] h = refl
    ended (c ∷ cs) h = absurd (omega (arith, h))

-- The scanner comes to the end of any text: after as many calls as the text has bytes, or more, the
-- next call returns the end of the file.
pub scan_many-eof :
    (n : ℕ) (l : Lexer) → length l.current ≤ n → (scan_token (scan_many n l)).0.type ≡ TokenType.eof
unfolding scan_many
scan_many-eof zero l h = (at_end-eof l (nothing_left l h)).0
scan_many-eof (suc n) l h =
    let t = scan_token-Tile l in
    let l' = (scan_token l).1 in
    elim t.progress [
      | inl p ↦ scan_many-eof n l' (
          omega (
            arith,
            h,
            p,
            ap length t.splits,
            length-append t.blanks (t.text ++ l'.current),
            length-append t.text l'.current,
          ))
      | inr (e, z, k) ↦ many-at_end n l' z
    ]
