-- ===== src/Parser/Advance.antt =====
-- The loop of advance takes the next token: lines 114 to 122 of src/slp_parser.c.
use slp.Lexer.Scan.{scan_token}
use slp.Lexer.State.{Lexer}
use slp.Lexer.Tiles.{Tile, scan_token-Tile}
use slp.Lexer.Token.{TokenType, Token}
use slp.Parser.Keeps.{if-both}
use slp.Parser.Kinds.{same_type, type_number}
use slp.Parser.State.{
  Parser, Message, pure, gets, rounds, error_at, error_at_current, scan, next_token, shift, advance,
  ◌>>=◌,
}
use slp.Prelude.{
  arith, ℕ, zero, suc, ◌+◌, ◌≤◌, ◌<◌, ◌≡◌, ◌⊎◌, inl, inr, refl, ap, ◌∙◌, true, false, ◌++◌, length,
  length-append, Bool-cases, some,
}

-- A token that the parser may stand at: no error, and a byte at least, unless it is the end.
pub record IsToken (token : Token) : Type 0 where
  pub no_error : same_type token.type TokenType.error ≡ false
  pub sized : (1 ≤ token.length) ⊎ ((token.type ≡ TokenType.eof) × (token.length ≡ 0))

-- From p to q a token was read, which and what is behind it are no longer than the text before.
pub record Reads (p q : Parser) : Type 0 where
  pub fuel : q.exhausted ≡ p.exhausted
  pub previous : q.previous ≡ p.previous
  pub depth : q.depth ≡ p.depth
  pub token : IsToken q.current
  pub shrinks : q.current.length + length q.lexer.current ≤ length p.lexer.current

is_error :
    (token : Token) → token.type ≡ TokenType.error → same_type token.type TokenType.error ≡ true
unfolding same_type type_number
is_error token e = rw e refl

is_end : (token : Token) → token.type ≡ TokenType.eof → same_type token.type TokenType.error ≡ false
unfolding same_type type_number
is_end token e = rw e refl

module _ (l : Lexer) (token : Token) (l' : Lexer) (t : Tile l token l') where
  abbrev taken : length l.current ≡ length t.blanks + (length t.text + length l'.current)
  taken = omega (
    arith,
    ap length t.splits,
    length-append t.blanks (t.text ++ l'.current),
    length-append t.text l'.current,
  )

  exact_length : same_type token.type TokenType.error ≡ false → token.length ≡ length t.text
  exact_length e = elim t.exact [ inl (s, n) ↦ n | inr k ↦ ground (arith, is_error token k, e) ]

  -- The text behind a token, with the token.
  Tile-shrinks :
      same_type token.type TokenType.error ≡ false
      → token.length + length l'.current ≤ length l.current
  Tile-shrinks e = omega (arith, taken, exact_length e)

  Tile-IsToken : same_type token.type TokenType.error ≡ false → IsToken token
  Tile-IsToken e = record {
    no_error = e;
    sized = elim t.progress [
      | inl p ↦ inl (omega (arith, p, exact_length e))
      | inr (ended, z, k) ↦ inr (ended, k)
    ];
  }

  -- Behind an error the text is shorter.
  Tile-error : same_type token.type TokenType.error ≡ true → length l'.current < length l.current
  Tile-error e = elim t.progress [
    | inl p ↦ omega (arith, p, taken)
    | inr (ended, z, k) ↦ ground (arith, is_end token ended, e)
  ]

-- An error changes the report alone.
pub record SameTokens (p q : Parser) : Type 0 where
  pub lexer : q.lexer ≡ p.lexer
  pub current : q.current ≡ p.current
  pub previous : q.previous ≡ p.previous
  pub depth : q.depth ≡ p.depth
  pub exhausted : q.exhausted ≡ p.exhausted

pub error_at-SameTokens :
    (token : Token) (message : Message) (p : Parser) → SameTokens p (error_at token message p).1
unfolding error_at
error_at-SameTokens token message p =
    let same : SameTokens p p = record {
      lexer = refl;
      current = refl;
      previous = refl;
      depth = refl;
      exhausted = refl;
    } in
    if-both (λ (r : Unit {0} × Parser). SameTokens p r.1) p.panic_mode (tt, p)
      (
        tt,
        record p {
          panic_mode = true;
          had_error = true;
          error_line = token.line;
          error_message = some message;
        },
      )
      same record { lexer = refl; current = refl; previous = refl; depth = refl; exhausted = refl }

-- Behind an error, the loop goes on from a state with the same tokens.
Reads-behind :
    (p p1 q r : Parser)
    → SameTokens p1 q
    → Reads q r
    → (p1.exhausted ≡ p.exhausted)
    → (p1.previous ≡ p.previous)
    → (p1.depth ≡ p.depth)
    → length p1.lexer.current ≤ length p.lexer.current
    → Reads p r
Reads-behind p p1 q r s h e v d k = record {
  fuel = h.fuel ∙ (s.exhausted ∙ e);
  previous = h.previous ∙ (s.previous ∙ v);
  depth = h.depth ∙ (s.depth ∙ d);
  token = h.token;
  shrinks = omega (arith, h.shrinks, ap (λ (l : Lexer). length l.current) s.lexer, k);
}

pub next_rounds-Reads :
    (n : ℕ) (u : Unit {0}) (p : Parser)
    → length p.lexer.current < n
    → Reads p (rounds next_token n u p).1
unfolding rounds next_token scan ◌>>=◌ gets pure error_at_current
next_rounds-Reads zero u p h = absurd (omega (arith, h))
next_rounds-Reads (suc n) u p h =
    let t = scan_token-Tile p.lexer in
    elim (Bool-cases (same_type (scan_token p.lexer).0.type TokenType.error)) [
      | inl e ↦
          let p1 = (scan p).1 in
          let message = Message.literal p1.current.start in
          let same = error_at-SameTokens p1.current message p1 in
          let shorter = Tile-error _ _ _ t e in
          let q = (error_at p1.current message p1).1 in
          let at_q : length q.lexer.current < n =
            omega (arith, h, shorter, ap (λ (l : Lexer). length l.current) same.lexer) in
          rw e (
            Reads-behind p p1 q _ same (next_rounds-Reads n tt q at_q) refl refl refl
              (omega (arith, shorter)))
      | inr e ↦ rw e record {
        fuel = refl;
        previous = refl;
        depth = refl;
        token = Tile-IsToken _ _ _ t e;
        shrinks = Tile-shrinks _ _ _ t e;
      }
    ]

-- The loop of advance ends, whatever the text: the fuel that it is given, the length of the text, is
-- not spent. It takes the current token; the next one is no error token, has a byte at least unless it
-- is the end of the file, and with what is behind it is no longer than the text was.
pub advance_lem :
    (p : Parser)
    → let q = (advance p).1 in
      (q.exhausted ≡ p.exhausted)
      × (q.previous ≡ p.current)
      × IsToken q.current
      × (q.current.length + length q.lexer.current ≤ length p.lexer.current)
unfolding advance shift ◌>>=◌ gets
advance_lem p =
    let r = next_rounds-Reads (suc (length p.lexer.current)) tt (shift p).1 (omega arith) in
    (r.fuel, r.previous, r.token, r.shrinks)
