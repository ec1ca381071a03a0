-- ===== src/Parser/Ends.antt =====
-- Where a parse ends: slp_parser_parse of src/slp_parser.c.
use slp.Lexer.Token.{TokenType, Token}
use slp.Parser.Ast.{Node, Nodes, nil}
use slp.Parser.Calls.{Calls, add_statement}
use slp.Parser.Declarations.{calls, parse, parse_script, script_round}
use slp.Parser.Keeps.{if-both, Keeps, keeps_rules}
use slp.Parser.Kinds.{same_type}
use slp.Parser.Literals.{Numerals}
use slp.Parser.State.{
  Parser, Do, Message, pure, gets, exhaust, rounds, loop, error_at, error_at_current, scan,
  next_token, shift, advance, match, check, line, parser_init, ◌>>=◌,
}
use slp.Parser.Total.{parse_total}
use slp.Prelude.{
  ◌*◌, ◌+◌, ◌≤◌, length, arith, ℕ, zero, suc, ◌≡◌, ◌⊎◌, inl, inr, refl, Bool, true, false, ◌||◌,
  Bytes, some, if◌then◌else◌,
}

-- The last token that was taken.
abbrev Previous : Token → Parser → Type 0
Previous t p = p.previous ≡ t

module _ (t : Token) where
  error_at-Previous :
      (token : Token) (message : Message) → Keeps (Previous t) (error_at token message)
  unfolding error_at
  error_at-Previous token message = record {
    at = λ p h.
        if-both (λ (r : Unit {0} × Parser). Previous t r.1) p.panic_mode (tt, p)
          (
            tt,
            record p {
              panic_mode = true;
              had_error = true;
              error_line = token.line;
              error_message = some message;
            },
          )
          h h;
  }

  scan-Previous : Keeps (Previous t) scan
  unfolding scan
  scan-Previous = record { at = λ p h. h }

  exhaust-Previous : Keeps (Previous t) exhaust
  unfolding exhaust
  exhaust-Previous = record { at = λ p h. h }

  next_token-Previous : (u : Unit {0}) → Keeps (Previous t) (next_token u)
  unfolding next_token error_at_current
  next_token-Previous u = search (keeps_rules, scan-Previous, error_at-Previous) depth 14

  next_rounds-Previous : (n : ℕ) (u : Unit {0}) → Keeps (Previous t) (rounds next_token n u)
  unfolding rounds
  next_rounds-Previous zero u = search (keeps_rules, exhaust-Previous)
  next_rounds-Previous (suc n) u =
      let rest = next_rounds-Previous n in search (keeps_rules, next_token-Previous, rest)

advance-previous : (p : Parser) → (advance p).1.previous ≡ p.current
unfolding advance shift ◌>>=◌ gets
advance-previous p = (next_rounds-Previous p.current (suc _) tt).at (shift p).1 refl

abbrev pub AtEnd : Parser → Type 0
AtEnd p = same_type p.previous.type TokenType.eof ≡ true

matched-previous :
    (b : Bool) (type : TokenType) (p : Parser)
    → same_type p.current.type type ≡ b
    → let r = (if b then (advance >>= λ u. pure true) else pure false) p in
      r.0 ≡ true → same_type r.1.previous.type type ≡ true
unfolding pure ◌>>=◌
matched-previous true type p e h = rw (advance-previous p) e
matched-previous false type p e h = ground arith

-- Behind a match, the token of the type was taken.
match-previous :
    (type : TokenType) (p : Parser)
    → (match type p).0 ≡ true
    → same_type (match type p).1.previous.type type ≡ true
unfolding match check ◌>>=◌ gets pure
match-previous type p = matched-previous _ type p refl

-- The script was read to its end, or an error was reported, or the fuel is spent.
abbrev Done : Parser → Type 0
Done p = (p.had_error ≡ true) ⊎ (p.exhausted ≡ true) ⊎ AtEnd p

module _ (c : Calls) where
  stops :
      (ended failed : Bool) (ns : Nodes) (p : Parser)
      → (ended ≡ true → AtEnd p)
      → (p.had_error ≡ failed)
      → let stop : Do (Nodes × Bool) = pure (ns, false) in
        let more : Do (Nodes × Bool) = c.declaration >>= λ s. pure (add_statement ns s, true) in
        let r = (if ended || failed then stop else more) p in r.0.1 ≡ false → Done r.1
  unfolding pure ◌>>=◌
  stops true failed ns p h f e = inr (inr (h refl))
  stops false true ns p h f e = inl f
  stops false false ns p h f e = ground arith

  script_round-stops :
      (ns : Nodes) (p : Parser) → (script_round c ns p).0.1 ≡ false → Done (script_round c ns p).1
  unfolding script_round ◌>>=◌ gets
  script_round-stops ns p =
      stops (match TokenType.eof p).0 _ ns (match TokenType.eof p).1
        (match-previous TokenType.eof p) refl

  again-Done :
      (again : Bool) (rest : Do Nodes) (ns : Nodes) (p : Parser)
      → (again ≡ false → Done p)
      → Done (rest p).1
      → Done ((if again then rest else pure ns) p).1
  unfolding pure
  again-Done true rest ns p stop more = more
  again-Done false rest ns p stop more = stop refl

  script_rounds-Done : (n : ℕ) (ns : Nodes) (p : Parser) → Done (rounds (script_round c) n ns p).1
  unfolding rounds ◌>>=◌ exhaust pure
  script_rounds-Done zero ns p = inr (inl refl)
  script_rounds-Done (suc n) ns p =
      let r = script_round c ns p in
      again-Done r.0.1 (rounds (script_round c) n r.0.0) r.0.0 r.1 (script_round-stops ns p)
        (script_rounds-Done n r.0.0 r.1)

  parse_script-Done : (p : Parser) → Done (parse_script c p).1
  unfolding parse_script loop ◌>>=◌ gets pure line
  parse_script-Done p = script_rounds-Done _ nil p

  ended-Done :
      (ended : Bool) (p : Parser)
      → (ended ≡ true → AtEnd p)
      → Done ((if ended then pure Node.absent else parse_script c) p).1
  unfolding pure
  ended-Done true p h = inr (inr (h refl))
  ended-Done false p h = parse_script-Done p

  parse-Done : (p : Parser) → Done (parse c p).1
  unfolding parse ◌>>=◌
  parse-Done p =
      let q = (advance p).1 in
      ended-Done (match TokenType.eof q).0 (match TokenType.eof q).1
        (match-previous TokenType.eof q)

apart : {A : Type 0} (b : Bool) → b ≡ true → b ≡ false → A
apart true h e = absurd (ground (arith, e))
apart false h e = absurd (ground (arith, h))

-- A parse with enough fuel that reports no error has read the text to its end: the last token that was
-- taken is the one at the end of the file.
pub parse-eof :
    (n : Numerals) (fuel : ℕ) (source : Bytes)
    → 3 * (length source + 2) ≤ fuel
    → (parse (calls n fuel) (parser_init source)).1.had_error ≡ false
    → AtEnd (parse (calls n fuel) (parser_init source)).1
parse-eof n fuel source enough h =
    let e = parse_total n fuel source enough in
    elim (parse-Done (calls n fuel) (parser_init source)) [
      | inl had ↦ apart _ had h
      | inr (inl spent) ↦ apart _ spent e
      | inr (inr ended) ↦ ended
    ]
