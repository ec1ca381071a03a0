-- ===== src/Parser/Total.antt =====
-- The parser ends: the fuel of slp_parser_parse of src/slp_parser.c by the length of the text.
use slp.Lexer.State.{lexer_init}
use slp.Lexer.Token.{TokenType}
use slp.Parser.Ast.{Node, Nodes}
use slp.Parser.Braces.{block-Step}
use slp.Parser.Branches.{Step, statement-Step, declaration-Step}
use slp.Parser.Calls.{Calls, expression, add_statement}
use slp.Parser.Closed.{Moves, moves_rules}
use slp.Parser.Declarations.{calls, parse, parse_script, script_round}
use slp.Parser.Keeps.{Keeps}
use slp.Parser.Literals.{Numerals}
use slp.Parser.Ready.{Ready}
use slp.Parser.State.{
  Parser, Do, pure, gets, loop, none_yet, parser_init, advance, match, check, ◌>>=◌,
}
use slp.Parser.Kinds.{same_type}
use slp.Parser.Turns.{Turns, again, loop-Tight}
use slp.Parser.Steps.{parse_precedence-Tight, parse_precedence-Drops}
use slp.Parser.Tight.{Tight, Tight-Moves, advance-first}
use slp.Prelude.{
  arith, ◌||◌, if◌then◌else◌, ℕ, zero, suc, ◌+◌, ◌-◌, ◌*◌, ◌≤◌, ◌≡◌, refl, Bool, true, false, Bytes,
  length,
}

-- The calls for which fuel is enough: a declaration may call a statement, and that an expression or a
-- block, before a token is taken.
record Level (f : ℕ) (c : Calls) : Type 0 where
  precedence : (n s k : ℕ) → s ≤ n → 3 * n + 1 ≤ f → Step n s (c.parse_precedence (suc k))
  braces : (n s : ℕ) → s ≤ n → 3 * n + 1 ≤ f → Step n s c.block
  inside : (n s : ℕ) → s ≤ n → 3 * n + 2 ≤ f → Step n s c.statement
  outside : (n s : ℕ) → s ≤ n → 3 * n + 3 ≤ f → Step n s c.declaration

Level-Ready : (f n : ℕ) (c : Calls) → Level f c → 3 * n + 3 ≤ f → Ready n c
Level-Ready f n c l e = record {
  called = λ s r. record {
    parse_precedence = λ k. (l.precedence n s k r (omega (arith, e))).keeps;
    statement = (l.inside n s r (omega (arith, e))).keeps;
    declaration = (l.outside n s r e).keeps;
    block = (l.braces n s r (omega (arith, e))).keeps;
  };
  drops = λ s r. (l.outside n s r e).drops;
}

module _ (num : Numerals) where
  calls-Level : (f : ℕ) → Level f (calls num f)
  unfolding calls expression
  calls-Level zero = record {
    precedence = λ n s k r e. absurd (omega (arith, e));
    braces = λ n s r e. absurd (omega (arith, e));
    inside = λ n s r e. absurd (omega (arith, e));
    outside = λ n s r e. absurd (omega (arith, e));
  }
  calls-Level (suc f) =
      let l = calls-Level f in
      let c = calls num f in
      record {
        precedence = λ n s k r e. record {
          keeps =
              parse_precedence-Tight num c n s k r
                (λ m g. Level-Ready f m c l (omega (arith, e, g)));
          drops =
              parse_precedence-Drops num c n s k r
                (λ m g. Level-Ready f m c l (omega (arith, e, g)));
        };
        braces =
            λ n s r e. block-Step c n s r (λ g. Level-Ready f (n - 1) c l (omega (arith, e, g)));
        inside = λ n s r e.
            statement-Step num c n s r (λ g. Level-Ready f (n - 1) c l (omega (arith, e, g)))
              (l.precedence n s 0 r (omega (arith, e))) (l.braces n s r (omega (arith, e)));
        outside = λ n s r e.
            declaration-Step num c n s r (λ g. Level-Ready f (n - 1) c l (omega (arith, e, g)))
              (l.inside n s r (omega (arith, e)));
      }

-- What a round of the script does where it is to stop, and where not.
abbrev turned : Calls → Nodes → Bool → Do (Nodes × Bool)
turned c ns stop =
    if stop then pure (ns, false) else (c.declaration >>= λ d. pure (add_statement ns d, true))

-- A round of the script takes a token, but at the end and behind an error.
script_round-Turns :
    (c : Calls) (n s : ℕ) → s ≤ n → Ready n c → (ns : Nodes) → Turns n s again (script_round c ns)
unfolding script_round match check ◌>>=◌ gets pure
script_round-Turns c n s room ready ns = record {
  keeps = λ p h. (at_end (same_type p.current.type TokenType.eof) p h refl).0;
  takes = λ p h. (at_end (same_type p.current.type TokenType.eof) p h refl).1;
}
  where
    go_on :
        (failed : Bool) (p : Parser)
        → Tight n s p
        → p.had_error ≡ failed
        → same_type p.current.type TokenType.eof ≡ false
        → let r = turned c ns failed p in
          Tight n s r.1 × (r.0.1 ≡ true → (1 ≤ s) × Tight n (s - 1) r.1)
    go_on true p h e d = (h, λ t. ground (arith, t))
    go_on false p h e d =
        ((ready.called s room).declaration.at p h, λ t. (ready.drops s room).takes p h e d)

    at_end :
        (b : Bool) (p : Parser)
        → Tight n s p
        → same_type p.current.type TokenType.eof ≡ b
        → let q = (if b then (advance >>= λ u. pure true) else pure false) p in
          let r = turned c ns (q.0 || q.1.had_error) q.1 in
          Tight n s r.1 × (r.0.1 ≡ true → (1 ≤ s) × Tight n (s - 1) r.1)
    at_end true p h e = ((Tight-Moves n s room).advances.at p h, λ t. ground (arith, t))
    at_end false p h e = go_on p.had_error p h refl e

parse_rest-Keeps :
    {P : Parser → Type 0} (c : Calls)
    → Moves P
    → ((ns : Nodes) → Keeps P (loop (script_round c) ns))
    → let m : Do Node =
        match TokenType.eof >>= λ ended. if ended then pure Node.absent else parse_script c in
      Keeps P m
unfolding parse_script
parse_rest-Keeps c moves script = search (moves_rules, script) depth 14

-- The parser ends on any text: with fuel for three calls to each byte, for an error and for the end,
-- neither the fuel of a call nor that of a loop is spent.
pub parse_total :
    (num : Numerals) (fuel : ℕ) (source : Bytes)
    → 3 * (length source + 2) ≤ fuel
    → (parse (calls num fuel) (parser_init source)).1.exhausted ≡ false
unfolding parse ◌>>=◌ parser_init none_yet lexer_init
parse_total num fuel source enough =
    let n = suc (length source) in
    let c = calls num fuel in
    let ready = Level-Ready fuel n c (calls-Level num fuel) (omega (arith, enough)) in
    let first = advance-first n n (parser_init source) refl refl (omega arith) (omega arith) in
    let script = λ (ns : Nodes).
      loop-Tight n (script_round c) (λ t r. script_round-Turns c n t r ready) n (omega arith) ns in
    ((parse_rest-Keeps c (Tight-Moves n n (omega arith)) script).at _ first).fuel
