-- ===== src/Parser/Ready.antt =====
-- The loops and the parsed strings of src/slp_parser.c, with functions that can be called on what is left.
use slp.Lexer.State.{lexer_init}
use slp.Lexer.Token.{TokenType}
use slp.Parser.Ast.{Node}
use slp.Parser.Calls.{Calls, expression}
use slp.Parser.Closed.{Moves, Called, Loops, moves_rules}
use slp.Parser.Keeps.{Keeps}
use slp.Parser.KeptRules.{infix_rule-Keeps}
use slp.Parser.Kinds.{same_type}
use slp.Parser.Literals.{previous}
use slp.Parser.Precedence.{climbs, infix_round}
use slp.Parser.Quoted.{string_val-Tight}
use slp.Parser.Rounds.{
  tuple_round-Turns, for_round-Turns, arg_round-Turns, component_round-Turns, import_round-Turns,
  string_round-Turns, block_round-Turns,
}
use slp.Parser.Rules.{infix_rule, precedence_of}
use slp.Parser.State.{Parser, Do, pure, loop, none_yet, parser_init, ◌>>=◌}
use slp.Parser.Strings.{nested_expression}
use slp.Parser.Tight.{Tight, Tight-Moves, advance-first}
use slp.Parser.Turns.{Turns, Turns-stop, Turns-advance, loop-Tight, again}
use slp.Prelude.{
  arith, ℕ, suc, ◌-◌, ◌≤◌, ◌≡◌, ◌&&◌, refl, Bool, true, false, not, Bytes, length, leb,
}

-- Where there was no error and more than the end, less is left behind the function.
pub record Drops (n s : ℕ) {A : Type 0} (m : Do A) : Type 0 where
  pub takes :
      (p : Parser)
      → Tight n s p
      → p.had_error ≡ false
      → same_type p.current.type TokenType.eof ≡ false
      → (1 ≤ s) × Tight n (s - 1) (m p).1

-- The functions can be called where n is left, or less.
pub record Ready (n : ℕ) (c : Calls) : Type 0 where
  pub called : (s : ℕ) → s ≤ n → Called c (Tight n s)
  pub drops : (s : ℕ) → s ≤ n → Drops n s c.declaration

module _ (n : ℕ) (c : Calls) (ready : Ready n c) where
  nested-fuel :
      (source : Bytes)
      → suc (length source) ≤ n
      → (nested_expression (expression c) source).1.exhausted ≡ false
  unfolding nested_expression ◌>>=◌ expression parser_init none_yet lexer_init
  nested-fuel source l =
      let s = suc (length source) in
      let p = advance-first n s (parser_init source) refl refl (omega arith) (omega arith) in
      (((ready.called s l).parse_precedence 0).at _ p).fuel

  pub Ready-Loops : (s : ℕ) → s ≤ n → Loops c (Tight n s)
  Ready-Loops s room =
      let called = ready.called in
      record {
        block_loop =
            loop-Tight n _ (λ t r. block_round-Turns c n called t r (ready.drops t r).takes) s room;
        arg_loop = λ type. loop-Tight n _ (λ t r. arg_round-Turns c n called t r type) s room;
        tuple_loop = loop-Tight n _ (λ t r. tuple_round-Turns c n called t r) s room;
        component_loop = loop-Tight n _ (λ t r. component_round-Turns c n called t r) s room;
        string_loop = loop-Tight n _ (λ t r. string_round-Turns c n called t r) s room;
        for_loop = λ type. loop-Tight n _ (λ t r. for_round-Turns c n called t r type) s room;
        import_loop = loop-Tight n _ (λ t r. import_round-Turns c n called t r) s room;
        quoted = string_val-Tight (expression c) n s room nested-fuel;
      }

  infix_part-Keeps :
      {P : Parser → Type 0}
      → Moves P
      → Called c P
      → Loops c P
      → (e : Node)
      → let m : Do (Node × Bool) =
          previous >>= λ op. infix_rule c op.type e >>= λ next. pure (next, true) in
        Keeps P m
  infix_part-Keeps moves called loops e = search (moves_rules, infix_rule-Keeps) depth 14

  climbs-holds :
      (k : ℕ) (p : Parser) → climbs k p ≡ true → leb k (precedence_of p.current.type) ≡ true
  unfolding climbs
  climbs-holds k p e = and-right (not p.had_error) _ e
    where
      and-right : (a b : Bool) → (a && b) ≡ true → b ≡ true
      and-right true b e = e
      and-right false b e = ground (arith, e)

  infix_round-Turns :
      (s : ℕ) → s ≤ n → (k : ℕ) (e : Node) → Turns n s again (infix_round c (suc k) e)
  unfolding infix_round precedence_of
  infix_round-Turns s room k e =
      Turns-advance room _ (λ t. leb (suc k) (precedence_of t)) _ _ (climbs-holds (suc k)) (ends k)
        (λ t r.
          let u : t ≤ n = omega (arith, r, room) in
          infix_part-Keeps (Tight-Moves n t u) (ready.called t u) (Ready-Loops t u) e)
        (Turns-stop _ refl)
    where
      ends : (k : ℕ) → leb (suc k) (precedence_of TokenType.eof) ≡ false
      ends k = ground arith

  pub climbing-Tight :
      (s : ℕ) → s ≤ n → (k : ℕ) (e : Node) → Keeps (Tight n s) (loop (infix_round c (suc k)) e)
  climbing-Tight s room k e = loop-Tight n _ (λ t r. infix_round-Turns t r k) s room e
