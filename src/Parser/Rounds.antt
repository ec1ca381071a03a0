-- ===== src/Parser/Rounds.antt =====
-- The rounds of the loops of src/slp_parser.c take a token each, but for the last one.
use slp.Lexer.Token.{TokenType}
use slp.Parser.Ast.{Node, Nodes, snoc}
use slp.Parser.Calls.{
  Calls, expression, arg_expression, named_arg, missing_comma, arg_separator, one_arg, arg_round,
  at_block_end, block_round,
}
use slp.Parser.Closed.{Moves, Called, moves_rules, line-Keeps, consume-Keeps, error-Keeps}
use slp.Parser.Declarations.{import_part, import_round, append_target, append_previous}
use slp.Parser.Expressions.{match_either, tuple_round}
use slp.Parser.Keeps.{Keeps, Leads-gets, keeps_rules}
use slp.Parser.KeptStatements.{append_previous-Keeps}
use slp.Parser.Kinds.{same_type, type_number}
use slp.Parser.Literals.{previous}
use slp.Parser.Precedence.{string_round, at_string}
use slp.Parser.Objects.{component_round}
use slp.Parser.State.{Parser, Do, pure, check, match, copy_lexeme, ◌>>=◌}
use slp.Parser.Statements.{for_round}
use slp.Parser.Tight.{Tight, Tight-weaken, Tight-Moves}
use slp.Parser.Turns.{
  Turns, Turns-stop, Turns-bind, Turns-result, Turns-branch, Turns-if, Turns-bool, Turns-advance,
  Turns-test, match-Turns, again,
}
use slp.Prelude.{
  arith, ℕ, ◌≤◌, ◌-◌, ◌≡◌, refl, Bool, true, false, Bytes, [], ◌∷◌, ◌++◌, ◌||◌, Option, some, none,
}

or-false : (a b : Bool) → (a || b) ≡ false → (a ≡ false) × (b ≡ false)
or-false true b e = ground (arith, e)
or-false false b e = (refl, e)

at_block_end-false :
    (p : Parser)
    → at_block_end p ≡ false
    → (p.had_error ≡ false) × (same_type p.current.type TokenType.eof ≡ false)
unfolding at_block_end
at_block_end-false p e =
    let brace = same_type p.current.type TokenType.right_brace in
    let ended = same_type p.current.type TokenType.eof in
    let (here, had) = or-false (brace || ended) p.had_error e in
    (had, (or-false brace ended here).1)

module _ {P : Parser → Type 0} (moves : Moves P) where
  pub missing_comma-Keeps : (name : Option Bytes) → Keeps P (missing_comma name)
  unfolding missing_comma
  missing_comma-Keeps none = search moves_rules
  missing_comma-Keeps (some s) = search moves_rules

  pub import_part-Keeps : Keeps P import_part
  unfolding import_part match_either
  import_part-Keeps = search moves_rules depth 14

  string_more-Keeps :
      (b : Bytes)
      → let m : Do (Bytes × Bool) = previous >>= λ token. pure (b ++ copy_lexeme token, true) in
        Keeps P m
  string_more-Keeps b = search moves_rules

  import_more-Keeps :
      (b : Bytes)
      → let m : Do (Bytes × Bool) = import_part >>= λ part.
          append_previous (append_target b (b'.' ∷ [])) part >>= λ next. pure (next, true) in
        Keeps P m
  import_more-Keeps b =
      let h = append_previous-Keeps moves in search (keeps_rules, import_part-Keeps, h) depth 14

module _ {P : Parser → Type 0} (c : Calls) (moves : Moves P) (called : Called c P) where
  expression-Keeps : Keeps P (expression c)
  unfolding expression
  expression-Keeps = called.parse_precedence 0

  arg_expression-Keeps : Keeps P (arg_expression c)
  unfolding arg_expression
  arg_expression-Keeps = search (moves_rules, expression-Keeps) depth 14

  named_arg-Keeps : (e : Node) → Keeps P (named_arg c e)
  unfolding named_arg
  named_arg-Keeps e = search (moves_rules, expression-Keeps) depth 14

  tuple_part-Keeps :
      (ns : Nodes)
      → let m : Do (Nodes × Bool) = expression c >>= λ e. pure (snoc ns e, true) in Keeps P m
  tuple_part-Keeps ns = search (keeps_rules, expression-Keeps)

module _ (c : Calls) (n : ℕ) (called : (t : ℕ) → t ≤ n → Called c (Tight n t)) (s : ℕ)
    (room : s ≤ n) where
  abbrev here : Called c (Tight n s)
  here = called s room

  abbrev moves : Moves (Tight n s)
  moves = Tight-Moves n s room

  pub tuple_round-Turns : (ns : Nodes) → Turns n s again (tuple_round c ns)
  unfolding tuple_round same_type type_number
  tuple_round-Turns ns =
      Turns-branch _ _ _ (match-Turns room TokenType.comma refl)
        (λ t l.
          let r : t ≤ n = omega (arith, l, room) in
          tuple_part-Keeps c (Tight-Moves n t r) (called t r) ns)
        (Turns-stop _ refl)

  comma_part-Turns :
      (ns : Nodes) (e : Node)
      → Turns n s again (match TokenType.comma >>= λ more. pure (snoc ns e, more))
  unfolding same_type type_number
  comma_part-Turns ns e = Turns-result _ _ (match-Turns room TokenType.comma refl) (λ b. refl)

  pub for_round-Turns : (type : TokenType) (ns : Nodes) → Turns n s again (for_round c type ns)
  unfolding for_round same_type type_number
  for_round-Turns type ns =
      Turns-if _ _ _ (Turns-stop _ refl)
        (Turns-bind _ _ (expression-Keeps c moves here) (comma_part-Turns ns))

  arg_separator-Turns : (type : TokenType) (e : Node) → Turns n s (λ b. b) (arg_separator type e)
  unfolding arg_separator check same_type type_number
  arg_separator-Turns type e = Turns-if _ _ _ (Turns-stop _ refl) (
      Turns-branch _ _ _ (match-Turns room TokenType.comma refl) (λ t l. Leads-gets _)
        (Turns-bind _ _ (missing_comma-Keeps moves _) (λ u. Turns-stop false refl)))

  one_arg-Turns : (type : TokenType) (ns : Nodes) → Turns n s again (one_arg c type ns)
  unfolding one_arg
  one_arg-Turns type ns = Turns-bind _ _ (arg_expression-Keeps c moves here) (λ e.
      Turns-bind _ _ (line-Keeps moves) (λ l.
        Turns-bind _ _ (named_arg-Keeps c moves here e)
          (λ pair. Turns-result _ _ (arg_separator-Turns type pair.0) (λ b. refl))))

  pub arg_round-Turns : (type : TokenType) (ns : Nodes) → Turns n s again (arg_round c type ns)
  unfolding arg_round check
  arg_round-Turns type ns = Turns-if _ _ _ (Turns-stop _ refl) (one_arg-Turns type ns)

  pub component_round-Turns : (b : Bytes) → Turns n s again (component_round b)
  unfolding component_round previous same_type type_number
  component_round-Turns b = Turns-bind _ _ (consume-Keeps moves _ _) (λ u.
      Turns-bind _ _ (Leads-gets _) (λ component.
        Turns-bool _ _ _ (Turns-bind _ _ (error-Keeps moves _) (λ v. Turns-stop _ refl))
          (Turns-result _ _ (match-Turns room TokenType.dot refl) (λ d. refl))))

  pub import_round-Turns : (b : Bytes) → Turns n s again (import_round b)
  unfolding import_round same_type type_number
  import_round-Turns b =
      Turns-branch _ _ _ (match-Turns room TokenType.dot refl)
        (λ t l. import_more-Keeps (Tight-Moves n t (omega (arith, l, room))) b) (Turns-stop _ refl)

  pub string_round-Turns : (b : Bytes) → Turns n s again (string_round b)
  unfolding string_round at_string same_type type_number
  string_round-Turns b =
      Turns-advance room _ (λ t. same_type t TokenType.string || same_type t TokenType.literal) _ _
        (λ p e. e) refl (λ t l. string_more-Keeps (Tight-Moves n t (omega (arith, l, room))) b)
        (Turns-stop _ refl)

  -- Behind a declaration, less is left than before, but for the end of the file and behind an error.
  module _
      (takes : (p : Parser)
        → Tight n s p
        → p.had_error ≡ false
        → same_type p.current.type TokenType.eof ≡ false
        → (1 ≤ s) × Tight n (s - 1) (c.declaration p).1) where
    pub block_round-Turns : (ns : Nodes) → Turns n s again (block_round c ns)
    unfolding block_round ◌>>=◌ pure
    block_round-Turns ns = Turns-test at_block_end _ _ (Turns-stop _ refl) (λ p e h.
        let (some_left, less) = takes p h (at_block_end-false p e).0 (at_block_end-false p e).1 in
        (Tight-weaken n n (s - 1) s _ less (omega arith) (omega arith), λ k. (some_left, less)))
