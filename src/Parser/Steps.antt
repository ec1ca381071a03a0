-- ===== src/Parser/Steps.antt =====
-- An expression can be parsed where the calls can be made on what is left behind its first token:
-- parse_precedence and parse_precedence_inner of src/slp_parser.c.
use slp.Lexer.Token.{TokenType, Token}
use slp.Parser.Advance.{IsToken, advance_lem}
use slp.Parser.Ast.{Node}
use slp.Parser.Calls.{Calls}
use slp.Parser.Closed.{Moves, moves_rules}
use slp.Parser.Keeps.{Keeps}
use slp.Parser.KeptRules.{behind_token-Keeps, guarded-Keeps}
use slp.Parser.Kinds.{same_type, type_number}
use slp.Parser.Literals.{Numerals, previous}
use slp.Parser.Precedence.{climb, parse_precedence_inner, parse_precedence, guarded, enter, leave}
use slp.Parser.Ready.{Drops, Ready, Ready-Loops, climbing-Tight}
use slp.Parser.Rules.{prefix_rule}
use slp.Parser.State.{Parser, Do, Message, pure, gets, error, advance, ◌>>=◌, ◌>>◌}
use slp.Parser.Tight.{Tight, Tight-Moves, Tight-weaken, advance-Tight, error_at-first, mark}
use slp.Prelude.{
  arith, ℕ, zero, suc, ◌-◌, ◌≤◌, ◌≡◌, inl, inr, ap, ◌∙◌, Bool, true, false, leb, if◌then◌else◌,
}

-- The bound on what is left counts the error that may come.
pub some_left : (n s : ℕ) (p : Parser) → Tight n s p → p.had_error ≡ false → 1 ≤ s
some_left n s p h e =
    let one : mark p ≡ 1 = ap (λ (b : Bool). if b then 0 else 1) e in
    let b = h.bound in omega (arith, b, one)

pub not_end_sized :
    (token : Token) → IsToken token → same_type token.type TokenType.eof ≡ false → 1 ≤ token.length
unfolding same_type type_number
not_end_sized token h e = elim h.sized [
  | inl one ↦ one
  | inr (ended, z) ↦ let same = ap (λ t. same_type t TokenType.eof) ended in ground (arith, same, e)
]

module _ (n s : ℕ) (room : s ≤ n) where
  pub guarded-Drops :
      (message : Message) (m : Do Node) → Drops n s m → Drops n s (guarded message m)
  unfolding guarded ◌>>=◌ gets pure error enter leave
  guarded-Drops message m d = record { takes = λ p h e k. branch (leb 100 p.depth) p h e k }
    where
      branch :
          (b : Bool) (p : Parser)
          → Tight n s p
          → p.had_error ≡ false
          → same_type p.current.type TokenType.eof ≡ false
          → let stop : Do Node = error message >> pure Node.absent in
            let go : Do Node = enter >>= λ u. m >>= λ node. leave >>= λ v. pure node in
            (1 ≤ s) × Tight n (s - 1) ((if b then stop else go) p).1
      branch true p h e k = (
        some_left n s p h e,
        error_at-first n n s (s - 1) p.previous message p h e (omega arith) (omega arith),
      )
      branch false p h e k =
          let inside = (Tight-Moves n s room).enters.at p h in
          let (one, less) = d.takes (enter p).1 inside e k in
          (one, (Tight-Moves n (s - 1) (omega (arith, room))).leaves.at _ less)

module _ (num : Numerals) (c : Calls) where
  -- Behind a token that is no end.
  inner_taken :
      (m s k : ℕ) (p : Parser)
      → Ready m c
      → s ≤ suc m
      → Tight (suc m) s p
      → 1 ≤ p.current.length
      → (1 ≤ s) × Tight m (s - 1) (parse_precedence_inner num c (suc k) p).1
  unfolding parse_precedence_inner ◌>>=◌
  inner_taken m s k p ready room h one =
      let b = h.bound in
      let r : s - 1 ≤ m = omega (arith, room) in
      let q = advance-Tight (suc m) m s (s - 1) p h (omega (arith, one)) (omega (arith, room)) in
      (
        omega (arith, b, one),
        (behind_token-Keeps num c (Tight-Moves m (s - 1) r) (ready.called (s - 1) r)
              (Ready-Loops m c ready (s - 1) r) (climbing-Tight m c ready (s - 1) r) k).at
            (advance p).1 q,
      )

  -- The end of the file has no rule.
  ended-Keeps :
      {P : Parser → Type 0}
      → Moves P
      → (k : ℕ) (type : TokenType) → type ≡ TokenType.eof
      → Keeps P (climb c k (prefix_rule num c type))
  unfolding climb prefix_rule
  ended-Keeps moves k type e = rw e (search moves_rules depth 14)

  inner_ended :
      (n s k : ℕ) (p : Parser)
      → s ≤ n
      → Tight n s p
      → p.current.type ≡ TokenType.eof
      → Tight n s (parse_precedence_inner num c (suc k) p).1
  unfolding parse_precedence_inner ◌>>=◌ previous gets
  inner_ended n s k p room h e =
      let (fuel, previous, token, shrinks) = advance_lem p in
      let moves = Tight-Moves n s room in
      (ended-Keeps moves (suc k) (advance p).1.previous.type
          (ap (λ (t : Token). t.type) previous ∙ e)).at
        (advance p).1 (moves.advances.at p h)

  inner-Tight :
      (n s k : ℕ)
      → s ≤ n
      → ((m : ℕ) → suc m ≤ n → Ready m c)
      → Keeps (Tight n s) (parse_precedence_inner num c (suc k))
  inner-Tight zero s k room ready = record {
    at = λ p h. elim h.token.sized [
      | inl one ↦ let b = h.bound in absurd (omega (arith, one, b, room))
      | inr (e, z) ↦ inner_ended zero s k p room h e
    ];
  }
  inner-Tight (suc m) s k room ready = record {
    at = λ p h. elim h.token.sized [
      | inl one ↦
          let (some, less) = inner_taken m s k p (ready m (omega arith)) room h one in
          Tight-weaken m (suc m) (s - 1) s _ less (omega arith) (omega arith)
      | inr (e, z) ↦ inner_ended (suc m) s k p room h e
    ];
  }

  inner-Drops :
      (n s k : ℕ)
      → s ≤ n
      → ((m : ℕ) → suc m ≤ n → Ready m c)
      → Drops n s (parse_precedence_inner num c (suc k))
  inner-Drops n s k room ready = record { takes = λ p h e k. takes_lem n room ready p h k }
    where
      takes_lem :
          (n : ℕ)
          → s ≤ n
          → ((m : ℕ) → suc m ≤ n → Ready m c)
          → (p : Parser) → Tight n s p
          → same_type p.current.type TokenType.eof ≡ false
          → (1 ≤ s) × Tight n (s - 1) (parse_precedence_inner num c (suc k) p).1
      takes_lem zero room ready p h e =
          let b = h.bound in
          let one = not_end_sized p.current h.token e in absurd (omega (arith, one, b, room))
      takes_lem (suc m) room ready p h e =
          let one = not_end_sized p.current h.token e in
          let (some, less) = inner_taken m s k p (ready m (omega arith)) room h one in
          (some, Tight-weaken m (suc m) (s - 1) (s - 1) _ less (omega arith) (omega arith))

  module _ (n s k : ℕ) (room : s ≤ n) (ready : (m : ℕ) → suc m ≤ n → Ready m c) where
    pub parse_precedence-Tight : Keeps (Tight n s) (parse_precedence num c (suc k))
    unfolding parse_precedence
    parse_precedence-Tight = guarded-Keeps (Tight-Moves n s room) _ _ (inner-Tight n s k room ready)

    pub parse_precedence-Drops : Drops n s (parse_precedence num c (suc k))
    unfolding parse_precedence
    parse_precedence-Drops = guarded-Drops n s room _ _ (inner-Drops n s k room ready)
