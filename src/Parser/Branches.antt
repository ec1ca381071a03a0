-- ===== src/Parser/Branches.antt =====
-- Statements, blocks and declarations where the calls can be made on what is left: lines 1418 to 1589 of
-- src/slp_parser.c.
use slp.Lexer.State.{Lexer}
use slp.Lexer.Token.{TokenType, Token}
use slp.Parser.Ast.{Node}
use slp.Parser.Calls.{Calls, expression, next_token_of}
use slp.Parser.Closed.{Moves, Called, Loops, moves_rules}
use slp.Parser.Declarations.{
  at_inline, at_bridge, declaration, inline_declaration, import_declaration, named_declaration,
}
use slp.Parser.Expressions.{bridge}
use slp.Parser.Keeps.{Keeps, Keeps-bind}
use slp.Parser.KeptExpressions.{bridge-Keeps}
use slp.Parser.KeptRules.{guarded-Keeps}
use slp.Parser.Precedence.{guarded}
use slp.Parser.KeptStatements.{
  if_statement-Keeps, while_statement-Keeps, for_statement-Keeps, foreach_statement-Keeps,
  try_statement-Keeps, nop_statement-Keeps, import_statement-Keeps, terminator-Keeps,
}
use slp.Parser.Kinds.{same_type, type_number}
use slp.Parser.Literals.{Numerals}
use slp.Parser.Ready.{Drops, Ready, Ready-Loops}
use slp.Parser.State.{Parser, Do, Message, pure, gets, check, match, advance, ◌>>=◌}
use slp.Parser.Statements.{
  when_matched, simple_statement, expression_statement, statement_inner, statement, terminator,
}
use slp.Parser.Steps.{guarded-Drops}
use slp.Parser.Tight.{Tight, Tight-Moves, Tight-weaken, advance-Tight}
use slp.Parser.Turns.{IsToken-sized}
use slp.Prelude.{arith, ℕ, ◌-◌, ◌≤◌, ◌≡◌, refl, Bool, true, false, if◌then◌else◌}

-- What is left is kept, and is less where there was no error and more than the end.
pub record Step (n s : ℕ) {A : Type 0} (m : Do A) : Type 0 where
  pub keeps : Keeps (Tight n s) m
  pub drops : Drops n s m

module _ (n s : ℕ) (room : s ≤ n) where
  -- Behind a token, the calls can be made.
  abbrev pub Behind : {A : Type 0} → Do A → Type 0
  Behind m = 1 ≤ s → Keeps (Tight (n - 1) (s - 1)) m

  pub behind_token :
      {A : Type 0} (m : Do A) (p : Parser)
      → Tight n s p
      → 1 ≤ p.current.length
      → Behind m
      → (1 ≤ s) × Tight n (s - 1) (m (advance p).1).1
  behind_token m p h one keeps =
      let b = h.bound in
      let some : 1 ≤ s = omega (arith, b, one) in
      let q = advance-Tight n (n - 1) s (s - 1) p h (omega (arith, one)) (omega (arith, room)) in
      (
        some,
        Tight-weaken (n - 1) n (s - 1) (s - 1) _ ((keeps some).at _ q) (omega arith) (omega arith),
      )

  matched-Step :
      {A : Type 0} (type : TokenType) (m o : Do A)
      → same_type TokenType.eof type ≡ false
      → Behind m
      → Step n s o
      → Step n s (match type >>= λ here. if here then m else o)
  unfolding match check ◌>>=◌ gets pure
  matched-Step type m o end keeps other = record {
    keeps = record { at = λ p h. (branch (same_type p.current.type type) p h refl).0 };
    drops = record { takes = λ p h. (branch (same_type p.current.type type) p h refl).1 };
  }
    where
      branch :
          (b : Bool) (p : Parser)
          → Tight n s p
          → same_type p.current.type type ≡ b
          → let r = (if b then (advance >>= λ u. pure true) else pure false) p in
            let q = (if r.0 then m else o) r.1 in
            Tight n s q.1
            × (p.had_error ≡ false
                → same_type p.current.type TokenType.eof ≡ false
                → (1 ≤ s) × Tight n (s - 1) q.1)
      branch true p h k =
          let one = IsToken-sized p.current (λ t. same_type t type) h.token k end in
          let (some, less) = behind_token m p h one keeps in
          (Tight-weaken n n (s - 1) s _ less (omega arith) (omega arith), λ e d. (some, less))
      branch false p h k = (other.keeps.at p h, other.drops.takes p h)

  test-Step :
      {A : Type 0} (f : Parser → Bool) (m o : Do A)
      → Step n s m
      → Step n s o
      → Step n s (gets f >>= λ b. if b then m else o)
  unfolding ◌>>=◌ gets
  test-Step f m o h k = record {
    keeps = record { at = λ p t. (both (f p)).keeps.at p t };
    drops = record { takes = λ p t. (both (f p)).drops.takes p t };
  }
    where
      both : (b : Bool) → Step n s (if b then m else o)
      both true = h
      both false = k

  bind-Step :
      {A B : Type 0} (m : Do A) (f : A → Do B)
      → Step n s m
      → ((t : ℕ) → t ≤ n → (a : A) → Keeps (Tight n t) (f a))
      → Step n s (m >>= f)
  unfolding ◌>>=◌
  bind-Step m f h keeps = record {
    keeps = Keeps-bind m f h.keeps (keeps s room);
    drops = record {
      takes = λ p t e d.
          let (some, less) = h.drops.takes p t e d in
          (some, (keeps (s - 1) (omega (arith, room)) (m p).0).at _ less);
    };
  }

  guarded-Step : (message : Message) (m : Do Node) → Step n s m → Step n s (guarded message m)
  guarded-Step message m h = record {
    keeps = guarded-Keeps (Tight-Moves n s room) message m h.keeps;
    drops = guarded-Drops n s room message m h.drops;
  }

ends-Keeps :
    {P : Parser → Type 0}
    → Moves P
    → (e : Node) → let m : Do Node = terminator >>= λ u. pure e in Keeps P m
ends-Keeps moves e = search (moves_rules, terminator-Keeps) depth 14

module _ (num : Numerals) (c : Calls) (n s : ℕ) (room : s ≤ n)
    (ready : 1 ≤ n → Ready (n - 1) c) where
  module _ (some : 1 ≤ s) where
    lower_moves : Moves (Tight (n - 1) (s - 1))
    lower_moves = Tight-Moves (n - 1) (s - 1) (omega (arith, room))

    lower_called : Called c (Tight (n - 1) (s - 1))
    lower_called = (ready (omega (arith, some, room))).called (s - 1) (omega (arith, room))

    lower_loops : Loops c (Tight (n - 1) (s - 1))
    lower_loops =
        Ready-Loops (n - 1) c (ready (omega (arith, some, room))) (s - 1) (omega (arith, room))

  pub statement-Step : Step n s (expression c) → Step n s c.block → Step n s (statement c)
  unfolding statement statement_inner when_matched simple_statement expression_statement check
      same_type type_number
  statement-Step expr braces = guarded-Step n s room _ _ (
      matched-Step n s room _ _ _ refl (λ k. nop_statement-Keeps (lower_moves k))
        (matched-Step n s room _ _ _ refl
          (λ k. if_statement-Keeps num c (lower_moves k) (lower_called k) (lower_loops k))
          (matched-Step n s room _ _ _ refl
            (λ k. while_statement-Keeps num c (lower_moves k) (lower_called k) (lower_loops k))
            (matched-Step n s room _ _ _ refl
              (λ k. for_statement-Keeps num c (lower_moves k) (lower_called k) (lower_loops k))
              (matched-Step n s room _ _ _ refl
                (λ k.
                  foreach_statement-Keeps num c (lower_moves k) (lower_called k) (lower_loops k))
                (matched-Step n s room _ _ _ refl
                  (λ k. try_statement-Keeps num c (lower_moves k) (lower_called k) (lower_loops k))
                  (test-Step n s room _ _ _ braces
                    (bind-Step n s room _ _ expr (λ t r. ends-Keeps (Tight-Moves n t r))))))))))

module _ (n s : ℕ) (room : s ≤ n) where
  looked-Step :
      {A : Type 0} (type : TokenType) (restore : Lexer → Lexer → Lexer) (f : Token → Bool)
      (m o : Do A)
      → same_type TokenType.eof type ≡ false
      → Keeps (Tight n s) (next_token_of restore)
      → Behind n s room m
      → Step n s o
      → let look : Do Bool = check type >>= λ here.
          if here then (next_token_of restore >>= λ next. pure (f next)) else pure false in
        Step n s (look >>= λ b. if b then (advance >>= λ u. m) else o)
  unfolding check ◌>>=◌ gets pure next_token_of
  looked-Step type restore f m o end looks keeps other = record {
    keeps = record { at = λ p h. (branch (same_type p.current.type type) p h refl).0 };
    drops = record { takes = λ p h. (branch (same_type p.current.type type) p h refl).1 };
  }
    where
      found :
          (b : Bool) (p : Parser)
          → Tight n s p
          → 1 ≤ p.current.length
          → let q = (if b then (advance >>= λ u. m) else o) p in
            Tight n s q.1
            × (p.had_error ≡ false
                → same_type p.current.type TokenType.eof ≡ false
                → (1 ≤ s) × Tight n (s - 1) q.1)
      found true p h one =
          let (some, less) = behind_token n s room m p h one keeps in
          (Tight-weaken n n (s - 1) s _ less (omega arith) (omega arith), λ e d. (some, less))
      found false p h one = (other.keeps.at p h, other.drops.takes p h)

      branch :
          (b : Bool) (p : Parser)
          → Tight n s p
          → same_type p.current.type type ≡ b
          → let look : Do Bool =
              if b then (next_token_of restore >>= λ next. pure (f next)) else pure false in
            let r = look p in
            let q = (if r.0 then (advance >>= λ u. m) else o) r.1 in
            Tight n s q.1
            × (p.had_error ≡ false
                → same_type p.current.type TokenType.eof ≡ false
                → (1 ≤ s) × Tight n (s - 1) q.1)
      branch true p h k =
          let one = IsToken-sized p.current (λ t. same_type t type) h.token k end in
          found _ (next_token_of restore p).1 (looks.at p h) one
      branch false p h k = (other.keeps.at p h, other.drops.takes p h)

module _ (num : Numerals) (c : Calls) (n s : ℕ) (room : s ≤ n)
    (ready : 1 ≤ n → Ready (n - 1) c) where
  abbrev bridge_behind : Behind n s room (bridge c)
  bridge_behind some =
      bridge-Keeps c (lower_moves num c n s room ready some)
        (lower_called num c n s room ready some) (lower_loops num c n s room ready some)

  pub declaration-Step : Step n s c.statement → Step n s (declaration c)
  unfolding declaration inline_declaration import_declaration named_declaration at_inline at_bridge
      same_type type_number
  declaration-Step inside =
      let moves = Tight-Moves n s room in
      matched-Step n s room _ _ _ refl bridge_behind (
        looked-Step n s room _ _ _ _ _ refl moves.looks_start_line bridge_behind (
          matched-Step n s room _ _ _ refl
            (λ k.
              import_statement-Keeps num c (lower_moves num c n s room ready k)
                (lower_called num c n s room ready k) (lower_loops num c n s room ready k))
            (looked-Step n s room _ _ _ _ _ refl moves.looks_line bridge_behind inside)))
