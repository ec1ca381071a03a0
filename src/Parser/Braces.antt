-- ===== src/Parser/Braces.antt =====
-- A block where the calls can be made on what is left: block of src/slp_parser.c. Behind an error, its
-- loop makes no call.
use slp.Lexer.Token.{TokenType, Token}
use slp.Parser.Ast.{Node, Nodes, nil}
use slp.Parser.Branches.{Step, Behind, behind_token}
use slp.Parser.Calls.{Calls, block, block_round, at_block_end}
use slp.Parser.Closed.{Moves, Loops, moves_rules}
use slp.Parser.Keeps.{Keeps}
use slp.Parser.Kinds.{same_type, type_number}
use slp.Parser.Ready.{Ready, Ready-Loops}
use slp.Parser.State.{
  Parser, Do, Message, pure, gets, check, consume, line, text, loop, rounds, error_at,
  error_at_current, advance, ◌>>=◌,
}
use slp.Parser.Steps.{some_left}
use slp.Parser.Tight.{Tight, Tight-Moves, Tight-weaken, error_at-first}
use slp.Parser.Turns.{IsToken-sized}
use slp.Prelude.{
  arith, ℕ, ◌-◌, ◌≤◌, ◌≡◌, ◌||◌, ◌∙◌, refl, sym, subst, Bool, true, false, some, if◌then◌else◌,
}

-- Behind the brace.
abbrev block_rest : Calls → Do Node
block_rest c = line >>= λ l. loop (block_round c) nil >>= λ ns.
    consume TokenType.right_brace (text "Expect '}' after block.") >>= λ u. pure (Node.block l ns)

block_rest-Keeps : {P : Parser → Type 0} (c : Calls) → Moves P → Loops c P → Keeps P (block_rest c)
block_rest-Keeps c moves loops = let h = loops.block_loop in search (moves_rules, h) depth 14

or-true : (a b : Bool) → b ≡ true → (a || b) ≡ true
or-true true b e = refl
or-true false b e = e

failed_end : (p : Parser) → p.had_error ≡ true → at_block_end p ≡ true
unfolding at_block_end
failed_end p h =
    or-true
      (same_type p.current.type TokenType.right_brace || same_type p.current.type TokenType.eof)
      p.had_error h

failed_loop :
    (c : Calls) (ns : Nodes) (p : Parser) → p.had_error ≡ true → (loop (block_round c) ns p).1 ≡ p
unfolding loop rounds block_round ◌>>=◌ gets pure
failed_loop c ns p h = let e = failed_end p h in rw e refl

failed_rest :
    (c : Calls) (n t : ℕ) (p : Parser)
    → t ≤ n
    → Tight n t p
    → p.had_error ≡ true
    → Tight n t (block_rest c p).1
unfolding ◌>>=◌ line gets
failed_rest c n t p room h e =
    let same = failed_loop c nil p e in
    let moves = Tight-Moves n t room in
    (closing-Keeps moves p.previous.line (loop (block_round c) nil p).0).at _
      (subst (Tight n t) (sym same) h)
  where
    closing-Keeps :
        {P : Parser → Type 0}
        → Moves P
        → (l : ℕ) (ns : Nodes)
        → let m : Do Node = consume TokenType.right_brace (text "Expect '}' after block.") >>= λ u.
            pure (Node.block l ns) in
          Keeps P m
    closing-Keeps moves l ns = search moves_rules

error_at-had :
    (token : Token) (message : Message) (p : Parser)
    → p.panic_mode ≡ p.had_error
    → (error_at token message p).1.had_error ≡ true
unfolding error_at
error_at-had token message p h = had_if p.panic_mode p (λ e. sym h ∙ e)
  where
    had_if :
        (b : Bool) (p : Parser)
        → (b ≡ true → p.had_error ≡ true)
        → let q = record p {
          panic_mode = true;
          had_error = true;
          error_line = token.line;
          error_message = some message;
        } in
          let r : Unit {0} × Parser = if b then (tt, p) else (tt, q) in r.1.had_error ≡ true
    had_if true p k = k refl
    had_if false p k = refl

pub block-Step :
    (c : Calls) (n s : ℕ) (room : s ≤ n) → (1 ≤ n → Ready (n - 1) c) → Step n s (block c)
unfolding block consume check ◌>>=◌ gets same_type type_number error_at_current
block-Step c n s room ready = record {
  keeps = record {
    at = λ p h. (branch (same_type p.current.type TokenType.left_brace) p h refl).0;
  };
  drops = record {
    takes = λ p h. (branch (same_type p.current.type TokenType.left_brace) p h refl).1;
  };
}
  where
    message : Message
    message = text "Expect '{' to start block."

    behind : Behind n s room (block_rest c)
    behind k =
        let r : s - 1 ≤ n - 1 = omega (arith, room) in
        block_rest-Keeps c (Tight-Moves (n - 1) (s - 1) r)
          (Ready-Loops (n - 1) c (ready (omega (arith, k, room))) (s - 1) r)

    branch :
        (b : Bool) (p : Parser)
        → Tight n s p
        → same_type p.current.type TokenType.left_brace ≡ b
        → let q =
            (block_rest c
              ((if b then advance else error_at_current (text "Expect '{' to start block."))
                p).1).1 in
          Tight n s q
          × (p.had_error ≡ false
              → same_type p.current.type TokenType.eof ≡ false
              → (1 ≤ s) × Tight n (s - 1) q)
    branch true p h k =
        let one = IsToken-sized p.current (λ t. same_type t TokenType.left_brace) h.token k refl in
        let (one_left, less) = behind_token n s room (block_rest c) p h one behind in
        (Tight-weaken n n (s - 1) s _ less (omega arith) (omega arith), λ e d. (one_left, less))
    branch false p h k =
        let m = text "Expect '{' to start block." in
        let had = error_at-had p.current m p h.panic in
        (
          failed_rest c n s _ room (((Tight-Moves n s room).fails p.current m).at p h) had,
          λ e d. (
            some_left n s p h e,
            failed_rest c n (s - 1) _ (omega (arith, room))
                (error_at-first n n s (s - 1) p.current m p h e (omega arith) (omega arith)) had,
          ),
        )
