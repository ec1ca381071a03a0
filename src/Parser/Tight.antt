-- ===== src/Parser/Tight.antt =====
-- What is left to read: a bound on the tokens that the functions of src/slp_parser.c can still take.
use slp.Lexer.Token.{Token}
use slp.Parser.Advance.{IsToken, advance_lem}
use slp.Parser.Calls.{next_token_of, restore_current, restore_line, restore_start_line}
use slp.Parser.Closed.{Moves}
use slp.Parser.Errors.{About, advance-Keeps, FirstReport, error_at-First}
use slp.Parser.Keeps.{Keeps, if-both}
use slp.Parser.Precedence.{enter, leave}
use slp.Parser.State.{Parser, Message, error_at, advance, write_buffer}
use slp.Prelude.{
  arith, ℕ, suc, ◌+◌, ◌≤◌, ◌≡◌, refl, sym, ap, ◌∙◌, Bool, true, false, Option, length, some,
  if◌then◌else◌,
}

-- One while there was no error, as in the size of a state.
abbrev pub mark : Parser → ℕ
mark p = if p.had_error then 0 else 1

-- No fuel was spent, the last token is no longer than n, and what is left is no more than s.
pub record Tight (n s : ℕ) (p : Parser) : Type 0 where
  pub fuel : p.exhausted ≡ false
  pub token : IsToken p.current
  pub before : p.previous.length + mark p ≤ suc n
  pub bound : p.current.length + length p.lexer.current + mark p ≤ s
  pub panic : p.panic_mode ≡ p.had_error

abbrev Agree : Bool → Bool → ℕ → Option Message → Type 0
Agree had panic line message = panic ≡ had

error_at-Agree : (token : Token) (message : Message) → Keeps (About Agree) (error_at token message)
unfolding error_at
error_at-Agree token message = record {
  at = λ p h.
      if-both (λ (r : Unit {0} × Parser). About Agree r.1) p.panic_mode (tt, p)
        (
          tt,
          record p {
            panic_mode = true;
            had_error = true;
            error_line = token.line;
            error_message = some message;
          },
        )
        h refl;
}

less_mark : (a b : Bool) → (a ≡ true → b ≡ true) → (if b then 0 else 1) ≤ (if a then 0 else 1)
less_mark true b h = let e : b ≡ true = h refl in rw e (omega arith)
less_mark false true h = omega arith
less_mark false false h = omega arith

-- An error that was reported stays.
advance-mark : (p : Parser) → p.panic_mode ≡ p.had_error → mark (advance p).1 ≤ mark p
advance-mark p h =
    let R = FirstReport p.error_line p.error_message in
    let kept = advance-Keeps R (error_at-First p.error_line p.error_message) in
    less_mark p.had_error (advance p).1.had_error (λ e. (kept.at p (e, h ∙ e, refl, refl)).0)

-- Behind a token, what is left is less by its length.
pub advance-Tight :
    (n m s t : ℕ) (p : Parser)
    → Tight n s p
    → s ≤ p.current.length + t
    → s ≤ suc m
    → Tight m t (advance p).1
advance-Tight n m s t p h step room =
    let (fuel, previous, token, shrinks) = advance_lem p in
    let less = advance-mark p h.panic in
    record {
      fuel = fuel ∙ h.fuel;
      token = token;
      before = omega (arith, h.bound, less, room, ap (λ (x : Token). x.length) previous);
      bound = omega (arith, h.bound, less, shrinks, step);
      panic = (advance-Keeps Agree error_at-Agree).at p h.panic;
    }

pub Tight-weaken : (n m s t : ℕ) (p : Parser) → Tight n s p → n ≤ m → s ≤ t → Tight m t p
Tight-weaken n m s t p h k l = record {
  fuel = h.fuel;
  token = h.token;
  before = omega (arith, h.before, k);
  bound = omega (arith, h.bound, l);
  panic = h.panic;
}

-- The first error takes one from what is left.
pub error_at-first :
    (n m s t : ℕ) (token : Token) (message : Message) (p : Parser)
    → Tight n s p
    → p.had_error ≡ false
    → n ≤ suc m
    → s ≤ suc t
    → Tight m t (error_at token message p).1
unfolding error_at
error_at-first n m s t token message p h e k l =
    let calm : p.panic_mode ≡ false = h.panic ∙ e in
    let one : mark p ≡ 1 = ap (λ (b : Bool). if b then 0 else 1) e in
    let q = record p {
      panic_mode = true;
      had_error = true;
      error_line = token.line;
      error_message = some message;
    } in
    let r : Tight m t q = record {
      fuel = h.fuel;
      token = h.token;
      before = omega (arith, h.before, one, k);
      bound = omega (arith, h.bound, one, l);
      panic = refl;
    } in
    error_at-calm p.panic_mode calm (tt, p) (tt, q) r
  where
    error_at-calm :
        (b : Bool)
        → b ≡ false
        → (x y : Unit {0} × Parser) → Tight m t y.1
        → Tight m t (if b then x else y).1
    error_at-calm true e x y r = ground (arith, e)
    error_at-calm false e x y r = r

error_at-Tight :
    (n s : ℕ) (token : Token) (message : Message) → Keeps (Tight n s) (error_at token message)
unfolding error_at
error_at-Tight n s token message = record { at = kept }
  where
    kept : (p : Parser) → Tight n s p → Tight n s (error_at token message p).1
    kept p h =
        if-both (λ (r : Unit {0} × Parser). Tight n s r.1) p.panic_mode (tt, p)
          (
            tt,
            record p {
              panic_mode = true;
              had_error = true;
              error_line = token.line;
              error_message = some message;
            },
          )
          h
          record {
            fuel = h.fuel;
            token = h.token;
            before = omega (arith, h.before);
            bound = omega (arith, h.bound);
            panic = refl;
          }

pub Tight-Moves : (n s : ℕ) → s ≤ n → Moves (Tight n s)
unfolding next_token_of restore_current restore_line restore_start_line enter leave write_buffer
Tight-Moves n s room = record {
  advances = record { at = λ p h. advance-Tight n n s s p h (omega arith) (omega (arith, room)) };
  fails = error_at-Tight n s;
  writes = λ b. record { at = λ p h. same p _ h refl refl refl refl refl refl };
  looks = record { at = λ p h. same p _ h refl refl refl refl refl refl };
  looks_line = record { at = λ p h. same p _ h refl refl refl refl refl refl };
  looks_start_line = record { at = λ p h. same p _ h refl refl refl refl refl refl };
  enters = record { at = λ p h. same p _ h refl refl refl refl refl refl };
  leaves = record { at = λ p h. same p _ h refl refl refl refl refl refl };
}
  where
    same :
        (p q : Parser)
        → Tight n s p
        → q.exhausted ≡ p.exhausted
        → q.current ≡ p.current
        → q.previous ≡ p.previous
        → q.had_error ≡ p.had_error
        → q.panic_mode ≡ p.panic_mode
        → q.lexer.current ≡ p.lexer.current
        → Tight n s q
    same p q h e c v d k l = record {
      fuel = e ∙ h.fuel;
      token = rw c h.token;
      before = rw v (rw d h.before);
      bound = rw c (rw l (rw d h.bound));
      panic = k ∙ (h.panic ∙ sym d);
    }

-- The first token of a text.
pub advance-first :
    (n s : ℕ) (p : Parser)
    → p.exhausted ≡ false
    → p.panic_mode ≡ p.had_error
    → p.current.length + mark p ≤ suc n
    → length p.lexer.current + mark p ≤ s
    → Tight n s (advance p).1
advance-first n s p e h k l =
    let (fuel, previous, token, shrinks) = advance_lem p in
    let less = advance-mark p h in
    record {
      fuel = fuel ∙ e;
      token = token;
      before = omega (arith, less, k, ap (λ (x : Token). x.length) previous);
      bound = omega (arith, less, shrinks, l);
      panic = (advance-Keeps Agree error_at-Agree).at p h;
    }
