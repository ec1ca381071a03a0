-- ===== src/Lexer/Blanks.antt =====
-- What skip_whitespace of src/slp_lexer.c passes over, and that its loop ends.
use mathlib.Core.List.{tail}
use slp.Lexer.Moves.{Moves, Moves-refl, Moves-trans, Moves-advance, Moves-advance_while, newlines}
use slp.Lexer.State.{
  Lexer, peek, advance, advance_while, skip_while, in_comment, skip_rounds, skip_whitespace,
}
use slp.Prelude.{
  ℕ, zero, suc, ◌+◌, ◌≤◌, ◌≡◌, refl, inl, inr, Bool, true, false, ◌||◌, [], ◌∷◌, ◌++◌, ◌==◌, Bytes,
  length, get_or, arith, Bool-cases,
}

-- A character at which the loop goes on.
abbrev pub is_skipped : ℕ → Bool
is_skipped c = (c == b' ' || c == b'\r' || c == b'\t') || c == b'\n' || c == b'#'

newline_taken :
    (t : Bytes)
    → (get_or t 0 0 == b'\n') ≡ true
    → (p : Bytes) × (t ≡ p ++ tail t) × (1 ≤ newlines p)
newline_taken [] h = absurd (ground arith)
newline_taken (c ∷ cs) h = (c ∷ [], refl, ground arith)

Moves-newline :
    (l : Lexer) → (peek l == b'\n') ≡ true → Moves l (advance (record l { line = l.line + 1 }))
unfolding peek advance
Moves-newline l h =
    let (p, e, n) = newline_taken l.current h in
    record { passed = p; splits = e; start = refl; line_from = omega arith; line_to = omega arith }

skip_rounds-Moves : (f : ℕ) (l : Lexer) → Moves l (skip_rounds f l)
unfolding skip_rounds
skip_rounds-Moves zero l = Moves-refl l
skip_rounds-Moves (suc f) l =
    elim (Bool-cases (peek l == b' ' || peek l == b'\r' || peek l == b'\t')) [
      | inl e ↦ rw e (Moves-trans (Moves-advance l) (skip_rounds-Moves f (advance l)))
      | inr e ↦ elim (Bool-cases (peek l == b'\n')) [
        | inl n ↦ rw (e, n) (Moves-trans (Moves-newline l n) (skip_rounds-Moves f _))
        | inr n ↦ elim (Bool-cases (peek l == b'#')) [
          | inl h ↦
              rw (e, n, h)
                (Moves-trans (Moves-advance_while in_comment l)
                  (skip_rounds-Moves f (advance_while in_comment l)))
          | inr h ↦ rw (e, n, h) (Moves-refl l)
        ]
      ]
    ]

pub skip_whitespace-Moves : (l : Lexer) → Moves l (skip_whitespace l)
unfolding skip_whitespace
skip_whitespace-Moves l = skip_rounds-Moves (length l.current) l

length-skip_while : (p : ℕ → Bool) (t : Bytes) → length (skip_while p t) ≤ length t
unfolding skip_while
length-skip_while p [] = omega arith
length-skip_while p (c ∷ cs) = ground (arith, length-skip_while p cs)

pub length-tail : (t : Bytes) (f : ℕ) → length t ≤ suc f → length (tail t) ≤ f
length-tail [] f h = omega arith
length-tail (c ∷ cs) f h = omega arith

-- A comment's `#` is taken.
pub length_comment :
    (t : Bytes) (f : ℕ)
    → (get_or t 0 0 == b'#') ≡ true
    → length t ≤ suc f
    → length (skip_while in_comment t) ≤ f
unfolding skip_while
length_comment [] f e h = absurd (ground arith)
length_comment (c ∷ cs) f e h = ground (arith, length-skip_while in_comment cs)

pub nothing_left : (t : Bytes) → length t ≤ 0 → is_skipped (get_or t 0 0) ≡ false
nothing_left [] h = refl
nothing_left (c ∷ cs) h = absurd (omega (arith, h))

skip_rounds_ends :
    (f : ℕ) (l : Lexer)
    → length l.current ≤ f
    → is_skipped (get_or (skip_rounds f l).current 0 0) ≡ false
unfolding skip_rounds peek advance advance_while
skip_rounds_ends zero l h = nothing_left l.current h
skip_rounds_ends (suc f) l h =
    elim (Bool-cases (peek l == b' ' || peek l == b'\r' || peek l == b'\t')) [
      | inl e ↦ rw e (skip_rounds_ends f (advance l) (length-tail l.current f h))
      | inr e ↦ elim (Bool-cases (peek l == b'\n')) [
        | inl n ↦
            rw (e, n)
              (skip_rounds_ends f (advance (record l { line = l.line + 1 }))
                (length-tail l.current f h))
        | inr n ↦ elim (Bool-cases (peek l == b'#')) [
          | inl m ↦
              rw (e, n, m)
                (skip_rounds_ends f (advance_while in_comment l) (length_comment l.current f m h))
          | inr m ↦ rw (e, n, m) (rw (e, n, m))
        ]
      ]
    ]

-- The loop has ended by its own test, not by the model's fuel: what comes next is no blank, no
-- newline and no comment.
pub skip_whitespace_ends : (l : Lexer) → is_skipped (peek (skip_whitespace l)) ≡ false
unfolding skip_whitespace peek
skip_whitespace_ends l = skip_rounds_ends (length l.current) l (omega arith)
