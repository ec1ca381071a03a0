-- ===== src/Lexer/Skipped.antt =====
-- The texts that skip_whitespace of src/slp_lexer.c passes over: blanks, newlines and comments to the
-- end of their line, as many as there are.
use mathlib.Core.List.{tail}
use slp.Lexer.Blanks.{is_skipped, nothing_left, length-tail, length_comment}
use slp.Lexer.State.{
  Lexer, peek, advance, advance_while, skip_while, in_comment, skip_rounds, skip_whitespace,
}
use slp.Prelude.{
  ℕ, zero, suc, ◌+◌, ◌≤◌, ◌≡◌, refl, sym, subst, ap, ◌∙◌, inl, inr, Bool, true, false, ◌||◌, [],
  ◌∷◌, ◌++◌, ◌==◌, Bytes, length, get_or, arith, All, Bool-cases, append_assoc,
}

abbrev pub is_white : ℕ → Bool
is_white c = c == b' ' || c == b'\r' || c == b'\t' || c == b'\n'

-- A line ends at a newline and at the terminating 0.
abbrev pub ends_line : ℕ → Bool
ends_line c = c == b'\n' || c == 0

-- The first text is blanks and comments, each comment up to the end of its line, and what follows it,
-- the second text, begins with neither.
pub data IsBlanks : Bytes → Bytes → Type 0 where
  nothing : {rest : Bytes} → is_skipped (get_or rest 0 0) ≡ false → IsBlanks [] rest
  white :
      {c : ℕ} {passed rest : Bytes}
      → is_white c ≡ true
      → IsBlanks passed rest
      → IsBlanks (c ∷ passed) rest
  comment :
      {passed rest : Bytes} (text : Bytes)
      → All (λ c. ends_line c ≡ false) text
      → ends_line (get_or (passed ++ rest) 0 0) ≡ true
      → IsBlanks passed rest
      → IsBlanks (b'#' ∷ (text ++ passed)) rest

-- From the first text, blanks are taken and the second is left.
pub record Skips (t rest : Bytes) : Type 0 where
  pub passed : Bytes
  pub splits : t ≡ passed ++ rest
  pub blanks : IsBlanks passed rest

white_Skips : (t rest : Bytes) → is_white (get_or t 0 0) ≡ true → Skips (tail t) rest → Skips t rest
white_Skips [] rest h s = absurd (ground (arith, h))
white_Skips (c ∷ cs) rest h s = record {
  passed = c ∷ s.passed;
  splits = ap (◌∷◌ c) s.splits;
  blanks = IsBlanks.white h s.blanks;
}

-- The rest of a line.
record Line (t : Bytes) : Type 0 where
  text : Bytes
  splits : t ≡ text ++ skip_while in_comment t
  inside : All (λ c. ends_line c ≡ false) text
  ended : ends_line (get_or (skip_while in_comment t) 0 0) ≡ true

line_lem : (t : Bytes) → Line t
unfolding skip_while
line_lem [] = record { text = []; splits = refl; inside = tt; ended = refl }
line_lem (c ∷ cs) = elim (Bool-cases (in_comment c)) [
  | inl e ↦
      let l = line_lem cs in
      record {
        text = c ∷ l.text;
        splits = rw e (ap (◌∷◌ c) l.splits);
        inside = (ground (arith, e), l.inside);
        ended = rw e l.ended;
      }
  | inr e ↦ record { text = []; splits = rw e refl; inside = tt; ended = rw e (ground (arith, e)) }
]

hash_Skips : (cs rest : Bytes) → Skips (skip_while in_comment cs) rest → Skips (b'#' ∷ cs) rest
hash_Skips cs rest s =
    let l = line_lem cs in
    record {
      passed = b'#' ∷ (l.text ++ s.passed);
      splits =
          ap (◌∷◌ b'#')
            (l.splits ∙ ap (λ t. l.text ++ t) s.splits ∙ sym (append_assoc l.text s.passed rest));
      blanks = IsBlanks.comment l.text l.inside (rw⁻¹ s.splits l.ended) s.blanks;
    }

comment_Skips :
    (t rest : Bytes)
    → (get_or t 0 0 == b'#') ≡ true
    → Skips (skip_while in_comment t) rest
    → Skips t rest
unfolding skip_while
comment_Skips [] rest h s = absurd (ground (arith, h))
comment_Skips (c ∷ cs) rest h s =
    let same : c ≡ b'#' = ground (arith, h) in
    let s' = subst (λ k. Skips (skip_while in_comment (k ∷ cs)) rest) same s in
    subst (λ k. Skips (k ∷ cs) rest) (sym same) (hash_Skips cs rest s')

skip_rounds-Skips :
    (f : ℕ) (l : Lexer) → length l.current ≤ f → Skips l.current (skip_rounds f l).current
unfolding skip_rounds peek advance advance_while
skip_rounds-Skips zero l h = record {
  passed = [];
  splits = refl;
  blanks = IsBlanks.nothing (nothing_left l.current h);
}
skip_rounds-Skips (suc f) l h =
    elim (Bool-cases (peek l == b' ' || peek l == b'\r' || peek l == b'\t')) [
      | inl e ↦ rw e (
          white_Skips l.current _ (ground (arith, e))
            (skip_rounds-Skips f (advance l) (length-tail l.current f h)))
      | inr e ↦ elim (Bool-cases (peek l == b'\n')) [
        | inl n ↦
            rw (e, n)
              (white_Skips l.current _ (ground (arith, n)) (
                skip_rounds-Skips f (advance (record l { line = l.line + 1 }))
                  (length-tail l.current f h)))
        | inr n ↦ elim (Bool-cases (peek l == b'#')) [
          | inl m ↦
              rw (e, n, m)
                (comment_Skips l.current _ m (
                  skip_rounds-Skips f (advance_while in_comment l)
                    (length_comment l.current f m h)))
          | inr m ↦
              rw (e, n, m)
                (record {
                  passed = [];
                  splits = refl;
                  blanks = IsBlanks.nothing (rw (e, n, m) refl);
                })
        ]
      ]
    ]

pub skip_whitespace-Skips : (l : Lexer) → Skips l.current (skip_whitespace l).current
unfolding skip_whitespace
skip_whitespace-Skips l = skip_rounds-Skips (length l.current) l (omega arith)
