-- ===== src/Lexer/Moves.antt =====
-- How the scanner's functions move through the text: src/slp_lexer.c.
use mathlib.Core.List.{tail}
use slp.Lexer.Scan.{
  Scanned, emit, fail_with, scan_identifier, scan_suffix, scan_fraction, scan_exponent, string_body,
  scan_string, scan_sigil, scan_passed_name, scan_backslash, scan_dot, scan_minus, scan_plus,
  scan_slash, scan_star, class_name, scan_caret, scan_pipe, scan_ampersand, scan_bang, scan_equal,
  scan_less, scan_greater, scan_scalar, scan_dollar,
}
use slp.Lexer.State.{Lexer, advance, error_token, advance_while, skip_while, make_token}
use slp.Lexer.Token.{TokenType}
use slp.Prelude.{
  ℕ, ◌+◌, ◌≤◌, ◌≡◌, ◌⊎◌, inl, inr, refl, sym, ap, ◌∙◌, Bool, true, false, [], ◌∷◌, ◌++◌, ◌==◌,
  if◌then◌else◌, Bytes, arith, append_assoc,
}

abbrev pub newlines : Bytes → ℕ
newlines [] = 0
newlines (c ∷ cs) = (if c == b'\n' then 1 else 0) + newlines cs

pub newlines-append : (xs ys : Bytes) → newlines (xs ++ ys) ≡ newlines xs + newlines ys
newlines-append [] ys = omega arith
newlines-append (c ∷ xs) ys = omega (arith, newlines-append xs ys)

-- `l'` is further in the same text, behind `passed`; its line has grown by at most the newlines
-- that were passed.
pub record Moves (l l' : Lexer) : Type 0 where
  pub passed : Bytes
  pub splits : l.current ≡ passed ++ l'.current
  pub start : l'.start ≡ l.start
  pub line_from : l.line ≤ l'.line
  pub line_to : l'.line ≤ l.line + newlines passed

pub Moves-refl : (l : Lexer) → Moves l l
Moves-refl l = record {
  passed = [];
  splits = refl;
  start = refl;
  line_from = omega arith;
  line_to = omega arith;
}

pub Moves-trans : {a b c : Lexer} → Moves a b → Moves b c → Moves a c
Moves-trans {a} {b} {c} m n = record {
  passed = m.passed ++ n.passed;
  splits =
      m.splits ∙ ap (λ t. m.passed ++ t) n.splits ∙ sym (append_assoc m.passed n.passed c.current);
  start = n.start ∙ m.start;
  line_from = omega (arith, m.line_from, n.line_from);
  line_to = omega (arith, m.line_to, n.line_to, newlines-append m.passed n.passed);
}

-- Text taken with the line left alone.
Moves-take :
    (l : Lexer) (passed rest : Bytes)
    → l.current ≡ passed ++ rest
    → Moves l (record l { current = rest })
Moves-take l passed rest e = record {
  passed = passed;
  splits = e;
  start = refl;
  line_from = omega arith;
  line_to = omega arith;
}

-- `rest` is the end of `t`.
abbrev pub Ends : Bytes → Bytes → Type 0
Ends rest t = (s : Bytes) × (t ≡ s ++ rest)

Ends-if : (t : Bytes) (b : Bool) {x y : Bytes} → Ends x t → Ends y t → Ends (if b then x else y) t
Ends-if t true p q = p
Ends-if t false p q = q

pub tail_split : (t : Bytes) → Ends (tail t) t
tail_split [] = ([], refl)
tail_split (c ∷ cs) = (c ∷ [], refl)

-- What the loop of a string leaves, and the line then.
record StringEnds (t : Bytes) (n : ℕ) (r : Bytes × ℕ) : Type 0 where
  passed : Bytes
  splits : t ≡ passed ++ r.0
  line_from : n ≤ r.1
  line_to : r.1 ≤ n + newlines passed

StringEnds-if :
    (t : Bytes) (n : ℕ) (b : Bool) {x y : Bytes × ℕ}
    → StringEnds t n x
    → StringEnds t n y
    → StringEnds t n (if b then x else y)
StringEnds-if t n true p q = p
StringEnds-if t n false p q = q

StringEnds-here : (t : Bytes) (n : ℕ) → StringEnds t n (t, n)
StringEnds-here t n = record {
  passed = [];
  splits = refl;
  line_from = omega arith;
  line_to = omega arith;
}

abbrev counted : ℕ → ℕ → ℕ
counted c n = if c == b'\n' then n + 1 else n

string_body-StringEnds : (quote : ℕ) (t : Bytes) (n : ℕ) → StringEnds t n (string_body quote t n)
unfolding string_body
string_body-StringEnds quote [] n = StringEnds-here [] n
string_body-StringEnds quote (c ∷ []) n =
    StringEnds-if (c ∷ []) n _ (StringEnds-here (c ∷ []) n)
      (record { passed = c ∷ []; splits = refl; line_from = ground arith; line_to = ground arith })
string_body-StringEnds quote (c ∷ d ∷ cs) n =
    let e = string_body-StringEnds quote cs n in
    let p = string_body-StringEnds quote (d ∷ cs) (counted c n) in
    StringEnds-if _ n _ (StringEnds-here (c ∷ d ∷ cs) n) (
      StringEnds-if _ n _
        (record {
          passed = c ∷ d ∷ e.passed;
          splits = ap (λ t. c ∷ d ∷ t) e.splits;
          line_from = e.line_from;
          line_to = ground (arith, e.line_to);
        })
        (record {
          passed = c ∷ p.passed;
          splits = ap (◌∷◌ c) p.splits;
          line_from = ground (arith, p.line_from);
          line_to = ground (arith, p.line_to);
        }))

pub Moves-advance : (l : Lexer) → Moves l (advance l)
unfolding advance
Moves-advance l = let (p, e) = tail_split l.current in Moves-take l p (tail l.current) e

pub skip_while_split : (p : ℕ → Bool) (t : Bytes) → Ends (skip_while p t) t
unfolding skip_while
skip_while_split p [] = ([], refl)
skip_while_split p (c ∷ cs) =
    let (s, h) = skip_while_split p cs in Ends-if (c ∷ cs) (p c) (c ∷ s, ap (◌∷◌ c) h) ([], refl)

pub Moves-advance_while : (p : ℕ → Bool) (l : Lexer) → Moves l (advance_while p l)
unfolding advance_while
Moves-advance_while p l =
    let (s, e) = skip_while_split p l.current in Moves-take l s (skip_while p l.current) e

class_name_split : (t : Bytes) → Ends (class_name t) t
unfolding class_name
class_name_split [] = ([], refl)
class_name_split (c ∷ cs) =
    let (s, h) = class_name_split cs in Ends-if (c ∷ cs) _ (c ∷ s, ap (◌∷◌ c) h) ([], refl)

-- A scan from `l` ends further on, with the token that make_token builds there, or an error.
pub record Scans (l : Lexer) (r : Scanned) : Type 0 where
  pub moves : Moves l r.1
  pub made : (r.0 ≡ make_token r.1 r.0.type) ⊎ (r.0.type ≡ TokenType.error)
  pub line : r.0.line ≡ r.1.line

pub Scans-emit : {l : Lexer} (type : TokenType) (l' : Lexer) → Moves l l' → Scans l (emit type l')
unfolding emit make_token
Scans-emit type l' m = record { moves = m; made = inl refl; line = refl }

pub Scans-if :
    {l : Lexer} (b : Bool) {x y : Scanned} → Scans l x → Scans l y → Scans l (if b then x else y)
Scans-if true s t = s
Scans-if false s t = t

Moves-if :
    {l : Lexer} (b : Bool) {x y : Lexer} → Moves l x → Moves l y → Moves l (if b then x else y)
Moves-if true s t = s
Moves-if false s t = t

pub ahead : {l a : Lexer} → Moves l a → Moves l (advance a)
ahead m = Moves-trans m (Moves-advance _)

pub past : {l a : Lexer} (p : ℕ → Bool) → Moves l a → Moves l (advance_while p a)
past p m = Moves-trans m (Moves-advance_while p _)

pub Scans-fail_with :
    {l : Lexer} (message : Bytes) (l' : Lexer) → Moves l l' → Scans l (fail_with message l')
unfolding fail_with error_token
Scans-fail_with message l' m = record { moves = m; made = inr refl; line = refl }

past_class_name : {l a : Lexer} → Moves l a → Moves l (record a { current = class_name a.current })
past_class_name {a = a} m =
    let (s, e) = class_name_split a.current in Moves-trans m (Moves-take a s _ e)

ruleset branches = (Scans-if, Scans-emit, Moves-if, past, ahead)

module _ {l : Lexer} (a : Lexer) (m : Moves l a) where
  pub scan_identifier-Scans : Scans l (scan_identifier a)
  unfolding scan_identifier
  scan_identifier-Scans = Scans-emit _ _ (past _ m)

  pub scan_suffix-Scans : Scans l (scan_suffix a)
  unfolding scan_suffix
  scan_suffix-Scans = Scans-if _ (Scans-emit _ _ (ahead m)) (Scans-emit _ a m)

  pub scan_fraction-Moves : Moves l (scan_fraction a)
  unfolding scan_fraction
  scan_fraction-Moves = Moves-if _ (past _ (ahead m)) m

  pub scan_exponent-Moves : Moves l (scan_exponent a)
  unfolding scan_exponent
  scan_exponent-Moves = past _ (Moves-if _ (ahead (ahead m)) (ahead m))

  pub scan_sigil-Scans : (type : TokenType) → Scans l (scan_sigil type a)
  unfolding scan_sigil
  scan_sigil-Scans type = Scans-emit type _ (Moves-if _ (past _ m) m)

  pub scan_passed_name-Scans : Scans l (scan_passed_name a)
  unfolding scan_passed_name
  scan_passed_name-Scans = Scans-if _ (Scans-emit _ _ (past _ (ahead m))) (Scans-emit _ a m)

  pub scan_dot-Scans : Scans l (scan_dot a)
  unfolding scan_dot
  scan_dot-Scans = search branches depth 8

  pub scan_minus-Scans : Scans l (scan_minus a)
  unfolding scan_minus
  scan_minus-Scans = search branches depth 8

  pub scan_plus-Scans : Scans l (scan_plus a)
  unfolding scan_plus
  scan_plus-Scans = search branches depth 8

  pub scan_slash-Scans : Scans l (scan_slash a)
  unfolding scan_slash
  scan_slash-Scans = search branches depth 8

  pub scan_star-Scans : Scans l (scan_star a)
  unfolding scan_star
  scan_star-Scans = search branches depth 8

  pub scan_caret-Scans : Scans l (scan_caret a)
  unfolding scan_caret
  scan_caret-Scans = search (branches, past_class_name) depth 8

  pub scan_pipe-Scans : Scans l (scan_pipe a)
  unfolding scan_pipe
  scan_pipe-Scans = search branches depth 8

  pub scan_ampersand-Scans : Scans l (scan_ampersand a)
  unfolding scan_ampersand
  scan_ampersand-Scans = search branches depth 8

  pub scan_bang-Scans : Scans l (scan_bang a)
  unfolding scan_bang
  scan_bang-Scans = search branches depth 8

  pub scan_equal-Scans : Scans l (scan_equal a)
  unfolding scan_equal
  scan_equal-Scans = search branches depth 8

  pub scan_less-Scans : Scans l (scan_less a)
  unfolding scan_less
  scan_less-Scans = search branches depth 8

  pub scan_greater-Scans : Scans l (scan_greater a)
  unfolding scan_greater
  scan_greater-Scans = search branches depth 8

  pub scan_scalar-Scans : Scans l (scan_scalar a)
  unfolding scan_scalar
  scan_scalar-Scans = search branches depth 8

  pub scan_backslash-Scans : Scans l (scan_backslash a)
  unfolding scan_backslash scan_passed_name
  scan_backslash-Scans = search branches depth 8

  pub scan_dollar-Scans : Scans l (scan_dollar a)
  unfolding scan_dollar scan_scalar
  scan_dollar-Scans = search branches depth 14

  pub scan_string-Scans : (quote : ℕ) (type : TokenType) → Scans l (scan_string quote type a)
  unfolding scan_string
  scan_string-Scans quote type =
      let b = string_body-StringEnds quote a.current a.line in
      let n = Moves-trans m (record {
        passed = b.passed;
        splits = b.splits;
        start = refl;
        line_from = b.line_from;
        line_to = b.line_to;
      }) in
      Scans-if _ (Scans-fail_with _ _ n) (Scans-emit type _ (ahead n))
