-- ===== src/Parser/Quoted.antt =====
-- Parsed strings take no fuel: the width of a variable is shorter than the string that it stands in.
-- Lines 235 to 514 of src/slp_parser.c.
use slp.Parser.Ast.{Node}
use slp.Parser.Closed.{Moves, moves_rules, line-Keeps}
use slp.Parser.Keeps.{
  Keeps, keeps_rules, Keeps-bind, Leads-pure, Leads-option, Leads-if, Leads-bind-gets, if-both,
}
use slp.Lexer.Token.{TokenType, Token}
use slp.Parser.Kinds.{same_type}
use slp.Parser.Literals.{string_val, previous}
use slp.Parser.Segments.{
  Segments, fail, find_close, alignment, width_of, variable_segment, segment, segments,
  finish_segments, parse_double_quoted_string, behind_close, prepend, name_length,
}
use slp.Parser.State.{Parser, Do, Message, pure, ◌>>=◌}
use slp.Parser.Strings.{
  note_exhausted, check_width, parse_alignment_width, nested_expression, inner,
  copy_unquoted_lexeme,
}
use slp.Parser.Tight.{Tight, Tight-Moves}
use slp.Prelude.{
  arith, ℕ, zero, suc, ◌+◌, ◌-◌, ◌≤◌, ◌≡◌, ◌||◌, refl, Bool, true, false, Option, some, none, Bytes,
  [], ◌∷◌, length, drop, take, if◌then◌else◌,
}

-- Both texts, with the bracket between them, are no longer than k.
abbrev Between : ℕ → Option (Bytes × Bytes) → Type 0
Between k none = Unit
Between k (some (before, behind)) = suc (length before + length behind) ≤ k

prepend-Between :
    (k c : ℕ) (o : Option (Bytes × Bytes)) → Between k o → Between (suc k) (prepend c o)
prepend-Between k c none h = tt
prepend-Between k c (some (before, behind)) h = omega (arith, h)

find_close-Between : (cs : Bytes) (depth : ℕ) → Between (length cs) (find_close depth cs)
unfolding find_close
find_close-Between [] depth = tt
find_close-Between (c ∷ cs) depth =
    let here : Between (suc (length cs)) (some ([], cs)) = omega arith in
    if-both (Between (suc (length cs))) _ (some ([], cs)) _ here
      (prepend-Between (length cs) c _ (find_close-Between cs _))

length-take : (k : ℕ) (cs : Bytes) → length (take k cs) ≤ k
length-take zero cs = omega arith
length-take (suc k) [] = omega arith
length-take (suc k) (c ∷ cs) = let h = length-take k cs in omega (arith, h)

-- What is left to read of the text, where there was no error.
abbrev Left : {A : Type 0} → ℕ → Option (A × Bytes) → Type 0
Left k none = Unit
Left k (some (a, cs)) = length cs ≤ k

Left-weaken : {A : Type 0} (k l : ℕ) → k ≤ l → (o : Option (A × Bytes)) → Left k o → Left l o
Left-weaken k l h none d = tt
Left-weaken k l h (some (a, cs)) d = omega (arith, h, d)

pub record Short (k : ℕ) {A : Type 0} (m : Do (Option (A × Bytes))) : Type 0 where
  pub left : (p : Parser) → Left k (m p).0

module _ {A : Type 0} {k : ℕ} where
  Short-pure : (o : Option (A × Bytes)) → Left k o → Short k (pure o)
  unfolding pure
  Short-pure o h = record { left = λ p. h }

  Short-found : (a : A) (cs : Bytes) → length cs ≤ k → Short k (pure (some (a, cs)))
  Short-found a cs h = Short-pure (some (a, cs)) h

  Short-fail : (message : Message) → Short k (fail {A = A × Bytes} message)
  unfolding fail ◌>>=◌ pure
  Short-fail message = record { left = λ p. tt }

  Short-option :
      {B : Type 0} (m : Do (Option B)) (f : B → A × Bytes)
      → ((b : B) → length (f b).1 ≤ k)
      → Short k {A = A} (m >>= λ r. elim r [ none ↦ pure none | some b ↦ pure (some (f b)) ])
  unfolding ◌>>=◌ pure
  Short-option {B = B} m f h = record { left = λ p. found (m p).0 (m p).1 }
    where
      found :
          (r : Option B) (p : Parser)
          → let o : Do (Option (A × Bytes)) = elim r [
            | none ↦ pure none
            | some b ↦ pure (some (f b))
          ] in
            Left k (o p).0
      found none p = tt
      found (some b) p = h b

  Short-if :
      (b : Bool) (m o : Do (Option (A × Bytes)))
      → Short k m
      → Short k o
      → Short k (if b then m else o)
  Short-if true m o h l = h
  Short-if false m o h l = l

length-drop : (k : ℕ) (cs : Bytes) → length (drop k cs) ≤ length cs
length-drop zero cs = omega arith
length-drop (suc k) [] = omega arith
length-drop (suc k) (c ∷ cs) = let h = length-drop k cs in omega (arith, h)

behind_close-length :
    (k : ℕ) (o : Option (Bytes × Bytes)) → Between k o → length (behind_close o) ≤ k
unfolding behind_close
behind_close-length k none h = omega arith
behind_close-length k (some (before, behind)) h = omega (arith, h)

module _ (e : Do Node) where
  variable_segment-Short : (s : Segments) (cs : Bytes) → Short (length cs) (variable_segment e s cs)
  unfolding variable_segment ◌>>=◌
  variable_segment-Short s cs = Short-option _ _ (λ width. (name_lem _))
    where
      name_lem :
          (b : Bool)
          → let name = if b then behind_close (find_close 1 (drop 1 cs)) else cs in
            length (drop (name_length name) name) ≤ length cs
      name_lem true =
          let k = length-drop 1 cs in
          let l = behind_close-length _ _ (find_close-Between (drop 1 cs) 1) in
          let r =
            length-drop (name_length (behind_close (find_close 1 (drop 1 cs))))
              (behind_close (find_close 1 (drop 1 cs))) in
          omega (arith, k, l, r)
      name_lem false = length-drop _ cs

  segment-Short : (s : Segments) (c : ℕ) (cs : Bytes) → Short (length cs) (segment e s c cs)
  unfolding segment
  segment-Short s c cs =
      search (Short-if, Short-fail, Short-found, variable_segment-Short, length-drop, whole) depth
        14
    where
      whole : length cs ≤ length cs
      whole = omega arith

module _ (e : Do Node) (n s : ℕ) (room : s ≤ n)
    (nested : (source : Bytes)
      → suc (length source) ≤ n
      → (nested_expression e source).1.exhausted ≡ false) where
  abbrev moves : Moves (Tight n s)
  moves = Tight-Moves n s room

  note_exhausted-Tight : (b : Bool) → b ≡ false → Keeps (Tight n s) (note_exhausted b)
  unfolding note_exhausted
  note_exhausted-Tight b e = record {
    at = λ p h. record {
      fuel = rw e (or_false _ h.fuel);
      token = h.token;
      before = h.before;
      bound = h.bound;
      panic = h.panic;
    };
  }
    where
      or_false : (b : Bool) → b ≡ false → (b || false) ≡ false
      or_false true k = k
      or_false false k = refl

  width-Tight :
      (source : Bytes)
      → suc (length source) ≤ n
      → Keeps (Tight n s) (parse_alignment_width e source)
  unfolding parse_alignment_width check_width
  width-Tight source l =
      Keeps-bind _ _ (note_exhausted-Tight _ (nested source l))
        (λ u. let m = moves in search moves_rules)

  alignment-Tight :
      (found : Option (Bytes × Bytes)) → Between n found → Keeps (Tight n s) (alignment e found)
  unfolding alignment
  alignment-Tight none l = let m = moves in search moves_rules
  alignment-Tight (some ([], behind)) l = let m = moves in search moves_rules
  alignment-Tight (some (c ∷ source, behind)) l =
      Keeps-bind _ _ (width-Tight (c ∷ source) (omega (arith, l)))
        (λ w. let m = moves in search moves_rules)

  width_of-Tight : (b : Bool) (cs : Bytes) → length cs ≤ n → Keeps (Tight n s) (width_of e b cs)
  unfolding width_of
  width_of-Tight false cs l = Leads-pure _
  width_of-Tight true cs l =
      Keeps-bind _ _ (alignment-Tight _ (between-weaken _ (find_close-Between cs 1)))
        (λ r. Leads-option r _ _ (Leads-pure _) (λ w. Leads-pure _))
    where
      between-weaken : (o : Option (Bytes × Bytes)) → Between (length cs) o → Between n o
      between-weaken none h = tt
      between-weaken (some (before, behind)) h = omega (arith, h, l)

  variable_segment-Tight :
      (g : Segments) (cs : Bytes) → length cs ≤ n → Keeps (Tight n s) (variable_segment e g cs)
  unfolding variable_segment
  variable_segment-Tight g cs l =
      let k = length-drop 1 cs in
      Keeps-bind _ _ (width_of-Tight _ (drop 1 cs) (omega (arith, k, l)))
        (λ r. Leads-option r _ _ (Leads-pure _) (λ w. Leads-pure _))

  fail-Tight : {A : Type 0} (message : Message) → Keeps (Tight n s) (fail {A = A} message)
  unfolding fail
  fail-Tight message = let m = moves in search moves_rules

  segment-Tight :
      (g : Segments) (c : ℕ) (cs : Bytes) → length cs ≤ n → Keeps (Tight n s) (segment e g c cs)
  unfolding segment
  segment-Tight g c cs l = search (keeps_rules, fail-Tight, variable_segment-Tight) depth 20

  found-Tight :
      (k : ℕ) (o : Option (Segments × Bytes)) (p : Parser)
      → ((g : Segments) (cs : Bytes) → length cs ≤ k → Keeps (Tight n s) (segments k e g cs))
      → Tight n s p
      → Left k o
      → let m : Do (Option Segments) = elim o [
        | none ↦ pure none
        | some x ↦ segments k e x.0 x.1
      ] in
        Tight n s (m p).1
  unfolding pure
  found-Tight k none p rest h d = h
  found-Tight k (some (g, cs)) p rest h d = (rest g cs d).at p h

  segments-Tight :
      (k : ℕ)
      → k ≤ suc n
      → (g : Segments) (cs : Bytes) → length cs ≤ k
      → Keeps (Tight n s) (segments k e g cs)
  unfolding segments ◌>>=◌
  segments-Tight k r g [] l = Leads-pure _
  segments-Tight zero r g (c ∷ cs) l = absurd (omega (arith, l))
  segments-Tight (suc k) r g (c ∷ cs) l = record {
    at = λ p h.
        let q = segment e g c cs p in
        found-Tight k q.0 q.1 (segments-Tight k (omega (arith, r)))
          ((segment-Tight g c cs (omega (arith, l, r))).at p h)
          (Left-weaken (length cs) k (omega (arith, l)) q.0 ((segment-Short e g c cs).left p));
  }

  finish_segments-Tight : (r : Option Segments) → Keeps (Tight n s) (finish_segments r)
  unfolding finish_segments
  finish_segments-Tight none = Leads-pure _
  finish_segments-Tight (some g) = let m = moves in search moves_rules

  body-Tight :
      (token : Token)
      → length (inner token) ≤ suc n
      → (g : Segments) → Keeps (Tight n s) (segments (length (inner token)) e g (inner token))
  body-Tight token r g = segments-Tight (length (inner token)) r g (inner token) (omega arith)

  quoted-Tight :
      (token : Token)
      → token.length ≤ suc n
      → Keeps (Tight n s) (parse_double_quoted_string e token)
  unfolding parse_double_quoted_string inner
  quoted-Tight token l =
      let r = inner_length token l in
      let m = moves in search (moves_rules, body-Tight, finish_segments-Tight) depth 20
    where
      inner_length : (token : Token) → token.length ≤ suc n → length (inner token) ≤ suc n
      inner_length token l =
          let k = length-take (token.length - 2) (drop 1 token.start) in omega (arith, k, l)

  pub string_val-Tight : Keeps (Tight n s) (string_val e)
  unfolding string_val previous
  string_val-Tight = Leads-bind-gets _ _ (λ p h.
      let b = h.before in
      let m = moves in
      (Keeps-bind _ _ (line-Keeps m) (λ l.
          Leads-if (same_type p.previous.type TokenType.string)
            (parse_double_quoted_string e p.previous)
            (pure (Node.string l (copy_unquoted_lexeme p.previous)))
            (λ t. quoted-Tight p.previous (omega (arith, b))) (λ t. Leads-pure _))).at
        p h)
