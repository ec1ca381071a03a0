-- ===== src/Parser/Turns.antt =====
-- The loops of src/slp_parser.c end: each round but the last takes a token or ends with an error.
use slp.Lexer.Token.{TokenType, Token}
use slp.Parser.Advance.{IsToken}
use slp.Parser.Keeps.{Keeps}
use slp.Parser.Kinds.{same_type}
use slp.Parser.State.{Parser, Do, size, pure, gets, rounds, loop, advance, check, match, ◌>>=◌}
use slp.Parser.Tight.{Tight, Tight-weaken, advance-Tight}
use slp.Prelude.{
  arith, ℕ, zero, suc, ◌-◌, ◌≤◌, ◌<◌, ◌≡◌, inl, inr, refl, sym, ap, ◌∙◌, Bool, true, false,
  if◌then◌else◌,
}

-- What is left is kept, and is less where the result says that there is more to do.
pub record Turns (n s : ℕ) {A : Type 0} (more : A → Bool) (m : Do A) : Type 0 where
  pub keeps : (p : Parser) → Tight n s p → Tight n s (m p).1
  pub takes : (p : Parser) → Tight n s p → more (m p).0 ≡ true → (1 ≤ s) × Tight n (s - 1) (m p).1

abbrev pub again : {A : Type 0} → A × Bool → Bool
again r = r.1

pub Tight-size : (n s : ℕ) (p : Parser) → Tight n s p → Tight n (size p) p
unfolding size
Tight-size n s p h = record {
  fuel = h.fuel;
  token = h.token;
  before = h.before;
  bound = omega arith;
  panic = h.panic;
}

module _ {A : Type 0} (n : ℕ) (round : A → Do (A × Bool))
    (turns : (s : ℕ) → s ≤ n → (a : A) → Turns n s again (round a)) where
  go_on :
      (b : Bool) (s t : ℕ) (rest : Do A) (a : A) (p : Parser)
      → (b ≡ true → Tight n t (rest p).1)
      → (b ≡ false → Tight n t p)
      → Tight n t ((if b then rest else pure a) p).1
  unfolding pure
  go_on true s t rest a p h k = h refl
  go_on false s t rest a p h k = k refl

  rounds-Tight :
      (k s : ℕ) (a : A) (p : Parser)
      → s ≤ n
      → Tight n s p
      → size p < k
      → Tight n s (rounds round k a p).1
  unfolding rounds ◌>>=◌ size
  rounds-Tight zero s a p room h l = absurd (omega (arith, l))
  rounds-Tight (suc k) s a p room h l =
      let e = h.bound in
      let small = Tight-size n s p h in
      let turn = turns (size p) (omega (arith, e, room)) a in
      let q = round a p in
      go_on q.0.1 s s (rounds round k q.0.0) q.0.0 q.1
        (λ more.
          let (some_left, less) = turn.takes p small more in
          let b = less.bound in
          Tight-weaken n n (size p - 1) s _
            (rounds-Tight k (size p - 1) q.0.0 q.1 (omega (arith, e, room)) less
              (omega (arith, b, l, some_left)))
            (omega arith) (omega (arith, e)))
        (λ stop.
          Tight-weaken n n (size p) s q.1 (turn.keeps p small) (omega arith) (omega (arith, e)))

  pub loop-Tight : (s : ℕ) → s ≤ n → (a : A) → Keeps (Tight n s) (loop round a)
  unfolding loop ◌>>=◌ gets
  loop-Tight s room a = record {
    at = λ p h. rounds-Tight (suc (size p)) s a p room h (omega arith);
  }

module _ {A : Type 0} {n s : ℕ} {more : A → Bool} where
  pub Turns-stop : (a : A) → more a ≡ false → Turns n s more (pure a)
  unfolding pure
  Turns-stop a e = record { keeps = λ p h. h; takes = λ p h k. ground (arith, e, k) }

module _ {A : Type 0} {n s : ℕ} where
  -- What keeps what is smaller takes a token, where one was taken before.
  pub Turns-smaller :
      (m : Do A) (p : Parser)
      → (1 ≤ s) × Tight n (s - 1) p
      → ((t : ℕ) → t ≤ s → Keeps (Tight n t) m)
      → Tight n s (m p).1 × ((1 ≤ s) × Tight n (s - 1) (m p).1)
  Turns-smaller m p (k, h) keeps =
      let q = (keeps (s - 1) (omega arith)).at p h in
      (Tight-weaken n n (s - 1) s _ q (omega arith) (omega arith), (k, q))

module _ {A B : Type 0} {n s : ℕ} {more : B → Bool} where
  pub Turns-bind :
      (m : Do A) (f : A → Do B)
      → Keeps (Tight n s) m
      → ((a : A) → Turns n s more (f a))
      → Turns n s more (m >>= f)
  unfolding ◌>>=◌
  Turns-bind m f keeps turns = record {
    keeps = λ p h. (turns (m p).0).keeps (m p).1 (keeps.at p h);
    takes = λ p h. (turns (m p).0).takes (m p).1 (keeps.at p h);
  }

  -- The result says whether a token was taken.
  pub Turns-result :
      {less : A → Bool} (m : Do A) (f : A → B)
      → Turns n s less m
      → ((a : A) → more (f a) ≡ less a)
      → Turns n s more (m >>= λ a. pure (f a))
  unfolding ◌>>=◌ pure
  Turns-result m f turns same = record {
    keeps = λ p h. turns.keeps p h;
    takes = λ p h k. turns.takes p h (sym (same (m p).0) ∙ k);
  }

-- A token of which a test holds, that does not hold of the end, has a byte.
pub IsToken-sized :
    (token : Token) (test : TokenType → Bool)
    → IsToken token
    → test token.type ≡ true
    → test TokenType.eof ≡ false
    → 1 ≤ token.length
IsToken-sized token test h e k = elim h.sized [
  | inl one ↦ one
  | inr (ended, none_left) ↦ let same = ap test ended in ground (arith, same, e, k)
]

module _ {n s : ℕ} (room : s ≤ n) where
  -- Behind a token that is no end, less is left.
  advance-less :
      (p : Parser) → Tight n s p → 1 ≤ p.current.length → (1 ≤ s) × Tight n (s - 1) (advance p).1
  advance-less p h one =
      let b = h.bound in
      (
        omega (arith, b, one),
        advance-Tight n n s (s - 1) p h (omega (arith, one)) (omega (arith, room)),
      )

  -- A match takes a token that is no end.
  pub match-Turns :
      (type : TokenType) → same_type TokenType.eof type ≡ false → Turns n s (λ b. b) (match type)
  unfolding match check ◌>>=◌ gets pure
  match-Turns type e = record {
    keeps = λ p h. (matched (same_type p.current.type type) p h refl).0;
    takes = λ p h. (matched (same_type p.current.type type) p h refl).1;
  }
    where
      matched :
          (b : Bool) (p : Parser)
          → Tight n s p
          → same_type p.current.type type ≡ b
          → let r = (if b then (advance >>= λ u. pure true) else pure false) p in
            Tight n s r.1 × (r.0 ≡ true → (1 ≤ s) × Tight n (s - 1) r.1)
      matched true p h k =
          let (one, less) =
            advance-less p h (IsToken-sized p.current (λ t. same_type t type) h.token k e) in
          (Tight-weaken n n (s - 1) s _ less (omega arith) (omega arith), λ t. (one, less))
      matched false p h k = (h, λ t. ground (arith, t))

module _ {A : Type 0} {n s : ℕ} {more : A → Bool} where
  -- Where a token was taken, what goes on keeps what is left.
  pub Turns-branch :
      (m : Do Bool) (on off : Do A)
      → Turns n s (λ b. b) m
      → ((t : ℕ) → t ≤ s → Keeps (Tight n t) on)
      → Turns n s more off
      → Turns n s more (m >>= λ b. if b then on else off)
  unfolding ◌>>=◌
  Turns-branch m on off turns keeps stop = record {
    keeps = λ p h. (branch (m p).0 (m p).1 (turns.keeps p h) (turns.takes p h)).0;
    takes = λ p h. (branch (m p).0 (m p).1 (turns.keeps p h) (turns.takes p h)).1;
  }
    where
      branch :
          (b : Bool) (p : Parser)
          → Tight n s p
          → (b ≡ true → (1 ≤ s) × Tight n (s - 1) p)
          → let r = (if b then on else off) p in
            Tight n s r.1 × (more r.0 ≡ true → (1 ≤ s) × Tight n (s - 1) r.1)
      branch true p h k = let (kept, less) = Turns-smaller on p (k refl) keeps in (kept, λ e. less)
      branch false p h k = (stop.keeps p h, stop.takes p h)

  -- A test of the state before a token is taken.
  pub Turns-test :
      (f : Parser → Bool) (on off : Do A)
      → Turns n s more on
      → ((p : Parser)
          → f p ≡ false
          → Tight n s p
          → Tight n s (off p).1 × (more (off p).0 ≡ true → (1 ≤ s) × Tight n (s - 1) (off p).1))
      → Turns n s more (gets f >>= λ b. if b then on else off)
  unfolding ◌>>=◌ gets
  Turns-test f on off ty tn = record {
    keeps = λ p h. (branch (f p) p refl h).0;
    takes = λ p h. (branch (f p) p refl h).1;
  }
    where
      branch :
          (b : Bool) (p : Parser)
          → f p ≡ b
          → Tight n s p
          → let r = (if b then on else off) p in
            Tight n s r.1 × (more r.0 ≡ true → (1 ≤ s) × Tight n (s - 1) r.1)
      branch true p e h = (ty.keeps p h, ty.takes p h)
      branch false p e h = tn p e h

  pub Turns-if :
      (f : Parser → Bool) (on off : Do A)
      → Turns n s more on
      → Turns n s more off
      → Turns n s more (gets f >>= λ b. if b then on else off)
  Turns-if f on off ty tn = Turns-test f on off ty (λ p e h. (tn.keeps p h, tn.takes p h))

  pub Turns-bool :
      (b : Bool) (on off : Do A)
      → Turns n s more on
      → Turns n s more off
      → Turns n s more (if b then on else off)
  Turns-bool true on off ty tn = ty
  Turns-bool false on off ty tn = tn

module _ {A : Type 0} {n s : ℕ} (room : s ≤ n) {more : A → Bool} where
  -- A token that is taken after a test that does not hold at the end.
  pub Turns-advance :
      (f : Parser → Bool) (test : TokenType → Bool) (m off : Do A)
      → ((p : Parser) → f p ≡ true → test p.current.type ≡ true)
      → test TokenType.eof ≡ false
      → ((t : ℕ) → t ≤ s → Keeps (Tight n t) m)
      → Turns n s more off
      → Turns n s more (gets f >>= λ b. if b then (advance >>= λ u. m) else off)
  unfolding ◌>>=◌ gets
  Turns-advance f test m off holds ended keeps turns = record {
    keeps = λ p h. (branch (f p) p refl h).0;
    takes = λ p h. (branch (f p) p refl h).1;
  }
    where
      branch :
          (b : Bool) (p : Parser)
          → f p ≡ b
          → Tight n s p
          → let r = (if b then (advance >>= λ u. m) else off) p in
            Tight n s r.1 × (more r.0 ≡ true → (1 ≤ s) × Tight n (s - 1) r.1)
      branch true p e h =
          let one = IsToken-sized p.current test h.token (holds p e) ended in
          let (kept, less) = Turns-smaller m (advance p).1 (advance-less room p h one) keeps in
          (kept, λ k. less)
      branch false p e h = (turns.keeps p h, turns.takes p h)
