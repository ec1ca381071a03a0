-- ===== src/Chunk/Laws.antt =====
-- The invariant of a chunk and what its operations keep: src/slp_chunk.c.
use slp.Prelude.{
  ℕ, suc, ◌+◌, ◌/◌, ◌%◌, ◌^◌, ◌≤◌, ◌<◌, ◌≡◌, refl, sym, ◌∙◌, ◌⊎◌, inl, inr, true, false, List, [],
  ◌∷◌, ◌++◌, none, some, arith, Bool-cases, Option-cases, ap, append-nil, length, get_elem?, get_or,
  All, All-concat, get_elem?-concat, get_or-append, length-append, append_assoc,
}
use slp.Value.{Value}
use native.Mathlib.Nat.{zero-add, add-zero}
use slp.Chunk.{
  place_constant, Chunk, constants_equal, chunk_write, find_constant, add_new, chunk_add_constant,
  chunk_read_short, chunk_write_short,
}

-- No constant repeats an earlier one.
abbrev pub Distinct : List Value → Type 0
Distinct [] = Unit
Distinct (x ∷ xs) = All (λ y. constants_equal x y ≡ false) xs × Distinct xs

abbrev pub Fresh : Value → List Value → Type 0
Fresh v xs = All (λ x. constants_equal x v ≡ false) xs

pub record IsValid (c : Chunk) : Type 0 where
  pub lined : length c.lines ≡ length c.code
  pub fits : length c.code ≤ c.capacity
  pub constants_fit : length c.constants ≤ c.constant_capacity
  pub distinct : Distinct c.constants

pub Distinct-concat :
    (xs : List Value) (v : Value) → Distinct xs → Fresh v xs → Distinct (xs ++ v ∷ [])
Distinct-concat [] v d f = (tt, tt)
Distinct-concat (x ∷ xs) v d f = (All-concat _ xs v d.0 f.0, Distinct-concat xs v d.1 f.1)

pub find_constant-none :
    (xs : List Value) (v : Value) (i : ℕ) → find_constant xs v i ≡ none → Fresh v xs
unfolding find_constant
find_constant-none [] v i h = tt
find_constant-none (x ∷ xs) v i h = elim (Bool-cases (constants_equal x v)) [
  | inl e ↦ absurd (ground (arith, e))
  | inr e ↦ (e, find_constant-none xs v (i + 1) (rw e at h))
]

pub find_constant-Fresh :
    (xs : List Value) (v : Value) (i : ℕ) → Fresh v xs → find_constant xs v i ≡ none
unfolding find_constant
find_constant-Fresh [] v i f = refl
find_constant-Fresh (x ∷ xs) v i f = rw f.0 (find_constant-Fresh xs v (i + 1) f.1)

-- What the loop finds is an index of the list, counted from `i`, that holds an equal constant.
find_constant-some :
    (xs : List Value) (v : Value) (i j : ℕ)
    → find_constant xs v i ≡ some j
    → (k : ℕ) × (x : Value) × (j ≡ i + k) × (get_elem? xs k ≡ some x) × (constants_equal x v ≡ true)
unfolding find_constant
find_constant-some [] v i j h = absurd (cc)
find_constant-some (x ∷ xs) v i j h = elim (Bool-cases (constants_equal x v)) [
  | inl e ↦ (0, x, ground (arith, e), refl, e)
  | inr e ↦
      let (k, y, at, found, same) = find_constant-some xs v (i + 1) j (rw e at h) in
      (suc k, y, omega arith, found, same)
]

find_constant-concat :
    (xs : List Value) (v : Value) (i : ℕ)
    → find_constant xs v i ≡ none
    → constants_equal v v ≡ true
    → find_constant (xs ++ v ∷ []) v i ≡ some (i + length xs)
unfolding find_constant
find_constant-concat [] v i h same = rw same (ground arith)
find_constant-concat (x ∷ xs) v i h same = elim (Bool-cases (constants_equal x v)) [
  | inl e ↦ absurd (ground (arith, e))
  | inr e ↦ rw e (find_constant-concat xs v (i + 1) (rw e at h) same ∙ ap some (omega arith))
]

-- A valid chunk stays valid when any byte is written to it with any line.
pub chunk_write-IsValid : (c : Chunk) (b line : ℕ) → IsValid c → IsValid (chunk_write c b line).0
unfolding chunk_write
chunk_write-IsValid c b line v = record {
  lined = rw (length-append, length-append, v.lined);
  fits = rw length-append (ground (arith, v.fits));
  constants_fit = v.constants_fit;
  distinct = v.distinct;
}

add_new-IsValid :
    (c : Chunk) (v : Value) → Fresh v c.constants → IsValid c → IsValid (add_new c v).0
unfolding add_new
add_new-IsValid c v f h = record {
  lined = h.lined;
  fits = h.fits;
  constants_fit = rw length-append (ground (arith, h.constants_fit));
  distinct = Distinct-concat c.constants v h.distinct f;
}

module _ (c : Chunk) (v : Value) where
  pub add_constant-found :
      (i : ℕ) → find_constant c.constants v 0 ≡ some i → chunk_add_constant c v ≡ (c, i)
  unfolding chunk_add_constant
  add_constant-found i e = ap (place_constant c v) e

  pub add_constant-new : find_constant c.constants v 0 ≡ none → chunk_add_constant c v ≡ add_new c v
  unfolding chunk_add_constant
  add_constant-new e = ap (place_constant c v) e

  -- A valid chunk stays valid when a constant is added, whether it is found or new.
  pub chunk_add_constant-IsValid : IsValid c → IsValid (chunk_add_constant c v).0
  chunk_add_constant-IsValid h = elim (Option-cases (find_constant c.constants v 0)) [
    | inl e ↦ rw (add_constant-new e) (add_new-IsValid c v (find_constant-none c.constants v 0 e) h)
    | inr (i, e) ↦ rw (add_constant-found i e) h
  ]

  -- At the index that is returned stands the value itself or a constant equal to it; the code is
  -- untouched, and the old constants are a prefix of the new.
  pub chunk_add_constant_lem :
      (x : Value) × (more : List Value) × (get_elem?
          (chunk_add_constant c v).0.constants
          (chunk_add_constant c v).1
        ≡ some x)
      × ((x ≡ v) ⊎ (constants_equal x v ≡ true))
      × ((chunk_add_constant c v).0.constants ≡ c.constants ++ more)
      × ((chunk_add_constant c v).0.code ≡ c.code)
  chunk_add_constant_lem = elim (Option-cases (find_constant c.constants v 0)) [
    | inl e ↦
        rw (add_constant-new e)
          (unfold add_new in (v, v ∷ [], get_elem?-concat c.constants [] v, inl refl, refl, refl))
    | inr (i, e) ↦
        let (k, x, at, found, same) = find_constant-some c.constants v 0 i e in
        let at' : i ≡ k = omega arith in
        rw (add_constant-found i e) (x, [], rw at' found, inr same, rw append-nil, refl)
  ]

-- A value that equals itself (all but a NaN) is stored once: adding it again returns the same index
-- and leaves the chunk as it is.
pub chunk_add_constant-idempotent :
    (c : Chunk) (v : Value)
    → constants_equal v v ≡ true
    → chunk_add_constant (chunk_add_constant c v).0 v ≡ chunk_add_constant c v
chunk_add_constant-idempotent c v same = elim (Option-cases (find_constant c.constants v 0)) [
  | inl e ↦ rw (add_constant-new c v e) (
      add_constant-found (add_new c v).0 v _ (
        unfold add_new in
        (find_constant-concat c.constants v 0 e same ∙ ap some (zero-add (length c.constants)))))
  | inr (i, e) ↦ rw (add_constant-found c v i e) (add_constant-found c v i e)
]

-- A 16-bit number that write_short appends is read back by read_short at the old end of the code.
pub read_short-write_short :
    (c : Chunk) (val line : ℕ)
    → val < 2 ^ 16
    → chunk_read_short (chunk_write_short c val line) (length c.code) ≡ val
unfolding chunk_read_short chunk_write_short
read_short-write_short c val line h =
    let high : ℕ = val / 256 % 256 in
    let low : ℕ = val % 256 in
    let code = c.code ++ high ∷ [] ++ low ∷ [] in
    let n = length c.code in
    let at : (i : ℕ) → get_or code (n + i) 0 ≡ get_or (high ∷ low ∷ []) i 0 = λ i.
      ap (λ l. get_or l (n + i) 0) (append_assoc c.code (high ∷ []) (low ∷ []))
      ∙ get_or-append c.code (high ∷ low ∷ []) i 0 in
    let first : get_or code n 0 ≡ high = ap (λ k. get_or code k 0) (sym (add-zero n)) ∙ at 0 in
    omega (arith, first, at 1)
