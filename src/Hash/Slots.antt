-- ===== src/Hash/Slots.antt =====
-- Where the loop of hash_set ends.
use native.Mathlib.Nat.{mod-lt, mod-eq_of_lt, add-mod_right}
use slp.Hash.Probe.{Live, Passable, Reaches, nth_place, next-nth_place, start}
use slp.Hash.Table.{
  HashEntry, Slot, found, free, full, is_null, is_true, at, home, next, find_key, find_slot, first,
  reuse, or_else,
}
use slp.Prelude.{
  ℕ, zero, suc, ◌+◌, ◌-◌, ◌%◌, ◌≤◌, ◌<◌, ◌≡◌, inl, inr, refl, sym, ap, subst, ◌∙◌, Bool, true,
  false, Option, some, none, List, if◌then◌else◌, length, arith, Bool-cases, ℕ-cases, dec_lt,
}
use slp.Value.{Value}

-- The result of a search that stops where the loop does.
abbrev pub stops_at : Slot → Option ℕ
stops_at (found i) = some i
stops_at (free i) = none
stops_at full = none

module _ (hash_value : Value → ℕ) (key_equals : Value → Value → Bool) where
  stops_at-reuse : (t : Option ℕ) → stops_at (reuse t) ≡ none
  stops_at-reuse none = refl
  stops_at-reuse (some i) = refl

  stops_at-if :
      (b : Bool) (x y : Slot)
      → stops_at (if b then x else y) ≡ (if b then stops_at x else stops_at y)
  stops_at-if true x y = refl
  stops_at-if false x y = refl

  -- The loop finds a key just where a search does.
  pub find_slot-find_key :
      (n : ℕ) (es : List HashEntry) (k : Value) (t : Option ℕ) (idx : ℕ)
      → stops_at (find_slot hash_value key_equals n es k t idx)
        ≡ find_key hash_value key_equals n es k idx
  unfolding find_slot find_key
  find_slot-find_key zero es k t idx = stops_at-reuse t
  find_slot-find_key (suc n) es k t idx =
      let marked = find_slot-find_key n es k (first t idx) (next es idx) in
      let rest = find_slot-find_key n es k t (next es idx) in simp (stops_at-if, marked, rest)

  -- A remembered tombstone is a place for the key.
  abbrev IsPlace : List HashEntry → Value → Option ℕ → Type 0
  IsPlace es k none = Unit {0}
  IsPlace es k (some p) = (is_null (at es p).key ≡ true) × Reaches hash_value key_equals es k p

  abbrev IsFree : List HashEntry → Value → Slot → Type 0
  IsFree es k (free i) = (is_null (at es i).key ≡ true) × Reaches hash_value key_equals es k i
  IsFree es k _ = Unit {0}

  IsFree-reuse :
      (es : List HashEntry) (k : Value) (t : Option ℕ) → IsPlace es k t → IsFree es k (reuse t)
  IsFree-reuse es k none p = p
  IsFree-reuse es k (some i) p = p

  IsFree-or_else :
      (es : List HashEntry) (k : Value) (t : Option ℕ) (i : ℕ)
      → IsPlace es k t
      → IsPlace es k (some i)
      → IsFree es k (free (or_else t i))
  IsFree-or_else es k none i p q = q
  IsFree-or_else es k (some j) i p q = p

  IsPlace-first :
      (es : List HashEntry) (k : Value) (t : Option ℕ) (i : ℕ)
      → IsPlace es k t
      → IsPlace es k (some i)
      → IsPlace es k (first t i)
  IsPlace-first es k none i p q = q
  IsPlace-first es k (some j) i p q = p

  -- From the place `j` steps behind the home, all before being passable, the loop ends at a place
  -- where the key may be written.
  find_slot-IsFree :
      (n : ℕ) (es : List HashEntry) (k : Value) (t : Option ℕ) (j : ℕ)
      → j + n ≡ length es
      → IsPlace es k t
      → ((i : ℕ) → i < j → Passable (at es (nth_place hash_value key_equals es k i)))
      → IsFree es k
          (find_slot hash_value key_equals n es k t (nth_place hash_value key_equals es k j))
  unfolding find_slot
  find_slot-IsFree zero es k t j h p passed = IsFree-reuse es k t p
  find_slot-IsFree (suc n) es k t j h p passed =
      let x : ℕ = nth_place hash_value key_equals es k j in
      let step : (t' : Option ℕ)
          → IsPlace es k t'
          → Passable (at es x)
          → IsFree es k (find_slot hash_value key_equals n es k t' (next es x)) =
        λ t' p' pass.
          subst (λ y. IsFree es k (find_slot hash_value key_equals n es k t' y))
            (sym (next-nth_place hash_value key_equals es k j))
            (find_slot-IsFree n es k t' (j + 1) (omega (arith, h)) p' (λ i b. elim (ℕ-cases i j) [
              | inl e ↦
                  subst (λ y. Passable (at es (nth_place hash_value key_equals es k y))) (sym e)
                    pass
              | inr o ↦ passed i (omega (arith, b, o))
            ])) in
      elim (Bool-cases (is_null (at es x).key)) [
        | inl null' ↦
            let here : IsPlace es k (some x) = (
              null',
              record { offset = j; within = omega (arith, h); lands = refl; passes = passed },
            ) in
            elim (Bool-cases (is_true (at es x).value)) [
              | inl mark ↦
                  rw (null', mark) (step (first t x) (IsPlace-first es k t x p here) (inr mark))
              | inr unused ↦ rw (null', unused) (IsFree-or_else es k t x p here)
            ]
        | inr live ↦ elim (Bool-cases (key_equals (at es x).key k)) [
          | inl same ↦ rw (live, same) tt
          | inr other ↦ rw (live, other) (step t p (inl live))
        ]
      ]

  -- A loop that remembers a place does not come out full.
  not_full :
      (n : ℕ) (es : List HashEntry) (k : Value) (i idx : ℕ)
      → find_slot hash_value key_equals n es k (some i) idx ≡ full
      → ⊥
  unfolding find_slot
  not_full zero es k i idx h = cc
  not_full (suc n) es k i idx h = ground (arith, not_full n es k i (next es idx))

  full_round :
      (n : ℕ) (es : List HashEntry) (k : Value) (idx : ℕ)
      → find_slot hash_value key_equals (suc n) es k none idx ≡ full
      → Live (at es idx) × (find_slot hash_value key_equals n es k none (next es idx) ≡ full)
  unfolding find_slot
  full_round n es k idx h = elim (Bool-cases (is_null (at es idx).key)) [
    | inl null' ↦ elim (Bool-cases (is_true (at es idx).value)) [
      | inl mark ↦
          let f : find_slot hash_value key_equals n es k (some idx) (next es idx) ≡ full =
            rw (null', mark) at h in
          absurd (not_full n es k idx _ f)
      | inr unused ↦ let f : free idx ≡ full = rw (null', unused) at h in absurd cc
    ]
    | inr live ↦ elim (Bool-cases (key_equals (at es idx).key k)) [
      | inl same ↦ let f : found idx ≡ full = rw (live, same) at h in absurd cc
      | inr other ↦ (live, rw (live, other) at h)
    ]
  ]

  -- The table is found full only if every place has a key.
  find_slot-full :
      (n : ℕ) (es : List HashEntry) (k : Value) (j : ℕ)
      → find_slot hash_value key_equals n es k none (nth_place hash_value key_equals es k j) ≡ full
      → (i : ℕ) → j ≤ i
      → i < j + n
      → Live (at es (nth_place hash_value key_equals es k i))
  unfolding find_slot
  find_slot-full zero es k j h i from to = absurd (omega (arith, from, to))
  find_slot-full (suc n) es k j h i from to =
      let (live, f) = full_round n es k (nth_place hash_value key_equals es k j) h in
      elim (ℕ-cases i j) [
        | inl e ↦ subst (λ y. Live (at es (nth_place hash_value key_equals es k y))) (sym e) live
        | inr o ↦
            let moved = next-nth_place hash_value key_equals es k j in
            find_slot-full n es k (j + 1)
              (ap (find_slot hash_value key_equals n es k none) (sym moved) ∙ f) i
              (omega (arith, from, o)) (omega (arith, to))
      ]

  -- Every place is some steps behind the home of a key.
  pub every_place :
      (es : List HashEntry) (k : Value) (i : ℕ)
      → i < length es
      → (j : ℕ) × (j < length es) × (nth_place hash_value key_equals es k j ≡ i)
  every_place es k i h =
      let home' : ℕ = hash_value k % length es in
      let small : home' < length es = mod-lt (hash_value k) (omega arith) in
      elim (dec_lt i home') [
        | no behind ↦
            let e : home' + (i - home') ≡ i = omega (arith, behind) in
            (i - home', omega (arith, h), ap (λ x. x % length es) e ∙ mod-eq_of_lt h)
        | yes before ↦
            let e : home' + (i + length es - home') ≡ i + length es = omega (arith, small) in
            (
              i + length es - home',
              omega (arith, before, small),
              ap (λ x. x % length es) e ∙ add-mod_right i (length es) ∙ mod-eq_of_lt h,
            )
      ]

  pub full-Live :
      (es : List HashEntry) (k : Value)
      → find_slot hash_value key_equals (length es) es k none (home hash_value es k) ≡ full
      → (i : ℕ) → i < length es
      → Live (at es i)
  full-Live es k h i b =
      let (j, within, lands) = every_place es k i b in
      subst (λ x. Live (at es x)) lands
        (find_slot-full (length es) es k 0
          (ap (find_slot hash_value key_equals (length es) es k none)
              (start hash_value key_equals es k)
            ∙ h)
          j (omega arith) (omega (arith, within)))

  pub free-Reaches :
      (es : List HashEntry) (k : Value) (i : ℕ)
      → find_slot hash_value key_equals (length es) es k none (home hash_value es k) ≡ free i
      → (is_null (at es i).key ≡ true) × Reaches hash_value key_equals es k i
  free-Reaches es k i h =
      let e =
        ap (find_slot hash_value key_equals (length es) es k none)
          (start hash_value key_equals es k)
        ∙ h in
      subst (IsFree es k) e (
        find_slot-IsFree (length es) es k none 0 (omega arith) tt
          (λ i b. absurd (omega (arith, b))))
