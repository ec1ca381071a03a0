-- ===== src/Hash/Probe.antt =====
-- The invariant of the table, and that a search finds just the keys that are stored.
use native.Mathlib.Nat.{mod-add-mod, mod-mod, add-zero}
use slp.Hash.Table.{HashEntry, is_null, is_true, at, home, next, find_key}
use slp.Prelude.{
  ℕ, zero, suc, ◌+◌, ◌%◌, ◌≤◌, ◌<◌, ◌≡◌, ◌⊎◌, inl, inr, sym, ap, subst, ◌∙◌, Bool, true, false,
  some, List, length, arith, Bool-cases, dec_lt,
}
use slp.Value.{Value}

-- What the table needs of its keys: the equality is an equivalence, and equal keys have one hash.
pub record KeyLaws (hash_value : Value → ℕ) (key_equals : Value → Value → Bool)
    (IsKey : Value → Type 0) : Type 0 where
  pub not_null : (k : Value) → IsKey k → is_null k ≡ false
  pub equal_refl : (k : Value) → IsKey k → key_equals k k ≡ true
  pub equal_sym : (a b : Value) → IsKey a → IsKey b → key_equals a b ≡ true → key_equals b a ≡ true
  pub equal_trans :
      (a b c : Value)
      → IsKey a
      → IsKey b
      → IsKey c
      → key_equals a b ≡ true
      → key_equals b c ≡ true
      → key_equals a c ≡ true
  pub agree :
      (a b : Value) → IsKey a → IsKey b → key_equals a b ≡ true → hash_value a ≡ hash_value b

-- The entry holds a key.
abbrev pub Live : HashEntry → Type 0
Live e = is_null e.key ≡ false

-- A search goes on behind the entry: it holds a key or marks a deletion.
abbrev pub Passable : HashEntry → Type 0
Passable e = (is_null e.key ≡ false) ⊎ (is_true e.value ≡ true)

module _ (hash_value : Value → ℕ) (key_equals : Value → Value → Bool) where
  -- The place `j` steps behind the home of a key.
  abbrev pub nth_place : List HashEntry → Value → ℕ → ℕ
  nth_place es k j = (home hash_value es k + j) % length es

  -- The place `i` is found from the home of `k`, over entries that a search passes.
  pub record Reaches (es : List HashEntry) (k : Value) (i : ℕ) : Type 0 where
    pub offset : ℕ
    pub within : offset < length es
    pub lands : nth_place es k offset ≡ i
    pub passes : (j : ℕ) → j < offset → Passable (at es (nth_place es k j))

  pub record IsTable (IsKey : Value → Type 0) (es : List HashEntry) : Type 0 where
    pub keys : (i : ℕ) → Live (at es i) → IsKey (at es i).key
    pub reached : (i : ℕ) → Live (at es i) → Reaches es (at es i).key i
    pub distinct :
        (i j : ℕ)
        → Live (at es i)
        → Live (at es j)
        → key_equals (at es i).key (at es j).key ≡ true
        → i ≡ j

  -- What a search returns is the place of an equal key.
  pub find_key-some :
      (n : ℕ) (es : List HashEntry) (k : Value) (idx i : ℕ)
      → find_key hash_value key_equals n es k idx ≡ some i
      → Live (at es i) × (key_equals (at es i).key k ≡ true)
  unfolding find_key
  find_key-some zero es k idx i h = absurd cc
  find_key-some (suc n) es k idx i h = ground (arith, find_key-some n es k (next es idx) i)

  pub next-nth_place :
      (es : List HashEntry) (k : Value) (j : ℕ)
      → next es (nth_place es k j) ≡ nth_place es k (j + 1)
  next-nth_place es k j =
      let h = home hash_value es k in
      let e : h + j + 1 ≡ h + (j + 1) = omega arith in
      mod-add-mod (h + j) (length es) 1 ∙ ap (λ x. x % length es) e

  pub start : (es : List HashEntry) (k : Value) → nth_place es k 0 ≡ home hash_value es k
  start es k =
      ap (λ x. x % length es) (add-zero (home hash_value es k)) ∙ mod-mod (hash_value k) (length es)

  -- One round that does not stop, or stops at the place looked for.
  find_key-passes :
      (n : ℕ) (es : List HashEntry) (k : Value) (idx i : ℕ)
      → Passable (at es idx)
      → (Live (at es idx) → key_equals (at es idx).key k ≡ true → idx ≡ i)
      → find_key hash_value key_equals n es k (next es idx) ≡ some i
      → find_key hash_value key_equals (suc n) es k idx ≡ some i
  unfolding find_key
  find_key-passes n es k idx i p only rest = elim (Bool-cases (is_null (at es idx).key)) [
    | inl null' ↦ elim p [
      | inl live ↦ absurd (ground (arith, null', live))
      | inr marked ↦ rw (null', marked) rest
    ]
    | inr live ↦ elim (Bool-cases (key_equals (at es idx).key k)) [
      | inl same ↦ rw (live, same) (ap some (only live same))
      | inr other ↦ rw (live, other) rest
    ]
  ]

  find_key-stops :
      (n : ℕ) (es : List HashEntry) (k : Value) (idx : ℕ)
      → Live (at es idx)
      → key_equals (at es idx).key k ≡ true
      → find_key hash_value key_equals (suc n) es k idx ≡ some idx
  unfolding find_key
  find_key-stops n es k idx live same = rw (live, same)

  module _ {IsKey : Value → Type 0} (laws : KeyLaws hash_value key_equals IsKey) where
    same_places :
        (es : List HashEntry) (a b : Value) (j : ℕ)
        → IsKey a
        → IsKey b
        → key_equals a b ≡ true
        → nth_place es a j ≡ nth_place es b j
    same_places es a b j p q e = ap (λ h. (h % length es + j) % length es) (laws.agree a b p q e)

    -- From a place on the way to a stored key the search comes to it.
    find_key-on_way :
        (n : ℕ) (es : List HashEntry) (k : Value) (j i : ℕ)
        → IsTable IsKey es
        → IsKey k
        → Live (at es i)
        → key_equals (at es i).key k ≡ true
        → (r : Reaches es k i) → j ≤ r.offset
        → r.offset < j + n
        → find_key hash_value key_equals n es k (nth_place es k j) ≡ some i
    unfolding find_key
    find_key-on_way zero es k j i t q live e r before h = absurd (omega (arith, before, h))
    find_key-on_way (suc n) es k j i t q live e r before h = elim (dec_lt j r.offset) [
      | yes earlier ↦
          let rest =
            find_key-on_way n es k (j + 1) i t q live e r (omega arith) (omega (arith, h)) in
          find_key-passes n es k (nth_place es k j) i (r.passes j earlier)
            (λ live' same.
              let key = t.keys i live in
              let key' = t.keys (nth_place es k j) live' in
              t.distinct (nth_place es k j) i live' live
                (laws.equal_trans _ k _ key' q key same (laws.equal_sym _ k key q e)))
            (ap (find_key hash_value key_equals n es k) (next-nth_place es k j) ∙ rest)
      | no late ↦
          let here : j ≡ r.offset = omega (arith, before, late) in
          let lands : nth_place es k j ≡ i = ap (nth_place es k) here ∙ r.lands in
          subst (λ x. find_key hash_value key_equals (suc n) es k x ≡ some i) (sym lands)
            (find_key-stops n es k i live e)
    ]

    -- A stored key is found, at its place.
    pub find_key-stored :
        (es : List HashEntry) (k : Value) (i : ℕ)
        → IsTable IsKey es
        → IsKey k
        → Live (at es i)
        → key_equals (at es i).key k ≡ true
        → find_key hash_value key_equals (length es) es k (home hash_value es k) ≡ some i
    find_key-stored es k i t q live e =
        let key = t.keys i live in
        let r = t.reached i live in
        let near = same_places es (at es i).key k r.offset key q e in
        let r' : Reaches es k i = record {
          offset = r.offset;
          within = r.within;
          lands = sym near ∙ r.lands;
          passes = λ j b.
              subst (λ x. Passable (at es x)) (same_places es (at es i).key k j key q e)
                (r.passes j b);
        } in
        subst (λ x. find_key hash_value key_equals (length es) es k x ≡ some i) (start es k)
          (find_key-on_way (length es) es k 0 i t q live e r' (omega arith)
            (omega (arith, r.within)))
