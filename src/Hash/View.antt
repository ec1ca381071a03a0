-- ===== src/Hash/View.antt =====
-- The map that a table stands for, read from its entries without their places.
use slp.Hash.Probe.{KeyLaws, Live, IsTable}
use slp.Hash.Table.{HashEntry, is_null, at}
use slp.Prelude.{
  ℕ, zero, suc, ◌≡◌, ◌≢◌, ◌⊎◌, inl, inr, refl, sym, ap, subst, ◌∙◌, Bool, true, false, Option, some,
  none, List, [], ◌∷◌, if◌then◌else◌, arith, Bool-cases, ℕ-cases,
}
use slp.Value.{Value}

module _ (hash_value : Value → ℕ) (key_equals : Value → Value → Bool) where
  -- The value of the first entry with an equal key.
  unfoldable pub lookup : List HashEntry → Value → Option Value
  lookup [] k = none
  lookup (e ∷ es) k =
      let rest = lookup es k in
      if is_null e.key then rest else if key_equals e.key k then some e.value else rest

  abbrev pub Absent : List HashEntry → Value → Type 0
  Absent es k = (i : ℕ) → Live (at es i) → key_equals (at es i).key k ≡ false

  abbrev pub Present : List HashEntry → Value → Type 0
  Present es k =
      (i : ℕ) × Live (at es i)
      × (key_equals (at es i).key k ≡ true)
      × (lookup es k ≡ some (at es i).value)

  Absent-cons :
      (e : HashEntry) (es : List HashEntry) (k : Value)
      → (Live e → key_equals e.key k ≡ false)
      → Absent es k
      → Absent (e ∷ es) k
  Absent-cons e es k h a zero = h
  Absent-cons e es k h a (suc i) = a i

  behind :
      (e : HashEntry) (es : List HashEntry) (k : Value)
      → (Live e → key_equals e.key k ≡ false)
      → lookup (e ∷ es) k ≡ lookup es k
      → ((lookup es k ≡ none) × Absent es k) ⊎ Present es k
      → ((lookup (e ∷ es) k ≡ none) × Absent (e ∷ es) k) ⊎ Present (e ∷ es) k
  behind e es k h same (inl (n, a)) = inl (same ∙ n, Absent-cons e es k h a)
  behind e es k h same (inr (i, live, eq, v)) = inr (suc i, live, eq, same ∙ v)

  pub lookup-cases :
      (es : List HashEntry) (k : Value) → ((lookup es k ≡ none) × Absent es k) ⊎ Present es k
  unfolding lookup
  lookup-cases [] k = inl (refl, λ i live. absurd (ground arith))
  lookup-cases (e ∷ es) k = elim (Bool-cases (is_null e.key)) [
    | inl n ↦ behind e es k (λ live. absurd (ground (arith, n, live))) (rw n) (lookup-cases es k)
    | inr live ↦ elim (Bool-cases (key_equals e.key k)) [
      | inl same ↦ inr (zero, live, same, rw (live, same))
      | inr other ↦ behind e es k (λ l. other) (rw (live, other)) (lookup-cases es k)
    ]
  ]

  module _ {IsKey : Value → Type 0} (laws : KeyLaws hash_value key_equals IsKey) where
    -- The entry of an equal key is the one that is looked up.
    pub lookup-stored :
        (es : List HashEntry) (k : Value) (i : ℕ)
        → IsTable hash_value key_equals IsKey es
        → IsKey k
        → Live (at es i)
        → key_equals (at es i).key k ≡ true
        → lookup es k ≡ some (at es i).value
    lookup-stored es k i t q live e = elim (lookup-cases es k) [
      | inl (n, absent) ↦ absurd (ground (arith, e, absent i live))
      | inr (j, live', e', v) ↦
          let same : j ≡ i = t.distinct j i live' live (
            laws.equal_trans _ k _ (t.keys j live') q (t.keys i live) e'
              (laws.equal_sym _ k (t.keys i live) q e)) in
          v ∙ ap (λ x. some (at es x).value) same
    ]

    -- A key that is at no place is not looked up.
    pub lookup-Absent : (es : List HashEntry) (k : Value) → Absent es k → lookup es k ≡ none
    lookup-Absent es k a = elim (lookup-cases es k) [
      | inl (n, absent) ↦ n
      | inr (i, live, e, v) ↦ absurd (ground (arith, e, a i live))
    ]

    module _ (es es' : List HashEntry) (t : ℕ) (k : Value)
        (good : IsTable hash_value key_equals IsKey es)
        (good' : IsTable hash_value key_equals IsKey es') (key : IsKey k)
        (others : (i : ℕ) → i ≢ t → at es' i ≡ at es i)
        (at_t : Live (at es t) → key_equals (at es t).key k ≡ true) where
      at_other :
          (q : Value)
          → IsKey q
          → key_equals k q ≡ false
          → (i : ℕ) → Live (at es i)
          → key_equals (at es i).key q ≡ true
          → i ≢ t
      at_other q kq differ i live e s =
          let live_t : Live (at es t) = subst (λ x. Live (at es x)) s live in
          let e_t : key_equals (at es t).key q ≡ true =
            subst (λ x. key_equals (at es x).key q ≡ true) s e in
          let key_t = good.keys t live_t in
          let same =
            laws.equal_trans k _ q key key_t kq (laws.equal_sym _ k key_t key (at_t live_t)) e_t in
          ground (arith, same, differ)

      -- An entry of the new table whose key differs from `k` stands in the old one.
      module _ (at_t' : Live (at es' t) → key_equals (at es' t).key k ≡ true) (q : Value)
          (kq : IsKey q) where
        absent' : Absent es q → key_equals k q ≡ false → Absent es' q
        absent' absent differ i live' = elim (Bool-cases (key_equals (at es' i).key q)) [
          | inr other ↦ other
          | inl e ↦ elim (ℕ-cases i t) [
            | inl s ↦
                let live_t : Live (at es' t) = subst (λ x. Live (at es' x)) s live' in
                let e_t : key_equals (at es' t).key q ≡ true =
                  subst (λ x. key_equals (at es' x).key q ≡ true) s e in
                let key_t = good'.keys t live_t in
                let same =
                  laws.equal_trans k _ q key key_t kq (laws.equal_sym _ k key_t key (at_t' live_t))
                    e_t in
                absurd (ground (arith, same, differ))
            | inr o ↦
                let same = others i o in
                let live : Live (at es i) = subst Live same live' in
                let e' : key_equals (at es i).key q ≡ true =
                  subst (λ x. key_equals x.key q ≡ true) same e in
                absurd (ground (arith, e', absent i live))
          ]
        ]

        unchanged : key_equals k q ≡ false → lookup es' q ≡ lookup es q
        unchanged differ = elim (lookup-cases es q) [
          | inr (i, live, e, v) ↦
              let same = others i (at_other q kq differ i live e) in
              let live' : Live (at es' i) = subst Live (sym same) live in
              let e' : key_equals (at es' i).key q ≡ true =
                subst (λ x. key_equals x.key q ≡ true) (sym same) e in
              lookup-stored es' q i good' kq live' e' ∙ ap (λ x. some x.value) same ∙ sym v
          | inl (n, absent) ↦ lookup-Absent es' q (absent' absent differ) ∙ sym n
        ]

        -- A table that differs at one place, which holds `k` in the new one and no other key in the
        -- old one, stands for the map with the new value at `k`.
        pub lookup-write :
            Live (at es' t)
            → lookup es' q ≡ (if key_equals k q then some (at es' t).value else lookup es q)
        lookup-write live' = elim (Bool-cases (key_equals k q)) [
          | inl e ↦
              let key_t = good'.keys t live' in
              rw e (
                lookup-stored es' q t good' kq live'
                  (laws.equal_trans _ k q key_t key kq (at_t' live') e))
          | inr differ ↦ rw differ (unchanged differ)
        ]

        -- With no key at the place in the new table, it stands for the map without `k`.
        pub lookup-erase :
            is_null (at es' t).key ≡ true
            → Live (at es t)
            → lookup es' q ≡ (if key_equals k q then none else lookup es q)
        lookup-erase null' live = elim (Bool-cases (key_equals k q)) [
          | inl e ↦ rw e (lookup-Absent es' q (gone e))
          | inr differ ↦ rw differ (unchanged differ)
        ]
          where
            gone : key_equals k q ≡ true → Absent es' q
            gone e i live' = elim (Bool-cases (key_equals (at es' i).key q)) [
              | inr other ↦ other
              | inl e' ↦ elim (ℕ-cases i t) [
                | inl s ↦
                    let live_t : Live (at es' t) = subst (λ x. Live (at es' x)) s live' in
                    absurd (ground (arith, live_t, null'))
                | inr o ↦
                    let same = others i o in
                    let live_i : Live (at es i) = subst Live same live' in
                    let e_i : key_equals (at es i).key q ≡ true =
                      subst (λ x. key_equals x.key q ≡ true) same e' in
                    let key_i = good.keys i live_i in
                    let key_t = good.keys t live in
                    let to_k =
                      laws.equal_trans _ q k key_i kq key e_i (laws.equal_sym k q key kq e) in
                    let to_t =
                      laws.equal_trans _ k _ key_i key key_t to_k
                        (laws.equal_sym _ k key_t key (at_t live)) in
                    absurd (o (good.distinct i t live_i live to_t))
              ]
            ]
