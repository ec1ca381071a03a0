-- ===== src/Hash/Insert.antt =====
-- Writes to one place keep the invariant, and where the loop of hash_set ends.
use slp.Hash.Probe.{KeyLaws, Live, Passable, Reaches, IsTable, nth_place}
use slp.Hash.Table.{empty, HashEntry, at, tombstone}
use slp.Prelude.{
  ℕ, zero, suc, ◌+◌, ◌%◌, ◌<◌, ◌≡◌, ◌≢◌, ◌⊎◌, inl, inr, refl, sym, ap, subst, ◌∙◌, Bool, true,
  false, List, [], ◌∷◌, length, set, length-set, get_or-set_self, get_or-set_other, arith, ℕ-cases,
}
use slp.Value.{Value}

pub at-set_other :
    (es : List HashEntry) (t : ℕ) (e : HashEntry) (i : ℕ) → i ≢ t → at (set es t e) i ≡ at es i
at-set_other es t e i h = get_or-set_other es t e i empty h

pub at-set_self :
    (es : List HashEntry) (t : ℕ) (e : HashEntry) → t < length es → at (set es t e) t ≡ e
at-set_self es t e h = get_or-set_self es t e empty h

pub Live-within : (es : List HashEntry) (i : ℕ) → Live (at es i) → i < length es
Live-within [] i h = absurd (ground arith)
Live-within (x ∷ es) zero h = omega arith
Live-within (x ∷ es) (suc i) h = omega (arith, Live-within es i h)

module _ (hash_value : Value → ℕ) (key_equals : Value → Value → Bool) where
  pub Reaches-mono :
      (es es' : List HashEntry) (k : Value) (i : ℕ)
      → length es' ≡ length es
      → ((j : ℕ) → Passable (at es j) → Passable (at es' j))
      → Reaches hash_value key_equals es k i
      → Reaches hash_value key_equals es' k i
  Reaches-mono es es' k i same grows r =
      let place : (j : ℕ)
          → nth_place hash_value key_equals es' k j ≡ nth_place hash_value key_equals es k j =
        λ j. ap (λ n. (hash_value k % n + j) % n) same in
      record {
        offset = r.offset;
        within = omega (arith, same, r.within);
        lands = place r.offset ∙ r.lands;
        passes = λ j b. subst (λ x. Passable (at es' x)) (sym (place j)) (grows _ (r.passes j b));
      }

  module _ {IsKey : Value → Type 0} (laws : KeyLaws hash_value key_equals IsKey)
      (es : List HashEntry) (table : IsTable hash_value key_equals IsKey es) (t : ℕ)
      (within : t < length es) where
    module _ (e : HashEntry) where
      entry_of :
          (i : ℕ) → ((i ≡ t) × (at (set es t e) i ≡ e)) ⊎ ((i ≢ t) × (at (set es t e) i ≡ at es i))
      entry_of i = elim (ℕ-cases i t) [
        | inl s ↦ inl (s, ap (at (set es t e)) s ∙ at-set_self es t e within)
        | inr o ↦ inr (o, at-set_other es t e i o)
      ]

      grows : Passable e → (j : ℕ) → Passable (at es j) → Passable (at (set es t e) j)
      grows p j old = elim (entry_of j) [
        | inl (s, at_j) ↦ subst Passable (sym at_j) p
        | inr (o, at_j) ↦ subst Passable (sym at_j) old
      ]

      -- A key may be written where a search for it comes by, if no other place has an equal one.
      pub write-IsTable :
          Live e
          → IsKey e.key
          → Reaches hash_value key_equals es e.key t
          → ((i : ℕ) → i ≢ t → Live (at es i) → key_equals (at es i).key e.key ≡ false)
          → IsTable hash_value key_equals IsKey (set es t e)
      write-IsTable live key way only = record {
        keys = λ i l. elim (entry_of i) [
          | inl (s, at_i) ↦ subst (λ x. IsKey x.key) (sym at_i) key
          | inr (o, at_i) ↦ subst (λ x. IsKey x.key) (sym at_i) (table.keys i (subst Live at_i l))
        ];
        reached = λ i l. elim (entry_of i) [
          | inl (s, at_i) ↦
              subst (λ x. Reaches hash_value key_equals (set es t e) x.key i) (sym at_i)
                (subst (Reaches hash_value key_equals (set es t e) e.key) (sym s)
                  (lift e.key t way))
          | inr (o, at_i) ↦
              subst (λ x. Reaches hash_value key_equals (set es t e) x.key i) (sym at_i)
                (lift (at es i).key i (table.reached i (subst Live at_i l)))
        ];
        distinct = λ i j li lj same. elim (entry_of i) [
          | inl (si, at_i) ↦ elim (entry_of j) [
            | inl (sj, at_j) ↦ si ∙ sym sj
            | inr (oj, at_j) ↦
                let live_j = subst Live at_j lj in
                let e_j : key_equals e.key (at es j).key ≡ true =
                  ap (λ x. key_equals x.key (at es j).key) (sym at_i)
                  ∙ ap (λ x. key_equals (at (set es t e) i).key x.key) (sym at_j)
                  ∙ same in
                let back = laws.equal_sym e.key _ key (table.keys j live_j) e_j in
                absurd (ground (arith, back, only j oj live_j))
          ]
          | inr (oi, at_i) ↦
              let live_i = subst Live at_i li in
              elim (entry_of j) [
                | inl (sj, at_j) ↦
                    let e_i : key_equals (at es i).key e.key ≡ true =
                      ap (λ x. key_equals x.key e.key) (sym at_i)
                      ∙ ap (λ x. key_equals (at (set es t e) i).key x.key) (sym at_j)
                      ∙ same in
                    absurd (ground (arith, e_i, only i oi live_i))
                | inr (oj, at_j) ↦
                    let both : key_equals (at es i).key (at es j).key ≡ true =
                      ap (λ x. key_equals x.key (at es j).key) (sym at_i)
                      ∙ ap (λ x. key_equals (at (set es t e) i).key x.key) (sym at_j)
                      ∙ same in
                    table.distinct i j live_i (subst Live at_j lj) both
              ]
        ];
      }
        where
          lift :
              (k : Value) (i : ℕ)
              → Reaches hash_value key_equals es k i
              → Reaches hash_value key_equals (set es t e) k i
          lift k i r = Reaches-mono es (set es t e) k i (length-set es t e) (grows (inl live)) r

    -- A deletion leaves a mark that searches pass.
    pub erase-IsTable : IsTable hash_value key_equals IsKey (set es t tombstone)
    erase-IsTable = record {
      keys = λ i l. elim (entry_of tombstone i) [
        | inl (s, at_i) ↦ absurd (let l' : Live tombstone = subst Live at_i l in ground (arith, l'))
        | inr (o, at_i) ↦ subst (λ x. IsKey x.key) (sym at_i) (table.keys i (subst Live at_i l))
      ];
      reached = λ i l. elim (entry_of tombstone i) [
        | inl (s, at_i) ↦ absurd (let l' : Live tombstone = subst Live at_i l in ground (arith, l'))
        | inr (o, at_i) ↦
            subst (λ x. Reaches hash_value key_equals (set es t tombstone) x.key i) (sym at_i)
              (Reaches-mono es (set es t tombstone) (at es i).key i (length-set es t tombstone)
                (grows tombstone (inr refl)) (table.reached i (subst Live at_i l)))
      ];
      distinct = λ i j li lj same. elim (entry_of tombstone i) [
        | inl (si, at_i) ↦
            absurd (let l' : Live tombstone = subst Live at_i li in ground (arith, l'))
        | inr (oi, at_i) ↦ elim (entry_of tombstone j) [
          | inl (sj, at_j) ↦
              absurd (let l' : Live tombstone = subst Live at_j lj in ground (arith, l'))
          | inr (oj, at_j) ↦
              let both : key_equals (at es i).key (at es j).key ≡ true =
                ap (λ x. key_equals x.key (at es j).key) (sym at_i)
                ∙ ap (λ x. key_equals (at (set es t tombstone) i).key x.key) (sym at_j)
                ∙ same in
              table.distinct i j (subst Live at_i li) (subst Live at_j lj) both
        ]
      ];
    }
