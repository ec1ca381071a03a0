-- ===== src/Hash/Grow.antt =====
-- The number of keys of a table, and where hash_grow of src/slp_value.c puts one.
use native.Mathlib.Nat.{mod-lt}
use slp.Hash.Probe.{Live, Reaches, nth_place, next-nth_place}
use slp.Hash.Slots.{every_place}
use slp.Hash.Table.{HashEntry, is_null, at, place}
use slp.Prelude.{
  ℕ, zero, suc, ◌+◌, ◌%◌, ◌<◌, ◌≡◌, inl, inr, refl, sym, ap, subst, Bool, true, List, [], ◌∷◌,
  if◌then◌else◌, length, set, arith, Bool-cases, ℕ-cases,
}
use slp.Value.{Value}

-- The number of keys.
unfoldable pub live_count : List HashEntry → ℕ
live_count [] = 0
live_count (e ∷ es) = (if is_null e.key then 0 else 1) + live_count es

pub live_count-write :
    (es : List HashEntry) (t : ℕ) (e : HashEntry)
    → t < length es
    → is_null (at es t).key ≡ true
    → Live e
    → live_count (set es t e) ≡ live_count es + 1
unfolding live_count
live_count-write [] t e h n l = absurd (omega (arith, h))
live_count-write (x ∷ es) zero e h n l = rw (n, l) (omega arith)
live_count-write (x ∷ es) (suc t) e h n l =
    omega (arith, live_count-write es t e (omega (arith, h)) n l)

pub live_count-erase :
    (es : List HashEntry) (t : ℕ) (e : HashEntry)
    → Live (at es t)
    → is_null e.key ≡ true
    → live_count (set es t e) + 1 ≡ live_count es
unfolding live_count
live_count-erase [] t e l n = absurd (ground arith)
live_count-erase (x ∷ es) zero e l n = rw (n, l) (omega arith)
live_count-erase (x ∷ es) (suc t) e l n = omega (arith, live_count-erase es t e l n)

pub live_count-keep :
    (es : List HashEntry) (t : ℕ) (e : HashEntry)
    → Live (at es t)
    → Live e
    → live_count (set es t e) ≡ live_count es
unfolding live_count
live_count-keep [] t e l n = refl
live_count-keep (x ∷ es) zero e l n = rw (n, l) refl
live_count-keep (x ∷ es) (suc t) e l n =
    ap (λ m. (if is_null x.key then 0 else 1) + m) (live_count-keep es t e l n)

-- A table with fewer keys than places has an unused place.
pub unused_place :
    (es : List HashEntry)
    → live_count es < length es
    → (i : ℕ) × (i < length es) × (is_null (at es i).key ≡ true)
unfolding live_count
unused_place [] h = absurd (omega (arith, h))
unused_place (x ∷ es) h = elim (Bool-cases (is_null x.key)) [
  | inl n ↦ (zero, omega arith, n)
  | inr l ↦
      let (i, within, n) = unused_place es (ground (arith, l)) in (suc i, omega (arith, within), n)
]

module _ (hash_value : Value → ℕ) (key_equals : Value → Value → Bool) where
  pub Reaches-within :
      (es : List HashEntry) (k : Value) (i : ℕ)
      → Reaches hash_value key_equals es k i
      → i < length es
  Reaches-within es k i r =
      let small =
        mod-lt (hash_value k % length es + r.offset) {m = length es} (omega (arith, r.within)) in
      omega (arith, small, r.lands)

  -- The search of hash_grow ends at an unused place on the way of the key.
  pub place-Reaches :
      (n : ℕ) (es : List HashEntry) (k : Value) (j : ℕ)
      → j + n ≡ length es
      → live_count es < length es
      → ((i : ℕ) → i < j → Live (at es (nth_place hash_value key_equals es k i)))
      → (is_null (at es (place n es (nth_place hash_value key_equals es k j))).key ≡ true)
        × Reaches hash_value key_equals es k (place n es (nth_place hash_value key_equals es k j))
  unfolding place
  place-Reaches zero es k j h room passed =
      let (i, within, n) = unused_place es room in
      let (o, near, lands) = every_place hash_value key_equals es k i within in
      let l = passed o (omega (arith, near, h)) in
      let l' : Live (at es i) = subst (λ x. Live (at es x)) lands l in
      absurd (ground (arith, n, l'))
  place-Reaches (suc n) es k j h room passed =
      let x : ℕ = nth_place hash_value key_equals es k j in
      elim (Bool-cases (is_null (at es x).key)) [
        | inl null' ↦ rw null' (
          null',
          record {
            offset = j;
            within = omega (arith, h);
            lands = refl;
            passes = λ i b. inl (passed i b);
          },
        )
        | inr live ↦
            let rest = place-Reaches n es k (j + 1) (omega (arith, h)) room (λ i b.
              elim (ℕ-cases i j) [
                | inl e ↦
                    subst (λ y. Live (at es (nth_place hash_value key_equals es k y))) (sym e) live
                | inr o ↦ passed i (omega (arith, b, o))
              ]) in
            rw live (
              subst
                (λ y.
                  (is_null (at es (place n es y)).key ≡ true)
                  × Reaches hash_value key_equals es k (place n es y))
                (sym (next-nth_place hash_value key_equals es k j)) rest)
      ]
