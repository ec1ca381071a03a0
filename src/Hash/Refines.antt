-- ===== src/Hash/Refines.antt =====
-- The invariant of a hash, and growth: hash_grow and the start of slp_obj_hash_set of
-- src/slp_value.c.
use native.Mathlib.Nat.{pow-suc}
use slp.Hash.Grow.{live_count}
use slp.Hash.Probe.{KeyLaws, Live, IsTable}
use slp.Hash.Rehash.{IsBatch, Rehashes, rehash-Rehashes, or_in}
use slp.Hash.Table.{HashEntry, HashTable, empty, at, rehash, hash_grow, make_room, hash_new}
use slp.Hash.View.{lookup}
use slp.Prelude.{
  ℕ, zero, suc, ◌+◌, ◌*◌, ◌/◌, ◌^◌, ◌≤◌, ◌≡◌, ◌⊎◌, inl, inr, refl, sym, ap, subst, ◌∙◌, Bool, false,
  Option, some, none, List, [], ◌∷◌, if◌then◌else◌, ◌==◌, ltb, length, replicate, length-replicate,
  arith, Bool-cases,
}
use slp.Value.{Value}

at-replicate : (n i : ℕ) → at (replicate n empty) i ≡ empty
at-replicate zero i = refl
at-replicate (suc n) zero = refl
at-replicate (suc n) (suc i) = at-replicate n i

live_count-replicate : (n : ℕ) → live_count (replicate n empty) ≡ 0
unfolding live_count
live_count-replicate zero = refl
live_count-replicate (suc n) = omega (arith, live_count-replicate n)

live_count-le : (es : List HashEntry) → live_count es ≤ length es
unfolding live_count
live_count-le [] = omega arith
live_count-le (e ∷ es) = ground (arith, live_count-le es)

-- The capacities that growth comes to: none, or a power of 2 from 16 on.
abbrev pub IsCapacity : ℕ → Type 0
IsCapacity n = (n ≡ 0) ⊎ ((k : ℕ) × (n ≡ 16 * 2 ^ k))

two_pow-pos : (k : ℕ) → 1 ≤ 2 ^ k
two_pow-pos zero = omega arith
two_pow-pos (suc k) = omega (arith, pow-suc 2 k, two_pow-pos k)

capacity-pos : (n k : ℕ) → n ≡ 16 * 2 ^ k → 16 ≤ n
capacity-pos n k e = omega (arith, e, two_pow-pos k)

IsCapacity-new : (n : ℕ) → IsCapacity n → IsCapacity (if n == 0 then 16 else n * 2)
IsCapacity-new n (inl e) = inr (0, ground arith)
IsCapacity-new n (inr (k, e)) =
    let twice : n * 2 ≡ 16 * 2 ^ suc k = omega (arith, e, pow-suc 2 k) in
    let some_places = capacity-pos n k e in inr (suc k, ground (arith, twice, some_places))

room_for_one :
    (n count : ℕ)
    → IsCapacity n
    → count ≤ n * 3 / 4
    → count + 1 ≤ (if n == 0 then 16 else n * 2) * 3 / 4
room_for_one n count (inl e) h = ground (arith, e, h)
room_for_one n count (inr (k, e)) h = ground (arith, capacity-pos n k e, h)

module _ (hash_value : Value → ℕ) (key_equals : Value → Value → Bool) where
  lookup-replicate : (n : ℕ) (q : Value) → lookup hash_value key_equals (replicate n empty) q ≡ none
  unfolding lookup
  lookup-replicate zero q = refl
  lookup-replicate (suc n) q = lookup-replicate n q

  -- Each stored key is once in the table and found from its home, `count` is the number of keys,
  -- and the table is at most three quarters full.
  pub record IsHash (IsKey : Value → Type 0) (h : HashTable) : Type 0 where
    pub table : IsTable hash_value key_equals IsKey h.entries
    pub counted : h.count ≡ live_count h.entries
    pub load : h.count ≤ length h.entries * 3 / 4
    pub capacity : IsCapacity (length h.entries)

  -- The map that a hash stands for.
  abbrev pub view : HashTable → Value → Option Value
  view h k = lookup hash_value key_equals h.entries k

  -- The same map in another table.
  pub record SameMap (IsKey : Value → Type 0) (h h' : HashTable) : Type 0 where
    pub same : (q : Value) → IsKey q → view h' q ≡ view h q
    pub count : h'.count ≡ h.count
    pub next_sequence : h'.next_sequence ≡ h.next_sequence
    pub order_mode : h'.order_mode ≡ h.order_mode

  module _ {IsKey : Value → Type 0} (laws : KeyLaws hash_value key_equals IsKey) where
    empty-IsTable : (n : ℕ) → IsTable hash_value key_equals IsKey (replicate n empty)
    empty-IsTable n = record {
      keys = λ i l. absurd (no_key i l);
      reached = λ i l. absurd (no_key i l);
      distinct = λ i j l m s. absurd (no_key i l);
    }
      where
        no_key : (i : ℕ) → Live (at (replicate n empty) i) → ⊥
        no_key i l = let l' : Live empty = subst Live (at-replicate n i) l in ground (arith, l')

    -- The entries of a table, put in an empty one.
    batch :
        (n : ℕ) (es : List HashEntry)
        → IsTable hash_value key_equals IsKey es
        → IsBatch hash_value key_equals IsKey es (replicate n empty)
    batch n es t = record {
      keys = t.keys;
      unique = t.distinct;
      apart = λ i j l m.
          absurd (let l' : Live empty = subst Live (at-replicate n j) m in ground (arith, l'));
    }

    abbrev new_cap : HashTable → ℕ
    new_cap h = if length h.entries == 0 then 16 else length h.entries * 2

    grown :
        (h : HashTable)
        → IsHash IsKey h
        → Rehashes hash_value key_equals laws h.entries
            (replicate (new_cap h) empty)
            (rehash hash_value h.entries (replicate (new_cap h) empty))
    grown h v =
        let none_yet = live_count-replicate (new_cap h) in
        let size = length-replicate (new_cap h) empty in
        let most = live_count-le h.entries in
        rehash-Rehashes hash_value key_equals laws h.entries (replicate (new_cap h) empty)
          (batch (new_cap h) h.entries v.table) (empty-IsTable (new_cap h))
          (ground (arith, none_yet, size, most))

    or_in-none : (o : Option Value) → or_in hash_value key_equals o none ≡ o
    or_in-none none = refl
    or_in-none (some v) = refl

    -- Growth keeps the invariant and the map, and leaves room for one key more.
    pub hash_grow-SameMap :
        (h : HashTable)
        → IsHash IsKey h
        → IsHash IsKey (hash_grow hash_value h)
          × SameMap IsKey h (hash_grow hash_value h)
          × (h.count + 1 ≤ length (hash_grow hash_value h).entries * 3 / 4)
    unfolding hash_grow
    hash_grow-SameMap h v =
        let r = grown h v in
        let none_yet = live_count-replicate (new_cap h) in
        let size = r.size ∙ length-replicate (new_cap h) empty in
        let room : h.count + 1
            ≤ length (rehash hash_value h.entries (replicate (new_cap h) empty)) * 3 / 4 =
          subst (λ n. h.count + 1 ≤ n * 3 / 4) (sym size)
            (room_for_one (length h.entries) h.count v.capacity v.load) in
        let kept : h.count
            ≡ live_count (rehash hash_value h.entries (replicate (new_cap h) empty)) =
          omega (arith, v.counted, r.total, none_yet) in
        (
          record {
            table = r.table;
            counted = kept;
            load = omega (arith, room);
            capacity = subst IsCapacity (sym size) (IsCapacity-new _ v.capacity);
          },
          record {
            same = λ q kq.
                r.same q kq
                ∙ ap (or_in hash_value key_equals _) (lookup-replicate (new_cap h) q)
                ∙ or_in-none _;
            count = refl;
            next_sequence = refl;
            order_mode = refl;
          },
          room,
        )

    -- The start of hash_set: there is room for one key more.
    pub make_room_lem :
        (h : HashTable)
        → IsHash IsKey h
        → IsHash IsKey (make_room hash_value h)
          × SameMap IsKey h (make_room hash_value h)
          × (h.count + 1 ≤ length (make_room hash_value h).entries * 3 / 4)
    unfolding make_room
    make_room_lem h v = elim (Bool-cases (ltb (length h.entries * 3 / 4) (h.count + 1))) [
      | inl grows ↦
          let (v', same, room) = hash_grow-SameMap h v in
          let filled : (length (hash_grow hash_value h).entries == 0) ≡ false =
            ground (arith, room) in
          rw (grows, filled) (v', same, room)
      | inr fits ↦
          let filled : (length h.entries == 0) ≡ false = ground (arith, fits) in
          rw (fits, filled)
            (
              v,
              record { same = λ q kq. refl; count = refl; next_sequence = refl; order_mode = refl },
              ground (arith, fits),
            )
    ]

    pub hash_new-IsHash : IsHash IsKey hash_new
    unfolding hash_new live_count
    hash_new-IsHash = record {
      table = empty-IsTable 0;
      counted = refl;
      load = omega arith;
      capacity = inl refl;
    }
