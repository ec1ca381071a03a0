-- ===== src/Hash/Map.antt =====
-- The table implements a finite map: slp_obj_hash_set, get_raw, contains and delete of
-- src/slp_value.c.
use slp.Hash.Grow.{live_count-write, live_count-keep, unused_place, Reaches-within}
use slp.Hash.Insert.{at-set_self, at-set_other, Live-within, write-IsTable}
use slp.Hash.Probe.{KeyLaws, Live, Reaches, IsTable, find_key-some, find_key-stored}
use slp.Hash.Refines.{IsHash, view, make_room_lem}
use slp.Hash.Slots.{stops_at, find_slot-find_key, full-Live, free-Reaches}
use slp.Hash.Table.{
  HashEntry, HashTable, Slot, found, free, full, is_null, at, home, find_key, find_slot, make_room,
  store, set_rounds, hash_set, write_entry, write_value,
}
use slp.Hash.View.{lookup, lookup-write, Absent}
use slp.Prelude.{
  ℕ, ◌+◌, ◌*◌, ◌/◌, ◌≤◌, ◌≡◌, ◌⊎◌, inl, inr, refl, sym, ap, subst, ◌∙◌, Bool, true, some, none,
  List, if◌then◌else◌, length, set, length-set, arith, Bool-cases,
}
use slp.Value.{Value}

Slot-cases : (s : Slot) → ((i : ℕ) × (s ≡ found i)) ⊎ (((i : ℕ) × (s ≡ free i)) ⊎ (s ≡ full))
Slot-cases (found i) = inl (i, refl)
Slot-cases (free i) = inr (inl (i, refl))
Slot-cases full = inr (inr refl)

module _ {hash_value : Value → ℕ} {key_equals : Value → Value → Bool} {IsKey : Value → Type 0}
    (laws : KeyLaws hash_value key_equals IsKey) where
  abbrev pub home_of : List HashEntry → Value → ℕ
  home_of es k = home hash_value es k

  pub find_key-Absent :
      (es : List HashEntry) (k : Value)
      → IsTable hash_value key_equals IsKey es
      → IsKey k
      → find_key hash_value key_equals (length es) es k (home_of es k) ≡ none
      → Absent hash_value key_equals es k
  find_key-Absent es k t q h i l = elim (Bool-cases (key_equals (at es i).key k)) [
    | inr other ↦ other
    | inl s ↦
        let f = find_key-stored hash_value key_equals laws es k i t q l s in
        absurd (ground (arith, f, h))
  ]

  -- What a table is after `k` was given the value `v`.
  pub record IsUpdated (h h' : HashTable) (k v : Value) : Type 0 where
    pub valid : IsHash hash_value key_equals IsKey h'
    pub order_mode : h'.order_mode ≡ h.order_mode
    pub map :
        (q : Value)
        → IsKey q
        → view hash_value key_equals h' q
          ≡ (if key_equals k q then some v else view hash_value key_equals h q)

  module _ (h : HashTable) (k v : Value) (valid : IsHash hash_value key_equals IsKey h)
      (key : IsKey k) where
    -- The key is there, and its entry gets another value and number.
    module _ (i : ℕ) (live : Live (at h.entries i))
        (same : key_equals (at h.entries i).key k ≡ true) (w : Value) (n : ℕ) where
      unfoldable pub renewed : HashEntry
      renewed = record { key = (at h.entries i).key; value = w; sequence = n }

      renewed-IsTable : IsTable hash_value key_equals IsKey (set h.entries i renewed)
      unfolding renewed
      renewed-IsTable =
          write-IsTable hash_value key_equals laws h.entries valid.table i
            (Live-within h.entries i live) renewed live (valid.table.keys i live)
            (valid.table.reached i live)
            (λ j o l. elim (Bool-cases (key_equals (at h.entries j).key (at h.entries i).key)) [
              | inr other ↦ other
              | inl s ↦ absurd (o (valid.table.distinct j i l live s))
            ])

      pub renewed-lookup :
          (q : Value)
          → IsKey q
          → lookup hash_value key_equals (set h.entries i renewed) q
            ≡ (if key_equals k q then some w else lookup hash_value key_equals h.entries q)
      unfolding renewed
      renewed-lookup q kq =
          let es = h.entries in
          let self = at-set_self es i renewed (Live-within es i live) in
          lookup-write hash_value key_equals laws es (set es i renewed) i k valid.table
            renewed-IsTable key (λ j o. at-set_other es i renewed j o) (λ l. same)
            (λ l. ap (λ x. key_equals x.key k) self ∙ same) q kq (subst Live (sym self) live)
          ∙ ap (λ x. if key_equals k q then some x.value else lookup hash_value key_equals es q)
              self

      pub renewed-IsHash :
          (m : ℕ)
          → IsHash hash_value key_equals IsKey
              (record h { entries = set h.entries i renewed; next_sequence = m })
      unfolding renewed
      renewed-IsHash m = record {
        table = renewed-IsTable;
        counted = valid.counted ∙ sym (live_count-keep h.entries i renewed live live);
        load = ground (arith, length-set h.entries i renewed, valid.load);
        capacity = rw (length-set h.entries i renewed) valid.capacity;
      }

    write_value-IsUpdated :
        (i : ℕ)
        → Live (at h.entries i)
        → key_equals (at h.entries i).key k ≡ true
        → IsUpdated h (write_value h i v) k v
    unfolding write_value renewed
    write_value-IsUpdated i live same = record {
      valid = renewed-IsHash i live same v (at h.entries i).sequence h.next_sequence;
      order_mode = refl;
      map = λ q kq. renewed-lookup i live same v (at h.entries i).sequence q kq;
    }

    -- The key is new.
    write_entry-IsUpdated :
        (i : ℕ)
        → is_null (at h.entries i).key ≡ true
        → Reaches hash_value key_equals h.entries k i
        → Absent hash_value key_equals h.entries k
        → h.count + 1 ≤ length h.entries * 3 / 4
        → IsUpdated h (write_entry h i k v) k v
    unfolding write_entry
    write_entry-IsUpdated i unused way absent room =
        let es = h.entries in
        let e : HashEntry = record { key = k; value = v; sequence = h.next_sequence + 1 } in
        let within = Reaches-within hash_value key_equals es k i way in
        let live : Live e = laws.not_null k key in
        let table : IsTable hash_value key_equals IsKey (set es i e) =
          write-IsTable hash_value key_equals laws es valid.table i within e live key way
            (λ j o l. absent j l) in
        let self = at-set_self es i e within in
        record {
          valid = record {
            table = table;
            counted = omega (arith, valid.counted, live_count-write es i e within unused live);
            load = ground (arith, length-set es i e, room);
            capacity = rw (length-set es i e) valid.capacity;
          };
          order_mode = refl;
          map = λ q kq.
              lookup-write hash_value key_equals laws es (set es i e) i k valid.table table key
                (λ j o. at-set_other es i e j o) (λ l. absurd (ground (arith, unused, l)))
                (λ l. ap (λ x. key_equals x.key k) self ∙ laws.equal_refl k key) q kq
                (subst Live (sym self) live)
              ∙ ap (λ x. if key_equals k q then some x.value else lookup hash_value key_equals es q)
                  self;
        }

    store-IsUpdated :
        (again : HashTable → HashTable)
        → h.count + 1 ≤ length h.entries * 3 / 4
        → IsUpdated h
            (store hash_value key_equals h k v
              (find_slot hash_value key_equals
                (length h.entries)
                h.entries
                k
                none
                (home_of h.entries k))
              again)
            k
            v
    unfolding store
    store-IsUpdated again room =
        let es = h.entries in
        let slot = find_slot hash_value key_equals (length es) es k none (home_of es k) in
        let stop = find_slot-find_key hash_value key_equals (length es) es k none (home_of es k) in
        elim (Slot-cases slot) [
          | inl (i, e) ↦
              let found_i = sym stop ∙ ap stops_at e in
              let (live, same) =
                find_key-some hash_value key_equals (length es) es k (home_of es k) i found_i in
              rw e (write_value-IsUpdated i live same)
          | inr (inl (i, e)) ↦
              let absent = find_key-Absent es k valid.table key (sym stop ∙ ap stops_at e) in
              let (unused, way) = free-Reaches hash_value key_equals es k i e in
              rw e (write_entry-IsUpdated i unused way absent room)
          | inr (inr e) ↦
              let (i, within, n) = unused_place es (omega (arith, valid.counted, room)) in
              let l = full-Live hash_value key_equals es k e i within in
              absurd (ground (arith, n, l))
        ]

  -- Setting a key keeps the invariant, gives the key its value and leaves the values of all keys
  -- that are not equal to it.
  pub hash_set-IsUpdated :
      (h : HashTable) (k v : Value)
      → IsHash hash_value key_equals IsKey h
      → IsKey k
      → IsUpdated h (hash_set hash_value key_equals h k v) k v
  unfolding hash_set set_rounds
  hash_set-IsUpdated h k v valid key =
      let (valid', same, room) = make_room_lem hash_value key_equals laws h valid in
      let h' = make_room hash_value h in
      let room' : h'.count + 1 ≤ length h'.entries * 3 / 4 = omega (arith, room, same.count) in
      let u = store-IsUpdated h' k v valid' key (set_rounds hash_value key_equals 1 k v) room' in
      record {
        valid = u.valid;
        order_mode = u.order_mode ∙ same.order_mode;
        map = λ q kq. u.map q kq ∙ ap (λ o. if key_equals k q then some v else o) (same.same q kq);
      }
