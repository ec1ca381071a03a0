-- ===== src/Hash/Reads.antt =====
-- Reading and deleting keys: slp_obj_hash_get_raw, contains and delete of src/slp_value.c.
use slp.Hash.Grow.{live_count-erase}
use slp.Hash.Insert.{at-set_self, at-set_other, Live-within, erase-IsTable}
use slp.Hash.Map.{find_key-Absent, renewed, renewed-lookup, renewed-IsHash}
use slp.Hash.Probe.{KeyLaws, Live, find_key-some}
use slp.Hash.Refines.{IsHash, view}
use slp.Hash.Table.{
  HashTable, is_null, tombstone, at, home, search_key, touch, hash_get_raw, hash_contains,
  hash_delete,
}
use slp.Hash.View.{lookup, lookup-erase, lookup-stored, lookup-Absent, Absent}
use slp.Prelude.{
  ℕ, ◌+◌, ◌-◌, ◌≡◌, inl, inr, refl, sym, ap, ◌∙◌, Bool, true, false, not, ◌&&◌, Option, some, none,
  if◌then◌else◌, ◌==◌, length, set, length-set, arith, Bool-cases, Option-cases,
}
use slp.Value.{Value, null}

abbrev pub or_null : Option Value → Value
or_null none = null
or_null (some v) = v

abbrev pub is_some : Option Value → Bool
is_some none = false
is_some (some v) = true

module _ {hash_value : Value → ℕ} {key_equals : Value → Value → Bool} {IsKey : Value → Type 0}
    (laws : KeyLaws hash_value key_equals IsKey) where
  -- What a search finds.
  module _ (h : HashTable) (valid : IsHash hash_value key_equals IsKey h) (k : Value)
      (key : IsKey k) where
    search-some :
        (i : ℕ)
        → search_key hash_value key_equals h k ≡ some i
        → Live (at h.entries i) × (key_equals (at h.entries i).key k ≡ true)
    unfolding search_key
    search-some i e = elim (Bool-cases (length h.entries == 0)) [
      | inl z ↦ let f : none ≡ some i = rw z at e in absurd cc
      | inr p ↦
          find_key-some hash_value key_equals (length h.entries) h.entries k
            (home hash_value h.entries k) i (rw p at e)
    ]

    search-none :
        search_key hash_value key_equals h k ≡ none → Absent hash_value key_equals h.entries k
    unfolding search_key
    search-none e = elim (Bool-cases (length h.entries == 0)) [
      | inl z ↦ λ i l. absurd (let w = Live-within h.entries i l in ground (arith, z, w))
      | inr p ↦ find_key-Absent laws h.entries k valid.table key (rw p at e)
    ]

    missed-view :
        search_key hash_value key_equals h k ≡ none → view hash_value key_equals h k ≡ none
    missed-view e = lookup-Absent hash_value key_equals laws h.entries k (search-none e)

    module _ (i : ℕ) (e : search_key hash_value key_equals h k ≡ some i) where
      found-view : view hash_value key_equals h k ≡ some (at h.entries i).value
      found-view =
          let (live, same) = search-some i e in
          lookup-stored hash_value key_equals laws h.entries k i valid.table key live same

      same_value :
          (q : Value)
          → IsKey q
          → (if key_equals k q then some (at h.entries i).value else view hash_value key_equals h q)
            ≡ view hash_value key_equals h q
      same_value q kq = elim (Bool-cases (key_equals k q)) [
        | inl s ↦
            let (live, same) = search-some i e in
            let s' = laws.equal_trans _ k q (valid.table.keys i live) key kq same s in
            rw s
              (sym (lookup-stored hash_value key_equals laws h.entries q i valid.table kq live s'))
        | inr d ↦ rw d refl
      ]

      touch_lem :
          IsHash hash_value key_equals IsKey (touch h i)
          × ((q : Value)
              → IsKey q
              → view hash_value key_equals (touch h i) q ≡ view hash_value key_equals h q)
      unfolding touch renewed
      touch_lem = elim (Bool-cases (h.order_mode == 2 && not (is_null (at h.entries i).value))) [
        | inl t ↦
            let (live, same) = search-some i e in
            let n = h.next_sequence + 1 in
            let old = (at h.entries i).value in
            rw t (
              renewed-IsHash laws h k null valid key i live same old n n,
              λ q kq.
                  renewed-lookup laws h k null valid key i live same old n q kq ∙ same_value q kq,
            )
        | inr f ↦ rw f (valid, λ q kq. refl)
      ]

      erased-IsHash :
          IsHash hash_value key_equals IsKey
            (record h { entries = set h.entries i tombstone; count = h.count - 1 })
      erased-IsHash =
          let (live, same) = search-some i e in
          let es = h.entries in
          let less = live_count-erase es i tombstone live refl in
          let size = length-set es i tombstone in
          record {
            table =
                erase-IsTable hash_value key_equals laws es valid.table i (Live-within es i live);
            counted = omega (arith, less, valid.counted);
            load = ground (arith, size, valid.load);
            capacity = rw size valid.capacity;
          }

      erased-view :
          (q : Value)
          → IsKey q
          → lookup hash_value key_equals (set h.entries i tombstone) q
            ≡ (if key_equals k q then none else view hash_value key_equals h q)
      erased-view q kq =
          let (live, same) = search-some i e in
          let es = h.entries in
          let self = at-set_self es i tombstone (Live-within es i live) in
          let gone : is_null (at (set es i tombstone) i).key ≡ true =
            ap (λ x. is_null x.key) self in
          lookup-erase hash_value key_equals laws es (set es i tombstone) i k valid.table
            erased-IsHash.table key (λ j o. at-set_other es i tombstone j o) (λ l. same)
            (λ l. absurd (ground (arith, l, gone))) q kq gone live

    -- Reading a key gives its value in the map, or null, and leaves the map and the invariant as they
    -- are, also where it moves the entry to the end of the order of access.
    pub hash_get_raw-Kept :
        ((hash_get_raw hash_value key_equals h k).0 ≡ or_null (view hash_value key_equals h k))
        × IsHash hash_value key_equals IsKey (hash_get_raw hash_value key_equals h k).1
        × ((q : Value)
            → IsKey q
            → view hash_value key_equals (hash_get_raw hash_value key_equals h k).1 q
              ≡ view hash_value key_equals h q)
    unfolding hash_get_raw
    hash_get_raw-Kept = elim (Option-cases (search_key hash_value key_equals h k)) [
      | inl e ↦ rw (e, hash_get_raw) (ap or_null (sym (missed-view e)), valid, λ q kq. refl)
      | inr (i, e) ↦
          let (valid', same) = touch_lem i e in
          rw (e, hash_get_raw) (ap or_null (sym (found-view i e)), valid', same)
    ]

    -- A key is contained exactly if the map has a value for it.
    pub hash_contains-view :
        hash_contains hash_value key_equals h k ≡ is_some (view hash_value key_equals h k)
    unfolding hash_contains
    hash_contains-view = elim (Option-cases (search_key hash_value key_equals h k)) [
      | inl e ↦ rw (e, hash_contains) (ap is_some (sym (missed-view e)))
      | inr (i, e) ↦ rw (e, hash_contains) (ap is_some (sym (found-view i e)))
    ]

    -- Deleting a key keeps the invariant, takes the key out of the map and leaves the values of all
    -- keys that are not equal to it; the result says whether there was a value.
    pub hash_delete-IsErased :
        IsHash hash_value key_equals IsKey (hash_delete hash_value key_equals h k).0
        × ((hash_delete hash_value key_equals h k).1 ≡ is_some (view hash_value key_equals h k))
        × ((q : Value)
            → IsKey q
            → view hash_value key_equals (hash_delete hash_value key_equals h k).0 q
              ≡ (if key_equals k q then none else view hash_value key_equals h q))
    unfolding hash_delete
    hash_delete-IsErased = elim (Option-cases (search_key hash_value key_equals h k)) [
      | inl e ↦
          rw (e, hash_delete)
            (valid, ap is_some (sym (missed-view e)), λ q kq. sym (no_change e q kq))
      | inr (i, e) ↦
          rw (e, hash_delete)
            (erased-IsHash i e, ap is_some (sym (found-view i e)), λ q kq. erased-view i e q kq)
    ]
      where
        no_change :
            search_key hash_value key_equals h k ≡ none
            → (q : Value) → IsKey q
            → (if key_equals k q then none else view hash_value key_equals h q)
              ≡ view hash_value key_equals h q
        no_change e q kq = elim (Bool-cases (key_equals k q)) [
          | inr d ↦ rw d refl
          | inl s ↦ rw s (
              sym (
                lookup-Absent hash_value key_equals laws h.entries q (λ i l.
                  elim (Bool-cases (key_equals (at h.entries i).key q)) [
                    | inr other ↦ other
                    | inl t ↦
                        let key_i = valid.table.keys i l in
                        let to_k =
                          laws.equal_trans _ q k key_i kq key t (laws.equal_sym k q key kq s) in
                        absurd (ground (arith, to_k, search-none e i l))
                  ])))
        ]
