-- ===== src/Hash/Table.antt =====
-- The table: open addressing with marks for deletions, growth, and the order of its entries; lines 456
-- to 651 of src/slp_value.c.
use slp.Prelude.{
  ℕ, zero, suc, ◌+◌, ◌-◌, ◌*◌, ◌/◌, ◌%◌, Bool, true, false, not, ◌&&◌, Option, some, none, List, [],
  ◌∷◌, ltb, leb, ◌==◌, if◌then◌else◌, length, get_or, set, replicate,
}
use slp.Value.{Value, null, bool}

pub record HashEntry : Type 0 where
  pub key : Value
  pub value : Value
  pub sequence : ℕ

-- The capacity is the length of `entries`. The two policies are not used by these functions.
pub record HashTable : Type 0 where
  pub entries : List HashEntry
  pub count : ℕ
  pub next_sequence : ℕ
  pub order_mode : ℕ

abbrev pub is_null : Value → Bool
is_null null = true
is_null _ = false

abbrev pub is_true : Value → Bool
is_true (bool true) = true
is_true _ = false

abbrev pub empty : HashEntry
empty = record { key = null; value = null; sequence = 0 }

-- `hash->entries[idx]`
abbrev pub at : List HashEntry → ℕ → HashEntry
at es i = get_or es i empty

-- A deletion leaves the key NULL and the value true.
abbrev pub tombstone : HashEntry
tombstone = record { key = null; value = bool true; sequence = 0 }

-- Where the loop of hash_set ends: at an equal key, at a place to write to, or nowhere.
pub data Slot : Type 0 where
  found free : ℕ → Slot
  full : Slot

unfoldable pub hash_new : HashTable
hash_new = record { entries = []; count = 0; next_sequence = 0; order_mode = 0 }

-- `idx = (idx + 1) & (capacity - 1)`
abbrev pub next : List HashEntry → ℕ → ℕ
next es idx = (idx + 1) % length es

-- The search for an unused place in a table under construction.
unfoldable pub place : ℕ → List HashEntry → ℕ → ℕ
place zero es idx = idx
place (suc n) es idx =
    let rest = place n es (next es idx) in if is_null (at es idx).key then idx else rest

abbrev pub or_else : Option ℕ → ℕ → ℕ
or_else none i = i
or_else (some t) i = t

abbrev pub first : Option ℕ → ℕ → Option ℕ
first none i = some i
first (some t) i = some t

abbrev pub reuse : Option ℕ → Slot
reuse none = full
reuse (some t) = free t

-- A new entry at a place.
unfoldable pub write_entry : HashTable → ℕ → Value → Value → HashTable
write_entry h idx k v = record h {
  entries = set h.entries idx (record { key = k; value = v; sequence = h.next_sequence + 1 });
  count = h.count + 1;
  next_sequence = h.next_sequence + 1;
}

-- A new value under the key that is there.
unfoldable pub write_value : HashTable → ℕ → Value → HashTable
write_value h idx v = record h {
  entries = set h.entries idx (record (at h.entries idx) { value = v });
}

-- In the order of access a hit that is not NULL moves the entry to the end.
unfoldable pub touch : HashTable → ℕ → HashTable
touch h i =
    if h.order_mode == 2 && not (is_null (at h.entries i).value)
    then record h {
      entries = set h.entries i (record (at h.entries i) { sequence = h.next_sequence + 1 });
      next_sequence = h.next_sequence + 1;
    }
    else h

module _ (hash_value : Value → ℕ) where
  -- The capacity is a power of 2, and `&` with one less is the remainder.
  abbrev pub home : List HashEntry → Value → ℕ
  home es k = hash_value k % length es

  -- The second loop of hash_grow, over the old entries.
  unfoldable pub rehash : List HashEntry → List HashEntry → List HashEntry
  rehash [] es = es
  rehash (e ∷ old) es =
      if is_null e.key
      then rehash old es
      else rehash old (set es (place (length es) es (home es e.key)) e)

  unfoldable pub hash_grow : HashTable → HashTable
  hash_grow h =
      let new_cap = if length h.entries == 0 then 16 else length h.entries * 2 in
      record h { entries = rehash h.entries (replicate new_cap empty) }

  -- The two calls of hash_grow at the start of hash_set.
  unfoldable pub make_room : HashTable → HashTable
  make_room h =
      let h' = if ltb (length h.entries * 3 / 4) (h.count + 1) then hash_grow h else h in
      if length h'.entries == 0 then hash_grow h' else h'

  unfoldable pub hash_entry_precedes : HashTable → ℕ → ℕ → Bool
  hash_entry_precedes h l r =
      let left = at h.entries l in
      let right = at h.entries r in
      let left_bucket = home h.entries left.key in
      let right_bucket = home h.entries right.key in
      if not (h.order_mode == 0)
      then ltb left.sequence right.sequence
      else if not (left_bucket == right_bucket)
      then ltb left_bucket right_bucket
      else ltb right.sequence left.sequence

  -- The inner loop of ordered_index, from `other` on, with `n` rounds left.
  unfoldable pub rank : ℕ → HashTable → ℕ → ℕ → ℕ
  rank zero h candidate other = 0
  rank (suc n) h candidate other =
      let counts =
        not (is_null (at h.entries other).key)
        && not (other == candidate)
        && hash_entry_precedes h other candidate in
      (if counts then 1 else 0) + rank n h candidate (other + 1)

  -- The outer loop.
  unfoldable pub find_rank : ℕ → HashTable → ℕ → ℕ → Option ℕ
  find_rank zero h ordinal candidate = none
  find_rank (suc n) h ordinal candidate =
      let rest = find_rank n h ordinal (candidate + 1) in
      if is_null (at h.entries candidate).key
      then rest
      else if rank (length h.entries) h candidate 0 == ordinal
      then some candidate
      else rest

  -- `none` is the result -1.
  unfoldable pub hash_ordered_index : HashTable → ℕ → Option ℕ
  hash_ordered_index h ordinal =
      if leb h.count ordinal then none else find_rank (length h.entries) h ordinal 0

module _ (hash_value : Value → ℕ) (key_equals : Value → Value → Bool) where
  -- The loop of get_raw, contains and delete: the index of an equal key, with `n` rounds left.
  unfoldable pub find_key : ℕ → List HashEntry → Value → ℕ → Option ℕ
  find_key zero es k idx = none
  find_key (suc n) es k idx =
      let rest = find_key n es k (next es idx) in
      if is_null (at es idx).key
      then (if is_true (at es idx).value then rest else none)
      else if key_equals (at es idx).key k
      then some idx
      else rest

  -- The loop of hash_set; it remembers the first tombstone.
  unfoldable pub find_slot : ℕ → List HashEntry → Value → Option ℕ → ℕ → Slot
  find_slot zero es k t idx = reuse t
  find_slot (suc n) es k t idx =
      let marked = find_slot n es k (first t idx) (next es idx) in
      let rest = find_slot n es k t (next es idx) in
      if is_null (at es idx).key
      then (if is_true (at es idx).value then marked else free (or_else t idx))
      else if key_equals (at es idx).key k
      then found idx
      else rest

  unfoldable pub store : HashTable → Value → Value → Slot → (HashTable → HashTable) → HashTable
  store h k v (found i) again = write_value h i v
  store h k v (free i) again = write_entry h i k v
  store h k v full again = again (hash_grow hash_value h)

  -- Fuel for the call of hash_set by itself when the table is full.
  unfoldable pub set_rounds : ℕ → Value → Value → HashTable → HashTable
  set_rounds zero k v h = h
  set_rounds (suc n) k v h =
      let h' = make_room hash_value h in
      store h' k v (find_slot (length h'.entries) h'.entries k none (home hash_value h'.entries k))
        (set_rounds n k v)

  unfoldable pub hash_set : HashTable → Value → Value → HashTable
  hash_set h k v = set_rounds 2 k v h

  -- The entry that the loop found.
  unfoldable pub search_key : HashTable → Value → Option ℕ
  search_key h k =
      if length h.entries == 0
      then none
      else find_key (length h.entries) h.entries k (home hash_value h.entries k)

  unfoldable pub hash_get_raw : HashTable → Value → Value × HashTable
  hash_get_raw h k = elim (search_key h k) [
    | none ↦ (null, h)
    | some i ↦ ((at h.entries i).value, touch h i)
  ]

  unfoldable pub hash_contains : HashTable → Value → Bool
  hash_contains h k = elim (search_key h k) [ none ↦ false | some i ↦ true ]

  unfoldable pub hash_delete : HashTable → Value → HashTable × Bool
  hash_delete h k = elim (search_key h k) [
    | none ↦ (h, false)
    | some i ↦ (record h { entries = set h.entries i tombstone; count = h.count - 1 }, true)
  ]

unfoldable pub visible : List HashEntry → ℕ
visible [] = 0
visible (e ∷ es) = (if not (is_null e.key) && not (is_null e.value) then 1 else 0) + visible es

unfoldable pub hash_visible_count : HashTable → ℕ
hash_visible_count h = visible h.entries
