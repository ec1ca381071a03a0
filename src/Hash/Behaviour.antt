-- ===== src/Hash/Behaviour.antt =====
-- What the functions on a hash do to the map it stands for: slp_obj_hash_set, get_raw, contains and
-- delete, and hash_grow, of src/slp_value.c.
use slp.Hash.Map.{hash_set-IsUpdated}
use slp.Hash.Probe.{KeyLaws}
use slp.Hash.Reads.{or_null, is_some, hash_get_raw-Kept, hash_contains-view, hash_delete-IsErased}
use slp.Hash.Refines.{IsHash, view, hash_grow-SameMap}
use slp.Hash.Table.{HashTable, hash_set, hash_get_raw, hash_contains, hash_delete, hash_grow}
use slp.Prelude.{ℕ, ◌+◌, ◌*◌, ◌/◌, ◌≤◌, ◌≡◌, Bool, some, none, if◌then◌else◌, length}
use slp.Value.{Value}

module _ {hash_value : Value → ℕ} {key_equals : Value → Value → Bool} {IsKey : Value → Type 0}
    (laws : KeyLaws hash_value key_equals IsKey) (h : HashTable)
    (valid : IsHash hash_value key_equals IsKey h) where
  -- Setting a key of a valid hash gives a valid hash, whose map has the value at all equal keys and is
  -- the old one at the others.
  pub hash_set_lem :
      (k v q : Value)
      → IsKey k
      → IsKey q
      → IsHash hash_value key_equals IsKey (hash_set hash_value key_equals h k v)
        × (view hash_value key_equals (hash_set hash_value key_equals h k v) q
            ≡ (if key_equals k q then some v else view hash_value key_equals h q))
  hash_set_lem k v q kk kq = let u = hash_set-IsUpdated laws h k v valid kk in (u.valid, u.map q kq)

  -- Reading a key of a valid hash returns its value in the map, or NULL where it has none; the hash
  -- that is left, whose entry may have moved to the end of the order of access, is valid and has the
  -- same map.
  pub hash_get_raw_lem :
      (k q : Value)
      → IsKey k
      → IsKey q
      → ((hash_get_raw hash_value key_equals h k).0 ≡ or_null (view hash_value key_equals h k))
        × IsHash hash_value key_equals IsKey (hash_get_raw hash_value key_equals h k).1
        × (view hash_value key_equals (hash_get_raw hash_value key_equals h k).1 q
            ≡ view hash_value key_equals h q)
  hash_get_raw_lem k q kk kq =
      let (value, valid', same) = hash_get_raw-Kept laws h valid k kk in (value, valid', same q kq)

  -- A valid hash contains a key exactly if its map has a value for it.
  pub hash_contains_lem :
      (k : Value)
      → IsKey k
      → hash_contains hash_value key_equals h k ≡ is_some (view hash_value key_equals h k)
  hash_contains_lem k kk = hash_contains-view laws h valid k kk

  -- Deleting a key of a valid hash leaves a valid hash, whose map has no value at all equal keys and
  -- is the old one at the others; the result says whether the map had a value.
  pub hash_delete_lem :
      (k q : Value)
      → IsKey k
      → IsKey q
      → IsHash hash_value key_equals IsKey (hash_delete hash_value key_equals h k).0
        × ((hash_delete hash_value key_equals h k).1 ≡ is_some (view hash_value key_equals h k))
        × (view hash_value key_equals (hash_delete hash_value key_equals h k).0 q
            ≡ (if key_equals k q then none else view hash_value key_equals h q))
  hash_delete_lem k q kk kq =
      let (valid', result, map) = hash_delete-IsErased laws h valid k kk in
      (valid', result, map q kq)

  -- The growth of a valid hash leaves it valid, with the same map, and makes room for one key more.
  pub hash_grow_lem :
      (q : Value)
      → IsKey q
      → IsHash hash_value key_equals IsKey (hash_grow hash_value h)
        × (view hash_value key_equals (hash_grow hash_value h) q ≡ view hash_value key_equals h q)
        × (h.count + 1 ≤ length (hash_grow hash_value h).entries * 3 / 4)
  hash_grow_lem q kq =
      let (valid', same, room) = hash_grow-SameMap hash_value key_equals laws h valid in
      (valid', same.same q kq, room)
