-- ===== src/Hash/Tests.antt =====
-- A table with two keys, read through cells that are all NULL.
use slp.Hash.Key.{
  Reading, IsTextKey, hash_key_repr, hash_key_equals, hash_value, hash_key-KeyLaws,
  hash_value-tainted, hash_value_agree, key_text, unwrap_cells, fits, print_long, texts_equal,
  same_bytes,
}
use slp.Hash.Behaviour.{
  hash_set_lem, hash_get_raw_lem, hash_contains_lem, hash_delete_lem, hash_grow_lem,
}
use slp.Hash.Map.{hash_set-IsUpdated}
use slp.Hash.Probe.{KeyLaws}
use slp.Hash.Reads.{or_null, is_some}
use slp.Hash.Refines.{IsHash, view, hash_new-IsHash}
use slp.Hash.Table.{
  HashTable, hash_new, hash_set, hash_get_raw, hash_contains, hash_delete, hash_grow,
}
use slp.Prelude.{
  ℕ, ◌+◌, ◌*◌, ◌/◌, ◌%◌, ◌≤◌, ◌^◌, ◌≡◌, refl, Bool, true, some, none, [], ◌∷◌, if◌then◌else◌,
  length,
}
use slp.Value.{Value, ObjType, null, bool, string, long, tainted, object, unwrap_taint}

-- Every integer is written as the digit 1.
abbrev reading : Reading
reading = record {
  cell = λ a. null;
  depth = 0;
  print_int = λ negative m. b'1' ∷ [];
  print_double = λ d. b'1' ∷ b'.' ∷ b'5' ∷ [];
}

abbrev one : Value
one = long 8 1

abbrev letter : Value
letter = string 4 (b'a' ∷ [])

one-IsTextKey : IsTextKey reading one
unfolding hash_key_repr key_text unwrap_taint unwrap_cells fits print_long
one-IsTextKey = (b'1' ∷ [], refl, refl)

letter-IsTextKey : IsTextKey reading letter
unfolding hash_key_repr key_text unwrap_taint unwrap_cells
letter-IsTextKey = (b'a' ∷ [], refl, refl)

abbrev laws : KeyLaws (hash_value reading) (hash_key_equals reading) (IsTextKey reading)
laws = hash_key-KeyLaws reading

abbrev hash : Value → ℕ
hash = hash_value reading

abbrev same : Value → Value → Bool
same = hash_key_equals reading

abbrev single : HashTable
single = hash_set hash same hash_new one (bool true)

new-IsHash : IsHash hash same (IsTextKey reading) hash_new
new-IsHash = hash_new-IsHash hash same laws

single-IsHash : IsHash hash same (IsTextKey reading) single
single-IsHash = (hash_set-IsUpdated laws hash_new one (bool true) new-IsHash one-IsTextKey).valid

hash_set_example :
    IsHash hash same (IsTextKey reading) (hash_set hash same single letter (bool true))
    × (view hash same (hash_set hash same single letter (bool true)) one
        ≡ (if same letter one then some (bool true) else view hash same single one))
hash_set_example =
    hash_set_lem laws single single-IsHash letter (bool true) one letter-IsTextKey one-IsTextKey

hash_get_raw_example :
    ((hash_get_raw hash same single one).0 ≡ or_null (view hash same single one))
    × IsHash hash same (IsTextKey reading) (hash_get_raw hash same single one).1
    × (view hash same (hash_get_raw hash same single one).1 letter ≡ view hash same single letter)
hash_get_raw_example =
    hash_get_raw_lem laws single single-IsHash one letter one-IsTextKey letter-IsTextKey

hash_contains_example : hash_contains hash same single one ≡ is_some (view hash same single one)
hash_contains_example = hash_contains_lem laws single single-IsHash one one-IsTextKey

hash_delete_example :
    IsHash hash same (IsTextKey reading) (hash_delete hash same single one).0
    × ((hash_delete hash same single one).1 ≡ is_some (view hash same single one))
    × (view hash same (hash_delete hash same single one).0 letter
        ≡ (if same one letter then none else view hash same single letter))
hash_delete_example =
    hash_delete_lem laws single single-IsHash one letter one-IsTextKey letter-IsTextKey

hash_grow_example :
    IsHash hash same (IsTextKey reading) (hash_grow hash single)
    × (view hash same (hash_grow hash single) one ≡ view hash same single one)
    × (single.count + 1 ≤ length (hash_grow hash single).entries * 3 / 4)
hash_grow_example = hash_grow_lem laws single single-IsHash one one-IsTextKey

abbrev digit : Value
digit = string 12 (b'1' ∷ [])

digit-IsTextKey : IsTextKey reading digit
unfolding hash_key_repr key_text unwrap_taint unwrap_cells
digit-IsTextKey = (b'1' ∷ [], refl, refl)

one_is_digit : hash_key_equals reading one digit ≡ true
unfolding hash_key_equals hash_key_repr key_text unwrap_taint unwrap_cells fits print_long
    texts_equal same_bytes
one_is_digit = refl

hash_value_agree_example : hash_value reading one ≡ hash_value reading digit
hash_value_agree_example =
    hash_value_agree reading one digit one-IsTextKey digit-IsTextKey one_is_digit

hash_value-tainted_example :
    (hash_key_equals reading (tainted 48 (object ObjType.closure 32)) (object ObjType.closure 32)
      ≡ true)
    × (hash_value reading (tainted 48 (object ObjType.closure 32)) ≡ 48 % 2 ^ 32)
    × (hash_value reading (object ObjType.closure 32) ≡ 32 % 2 ^ 32)
hash_value-tainted_example = hash_value-tainted reading 32 48
