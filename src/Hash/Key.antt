-- ===== src/Hash/Key.antt =====
-- The text of a key, its hash and the equality of keys: lines 113 to 207 of src/slp_value.c.
use slp.Prelude.{
  ℕ, zero, suc, ◌+◌, ◌-◌, ◌*◌, ◌/◌, ◌%◌, ◌^◌, bit_xor, ◌≡◌, refl, sym, ap, ◌∙◌, Bool, true, false,
  not, ◌&&◌, ◌||◌, Option, some, none, [], ◌∷◌, ◌++◌, ltb, leb, ◌==◌, if◌then◌else◌, Bytes, length,
  arith,
}
use slp.Hash.Probe.{KeyLaws}
use slp.Hash.Table.{HashTable, is_null, hash_get_raw}
use slp.Value.{
  Value, ObjType, null, bool, num, string, long, double, tainted, object, unwrap_taint,
  value_equals, is_obj, address,
}

-- What the keys are read through: the contents of the scalar cells, of which at most `depth` refer
-- to one another in a row, and the text that snprintf writes for an integer, as its sign and its
-- magnitude, and for a double with %.17g.
pub record Reading : Type 0 where
  pub cell : ℕ → Value
  pub depth : ℕ
  pub print_int : Bool → ℕ → Bytes
  pub print_double : ℕ → Bytes

-- The sign and the magnitude of a double that is a whole number within int32_t.
unfoldable pub int32_of_double : ℕ → Option (Bool × ℕ)
int32_of_double d =
    let e = d / 2 ^ 52 % 2 ^ 11 in
    let negative = leb (2 ^ 63) d in
    let shift = 1075 - e in
    let m = 2 ^ 52 + d % 2 ^ 52 in
    let v = m / 2 ^ shift in
    if d % 2 ^ 63 == 0
    then some (false, 0)
    else if ltb e 1023 || ltb 1054 e || not (m % 2 ^ shift == 0)
    then none
    else if ltb v (2 ^ 31) || (negative && v == 2 ^ 31)
    then some (negative, v)
    else none

unfoldable pub has_byte : ℕ → Bytes → Bool
has_byte c [] = false
has_byte c (b ∷ bs) = b == c || has_byte c bs

-- A text that the buffer of 64 bytes holds, with its terminator.
unfoldable pub fits : Bytes → Option Bytes
fits t = if ltb (length t) 64 then some t else none

-- A double that is written as a whole number gets ".0".
unfoldable pub with_fraction : Bytes → Bytes
with_fraction t =
    if ltb 0 (length t)
      && ltb (length t + 2) 64
      && not (has_byte b'.' t)
      && not (has_byte b'e' t)
      && not (has_byte b'E' t)
    then t ++ (b'.' ∷ b'0' ∷ [])
    else t

unfoldable pub unwrap_cells : ℕ → (ℕ → Value) → Value → Value
unwrap_cells (suc n) cell (object ObjType.scalar_cell a) = unwrap_cells n cell (cell a)
unwrap_cells _ cell v = v

unfoldable pub print_num : Reading → ℕ → Option (Bool × ℕ) → Bytes
print_num r d none = r.print_double d
print_num r d (some (negative, m)) = r.print_int negative m

unfoldable pub print_long : Reading → ℕ → Bytes
print_long r l = if ltb l (2 ^ 63) then r.print_int false l else r.print_int true (2 ^ 64 - l)

-- The text of a value without its cells and its taint.
unfoldable pub key_text : Reading → Value → Option Bytes
key_text r (string _ s) = some s
key_text r (num d) = fits (print_num r d (int32_of_double d))
key_text r (long _ l) = fits (print_long r l)
key_text r (double _ d) = fits (with_fraction (r.print_double d))
key_text r (bool true) = some (b'1' ∷ [])
key_text r (bool false) = some []
key_text r null = some []
key_text r _ = none

unfoldable pub hash_key_repr : Reading → Value → Option Bytes
hash_key_repr r v = key_text r (unwrap_taint (unwrap_cells r.depth r.cell v))

-- The lengths are equal and memcmp is 0.
unfoldable pub same_bytes : Bytes → Bytes → Bool
same_bytes [] [] = true
same_bytes [] (c ∷ cs) = false
same_bytes (b ∷ bs) [] = false
same_bytes (b ∷ bs) (c ∷ cs) = b == c && same_bytes bs cs

unfoldable pub texts_equal : Option Bytes → Option Bytes → Bool → Bool
texts_equal (some s) (some t) other = same_bytes s t
texts_equal _ _ other = other

unfoldable pub hash_key_equals : Reading → Value → Value → Bool
hash_key_equals r a b = texts_equal (hash_key_repr r a) (hash_key_repr r b) (value_equals a b)

-- The loop of slp_hash_string, on uint32_t.
unfoldable pub string_sum : ℕ → Bytes → ℕ
string_sum hash [] = hash
string_sum hash (c ∷ cs) = string_sum ((hash * 31 + c) % 2 ^ 32) cs

unfoldable pub hash_string : Bytes → ℕ
hash_string cs =
    let h = string_sum 0 cs in
    let h' = bit_xor h (bit_xor (h / 2 ^ 20) (h / 2 ^ 12)) in
    bit_xor (bit_xor h' (h' / 2 ^ 7)) (h' / 2 ^ 4)

-- The number of the value's tag, where it is no object.
unfoldable pub value_type : Value → ℕ
value_type null = 0
value_type (bool b) = 1
value_type (num d) = 2
value_type _ = 3

unfoldable pub hash_of : Value → Option Bytes → ℕ
hash_of v (some t) = hash_string t
hash_of v none = if is_obj v then address v % 2 ^ 32 else value_type v

unfoldable pub hash_value : Reading → Value → ℕ
hash_value r v = hash_of v (hash_key_repr r v)

unfoldable pub hash_get : Reading → HashTable → Value → Value × HashTable
hash_get r h k =
    let (v, h') = hash_get_raw (hash_value r) (hash_key_equals r) h k in
    (unwrap_cells r.depth r.cell v, h')

-- The keys that have a text, NULL itself left out.
abbrev pub IsTextKey : Reading → Value → Type 0
IsTextKey r v = (t : Bytes) × (hash_key_repr r v ≡ some t) × (is_null v ≡ false)

pub same_bytes_refl : (s : Bytes) → same_bytes s s ≡ true
unfolding same_bytes
same_bytes_refl [] = refl
same_bytes_refl (c ∷ s) = ground (arith, same_bytes_refl s)

same_bytes_eq : (s t : Bytes) → same_bytes s t ≡ true → s ≡ t
unfolding same_bytes
same_bytes_eq [] [] h = refl
same_bytes_eq [] (c ∷ t) h = absurd cc
same_bytes_eq (b ∷ s) [] h = absurd cc
same_bytes_eq (b ∷ s) (c ∷ t) h = ground (arith, same_bytes_eq s t)

texts_of :
    (r : Reading) (a b : Value) (s t : Bytes)
    → hash_key_repr r a ≡ some s
    → hash_key_repr r b ≡ some t
    → hash_key_equals r a b ≡ same_bytes s t
unfolding hash_key_equals texts_equal same_bytes
texts_of r a b s t p q = rw (p, q, texts_equal) refl

-- Two keys with a text are equal exactly if their texts are.
same_text :
    (r : Reading) (a b : Value) (s t : Bytes)
    → hash_key_repr r a ≡ some s
    → hash_key_repr r b ≡ some t
    → hash_key_equals r a b ≡ true
    → s ≡ t
same_text r a b s t p q h = same_bytes_eq s t (sym (texts_of r a b s t p q) ∙ h)

equal_text :
    (r : Reading) (a b : Value) (s t : Bytes)
    → hash_key_repr r a ≡ some s
    → hash_key_repr r b ≡ some t
    → s ≡ t
    → hash_key_equals r a b ≡ true
equal_text r a b s t p q e = texts_of r a b s t p q ∙ ap (same_bytes s) (sym e) ∙ same_bytes_refl s

hash_value-text :
    (r : Reading) (a : Value) (s : Bytes)
    → hash_key_repr r a ≡ some s
    → hash_value r a ≡ hash_string s
unfolding hash_value hash_of
hash_value-text r a s p = rw p refl

-- Two keys that have a text and are equal have one hash, whatever snprintf writes.
pub hash_value_agree :
    (r : Reading) (a b : Value)
    → IsTextKey r a
    → IsTextKey r b
    → hash_key_equals r a b ≡ true
    → hash_value r a ≡ hash_value r b
hash_value_agree r a b ka kb h =
    hash_value-text r a ka.0 ka.1
    ∙ ap hash_string (same_text r a b ka.0 kb.0 ka.1 kb.1 h)
    ∙ sym (hash_value-text r b kb.0 kb.1)

pub hash_key-KeyLaws : (r : Reading) → KeyLaws (hash_value r) (hash_key_equals r) (IsTextKey r)
hash_key-KeyLaws r = record {
  not_null = λ k key. key.2;
  equal_refl = λ k key. equal_text r k k key.0 key.0 key.1 key.1 refl;
  equal_sym = λ a b ka kb h.
      equal_text r b a kb.0 ka.0 kb.1 ka.1 (sym (same_text r a b ka.0 kb.0 ka.1 kb.1 h));
  equal_trans = λ a b c ka kb kc h g.
      equal_text r a c ka.0 kc.0 ka.1 kc.1
        (same_text r a b ka.0 kb.0 ka.1 kb.1 h ∙ same_text r b c kb.0 kc.0 kb.1 kc.1 g);
  agree = hash_value_agree r;
}

closure_alone :
    (n : ℕ) (cell : ℕ → Value) (a : ℕ)
    → unwrap_cells n cell (object ObjType.closure a) ≡ object ObjType.closure a
unfolding unwrap_cells
closure_alone zero cell a = refl
closure_alone (suc n) cell a = refl

tainted_alone :
    (n : ℕ) (cell : ℕ → Value) (b a : ℕ)
    → unwrap_cells n cell (tainted b (object ObjType.closure a))
      ≡ tainted b (object ObjType.closure a)
unfolding unwrap_cells
tainted_alone zero cell b a = refl
tainted_alone (suc n) cell b a = refl

-- A closure and the same closure tainted are equal keys, and each is hashed by its own address: the
-- wrapper's for the tainted one.
pub hash_value-tainted :
    (r : Reading) (a b : ℕ)
    → (hash_key_equals r (tainted b (object ObjType.closure a)) (object ObjType.closure a) ≡ true)
      × (hash_value r (tainted b (object ObjType.closure a)) ≡ b % 2 ^ 32)
      × (hash_value r (object ObjType.closure a) ≡ a % 2 ^ 32)
unfolding hash_key_equals hash_value hash_key_repr key_text hash_of texts_equal unwrap_taint
    value_equals is_obj address
hash_value-tainted r a b =
    let t = tainted_alone r.depth r.cell b a in
    let c = closure_alone r.depth r.cell a in (rw t (ground arith), rw t refl, rw c refl)
