-- ===== src/Bytecode/ValueTrip.antt =====
-- One constant written and read back: serialize_value and deserialize_value of src/slp_bytecode.c.
use slp.Prelude.{
  ℕ, ◌+◌, ◌^◌, ◌<◌, ◌≡◌, refl, ◌∙◌, Bool, true, false, not, [], ◌∷◌, ◌++◌, some, le→ltb, ◌==◌,
  if◌then◌else◌, Bytes, length, append_assoc,
}
use slp.Bytecode.Parse.{read_sized, read_tagged, or_null, deserialize_value}
use slp.Bytecode.Print.{serialize_value}
use slp.Bytecode.Reader.{Reader, advance, read_f64, allocate}
use slp.Bytecode.Rest.{
  Rest, read-Rest, advance-Rest, remaining-Rest, read_u8-Rest, read_u32-Rest, read_u64-Rest,
}
use slp.Bytecode.Writer.{
  Writer, u32_bytes, u64_bytes, write, write_u8, write_u32, write_u64, write_f64,
}
use slp.Value.{Value, null, bool, num, string, long, double, tainted, object}

-- What can be stored: sizes and patterns fit their fields, and there is no other object.
abbrev pub Portable : Value → Type 0
Portable null = Unit
Portable (bool b) = Unit
Portable (num d) = d < 2 ^ 64
Portable (string a s) = length s < 2 ^ 32
Portable (long a l) = l < 2 ^ 64
Portable (double a d) = d < 2 ^ 64
Portable (tainted a v) = ⊥
Portable (object t a) = ⊥

pub value_bytes : Value → Bytes
value_bytes null = 0 ∷ []
value_bytes (bool b) = 1 ∷ (if b then 1 else 0) ∷ []
value_bytes (num d) = 2 ∷ u64_bytes d
value_bytes (string a s) = 3 ∷ (u32_bytes (length s) ++ s)
value_bytes (long a l) = 4 ∷ u64_bytes l
value_bytes (double a d) = 5 ∷ u64_bytes d
value_bytes _ = []

-- The value with a new address, which a string, a long and a double take.
abbrev pub reload : ℕ → Value → Value
reload a (string _ s) = string a s
reload a (long _ l) = long a l
reload a (double _ d) = double a d
reload a v = v

abbrev pub take_address : Reader → Reader
take_address r = record r { next = r.next + 1 }

-- The reader behind the value.
unfoldable pub after : Reader → Value → Reader
after r null = advance r 1
after r (bool b) = advance (advance r 1) 1
after r (num d) = advance (advance r 1) 8
after r (string _ s) = take_address (advance (advance (advance r 1) 4) (length s))
after r (long _ l) = take_address (advance (advance r 1) 8)
after r (double _ d) = take_address (advance (advance r 1) 8)
after r _ = r

pub serialize_value-bytes :
    (w : Writer) (v : Value)
    → Portable v
    → ((serialize_value w v).1 ≡ true)
      × ((serialize_value w v).0.buffer ≡ w.buffer ++ value_bytes v)
unfolding serialize_value value_bytes write write_u8 write_u32 write_u64 write_f64
serialize_value-bytes w null p = (refl, refl)
serialize_value-bytes w (bool b) p = (refl, append_assoc w.buffer (1 ∷ []) _)
serialize_value-bytes w (num d) p = (refl, append_assoc w.buffer (2 ∷ []) _)
serialize_value-bytes w (string a s) p = (
  refl,
  append_assoc (w.buffer ++ 3 ∷ []) (u32_bytes (length s)) s ∙ append_assoc w.buffer (3 ∷ []) _,
)
serialize_value-bytes w (long a l) p = (refl, append_assoc w.buffer (4 ∷ []) _)
serialize_value-bytes w (double a d) p = (refl, append_assoc w.buffer (5 ∷ []) _)
serialize_value-bytes w (tainted a v) p = absurd p
serialize_value-bytes w (object t a) p = absurd p

pub read_sized-Rest :
    (r : Reader) (s rest : Bytes)
    → Rest r (s ++ rest)
    → read_sized (length s) r ≡ (some s, advance r (length s))
unfolding read_sized
read_sized-Rest r s rest h = rw (le→ltb _ _ (remaining-Rest r s rest h)) (read-Rest r s rest h)

module _ (r : Reader) (rest : Bytes) where
  -- Behind the tag.
  tail-Rest : (tag : ℕ) (bs : Bytes) → Rest r (tag ∷ bs) → Rest (advance r 1) bs
  tail-Rest tag bs h = advance-Rest r (tag ∷ []) bs h

  tagged :
      (tag : ℕ) (bs : Bytes)
      → Rest r (tag ∷ bs)
      → deserialize_value r ≡ or_null (read_tagged tag (advance r 1))
  unfolding deserialize_value
  tagged tag bs h = rw (read_u8-Rest r bs tag h)

  bool_back : (b : Bool) → not ((if b then 1 else 0) == 0) ≡ b
  bool_back true = refl
  bool_back false = refl

  -- Reading what serialize_value wrote gives the value, at a new address.
  pub deserialize_value-Rest :
      (v : Value)
      → Portable v
      → Rest r (value_bytes v ++ rest)
      → deserialize_value r ≡ (reload r.next v, after r v)
  unfolding value_bytes after read_tagged read_f64 allocate advance
  deserialize_value-Rest null p h = tagged 0 rest h
  deserialize_value-Rest (bool b) p h =
      tagged 1 _ h ∙ rw (read_u8-Rest (advance r 1) rest _ (tail-Rest 1 _ h)) (rw (bool_back b))
  deserialize_value-Rest (num d) p h =
      tagged 2 _ h ∙ rw (read_u64-Rest (advance r 1) rest d p (tail-Rest 2 _ h))
  deserialize_value-Rest (string a s) p h =
      let h₁ = tail-Rest 3 _ h in
      let h₂ = advance-Rest (advance r 1) (u32_bytes (length s)) (s ++ rest) h₁ in
      tagged 3 _ h
      ∙ rw (read_u32-Rest (advance r 1) (s ++ rest) (length s) p h₁)
          (rw (read_sized-Rest (advance (advance r 1) 4) s rest h₂))
  deserialize_value-Rest (long a l) p h =
      tagged 4 _ h ∙ rw (read_u64-Rest (advance r 1) rest l p (tail-Rest 4 _ h))
  deserialize_value-Rest (double a d) p h =
      tagged 5 _ h ∙ rw (read_u64-Rest (advance r 1) rest d p (tail-Rest 5 _ h))
  deserialize_value-Rest (tainted a v) p h = absurd p
  deserialize_value-Rest (object t a) p h = absurd p

  pub after-Rest : (v : Value) → Portable v → Rest r (value_bytes v ++ rest) → Rest (after r v) rest
  unfolding value_bytes after
  after-Rest null p h = tail-Rest 0 rest h
  after-Rest (bool b) p h = advance-Rest (advance r 1) (_ ∷ []) rest (tail-Rest 1 _ h)
  after-Rest (num d) p h = advance-Rest (advance r 1) (u64_bytes d) rest (tail-Rest 2 _ h)
  after-Rest (string a s) p h =
      let h₁ = advance-Rest (advance r 1) (u32_bytes (length s)) (s ++ rest) (tail-Rest 3 _ h) in
      let h₂ = advance-Rest (advance (advance r 1) 4) s rest h₁ in
      record { unread = h₂.unread; sized = h₂.sized }
  after-Rest (long a l) p h =
      let h₁ = advance-Rest (advance r 1) (u64_bytes l) rest (tail-Rest 4 _ h) in
      record { unread = h₁.unread; sized = h₁.sized }
  after-Rest (double a d) p h =
      let h₁ = advance-Rest (advance r 1) (u64_bytes d) rest (tail-Rest 5 _ h) in
      record { unread = h₁.unread; sized = h₁.sized }
  after-Rest (tainted a v) p h = absurd p
  after-Rest (object t a) p h = absurd p
