-- ===== src/StringBuffer.antt =====
-- The growing text of src/slp_utils.c and include/slp_utils.h.
pub mod Appends
use slp.Prelude.{
  ℕ, zero, suc, ◌+◌, ◌*◌, [], ◌∷◌, ◌++◌, ltb, ◌==◌, if◌then◌else◌, Bytes, length, take,
}

-- `data` is the block up to the last terminating 0 that was written;
-- `count` is the field `length`.
pub record StringBuffer : Type 0 where
  pub data' : Bytes
  pub count : ℕ
  pub capacity : ℕ

unfoldable pub string_buffer_init : StringBuffer
string_buffer_init = record { data' = []; count = 0; capacity = 0 }

-- Only the length is set; the block and its terminator stay.
unfoldable pub string_buffer_clear : StringBuffer → StringBuffer
string_buffer_clear b = record b { count = 0 }

-- The loop that doubles; fuel.
unfoldable pub doubled : ℕ → ℕ → ℕ → ℕ
doubled zero capacity needed = capacity
doubled (suc f) capacity needed =
    let rest = doubled f (capacity * 2) needed in if ltb capacity needed then rest else capacity

-- The capacity before the bytes are stored. Doubling a capacity that is not 0 adds 1 at least, so
-- what is needed is enough fuel.
unfoldable pub reserve : StringBuffer → ℕ → ℕ
reserve b needed =
    if ltb b.capacity needed
    then doubled needed (if b.capacity == 0 then 16 else b.capacity * 2) needed
    else b.capacity

unfoldable pub string_buffer_append_char : StringBuffer → ℕ → StringBuffer
string_buffer_append_char b c = record {
  data' = take b.count b.data' ++ c ∷ 0 ∷ [];
  count = b.count + 1;
  capacity = reserve b (b.count + 2);
}

-- An empty text is not appended: the block is not made, and no terminator is written.
unfoldable pub string_buffer_append_string : StringBuffer → Bytes → StringBuffer
string_buffer_append_string b [] = b
string_buffer_append_string b (c ∷ s) = record {
  data' = take b.count b.data' ++ ((c ∷ s) ++ 0 ∷ []);
  count = b.count + length (c ∷ s);
  capacity = reserve b (b.count + length (c ∷ s) + 1);
}
