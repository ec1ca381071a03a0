-- ===== src/Chunk.antt =====
-- The code and constant container of one function: src/slp_chunk.c and include/slp_chunk.h.
pub mod Laws
use slp.Prelude.{
  ℕ, ◌+◌, ◌*◌, ◌/◌, ◌%◌, Bool, true, false, ◌&&◌, ◌||◌, List, [], ◌∷◌, ◌++◌, Option, none, some,
  ltb, ◌==◌, if◌then◌else◌, Bytes, length, get_or,
}
use slp.Value.{Value, num, long, double, double_eq, is_obj, type_index, address, value_equals}

-- `count` and `constant_count` are the lengths of the lists; allocation does not fail.
pub record Chunk : Type 0 where
  pub code : Bytes
  pub lines : List ℕ
  pub capacity : ℕ
  pub constants : List Value
  pub constant_capacity : ℕ

num_equal : Value → Value → Bool
unfolding double_eq
num_equal (num a) (num b) = double_eq a b
num_equal _ _ = false

object_equal : Value → Value → Bool
unfolding double_eq is_obj type_index address
object_equal (long _ a) (long _ b) = a == b
object_equal (double _ a) (double _ b) = double_eq a b
object_equal a b = is_obj a && is_obj b && type_index a == type_index b && address a == address b

is_num : Value → Bool
is_num (num _) = true
is_num _ = false

unfoldable pub constants_equal : Value → Value → Bool
unfolding num_equal object_equal is_num is_obj value_equals
constants_equal a b =
    if is_num a || is_num b
    then num_equal a b
    else if is_obj a || is_obj b
    then object_equal a b
    else value_equals a b

unfoldable pub chunk_init : Chunk
chunk_init = record { code = []; lines = []; capacity = 0; constants = []; constant_capacity = 0 }

-- `new_cap`: the first block, or twice the old one.
abbrev grown : ℕ → ℕ → ℕ → ℕ
grown first capacity count =
    if ltb capacity (count + 1) then (if capacity == 0 then first else capacity * 2) else capacity

unfoldable pub chunk_write : Chunk → ℕ → ℕ → Chunk × ℕ
chunk_write c byte line = (
  record c {
    code = c.code ++ byte ∷ [];
    lines = c.lines ++ line ∷ [];
    capacity = grown 64 c.capacity (length c.code);
  },
  length c.code,
)

-- The loop over the constants: the first index that holds an equal one.
unfoldable pub find_constant : List Value → Value → ℕ → Option ℕ
find_constant [] v i = none
find_constant (x ∷ xs) v i = if constants_equal x v then some i else find_constant xs v (i + 1)

unfoldable pub add_new : Chunk → Value → Chunk × ℕ
add_new c v = (
  record c {
    constants = c.constants ++ v ∷ [];
    constant_capacity = grown 16 c.constant_capacity (length c.constants);
  },
  length c.constants,
)

-- Returns the index that the loop found, or appends.
abbrev pub place_constant : Chunk → Value → Option ℕ → Chunk × ℕ
place_constant c v (some i) = (c, i)
place_constant c v none = add_new c v

unfoldable pub chunk_add_constant : Chunk → Value → Chunk × ℕ
unfolding find_constant add_new
chunk_add_constant c v = place_constant c v (find_constant c.constants v 0)

-- The two bytes do not overlap, so `|` is a sum.
unfoldable pub chunk_read_short : Chunk → ℕ → ℕ
chunk_read_short c offset = get_or c.code offset 0 * 256 + get_or c.code (offset + 1) 0

unfoldable pub chunk_write_short : Chunk → ℕ → ℕ → Chunk
unfolding chunk_write
chunk_write_short c val line =
    let (high, _) = chunk_write c (val / 256 % 256) line in
    let (low, _) = chunk_write high (val % 256) line in low
