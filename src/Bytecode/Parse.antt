-- ===== src/Bytecode/Parse.antt =====
-- Deserialisation: deserialize_value and the functions below it in src/slp_bytecode.c.
use slp.Prelude.{ℕ, zero, suc, not, Option, none, some, ltb, ◌==◌, if◌then◌else◌, Bytes}
use slp.Bytecode.Print.{Function, magic, version}
use slp.Bytecode.Reader.{
  Reader, Read, ◌>>=◌, ◌>>◌, pure, fail, read, remaining, read_u8, read_u32, read_u64, read_f64,
  allocate,
}
use slp.Chunk.{Chunk, chunk_init, chunk_write, chunk_add_constant}
use slp.Value.{Value, null, bool, num, string, long, double}

-- A length that cannot fit in the remaining input is rejected before the read.
unfoldable pub read_sized : ℕ → Read Bytes
read_sized len r = if ltb (remaining r) len then (none, r) else read len r

unfoldable pub read_tagged : ℕ → Read Value
read_tagged tag =
    if tag == 0
    then pure null
    else if tag == 1
    then (do b ← read_u8; pure (bool (not (b == 0))))
    else if tag == 2
    then (do d ← read_f64; pure (num d))
    else if tag == 3
    then (do len ← read_u32; s ← read_sized len; a ← allocate; pure (string a s))
    else if tag == 4
    then (do l ← read_u64; a ← allocate; pure (long a l))
    else if tag == 5
    then (do d ← read_f64; a ← allocate; pure (double a d))
    else pure null

-- A failed read makes the value null; the caller is not told.
abbrev pub or_null : Option Value × Reader → Value × Reader
or_null (some v, r) = (v, r)
or_null (none, r) = (null, r)

unfoldable pub deserialize_value : Reader → Value × Reader
deserialize_value r = or_null ((do tag ← read_u8; read_tagged tag) r)

-- The loop over the code: the count of rounds left. Lines are not stored, they come back as 0.
unfoldable pub read_code : ℕ → Chunk → Read Chunk
read_code zero c = pure c
read_code (suc n) c = do b ← read_u8; read_code n (chunk_write c b 0).0

-- The loop over the constants goes its count of rounds whatever is read.
unfoldable pub read_constants : ℕ → Chunk → Reader → Chunk × Reader
read_constants zero c r = (c, r)
read_constants (suc n) c r =
    let (v, r') = deserialize_value r in read_constants n (chunk_add_constant c v).0 r'

abbrev pub finish_chunk : ℕ → Chunk → Read Chunk
finish_chunk n c r = let (c', r') = read_constants n c r in (some c', r')

unfoldable pub deserialize_chunk : Read Chunk
deserialize_chunk = do
  code_count ← read_u32
  c ← read_code code_count chunk_init
  const_count ← read_u32
  finish_chunk const_count c

abbrev pub expect_u32 : ℕ → Read (Unit {0})
expect_u32 wanted = do n ← read_u32; if n == wanted then pure tt else fail

-- No name is read when its length is 0. A name takes an address.
unfoldable pub read_name : ℕ → Read (Option Bytes)
read_name len =
    if ltb 0 len then (do s ← read_sized len; a ← allocate; pure (some s)) else pure none

unfoldable pub deserialize_function : Read Function
deserialize_function = do
  expect_u32 magic
  expect_u32 version
  name ← (read_u32 >>= read_name)
  arity ← read_u8
  upvalue_count ← read_u8
  c ← deserialize_chunk
  pure (record { arity = arity; upvalue_count = upvalue_count; chunk = c; name = name })
