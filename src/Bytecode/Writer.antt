-- ===== src/Bytecode/Writer.antt =====
-- The byte buffer that serialisation appends to: src/slp_bytecode.c. `count` is the buffer's length.
use slp.Prelude.{ℕ, ◌+◌, ◌*◌, ◌/◌, ◌%◌, ◌^◌, [], ◌∷◌, ◌++◌, ltb, leb, if◌then◌else◌, Bytes, length}

pub record Writer : Type 0 where
  pub buffer : Bytes
  pub capacity : ℕ

-- The capacity after ensure_capacity: double, then at least what is needed, then at least 64.
unfoldable pub ensure_capacity : Writer → ℕ → ℕ
ensure_capacity w needed =
    if leb (length w.buffer + needed) w.capacity
    then w.capacity
    else let doubled = w.capacity * 2 in
      let enough = if ltb doubled (w.capacity + needed) then w.capacity + needed else doubled in
      if ltb enough 64 then 64 else enough

unfoldable pub writer_init : Writer
writer_init = record { buffer = []; capacity = 0 }

unfoldable pub write : Writer → Bytes → Writer
unfolding ensure_capacity
write w bytes = record { buffer = w.buffer ++ bytes; capacity = ensure_capacity w (length bytes) }

-- The most significant byte first. The shifts are those of the source.
abbrev pub byte_at : ℕ → ℕ → ℕ
byte_at val shift = val / 2 ^ shift % 256

unfoldable pub write_u8 : Writer → ℕ → Writer
write_u8 w val = write w (val ∷ [])

unfoldable pub write_u16 : Writer → ℕ → Writer
write_u16 w val = write w (byte_at val 8 ∷ byte_at val 0 ∷ [])

abbrev pub u32_bytes : ℕ → Bytes
u32_bytes val = byte_at val 24 ∷ byte_at val 16 ∷ byte_at val 8 ∷ byte_at val 0 ∷ []

unfoldable pub write_u32 : Writer → ℕ → Writer
write_u32 w val = write w (u32_bytes val)

-- The loop over i < 8 with the shifts 56 - i * 8.
abbrev pub u64_bytes : ℕ → Bytes
u64_bytes val =
    byte_at val 56
    ∷ byte_at val 48
    ∷ byte_at val 40
    ∷ byte_at val 32
    ∷ byte_at val 24
    ∷ byte_at val 16
    ∷ byte_at val 8
    ∷ byte_at val 0
    ∷ []

unfoldable pub write_u64 : Writer → ℕ → Writer
write_u64 w val = write w (u64_bytes val)

-- A double is its bit pattern.
unfoldable pub write_f64 : Writer → ℕ → Writer
unfolding write_u64
write_f64 w val = write_u64 w val
