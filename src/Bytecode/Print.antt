-- ===== src/Bytecode/Print.antt =====
-- Serialisation: serialize_value and the functions below it in src/slp_bytecode.c.
use slp.Prelude.{
  ℕ, ◌%◌, ◌^◌, Bool, true, false, List, [], ◌∷◌, Option, none, some, ltb, if◌then◌else◌, Bytes,
  length,
}
use slp.Bytecode.Writer.{Writer, write, write_u8, write_u32, write_u64, write_f64}
use slp.Chunk.{Chunk}
use slp.Value.{Value, null, bool, num, string, long, double}

-- The parts of an SlpObjFunction that are written; the name is its characters.
pub record Function : Type 0 where
  pub arity : ℕ
  pub upvalue_count : ℕ
  pub chunk : Chunk
  pub name : Option Bytes

abbrev pub magic : ℕ
magic = 0x534c5950

abbrev pub version : ℕ
version = 1

-- The flag says whether the value could be written; other objects cannot.
unfoldable pub serialize_value : Writer → Value → Writer × Bool
serialize_value w null = (write_u8 w 0, true)
serialize_value w (bool b) = (write_u8 (write_u8 w 1) (if b then 1 else 0), true)
serialize_value w (num d) = (write_f64 (write_u8 w 2) d, true)
serialize_value w (string _ s) = (write (write_u32 (write_u8 w 3) (length s)) s, true)
serialize_value w (long _ l) = (write_u64 (write_u8 w 4) l, true)
serialize_value w (double _ d) = (write_f64 (write_u8 w 5) d, true)
serialize_value w _ = (w, false)

-- The loop over the constants stops at the first that cannot be written.
unfoldable pub serialize_constants : Writer → List Value → Writer × Bool
serialize_constants w [] = (w, true)
serialize_constants w (v ∷ vs) =
    let (w', done) = serialize_value w v in
    let rest = serialize_constants w' vs in if done then rest else (w', false)

unfoldable pub serialize_chunk : Writer → Chunk → Writer × Bool
serialize_chunk w c =
    let coded = write (write_u32 w (length c.code % 2 ^ 32)) c.code in
    serialize_constants (write_u32 coded (length c.constants % 2 ^ 32)) c.constants

unfoldable pub name_length : Option Bytes → ℕ
name_length none = 0
name_length (some s) = length s

-- Only a name of positive length is written.
unfoldable pub write_name : Writer → Option Bytes → Writer
write_name w none = w
write_name w (some s) = if ltb 0 (length s) then write w s else w

unfoldable pub serialize_function : Writer → Function → Writer × Bool
serialize_function w f =
    let headed = write_u32 (write_u32 w magic) version in
    let named = write_name (write_u32 headed (name_length f.name)) f.name in
    let counted = write_u8 (write_u8 named (f.arity % 256)) (f.upvalue_count % 256) in
    serialize_chunk counted f.chunk
