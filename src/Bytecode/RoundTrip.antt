-- ===== src/Bytecode/RoundTrip.antt =====
-- A chunk and a function written and read back: the round trip of src/slp_bytecode.c.
use slp.Prelude.{
  ℕ, ◌+◌, ◌%◌, ◌^◌, ◌<◌, ◌≡◌, refl, ap, subst, ◌∙◌, true, [], ◌∷◌, ◌++◌, Option, none, some, Bytes,
  length, replicate, All, arith, lt→ltb, ==_iff, append_assoc,
}
use slp.Bytecode.Parse.{
  read_constants, deserialize_chunk, deserialize_function, read_name, expect_u32,
}
use slp.Bytecode.PoolTrip.{
  pool_bytes, serialize_constants-bytes, read_constants-Reads, coded, coded-fields, stepped,
  stepped-next, Apart-empty, read_code-Rest, reloaded,
}
use slp.Bytecode.Print.{
  Function, name_length, write_name, magic, version, serialize_chunk, serialize_function,
}
use slp.Bytecode.Reader.{Reader, reader_init, ◌>>=◌, read_u32, advance, allocate}
use slp.Bytecode.Rest.{Rest, reader_init-Rest, advance-Rest, read_u8-Rest, read_u32-Rest}
use slp.Bytecode.ValueTrip.{Portable, take_address, read_sized-Rest}
use slp.Bytecode.Writer.{Writer, writer_init, write, write_u8, write_u32, u32_bytes}
use slp.Chunk.Laws.{Distinct}
use slp.Chunk.{Chunk, chunk_init}

-- What a chunk must be to be written and read back whole.
pub record IsPortable (c : Chunk) : Type 0 where
  pub code_small : length c.code < 2 ^ 32
  pub pool_small : length c.constants < 2 ^ 32
  pub values : All Portable c.constants
  pub distinct : Distinct c.constants

chunk_bytes : Chunk → Bytes
chunk_bytes c =
    u32_bytes (length c.code)
    ++ (c.code ++ (u32_bytes (length c.constants) ++ pool_bytes c.constants))

small : (n : ℕ) → n < 2 ^ 32 → n % 2 ^ 32 ≡ n
small n h = omega arith

serialize_chunk-bytes :
    (w : Writer) (c : Chunk)
    → IsPortable c
    → ((serialize_chunk w c).1 ≡ true)
      × ((serialize_chunk w c).0.buffer ≡ w.buffer ++ chunk_bytes c)
unfolding serialize_chunk write write_u32 chunk_bytes
serialize_chunk-bytes w c p =
    let (done, written) = serialize_constants-bytes _ c.constants p.values in
    (
      done,
      written
          ∙ simp (
            small (length c.code) p.code_small,
            small (length c.constants) p.pool_small,
            append_assoc,
          ),
    )

-- The chunk that comes back: the code, no lines, and the pool at new addresses.
pub record IsReloaded (a : ℕ) (c back : Chunk) : Type 0 where
  pub code : back.code ≡ c.code
  pub lines : back.lines ≡ replicate (length c.code) 0
  pub constants : back.constants ≡ reloaded a c.constants

deserialize_chunk-Rest :
    (r : Reader) (c : Chunk) (rest : Bytes)
    → IsPortable c
    → Rest r (chunk_bytes c ++ rest)
    → (back : Chunk) × (r' : Reader) × (deserialize_chunk r ≡ (some back, r'))
      × IsReloaded r.next c back
      × Rest r' rest
unfolding deserialize_chunk chunk_bytes chunk_init advance
deserialize_chunk-Rest r c rest p h =
    let n = length c.code in
    let pool = pool_bytes c.constants ++ rest in
    let sizes = u32_bytes (length c.constants) in
    let u₁ : Rest r (u32_bytes n ++ (c.code ++ (sizes ++ pool))) = simp append_assoc at h in
    let u₂ = advance-Rest r (u32_bytes n) (c.code ++ (sizes ++ pool)) u₁ in
    let (read₂, u₃) = read_code-Rest c.code chunk_init (advance r 4) (sizes ++ pool) u₂ in
    let r₃ = stepped (advance r 4) n in
    let u₄ = advance-Rest r₃ sizes pool u₃ in
    let (code, lines, constants) = coded-fields chunk_init c.code in
    let read₄ =
      read_constants-Reads c.constants (coded chunk_init c.code) (advance r₃ 4) rest p.values
        p.distinct (Apart-empty _ _ c.constants constants) u₄ in
    let result = read_constants (length c.constants) (coded chunk_init c.code) (advance r₃ 4) in
    (
      result.0,
      result.1,
      rw (read_u32-Rest r _ n p.code_small u₁, read₂, read_u32-Rest r₃ pool _ p.pool_small u₃),
      record {
        code = read₄.code ∙ code;
        lines = read₄.lines ∙ lines;
        constants = read₄.constants ∙ rw (constants, stepped-next);
      },
      read₄.left,
    )

abbrev NameFits : Option Bytes → Type 0
NameFits none = Unit
NameFits (some s) = (0 < length s) × (length s < 2 ^ 32)

-- The address that a name takes.
abbrev pub name_cost : Option Bytes → ℕ
name_cost none = 0
name_cost (some s) = 1

-- What a function must be to be written and read back whole: an empty name is not one of them.
pub record IsStorable (f : Function) : Type 0 where
  pub arity_byte : f.arity < 256
  pub upvalues_byte : f.upvalue_count < 256
  pub name_fits : NameFits f.name
  pub chunk : IsPortable f.chunk

-- The function that comes back.
pub record IsRestored (a : ℕ) (f back : Function) : Type 0 where
  pub name : back.name ≡ f.name
  pub arity : back.arity ≡ f.arity
  pub upvalue_count : back.upvalue_count ≡ f.upvalue_count
  pub chunk : IsReloaded a f.chunk back.chunk

name_bytes : Option Bytes → Bytes
name_bytes none = u32_bytes 0
name_bytes (some s) = u32_bytes (length s) ++ s

function_bytes : Function → Bytes
function_bytes f =
    u32_bytes magic
    ++ (u32_bytes version
        ++ (name_bytes f.name ++ (f.arity ∷ f.upvalue_count ∷ chunk_bytes f.chunk)))

write_name-bytes :
    (w : Writer) (name : Option Bytes)
    → NameFits name
    → (write_name (write_u32 w (name_length name)) name).buffer ≡ w.buffer ++ name_bytes name
unfolding write_name write_u32 write name_length name_bytes
write_name-bytes w none h = refl
write_name-bytes w (some s) h = rw (lt→ltb 0 (length s) h.0) (append_assoc w.buffer _ s)

byte : (n : ℕ) → n < 256 → n % 256 ≡ n
byte n h = omega arith

serialize_function-bytes :
    (w : Writer) (f : Function)
    → IsStorable f
    → ((serialize_function w f).1 ≡ true)
      × ((serialize_function w f).0.buffer ≡ w.buffer ++ function_bytes f)
unfolding serialize_function function_bytes write write_u8 write_u32
serialize_function-bytes w f p =
    let headed = write_u32 (write_u32 w magic) version in
    let named = write_name (write_u32 headed (name_length f.name)) f.name in
    let (done, written) =
      serialize_chunk-bytes (write_u8 (write_u8 named (f.arity % 256)) (f.upvalue_count % 256))
        f.chunk p.chunk in
    (
      done,
      written
          ∙ ap
              (λ b.
                ((b ++ (f.arity % 256) ∷ []) ++ (f.upvalue_count % 256) ∷ [])
                ++ chunk_bytes f.chunk)
              (write_name-bytes headed f.name p.name_fits)
          ∙ simp (byte f.arity p.arity_byte, byte f.upvalue_count p.upvalues_byte, append_assoc),
    )

expect_u32-Rest :
    (r : Reader) (n : ℕ) (rest : Bytes)
    → n < 2 ^ 32
    → Rest r (u32_bytes n ++ rest)
    → expect_u32 n r ≡ (some tt, advance r 4)
expect_u32-Rest r n rest b h = rw (read_u32-Rest r rest n b h) (rw ((==_iff n n).1 refl))

-- The length and the name: the reader that is left has the bytes behind them.
read_name-Rest :
    (r : Reader) (name : Option Bytes) (rest : Bytes)
    → NameFits name
    → Rest r (name_bytes name ++ rest)
    → (r' : Reader) × ((read_u32 >>= read_name) r ≡ (some name, r'))
      × Rest r' rest
      × (r'.next ≡ r.next + name_cost name)
unfolding read_name name_bytes advance allocate
read_name-Rest r none rest f h = (
  advance r 4,
  rw (read_u32-Rest r rest 0 (omega arith) h),
  advance-Rest r (u32_bytes 0) rest h,
  omega arith,
)
read_name-Rest r (some s) rest f h =
    let h' : Rest r (u32_bytes (length s) ++ (s ++ rest)) = h in
    let u = advance-Rest r (u32_bytes (length s)) (s ++ rest) h' in
    let v = advance-Rest (advance r 4) s rest u in
    (
      take_address (advance (advance r 4) (length s)),
      rw (read_u32-Rest r (s ++ rest) (length s) f.1 h')
          (rw (lt→ltb 0 (length s) f.0) (rw (read_sized-Rest (advance r 4) s rest u))),
      record { unread = v.unread; sized = v.sized },
      refl,
    )

deserialize_function-Rest :
    (r : Reader) (f : Function) (rest : Bytes)
    → IsStorable f
    → Rest r (function_bytes f ++ rest)
    → (back : Function) × (r' : Reader) × (deserialize_function r ≡ (some back, r'))
      × IsRestored (r.next + name_cost f.name) f back
      × Rest r' rest
unfolding deserialize_function function_bytes
deserialize_function-Rest r f rest p h =
    let body = f.arity ∷ f.upvalue_count ∷ (chunk_bytes f.chunk ++ rest) in
    let h₁ : Rest r (u32_bytes magic ++ (u32_bytes version ++ (name_bytes f.name ++ body))) =
      simp append_assoc at h in
    let h₂ =
      advance-Rest r (u32_bytes magic) (u32_bytes version ++ (name_bytes f.name ++ body)) h₁ in
    let h₃ = advance-Rest (advance r 4) (u32_bytes version) (name_bytes f.name ++ body) h₂ in
    let (r₄, named, h₄, taken) =
      read_name-Rest (advance (advance r 4) 4) f.name body p.name_fits h₃ in
    let h₅ = advance-Rest r₄ (f.arity ∷ []) (f.upvalue_count ∷ (chunk_bytes f.chunk ++ rest)) h₄ in
    let h₆ = advance-Rest (advance r₄ 1) (f.upvalue_count ∷ []) (chunk_bytes f.chunk ++ rest) h₅ in
    let (c, r', read, same, left) =
      deserialize_chunk-Rest (advance (advance r₄ 1) 1) f.chunk rest p.chunk h₆ in
    (
      record { arity = f.arity; upvalue_count = f.upvalue_count; chunk = c; name = f.name },
      r',
      rw (expect_u32-Rest r magic _ (omega arith) h₁) (
          rw (expect_u32-Rest (advance r 4) version _ (omega arith) h₂) (
            rw named (
              rw (read_u8-Rest r₄ (f.upvalue_count ∷ (chunk_bytes f.chunk ++ rest)) f.arity h₄) (
                rw (read_u8-Rest (advance r₄ 1) (chunk_bytes f.chunk ++ rest) f.upvalue_count h₅)
                  (rw read))))),
      record {
        name = refl;
        arity = refl;
        upvalue_count = refl;
        chunk = unfold advance in subst (λ n. IsReloaded n f.chunk c) taken same;
      },
      left,
    )

-- Writing a storable function succeeds, and reading the bytes back gives the same function: its
-- name, counts and code, no line numbers, and its constants at new addresses in the old order. What
-- follows in the input is left unread.
pub deserialize-serialize :
    (f : Function) (rest : Bytes) (next : ℕ)
    → IsStorable f
    → (back : Function) × (r' : Reader) × ((serialize_function writer_init f).1 ≡ true)
      × (deserialize_function (
            reader_init
              ((serialize_function writer_init f).0.buffer ++ rest)
              (length ((serialize_function writer_init f).0.buffer ++ rest))
              next)
          ≡ (some back, r'))
      × IsRestored (next + name_cost f.name) f back
      × Rest r' rest
deserialize-serialize f rest next p =
    let (done, written) = serialize_function-bytes writer_init f p in
    let input = (serialize_function writer_init f).0.buffer ++ rest in
    let written' : (serialize_function writer_init f).0.buffer ≡ function_bytes f =
      unfold writer_init in written in
    let h : Rest (reader_init input (length input) next) (function_bytes f ++ rest) =
      subst (λ b. Rest (reader_init input (length input) next) (b ++ rest)) written'
        (reader_init-Rest input next) in
    let (back, r', read, same, left) =
      deserialize_function-Rest (reader_init input (length input) next) f rest p h in
    (back, r', done, read, unfold reader_init in same, left)
