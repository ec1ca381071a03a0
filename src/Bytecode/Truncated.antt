-- ===== src/Bytecode/Truncated.antt =====
-- Input that ends inside the constant pool: deserialize_value and slp_bytecode_deserialize_chunk of
-- src/slp_bytecode.c.
use slp.Prelude.{
  ℕ, zero, suc, ◌+◌, ◌^◌, ◌<◌, ◌≡◌, refl, ap, ◌∙◌, [], ◌∷◌, ◌++◌, some, lt→ltb, Bytes, length,
  arith, append-nil,
}
use slp.Bytecode.Parse.{deserialize_value, read_constants, deserialize_chunk}
use slp.Bytecode.PoolTrip.{coded, coded-fields, stepped, read_code-Rest, read_constants-suc}
use slp.Bytecode.Reader.{Reader, reader_init, advance, read, read_u8}
use slp.Bytecode.Rest.{Rest, reader_init-Rest, advance-Rest, read_u32-Rest}
use slp.Bytecode.Writer.{u32_bytes}
use slp.Chunk.Laws.{find_constant-Fresh, add_constant-new, add_constant-found}
use slp.Chunk.{Chunk, chunk_init, chunk_add_constant, add_new, find_constant, constants_equal}
use slp.Value.{null}

deserialize_value-end : (r : Reader) → Rest r [] → deserialize_value r ≡ (null, r)
unfolding deserialize_value read_u8 read
deserialize_value-end r h = rw (lt→ltb r.size (r.offset + 1) (omega (arith, h.sized)))

-- A pool of one null takes every further null.
read_constants_nulls :
    (n : ℕ) (c : Chunk) (r : Reader)
    → c.constants ≡ null ∷ []
    → Rest r []
    → read_constants n c r ≡ (c, r)
unfolding read_constants
read_constants_nulls zero c r e h = refl
read_constants_nulls (suc n) c r e h =
    let found : find_constant c.constants null 0 ≡ some 0 =
      rw e (unfold find_constant constants_equal in refl) in
    read_constants-suc n c r (deserialize_value-end r h)
    ∙ ap (λ p. read_constants n (p.0) r) (add_constant-found c null 0 found)
    ∙ read_constants_nulls n c r e h

-- A chunk whose input ends right after the count of constants, the count being at least 1, is
-- accepted: the result has the code and one null, however many constants were announced.
pub deserialize_chunk_truncated :
    (code : Bytes) (n next : ℕ)
    → length code < 2 ^ 32
    → suc n < 2 ^ 32
    → (c : Chunk) × (r' : Reader) × (deserialize_chunk (
          reader_init
            (u32_bytes (length code) ++ (code ++ u32_bytes (suc n)))
            (length (u32_bytes (length code) ++ (code ++ u32_bytes (suc n))))
            next)
        ≡ (some c, r'))
      × (c.code ≡ code)
      × (c.constants ≡ null ∷ [])
      × Rest r' []
unfolding deserialize_chunk
deserialize_chunk_truncated code n next small few =
    let sizes = u32_bytes (suc n) in
    let input = u32_bytes (length code) ++ (code ++ sizes) in
    let r = reader_init input (length input) next in
    let h₁ : Rest r (u32_bytes (length code) ++ (code ++ sizes)) = reader_init-Rest input next in
    let h₂ = advance-Rest r (u32_bytes (length code)) (code ++ sizes) h₁ in
    let (read₂, h₃) = read_code-Rest code chunk_init (advance r 4) sizes h₂ in
    let r₃ = stepped (advance r 4) (length code) in
    let h₃' : Rest r₃ (sizes ++ []) = rw append-nil h₃ in
    let h₄ = advance-Rest r₃ sizes [] h₃' in
    let (same, _, none_yet) = coded-fields chunk_init code in
    let c = coded chunk_init code in
    let empty : c.constants ≡ [] = none_yet ∙ unfold chunk_init in refl in
    let c' = (add_new c null).0 in
    let added : chunk_add_constant c null ≡ add_new c null =
      add_constant-new c null (find_constant-Fresh c.constants null 0 (rw empty tt)) in
    let loop : read_constants (suc n) c (advance r₃ 4) ≡ (c', advance r₃ 4) =
      read_constants-suc n c (advance r₃ 4) (deserialize_value-end (advance r₃ 4) h₄)
      ∙ ap (λ p. read_constants n (p.0) (advance r₃ 4)) added
      ∙ read_constants_nulls n c' (advance r₃ 4) (unfold add_new in rw empty) h₄ in
    (
      c',
      advance r₃ 4,
      rw (read_u32-Rest r (code ++ sizes) (length code) small h₁)
          (rw read₂ (rw (read_u32-Rest r₃ [] (suc n) few h₃') (rw loop))),
      unfold add_new chunk_init in same,
      unfold add_new in rw empty,
      h₄,
    )
