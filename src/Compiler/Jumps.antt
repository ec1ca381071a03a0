-- ===== src/Compiler/Jumps.antt =====
-- Jumps come to where they should: patch_jump and emit_loop of src/slp_compiler.c, read as OP_JUMP and
-- OP_LOOP of src/slp_vm.c do.
use slp.Chunk.{chunk_write, chunk_read_short}
use slp.Compiler.Emit.{Compiler, compiler_error, emit_byte, patch_jump, emit_loop, loop}
use native.Mathlib.Nat.{add-zero}
use slp.Prelude.{
  ℕ, ◌+◌, ◌-◌, ◌/◌, ◌%◌, ◌≤◌, ◌<◌, ◌≡◌, ◌≢◌, refl, sym, ap, ◌∙◌, true, false, [], ◌∷◌, ◌++◌, ltb,
  Bytes, length, set, get_or, length-set, length-append, get_or-append, get_or-set_self,
  get_or-set_other, arith,
}

-- If the code goes on for at most 65535 bytes behind the operand of a jump, the patched operand leads
-- to the end of the code; no other byte, no size and no error changes.
pub patch_jump_lem :
    (c : Compiler) (offset j : ℕ)
    → offset + 2 ≤ length c.chunk.code
    → length c.chunk.code ≤ offset + 2 + 65535
    → j ≢ offset
    → j ≢ offset + 1
    → (offset + 2 + chunk_read_short (patch_jump c offset).chunk offset ≡ length c.chunk.code)
      × (get_or (patch_jump c offset).chunk.code j 0 ≡ get_or c.chunk.code j 0)
      × (length (patch_jump c offset).chunk.code ≡ length c.chunk.code)
      × ((patch_jump c offset).had_error ≡ c.had_error)
unfolding patch_jump chunk_read_short
patch_jump_lem c offset j within short other other' =
    let code = c.chunk.code in
    let jump = length code - offset - 2 in
    let high = jump / 256 % 256 in
    let low = jump % 256 in
    let code' = set code offset high in
    let size = length-set code offset high in
    let size' = length-set code' (offset + 1) low in
    let near : ltb 65535 jump ≡ false = ground (arith, short) in
    let first : get_or (set code' (offset + 1) low) offset 0 ≡ high =
      get_or-set_other code' (offset + 1) low offset 0 (λ e. omega (arith, e))
      ∙ get_or-set_self code offset high 0 (omega (arith, within)) in
    let second : get_or (set code' (offset + 1) low) (offset + 1) 0 ≡ low =
      get_or-set_self code' (offset + 1) low 0 (omega (arith, within, size)) in
    let kept : get_or (set code' (offset + 1) low) j 0 ≡ get_or code j 0 =
      get_or-set_other code' (offset + 1) low j 0 other'
      ∙ get_or-set_other code offset high j 0 other in
    rw near (omega (arith, first, second, within, short), kept, size' ∙ size, refl)

-- A jump over more than 65535 bytes is an error and changes no code.
patch_jump-far :
    (c : Compiler) (offset : ℕ)
    → offset + 2 + 65535 < length c.chunk.code
    → ((patch_jump c offset).had_error ≡ true) × ((patch_jump c offset).chunk ≡ c.chunk)
unfolding patch_jump compiler_error
patch_jump-far c offset far =
    let out : ltb 65535 (length c.chunk.code - offset - 2) ≡ true = ground (arith, far) in
    rw out (ground arith)

append_three :
    (xs : Bytes) (a b d : ℕ) → ((xs ++ a ∷ []) ++ b ∷ []) ++ d ∷ [] ≡ xs ++ a ∷ b ∷ d ∷ []
append_three [] a b d = refl
append_three (x ∷ xs) a b d = ap (◌∷◌ x) (append_three xs a b d)

-- If the code from the start of a loop on has less than 32765 bytes, the operand that is written behind
-- LOOP leads from behind itself to the start of the loop, and no error is added.
pub emit_loop_lem :
    (c : Compiler) (loop_start line : ℕ)
    → loop_start ≤ length c.chunk.code
    → length c.chunk.code + 3 ≤ loop_start + 32767
    → (get_or (emit_loop c loop_start line).chunk.code (length c.chunk.code) 0 ≡ loop)
      × (loop_start + chunk_read_short (emit_loop c loop_start line).chunk (length c.chunk.code + 1)
          ≡ length c.chunk.code + 3)
      × (length (emit_loop c loop_start line).chunk.code ≡ length c.chunk.code + 3)
      × ((emit_loop c loop_start line).had_error ≡ c.had_error)
unfolding emit_loop emit_byte chunk_write chunk_read_short
emit_loop_lem c loop_start line before short =
    let code = c.chunk.code in
    let n = length code in
    let offset = length (code ++ loop ∷ []) - loop_start + 2 in
    let high = offset / 256 % 256 in
    let low = offset % 256 in
    let code' = ((code ++ loop ∷ []) ++ high ∷ []) ++ low ∷ [] in
    let size : length (code ++ loop ∷ []) ≡ n + 1 = length-append code (loop ∷ []) in
    let near : ltb 32767 offset ≡ false = ground (arith, size, before, short) in
    let all = append_three code loop high low in
    let at : (i : ℕ) → get_or code' (n + i) 0 ≡ get_or (loop ∷ high ∷ low ∷ []) i 0 =
      λ i. ap (λ l. get_or l (n + i) 0) all ∙ get_or-append code (loop ∷ high ∷ low ∷ []) i 0 in
    let first : get_or code' n 0 ≡ loop = ap (λ k. get_or code' k 0) (sym (add-zero n)) ∙ at 0 in
    let third : get_or code' (n + 1 + 1) 0 ≡ low =
      ap (λ k. get_or code' k 0) (omega arith) ∙ at 2 in
    let total : length code' ≡ n + 3 =
      ap length all ∙ length-append code (loop ∷ high ∷ low ∷ []) in
    rw near (first, omega (arith, at 1, third, size, before, short), total, refl)
