-- ===== src/Disasm.antt =====
-- The disassembler: src/slp_disasm.c. What it prints is left out; what is modelled is how it walks
-- the code, by the offset that slp_disasm_instruction returns.
pub mod Opcodes
pub mod Walk
use slp.Chunk.{Chunk, chunk_read_short}
use slp.Disasm.Opcodes.{
  Opcode, opcodes, closure, call, call_named, is_short_instruction, is_constant_instruction,
  is_slot_instruction,
}
use slp.Prelude.{
  ℕ, zero, suc, ◌+◌, ◌*◌, ◌^◌, ◌%◌, Bool, Option, some, none, ltb, if◌then◌else◌, length, get_or,
  get_elem?,
}
use slp.Value.{Value, object, function}

-- The pairs behind `closure`; `upvalue_count` reads the field of the function at an address.
unfoldable pub closure_pairs : (ℕ → ℕ) → Option Value → ℕ
closure_pairs upvalue_count (some (object function a)) = upvalue_count a
closure_pairs upvalue_count _ = 0

-- The constant an instruction names, when the index is in the pool.
unfoldable pub named_constant : Chunk → ℕ → Option Value
named_constant c idx =
    if ltb idx (length c.constants % 2 ^ 16) then get_elem? c.constants idx else none

-- The bytes of an instruction, in the order of the tests.
unfoldable pub call_length : Opcode → ℕ → ℕ
call_length call pairs = 2
call_length call_named pairs = 4
call_length closure pairs = 3 + 2 * pairs
call_length _ pairs = 1

unfoldable pub instruction_length : Opcode → ℕ → ℕ
instruction_length op pairs =
    if is_constant_instruction op
    then 3
    else if is_slot_instruction op
    then 2
    else if is_short_instruction op
    then 3
    else call_length op pairs

-- A byte that is no opcode is skipped.
unfoldable pub decoded_length : Option Opcode → ℕ → ℕ
decoded_length (some op) pairs = instruction_length op pairs
decoded_length none pairs = 1

-- What slp_disasm_instruction returns.
unfoldable pub disasm_instruction : (ℕ → ℕ) → Chunk → ℕ → ℕ
disasm_instruction upvalue_count c offset =
    let op = get_elem? opcodes (get_or c.code offset 0) in
    let pairs = closure_pairs upvalue_count (named_constant c (chunk_read_short c (offset + 1))) in
    offset + decoded_length op pairs

-- The loop of slp_disasm_chunk and the offset at which it stops; fuel.
unfoldable pub disasm_rounds : (ℕ → ℕ) → Chunk → ℕ → ℕ → ℕ
disasm_rounds upvalue_count c zero offset = offset
disasm_rounds upvalue_count c (suc f) offset =
    let rest = disasm_rounds upvalue_count c f (disasm_instruction upvalue_count c offset) in
    if ltb offset (length c.code) then rest else offset

-- Each round takes a byte at least, so the count of bytes is enough fuel.
unfoldable pub disasm_chunk : (ℕ → ℕ) → Chunk → ℕ
disasm_chunk upvalue_count c = disasm_rounds upvalue_count c (length c.code) 0
