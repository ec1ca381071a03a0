-- ===== src/Disasm/Walk.antt =====
-- How the disassembler's walk and the machine's reads agree: src/slp_disasm.c and src/slp_vm.c.
use slp.Chunk.{Chunk, chunk_read_short}
use slp.Disasm.{
  call_length, instruction_length, decoded_length, disasm_instruction, disasm_rounds, disasm_chunk,
  closure_pairs, named_constant,
}
use slp.Disasm.Opcodes.{
  Opcode, opcodes, operand_bytes, is_short_instruction, is_constant_instruction,
  is_slot_instruction,
}
use slp.Prelude.{
  ℕ, zero, suc, ◌+◌, ◌≤◌, ◌<◌, ◌≡◌, refl, ◌⊎◌, inl, inr, Bool, true, false, Option, some, none,
  arith, length, get_or, get_elem?,
}

-- The opcodes whose operands the disassembler does not know in full.
abbrev pub is_misread : Opcode → Bool
is_misread Opcode.bridge_register = true
is_misread Opcode.import' = true
is_misread Opcode.address = true
is_misread Opcode.unpack_tuple = true
is_misread Opcode.unary_predicate = true
is_misread Opcode.binary_predicate = true
is_misread Opcode.negated_binary_predicate = true
is_misread Opcode.callcc = true
is_misread _ = false

-- For every opcode but eight, the disassembler moves over exactly the opcode and the bytes that
-- the machine reads behind it. For the eight of is_misread it moves over fewer, and so takes
-- operand bytes for the next instruction.
pub instruction_length-operand_bytes :
    (op : Opcode) (pairs : ℕ)
    → ((is_misread op ≡ false) × (instruction_length op pairs ≡ 1 + operand_bytes op pairs))
      ⊎ ((is_misread op ≡ true) × (instruction_length op pairs < 1 + operand_bytes op pairs))
unfolding instruction_length operand_bytes is_constant_instruction is_slot_instruction
    is_short_instruction call_length
instruction_length-operand_bytes Opcode.push_null pairs = inl (refl, refl)
instruction_length-operand_bytes Opcode.bridge_register pairs = inr (refl, omega arith)
instruction_length-operand_bytes Opcode.import' pairs = inr (refl, omega arith)
instruction_length-operand_bytes Opcode.address pairs = inr (refl, omega arith)
instruction_length-operand_bytes Opcode.unpack_tuple pairs = inr (refl, omega arith)
instruction_length-operand_bytes Opcode.unary_predicate pairs = inr (refl, omega arith)
instruction_length-operand_bytes Opcode.binary_predicate pairs = inr (refl, omega arith)
instruction_length-operand_bytes Opcode.negated_binary_predicate pairs = inr (refl, omega arith)
instruction_length-operand_bytes Opcode.callcc pairs = inr (refl, omega arith)
instruction_length-operand_bytes Opcode.closure pairs = inl (refl, omega arith)
instruction_length-operand_bytes _ pairs = inl (refl, refl)

call_length-pos : (op : Opcode) (pairs : ℕ) → 1 ≤ call_length op pairs
unfolding call_length
call_length-pos Opcode.push_null pairs = omega arith
call_length-pos Opcode.call pairs = omega arith
call_length-pos _ pairs = omega arith

decoded_length-pos : (o : Option Opcode) (pairs : ℕ) → 1 ≤ decoded_length o pairs
unfolding decoded_length instruction_length
decoded_length-pos none pairs = omega arith
decoded_length-pos (some op) pairs = ground (arith, call_length-pos op pairs)

disasm_rounds-end :
    (count : ℕ → ℕ) (c : Chunk) (f offset : ℕ)
    → length c.code ≤ f + offset
    → length c.code ≤ disasm_rounds count c f offset
unfolding disasm_rounds disasm_instruction
disasm_rounds-end count c zero offset h = omega (arith, h)
disasm_rounds-end count c (suc f) offset h =
    let op = get_elem? opcodes (get_or c.code offset 0) in
    let pairs = closure_pairs count (named_constant c (chunk_read_short c (offset + 1))) in
    let taken = decoded_length-pos op pairs in
    let rest =
      disasm_rounds-end count c f (offset + decoded_length op pairs) (omega (arith, h, taken)) in
    ground (arith, rest)

-- The loop over a chunk stops behind its last byte, whatever the bytes are.
pub disasm_chunk_end : (count : ℕ → ℕ) (c : Chunk) → length c.code ≤ disasm_chunk count c
unfolding disasm_chunk
disasm_chunk_end count c = disasm_rounds-end count c (length c.code) 0 (omega arith)
