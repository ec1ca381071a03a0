-- ===== src/Compiler/Emit.antt =====
-- What the compiler writes to the chunk: lines 6 to 75 of src/slp_compiler.c.
use slp.Chunk.{Chunk, chunk_write, chunk_write_short, chunk_add_constant}
use slp.Prelude.{
  ℕ, ◌+◌, ◌-◌, ◌/◌, ◌%◌, Bool, true, Option, some, List, ltb, if◌then◌else◌, Bytes, length, set,
}
use slp.Value.{Value}

-- The texts that compiler_error is called with here.
pub data Message : Type 0 where
  jump_too_far loop_too_large too_many_constants too_many_upvalues : Message

pub record Local : Type 0 where
  pub name : Option Bytes
  pub depth : ℕ
  pub is_captured : Bool

pub record Upvalue : Type 0 where
  pub index : ℕ
  pub is_local : Bool

-- The chunk is that of the function; the counts are the lengths of the lists, the last local first.
pub record Compiler : Type 0 where
  pub chunk : Chunk
  pub locals : List Local
  pub scope_depth : ℕ
  pub upvalues : List Upvalue
  pub had_error : Bool
  pub error_line : ℕ
  pub error_message : Option Message

-- The opcodes, as their places in SlpOpcode.
abbrev pub push_null : ℕ
push_null = 0

abbrev pub push_const : ℕ
push_const = 3

abbrev pub pop : ℕ
pop = 63

abbrev pub loop : ℕ
loop = 72

abbrev pub return' : ℕ
return' = 75

abbrev pub close_upvalue : ℕ
close_upvalue = 78

-- The first error is kept.
unfoldable pub compiler_error : Compiler → ℕ → Message → Compiler
compiler_error c line m =
    if c.had_error
    then c
    else record c { had_error = true; error_line = line; error_message = some m }

unfoldable pub emit_byte : Compiler → ℕ → ℕ → Compiler
emit_byte c byte line = record c { chunk = (chunk_write c.chunk byte line).0 }

unfoldable pub emit_short : Compiler → ℕ → ℕ → Compiler
emit_short c val line = record c { chunk = chunk_write_short c.chunk val line }

-- The offset that is returned is that of the operand.
unfoldable pub emit_jump : Compiler → ℕ → ℕ → Compiler × ℕ
emit_jump c opcode line =
    let c' = emit_byte (emit_byte (emit_byte c opcode line) 255 line) 255 line in
    (c', length c'.chunk.code - 2)

-- An offset that emit_jump returned leaves its two bytes of the operand below the count.
unfoldable pub patch_jump : Compiler → ℕ → Compiler
patch_jump c offset =
    let jump = length c.chunk.code - offset - 2 in
    let code' = set (set c.chunk.code offset (jump / 256 % 256)) (offset + 1) (jump % 256) in
    if ltb 65535 jump
    then compiler_error c 0 jump_too_far
    else record c { chunk = record c.chunk { code = code' } }

unfoldable pub emit_loop : Compiler → ℕ → ℕ → Compiler
emit_loop c loop_start line =
    let c' = emit_byte c loop line in
    let offset = length c'.chunk.code - loop_start + 2 in
    if ltb 32767 offset
    then compiler_error c' line loop_too_large
    else emit_byte (emit_byte c' (offset / 256 % 256) line) (offset % 256) line

unfoldable pub make_constant : Compiler → Value → Compiler × ℕ
make_constant c value =
    let (chunk, idx) = chunk_add_constant c.chunk value in
    let c' = record c { chunk = chunk } in
    if ltb 65535 idx then (compiler_error c' 0 too_many_constants, 0) else (c', idx)

unfoldable pub emit_constant : Compiler → Value → ℕ → Compiler
emit_constant c value line =
    let (c', idx) = make_constant (emit_byte c push_const line) value in emit_short c' idx line

unfoldable pub emit_return : Compiler → ℕ → Compiler
emit_return c line = emit_byte (emit_byte c push_null line) return' line
