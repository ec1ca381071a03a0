-- ===== src/Tests.antt =====
-- The theorems at concrete inputs, and the functions run on small programs.
use slp.Bytecode.Growth.{Fits, ensure_capacity_lem, write-Fits}
use slp.Bytecode.Parse.{deserialize_chunk, deserialize_function}
use slp.Bytecode.Print.{Function, serialize_function}
use slp.Bytecode.Reader.{Reader, reader_init}
use slp.Bytecode.Rest.{Rest}
use slp.Bytecode.RoundTrip.{IsStorable, IsRestored, name_cost, deserialize-serialize}
use slp.Bytecode.Truncated.{deserialize_chunk_truncated}
use slp.Bytecode.Writer.{Writer, writer_init, write, ensure_capacity, u32_bytes}
use slp.Chunk.Laws.{
  IsValid, chunk_write-IsValid, chunk_add_constant-IsValid, chunk_add_constant_lem,
  chunk_add_constant-idempotent, read_short-write_short,
}
use slp.Chunk.{
  Chunk, chunk_add_constant, chunk_write, chunk_read_short, chunk_write_short, constants_equal,
}
use slp.Disasm.Opcodes.{Opcode, operand_bytes}
use slp.Disasm.Walk.{is_misread, instruction_length-operand_bytes, disasm_chunk_end}
use slp.Disasm.{instruction_length, disasm_chunk}
use slp.Lexer.Blanks.{is_skipped, skip_whitespace_ends}
use slp.Lexer.Scan.{scan_token}
use slp.Lexer.State.{Lexer, codes, peek, skip_whitespace, lexer_init}
use slp.Lexer.Stream.{scan_many, scan_many-eof}
use slp.Lexer.Tiles.{Tile, scan_token-Tile}
use slp.Lexer.Token.{TokenType}
use slp.Prelude.{
  ◌+◌, ◌*◌, ◌≤◌, ◌<◌, ◌≡◌, refl, ◌⊎◌, true, false, List, [], ◌∷◌, ◌++◌, some, Bytes, length,
  get_elem?, arith,
}
use slp.StringBuffer.Appends.{IsValid as IsValidBuffer, IsAppended, append_string-IsAppended}
use slp.StringBuffer.{StringBuffer, string_buffer_append_string}
use slp.Value.{Value, null, bool, num, string}

-- A program of two comments, blanks and two tokens.
abbrev program : Lexer
program = lexer_init (codes " # one\n\t# two\n$x" ++ 0 ∷ [])

scan_token-Tile_example : Tile program (scan_token program).0 (scan_token program).1
scan_token-Tile_example = scan_token-Tile program

skip_whitespace_ends_example : is_skipped (peek (skip_whitespace program)) ≡ false
skip_whitespace_ends_example = skip_whitespace_ends program

scan_many-eof_example : (scan_token (scan_many 20 program)).0.type ≡ TokenType.eof
unfolding lexer_init
scan_many-eof_example = scan_many-eof 20 program (omega arith)

abbrev code : Chunk
code = record {
  code = 3 ∷ 0 ∷ 1 ∷ [];
  lines = 7 ∷ 7 ∷ 7 ∷ [];
  capacity = 64;
  constants = null ∷ string 9 (codes "hi") ∷ [];
  constant_capacity = 16;
}

code-IsValid : IsValid code
unfolding constants_equal
code-IsValid = record {
  lined = refl;
  fits = omega arith;
  constants_fit = omega arith;
  distinct = ((refl, tt), (tt, tt));
}

chunk_write-IsValid_example : IsValid (chunk_write code 63 8).0
chunk_write-IsValid_example = chunk_write-IsValid code 63 8 code-IsValid

chunk_add_constant-IsValid_example : IsValid (chunk_add_constant code (bool true)).0
chunk_add_constant-IsValid_example = chunk_add_constant-IsValid code (bool true) code-IsValid

chunk_add_constant_example :
    (x : Value) × (more : List Value) × (get_elem?
        (chunk_add_constant code (bool true)).0.constants
        (chunk_add_constant code (bool true)).1
      ≡ some x)
    × ((x ≡ bool true) ⊎ (constants_equal x (bool true) ≡ true))
    × ((chunk_add_constant code (bool true)).0.constants ≡ code.constants ++ more)
    × ((chunk_add_constant code (bool true)).0.code ≡ code.code)
chunk_add_constant_example = chunk_add_constant_lem code (bool true)

seven_equal : constants_equal (num 7) (num 7) ≡ true
unfolding constants_equal
seven_equal = refl

chunk_add_constant-idempotent_example :
    chunk_add_constant (chunk_add_constant code (num 7)).0 (num 7) ≡ chunk_add_constant code (num 7)
chunk_add_constant-idempotent_example = chunk_add_constant-idempotent code (num 7) seven_equal

read_short-write_short_example : chunk_read_short (chunk_write_short code 515 7) 3 ≡ 515
read_short-write_short_example = read_short-write_short code 515 7 (omega arith)

abbrev greeting : Function
greeting = record { arity = 1; upvalue_count = 0; chunk = code; name = some (codes "greet") }

greeting-IsStorable : IsStorable greeting
greeting-IsStorable = record {
  arity_byte = omega arith;
  upvalues_byte = omega arith;
  name_fits = (omega arith, omega arith);
  chunk = record {
    code_small = omega arith;
    pool_small = omega arith;
    values = (tt, (omega arith, tt));
    distinct = code-IsValid.distinct;
  };
}

deserialize-serialize_example :
    (back : Function) × (r' : Reader) × ((serialize_function writer_init greeting).1 ≡ true)
    × (deserialize_function (
          reader_init
            ((serialize_function writer_init greeting).0.buffer ++ 5 ∷ [])
            (length ((serialize_function writer_init greeting).0.buffer ++ 5 ∷ []))
            100)
        ≡ (some back, r'))
    × IsRestored (100 + name_cost greeting.name) greeting back
    × Rest r' (5 ∷ [])
deserialize-serialize_example = deserialize-serialize greeting (5 ∷ []) 100 greeting-IsStorable

abbrev cut : Bytes
cut = u32_bytes 2 ++ (1 ∷ 2 ∷ []) ++ u32_bytes 3

deserialize_chunk_truncated_example :
    (c : Chunk) × (r' : Reader) × (deserialize_chunk (reader_init cut (length cut) 1)
      ≡ (some c, r'))
    × (c.code ≡ 1 ∷ 2 ∷ [])
    × (c.constants ≡ null ∷ [])
    × Rest r' []
deserialize_chunk_truncated_example =
    deserialize_chunk_truncated (1 ∷ 2 ∷ []) 2 1 (omega arith) (omega arith)

abbrev written : Writer
written = record { buffer = 1 ∷ 2 ∷ []; capacity = 2 }

ensure_capacity_example :
    (2 + 100 ≤ ensure_capacity written 100)
    × (((2 + 100 ≤ 2) × (ensure_capacity written 100 ≡ 2))
        ⊎ ((2 < 2 + 100)
            × (2 * 2 ≤ ensure_capacity written 100)
            × (64 ≤ ensure_capacity written 100)))
ensure_capacity_example = ensure_capacity_lem written 100 (omega arith)

write-Fits_example : Fits (write written (3 ∷ 4 ∷ []))
write-Fits_example = write-Fits written (3 ∷ 4 ∷ []) (omega arith)

instruction_length-operand_bytes_example :
    ((is_misread Opcode.callcc ≡ false)
      × (instruction_length Opcode.callcc 2 ≡ 1 + operand_bytes Opcode.callcc 2))
    ⊎ ((is_misread Opcode.callcc ≡ true)
        × (instruction_length Opcode.callcc 2 < 1 + operand_bytes Opcode.callcc 2))
instruction_length-operand_bytes_example = instruction_length-operand_bytes Opcode.callcc 2

disasm_chunk_example : 3 ≤ disasm_chunk (λ a. 0) code
disasm_chunk_example = disasm_chunk_end (λ a. 0) code

-- As string_buffer_clear leaves it behind two characters.
abbrev cleared : StringBuffer
cleared = record { data' = 104 ∷ 105 ∷ 0 ∷ []; count = 0; capacity = 16 }

cleared-IsValid : IsValidBuffer cleared
cleared-IsValid = record { counted = omega arith; fits = omega arith }

append_string_example :
    IsAppended cleared
      (codes "a longer text than fits")
      (string_buffer_append_string cleared (codes "a longer text than fits"))
append_string_example =
    append_string-IsAppended cleared (codes "a longer text than fits") (omega arith) cleared-IsValid
