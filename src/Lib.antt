-- ===== src/Lib.antt =====
-- SLP, an interpreter for the Sleep language in C: its lexer, its parser, the chunks of code and constants that
-- its compiler fills, their binary form, the disassembler, its hash tables, its
-- arrays and its garbage collector.
--
-- How the parts interact. The parser asks the lexer for one token at a time. The compiler writes
-- bytes and constants to a chunk, which a function owns; bytecode files hold functions; the
-- disassembler and the machine walk over a chunk's bytes, an opcode and its operands at a time. The
-- machine keeps its globals, and each closure its scope, in hash tables, and asks the collector
-- between two instructions to free what its roots do not reach.
--
--   Lexer      src/slp_lexer.c. A Lexer's pointers are the text from there to the terminating 0.
--              Lexer/State: is_digit to skip_whitespace; Lexer/Keywords: identifier_type;
--              Lexer/Scan: scan_identifier to slp_lexer_scan_token, a function for each case that
--              goes on. Lexer/Skipped: what a blank is; Lexer/Moves, Lexer/Blanks,
--              Lexer/Tiles and Lexer/Stream hold the proofs.
--   Value      src/slp_value.c and include/slp_value.h: tags, taint and equality, for the portable
--              build. A double is its 64-bit pattern; a value carries its contents and address.
--   Chunk      src/slp_chunk.c, with slp_chunk_write, slp_chunk_add_constant and the 16-bit operands.
--   Bytecode   src/slp_bytecode.c. Bytecode/Writer and Bytecode/Reader: the two buffers;
--              Bytecode/Print: serialize_*; Bytecode/Parse: deserialize_*.
--   Disasm     src/slp_disasm.c, include/slp_opcodes.h, and the bytes that the cases of slp_vm_call in
--              src/slp_vm.c read behind each opcode.
--   StringBuffer  src/slp_utils.c: the growing text that the other parts build their strings in.
--   Hash       the SlpObjHash of src/slp_value.c. Hash/Table: slp_obj_hash_* and hash_grow, over any hash
--              and equality of keys; Hash/Key: hash_key_repr, hash_key_equals, slp_hash_value and
--              slp_obj_hash_get; Hash/Probe and Hash/Refines: the invariant; Hash/View: the map that a
--              table stands for; Hash/Behaviour: what each function does to it.
--   Gc         src/slp_gc.c. Gc/Objects: the pointers of each object, as blacken_object follows them;
--              Gc/Mark: mark_roots and trace_references; Gc/Sweep: slp_gc_sweep, rebuild_interned and
--              slp_gc_collect; Gc/Points: what the machine and the objects refer to, field by field;
--              Gc/Followed: the collector's lists hold just that; Gc/Marks, Gc/Trace, Gc/Swept
--              and Gc/Kept hold the other proofs.
--   Array      the SlpObjArray of src/slp_value.c; a view, its source, the source's source and so on are one
--              list. Array/Store: slp_obj_array_*; Array/Shifts: the loops that move elements;
--              Array/Views, Array/Removal, Array/Validity and Array/Assignment hold the proofs.
--   Compiler   src/slp_compiler.c, emit_byte to resolve_upvalue. Compiler/Emit: what is written to the
--              chunk; Compiler/Jumps: where jumps and loops lead; Compiler/Scopes: locals and
--              upvalues, a compiler and those that enclose it as a list; Compiler/Innermost: which
--              local a name stands for; Compiler/Upvalues: what is resolved.
--   Parser     src/slp_parser.c, each function by its name, over the lexer and the nodes of
--              include/slp_parser.h. Parser/State: init, errors and tokens; Parser/Strings and
--              Parser/Segments: quoted texts; Parser/Literals, Parser/Expressions, Parser/Objects:
--              the functions of the table of rules, which is Parser/Rules; Parser/Precedence:
--              parse_precedence; Parser/Calls: block, parse_args and the looks behind a token;
--              Parser/Statements and Parser/Declarations. Parser/Keeps to Parser/Steady carry an
--              invariant through all of it; Parser/Advance to
--              Parser/Total show that it ends; Parser/Errors and Parser/Ends state what else holds.
--   Prelude    shared names, Boolean tests on numbers and lemmas on lists.
--   Tests      the theorems at concrete inputs.
--
-- Fuel. The loop over blanks has the length of the text, of which each round takes a byte. The
-- loops of the reader count down what they are to read. The disassembler's loop has the length of
-- the code, of which each round takes a byte. The growth of an array has the count that is needed,
-- to which each round adds one at least. The search of a table has its capacity, in which it comes by
-- every place; hash_set calls itself at most once, with a table that has just grown. The loop over the
-- gray stack has the number of objects, of which each is pushed once at most. The loops of the parser
-- have the length of the text, with one for an error; the calls of its functions by each other have
-- the fuel that is given, of which three to each byte are enough; a mark in the state says where any of
-- it was spent.
--
-- Not modelled. Allocation always succeeds, and memory that is freed is not followed. Of the machine
-- there are the sizes of operands and what the collector reads, of the compiler what it writes to a
-- chunk, its locals and its upvalues; the walk over the trees, their printing and freeing, the standard
-- library and the platform layer are left out. strtoll and strtod are a parameter of the parser. Of the collector, what free_obj_contents gives back and the number
-- of interned strings are left out; a size_t has 64 bits. The collector does not follow the foreach
-- pointers of a frame, and no theorem says that what they point to is kept. Of an array's state, other views of its source are left out. Line
-- numbers, sizes and the numbers of hash entries are natural numbers and do not wrap. A capacity is a
-- power of 2, so `& (capacity - 1)` is the remainder. What snprintf writes for a number is a parameter,
-- as are the sizes of the C structures.
pub mod Prelude
pub mod Value
pub mod Chunk
pub mod Bytecode
pub mod Hash
pub mod Gc
pub mod Array
pub mod Parser
pub mod Compiler
pub mod Disasm
pub mod StringBuffer
pub mod Lexer
pub mod Tests
