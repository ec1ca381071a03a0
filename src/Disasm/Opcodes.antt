-- ===== src/Disasm/Opcodes.antt =====
-- The instructions of the virtual machine: include/slp_opcodes.h, and their names and operands in
-- src/slp_disasm.c and src/slp_vm.c.
use Prim.Native.String.{String}
use slp.Prelude.{ℕ, ◌+◌, ◌*◌, Bool, true, false, List, [], ◌∷◌}

pub data Opcode : Type 0 where
  push_null push_true push_false push_const load_local_0 load_local_1 load_local_2 : Opcode
  load_local_3 load_local_4 load_local_5 load_local_6 load_local_7 store_local_0 : Opcode
  store_local_1 store_local_2 store_local_3 store_local_4 store_local_5 store_local_6 : Opcode
  store_local_7 load_local store_local load_global store_global store_catch : Opcode
  load_upvalue store_upvalue reference_local reference_global reference_upvalue add' : Opcode
  subtract multiply divide modulo power negate concat align repeat equal not_equal less : Opcode
  greater less_equal greater_equal spaceship match' not_match not' and' or' bit_and : Opcode
  bit_or bit_xor bit_not lshift rshift increment decrement unary_predicate : Opcode
  binary_predicate negated_binary_predicate pop dup dup2 swap reverse jump : Opcode
  jump_if_false jump_if_true jump_if_null loop call call_named return' inline_return : Opcode
  closure close_upvalue foreach_next foreach_next_value build_array build_hash : Opcode
  build_key_value index_get index_ensure index_set tuple_get tuple_compound obj_expr : Opcode
  push_handler pop_handler throw assert halt done yield' callcc resume bridge_register : Opcode
  import' backtick class_literal address local this' unpack_tuple break' continue' nop : Opcode
  end : Opcode

-- The opcodes in the order of the enumeration: an opcode's byte is its place here.
abbrev pub opcodes : List Opcode
opcodes =
    push_null ∷ push_true ∷ push_false ∷ push_const ∷ load_local_0 ∷ load_local_1 ∷ load_local_2
    ∷ load_local_3 ∷ load_local_4 ∷ load_local_5 ∷ load_local_6 ∷ load_local_7 ∷ store_local_0
    ∷ store_local_1 ∷ store_local_2 ∷ store_local_3 ∷ store_local_4 ∷ store_local_5 ∷ store_local_6
    ∷ store_local_7 ∷ load_local ∷ store_local ∷ load_global ∷ store_global ∷ store_catch
    ∷ load_upvalue ∷ store_upvalue ∷ reference_local ∷ reference_global ∷ reference_upvalue ∷ add'
    ∷ subtract ∷ multiply ∷ divide ∷ modulo ∷ power ∷ negate ∷ concat ∷ align ∷ repeat ∷ equal
    ∷ not_equal ∷ less ∷ greater ∷ less_equal ∷ greater_equal ∷ spaceship ∷ match' ∷ not_match
    ∷ not' ∷ and' ∷ or' ∷ bit_and ∷ bit_or ∷ bit_xor ∷ bit_not ∷ lshift ∷ rshift ∷ increment
    ∷ decrement ∷ unary_predicate ∷ binary_predicate ∷ negated_binary_predicate ∷ pop ∷ dup ∷ dup2
    ∷ swap ∷ reverse ∷ jump ∷ jump_if_false ∷ jump_if_true ∷ jump_if_null ∷ loop ∷ call ∷ call_named
    ∷ return' ∷ inline_return ∷ closure ∷ close_upvalue ∷ foreach_next ∷ foreach_next_value
    ∷ build_array ∷ build_hash ∷ build_key_value ∷ index_get ∷ index_ensure ∷ index_set ∷ tuple_get
    ∷ tuple_compound ∷ obj_expr ∷ push_handler ∷ pop_handler ∷ throw ∷ assert ∷ halt ∷ done ∷ yield'
    ∷ callcc ∷ resume ∷ bridge_register ∷ import' ∷ backtick ∷ class_literal ∷ address ∷ local
    ∷ this' ∷ unpack_tuple ∷ break' ∷ continue' ∷ nop ∷ end ∷ []

unfoldable pub opcode_name : Opcode → String
opcode_name push_null = "PUSH_NULL"
opcode_name push_true = "PUSH_TRUE"
opcode_name push_false = "PUSH_FALSE"
opcode_name push_const = "PUSH_CONST"
opcode_name load_local_0 = "LOAD_LOCAL_0"
opcode_name load_local_1 = "LOAD_LOCAL_1"
opcode_name load_local_2 = "LOAD_LOCAL_2"
opcode_name load_local_3 = "LOAD_LOCAL_3"
opcode_name load_local_4 = "LOAD_LOCAL_4"
opcode_name load_local_5 = "LOAD_LOCAL_5"
opcode_name load_local_6 = "LOAD_LOCAL_6"
opcode_name load_local_7 = "LOAD_LOCAL_7"
opcode_name store_local_0 = "STORE_LOCAL_0"
opcode_name store_local_1 = "STORE_LOCAL_1"
opcode_name store_local_2 = "STORE_LOCAL_2"
opcode_name store_local_3 = "STORE_LOCAL_3"
opcode_name store_local_4 = "STORE_LOCAL_4"
opcode_name store_local_5 = "STORE_LOCAL_5"
opcode_name store_local_6 = "STORE_LOCAL_6"
opcode_name store_local_7 = "STORE_LOCAL_7"
opcode_name load_local = "LOAD_LOCAL"
opcode_name store_local = "STORE_LOCAL"
opcode_name load_global = "LOAD_GLOBAL"
opcode_name store_global = "STORE_GLOBAL"
opcode_name store_catch = "STORE_CATCH"
opcode_name load_upvalue = "LOAD_UPVALUE"
opcode_name store_upvalue = "STORE_UPVALUE"
opcode_name reference_local = "REFERENCE_LOCAL"
opcode_name reference_global = "REFERENCE_GLOBAL"
opcode_name reference_upvalue = "REFERENCE_UPVALUE"
opcode_name add' = "ADD"
opcode_name subtract = "SUBTRACT"
opcode_name multiply = "MULTIPLY"
opcode_name divide = "DIVIDE"
opcode_name modulo = "MODULO"
opcode_name power = "POWER"
opcode_name negate = "NEGATE"
opcode_name concat = "CONCAT"
opcode_name align = "ALIGN"
opcode_name repeat = "REPEAT"
opcode_name equal = "EQUAL"
opcode_name not_equal = "NOT_EQUAL"
opcode_name less = "LESS"
opcode_name greater = "GREATER"
opcode_name less_equal = "LESS_EQUAL"
opcode_name greater_equal = "GREATER_EQUAL"
opcode_name spaceship = "SPACESHIP"
opcode_name match' = "MATCH"
opcode_name not_match = "NOT_MATCH"
opcode_name not' = "NOT"
opcode_name and' = "AND"
opcode_name or' = "OR"
opcode_name bit_and = "BIT_AND"
opcode_name bit_or = "BIT_OR"
opcode_name bit_xor = "BIT_XOR"
opcode_name bit_not = "BIT_NOT"
opcode_name lshift = "LSHIFT"
opcode_name rshift = "RSHIFT"
opcode_name increment = "INCREMENT"
opcode_name decrement = "DECREMENT"
opcode_name unary_predicate = "UNARY_PREDICATE"
opcode_name binary_predicate = "BINARY_PREDICATE"
opcode_name negated_binary_predicate = "NEGATED_BINARY_PREDICATE"
opcode_name pop = "POP"
opcode_name dup = "DUP"
opcode_name dup2 = "DUP2"
opcode_name swap = "SWAP"
opcode_name reverse = "REVERSE"
opcode_name jump = "JUMP"
opcode_name jump_if_false = "JUMP_IF_FALSE"
opcode_name jump_if_true = "JUMP_IF_TRUE"
opcode_name jump_if_null = "JUMP_IF_NULL"
opcode_name loop = "LOOP"
opcode_name call = "CALL"
opcode_name call_named = "CALL_NAMED"
opcode_name return' = "RETURN"
opcode_name inline_return = "INLINE_RETURN"
opcode_name closure = "CLOSURE"
opcode_name close_upvalue = "CLOSE_UPVALUE"
opcode_name foreach_next = "FOREACH_NEXT"
opcode_name foreach_next_value = "FOREACH_NEXT_VALUE"
opcode_name build_array = "BUILD_ARRAY"
opcode_name build_hash = "BUILD_HASH"
opcode_name build_key_value = "BUILD_KEY_VALUE"
opcode_name index_get = "INDEX_GET"
opcode_name index_ensure = "INDEX_ENSURE"
opcode_name index_set = "INDEX_SET"
opcode_name tuple_get = "TUPLE_GET"
opcode_name tuple_compound = "TUPLE_COMPOUND"
opcode_name obj_expr = "OBJ_EXPR"
opcode_name push_handler = "PUSH_HANDLER"
opcode_name pop_handler = "POP_HANDLER"
opcode_name throw = "THROW"
opcode_name assert = "ASSERT"
opcode_name halt = "HALT"
opcode_name done = "DONE"
opcode_name yield' = "YIELD"
opcode_name callcc = "CALLCC"
opcode_name resume = "RESUME"
opcode_name bridge_register = "BRIDGE_REGISTER"
opcode_name import' = "IMPORT"
opcode_name backtick = "BACKTICK"
opcode_name class_literal = "CLASS_LITERAL"
opcode_name address = "ADDRESS"
opcode_name local = "LOCAL"
opcode_name this' = "THIS"
opcode_name unpack_tuple = "UNPACK_TUPLE"
opcode_name break' = "BREAK"
opcode_name continue' = "CONTINUE"
opcode_name nop = "NOP"
opcode_name end = "END"

-- The opcodes with a two-byte operand.
unfoldable pub is_short_instruction : Opcode → Bool
is_short_instruction push_const = true
is_short_instruction load_local = true
is_short_instruction store_local = true
is_short_instruction load_global = true
is_short_instruction store_global = true
is_short_instruction store_catch = true
is_short_instruction load_upvalue = true
is_short_instruction store_upvalue = true
is_short_instruction reference_global = true
is_short_instruction jump = true
is_short_instruction jump_if_false = true
is_short_instruction jump_if_true = true
is_short_instruction jump_if_null = true
is_short_instruction loop = true
is_short_instruction and' = true
is_short_instruction or' = true
is_short_instruction push_handler = true
is_short_instruction foreach_next = true
is_short_instruction foreach_next_value = true
is_short_instruction build_array = true
is_short_instruction build_hash = true
is_short_instruction bridge_register = true
is_short_instruction import' = true
is_short_instruction backtick = true
is_short_instruction class_literal = true
is_short_instruction _ = false

-- The first test of slp_disasm_instruction.
unfoldable pub is_constant_instruction : Opcode → Bool
is_constant_instruction push_const = true
is_constant_instruction load_global = true
is_constant_instruction store_global = true
is_constant_instruction store_catch = true
is_constant_instruction reference_global = true
is_constant_instruction _ = false

-- Its second test.
unfoldable pub is_slot_instruction : Opcode → Bool
is_slot_instruction load_local = true
is_slot_instruction store_local = true
is_slot_instruction load_upvalue = true
is_slot_instruction store_upvalue = true
is_slot_instruction reference_local = true
is_slot_instruction reference_upvalue = true
is_slot_instruction index_ensure = true
is_slot_instruction reverse = true
is_slot_instruction tuple_compound = true
is_slot_instruction obj_expr = true
is_slot_instruction _ = false

-- The bytes behind the opcode that slp_vm_call reads or skips; `pairs` is the number of upvalues of the
-- function that `closure` names.
unfoldable pub operand_bytes : Opcode → ℕ → ℕ
operand_bytes push_const pairs = 2
operand_bytes load_local pairs = 1
operand_bytes store_local pairs = 1
operand_bytes load_global pairs = 2
operand_bytes store_global pairs = 2
operand_bytes store_catch pairs = 2
operand_bytes load_upvalue pairs = 1
operand_bytes store_upvalue pairs = 1
operand_bytes reference_local pairs = 1
operand_bytes reference_global pairs = 2
operand_bytes reference_upvalue pairs = 1
operand_bytes and' pairs = 2
operand_bytes or' pairs = 2
operand_bytes unary_predicate pairs = 2
operand_bytes binary_predicate pairs = 2
operand_bytes negated_binary_predicate pairs = 2
operand_bytes reverse pairs = 1
operand_bytes jump pairs = 2
operand_bytes jump_if_false pairs = 2
operand_bytes jump_if_true pairs = 2
operand_bytes jump_if_null pairs = 2
operand_bytes loop pairs = 2
operand_bytes call pairs = 1
operand_bytes call_named pairs = 3
operand_bytes closure pairs = 2 + 2 * pairs
operand_bytes foreach_next pairs = 2
operand_bytes foreach_next_value pairs = 2
operand_bytes build_array pairs = 2
operand_bytes build_hash pairs = 2
operand_bytes index_ensure pairs = 1
operand_bytes tuple_compound pairs = 1
operand_bytes obj_expr pairs = 1
operand_bytes push_handler pairs = 2
operand_bytes callcc pairs = 1
operand_bytes bridge_register pairs = 4
operand_bytes import' pairs = 4
operand_bytes backtick pairs = 2
operand_bytes class_literal pairs = 2
operand_bytes address pairs = 2
operand_bytes unpack_tuple pairs = 1
operand_bytes _ pairs = 0
