-- ===== src/Value.antt =====
-- Runtime values: include/slp_value.h and the tests on values of src/slp_value.c, for the portable
-- build (the makefile does not set SLP_NAN_TAGGING).
-- A double is its 64-bit IEEE pattern and a long its 64-bit two's complement pattern. Strings,
-- longs, doubles and taint wrappers are never written after they are made, so a value carries their
-- contents beside the address by which C compares pointers. All other objects are an address.
use slp.Prelude.{
  ℕ, zero, suc, ◌+◌, ◌-◌, ◌*◌, ◌/◌, ◌%◌, ◌^◌, Bool, true, false, not, ◌&&◌, ◌||◌, ltb, ◌==◌,
  if◌then◌else◌, Bytes,
}

pub data ObjType : Type 0 where
  class java_object array hash function closure upvalue continuation native bridge : ObjType
  io_handle key_value scalar_cell : ObjType

pub data Value : Type 0 where
  null : Value
  bool : Bool → Value
  num : ℕ → Value
  string : ℕ → Bytes → Value
  long : ℕ → ℕ → Value
  double : ℕ → ℕ → Value
  tainted : ℕ → Value → Value
  object : ObjType → ℕ → Value

-- `a == b` on doubles: a NaN differs from all, and the two zeros are equal.
is_nan : ℕ → Bool
is_nan d = ltb (0x7ff * 2 ^ 52) (d % 2 ^ 63)

is_zero : ℕ → Bool
is_zero d = d % 2 ^ 63 == 0

unfoldable pub double_eq : ℕ → ℕ → Bool
unfolding is_nan is_zero
double_eq a b = not (is_nan a) && not (is_nan b) && (a == b || (is_zero a && is_zero b))

-- The position of the highest one bit; 64 rounds serve every 64-bit number.
top_bit : ℕ → ℕ → ℕ
top_bit zero m = 0
top_bit (suc f) m = let rest = top_bit f (m / 2) in if ltb m 2 then 0 else rest + 1

-- A magnitude of at least 1 to the nearest double, a half to the even neighbour. A carry out of the
-- mantissa raises the exponent by itself.
magnitude_to_double : ℕ → ℕ
unfolding top_bit
magnitude_to_double m =
    let e = top_bit 64 m in
    let s = e - 52 in
    let q = m * 2 ^ (52 - e) / 2 ^ s in
    let r = m % 2 ^ s in
    let half = 2 ^ (s - 1) in
    let up = ltb 52 e && (ltb half r || (r == half && q % 2 == 1)) in
    (e + 1023) * 2 ^ 52 + (q - 2 ^ 52) + (if up then 1 else 0)

-- `(double)value` of an int64_t.
unfoldable pub long_to_double : ℕ → ℕ
unfolding magnitude_to_double
long_to_double l =
    if l == 0
    then 0
    else if ltb l (2 ^ 63)
    then magnitude_to_double l
    else 2 ^ 63 + magnitude_to_double (2 ^ 64 - l)

unfoldable pub unwrap_taint : Value → Value
unwrap_taint (tainted _ v) = unwrap_taint v
unwrap_taint v = v

-- is_numeric_value and numeric_double_value, on an unwrapped value.
is_numeric : Value → Bool
is_numeric (num _) = true
is_numeric (long _ _) = true
is_numeric (double _ _) = true
is_numeric _ = false

numeric_double : Value → ℕ
unfolding long_to_double
numeric_double (num d) = d
numeric_double (long _ l) = long_to_double l
numeric_double (double _ d) = d
numeric_double _ = 0

-- `as.obj == as.obj`: the addresses.
unfoldable pub address : Value → ℕ
address (string a _) = a
address (long a _) = a
address (double a _) = a
address (tainted a _) = a
address (object _ a) = a
address _ = 0

-- The number of the object's SlpObjType.
object_index : ObjType → ℕ
object_index class = 1
object_index java_object = 2
object_index array = 5
object_index hash = 6
object_index function = 7
object_index closure = 8
object_index upvalue = 9
object_index continuation = 10
object_index native = 11
object_index bridge = 12
object_index io_handle = 13
object_index key_value = 14
object_index scalar_cell = 16

unfoldable pub type_index : Value → ℕ
unfolding object_index
type_index (string _ _) = 0
type_index (long _ _) = 3
type_index (double _ _) = 4
type_index (tainted _ _) = 15
type_index (object t _) = object_index t
type_index _ = 17

unfoldable pub is_obj : Value → Bool
is_obj null = false
is_obj (bool _) = false
is_obj (num _) = false
is_obj _ = true

-- The switch on the tag; two numbers never reach it.
same_tag_equals : Value → Value → Bool
unfolding is_obj address
same_tag_equals null null = true
same_tag_equals (bool true) (bool b) = b
same_tag_equals (bool false) (bool b) = not b
same_tag_equals a b = is_obj a && is_obj b && address a == address b

unwrapped_equals : Value → Value → Bool
unfolding is_numeric numeric_double same_tag_equals double_eq
unwrapped_equals a b =
    if is_numeric a && is_numeric b
    then double_eq (numeric_double a) (numeric_double b)
    else same_tag_equals a b

-- slp_value_equals
unfoldable pub value_equals : Value → Value → Bool
unfolding unwrap_taint unwrapped_equals
value_equals a b = unwrapped_equals (unwrap_taint a) (unwrap_taint b)
