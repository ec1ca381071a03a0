-- ===== src/Gc/Sweep.antt =====
-- Sweeping and the whole collection: slp_gc_sweep, rebuild_interned and slp_gc_collect of
-- src/slp_gc.c. What free_obj_contents gives back to the allocator and closes is left out.
use slp.Gc.Mark.{Vm, Marking, mark_roots, trace_references, start, update}
use slp.Gc.Objects.{Object}
use slp.Prelude.{
  ℕ, zero, suc, ◌+◌, ◌-◌, ◌*◌, ◌/◌, ◌%◌, ◌^◌, Bool, false, Option, some, none, List, [], ◌∷◌, ltb,
  if◌then◌else◌, length, replicate, set, get_or,
}

-- The number of an object's type in SlpObjType.
unfoldable pub obj_type : Object → ℕ
obj_type (Object.string h cs) = 0
obj_type (Object.class name interfaces fields) = 1
obj_type (Object.java_object class_object list map' fields v) = 2
obj_type Object.long = 3
obj_type Object.double = 4
obj_type (Object.array elements view_source) = 5
obj_type (Object.hash entries miss removal) = 6
obj_type (Object.function name source_name constants) = 7
obj_type (Object.closure c) = 8
obj_type (Object.upvalue closed) = 9
obj_type (Object.continuation c) = 10
obj_type (Object.native name) = 11
obj_type (Object.bridge keyword name c) = 12
obj_type (Object.io_handle token values) = 13
obj_type (Object.key_value k v) = 14
obj_type (Object.tainted v) = 15
obj_type (Object.scalar_cell v watch_name) = 16

-- The characters of a string stand in its block, with their terminator.
unfoldable pub text_size : Object → ℕ
text_size (Object.string h cs) = length cs + 1
text_size _ = 0

-- The search for a free place in the table of interned strings; the table is never full, so its
-- size is enough fuel. The capacity is a power of 2, and `&` with one less is the remainder.
unfoldable pub free_place : ℕ → List (Option ℕ) → ℕ → ℕ
free_place zero table idx = idx
free_place (suc f) table idx = elim (get_or table idx none) [
  | none ↦ idx
  | some a ↦ free_place f table ((idx + 1) % length table)
]

unfoldable pub intern : ℕ → Option Object → List (Option ℕ) → List (Option ℕ)
intern a (some (Object.string h cs)) table =
    set table (free_place (length table) table (h % length table)) (some a)
intern a _ table = table

unfoldable pub intern_all : (ℕ → Option Object) → List ℕ → List (Option ℕ) → List (Option ℕ)
intern_all cell [] table = table
intern_all cell (a ∷ objects) table = intern_all cell objects (intern a (cell a) table)

unfoldable pub rebuild_interned : Vm → Vm
rebuild_interned vm = record vm {
  interned = intern_all vm.cell vm.objects (replicate (length vm.interned) none);
}

abbrev least_threshold : ℕ
least_threshold = 256 * 1024

-- A size_t has 64 bits.
abbrev pub size_max : ℕ
size_max = 2 ^ 64

-- The list that is left, the size of what was freed, and the marks that are left.
pub record Swept : Type 0 where
  pub kept : List ℕ
  pub freed : ℕ
  pub is_marked : ℕ → Bool

-- `sizeof` gives the size of the C structure of each type, which the compiler chooses.
module _ (sizeof : ℕ → ℕ) where
  unfoldable pub object_size : Option Object → ℕ
  object_size none = 0
  object_size (some o) = sizeof (obj_type o) + text_size o

  -- The loop over the list of objects.
  unfoldable pub sweep_list : (ℕ → Option Object) → (ℕ → Bool) → List ℕ → Swept
  sweep_list cell is_marked [] = record { kept = []; freed = 0; is_marked = is_marked }
  sweep_list cell is_marked (a ∷ objects) =
      let rest = sweep_list cell (update is_marked a false) objects in
      let unreached = sweep_list cell is_marked objects in
      if is_marked a
      then record rest { kept = a ∷ rest.kept }
      else record unreached { freed = object_size (cell a) + unreached.freed }

  -- bytes_allocated is a size_t, and an object that was never counted is subtracted too.
  unfoldable pub sweep : Vm → Marking → Vm
  sweep vm m =
      let swept = sweep_list vm.cell m.is_marked vm.objects in
      record vm {
        objects = swept.kept;
        is_marked = swept.is_marked;
        gray_capacity = m.gray_capacity;
        bytes_allocated = (vm.bytes_allocated + (size_max - swept.freed % size_max)) % size_max;
      }

  unfoldable pub gc_collect : Vm → Vm
  gc_collect vm =
      let m = trace_references vm (mark_roots vm (start vm)) in
      let vm' = rebuild_interned (sweep vm m) in
      let threshold = vm'.bytes_allocated * 3 % size_max / 2 in
      record vm' {
        next_gc_threshold = if ltb threshold least_threshold then least_threshold else threshold;
      }
