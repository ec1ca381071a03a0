-- ===== src/Gc/Mark.antt =====
-- Marking: slp_gc_mark_obj, blacken_object, mark_roots and trace_references of src/slp_gc.c.
use mathlib.Core.List.{map}
use slp.Gc.Objects.{Object, Frame, reference, frames_references, references}
use slp.Prelude.{
  ℕ, zero, suc, ◌+◌, ◌*◌, Bool, true, Option, some, none, List, [], ◌∷◌, ◌++◌, ltb, ◌==◌,
  if◌then◌else◌, length,
}
use slp.Value.{Value}

-- The parts of the machine that the collector reads: its roots, the memory, and the list of all
-- objects. The list `ffi_slots` has 256 values, and `callables` are those of the embedding.
pub record Vm : Type 0 where
  pub cell : ℕ → Option Object
  pub objects : List ℕ
  pub stack : List Value
  pub frames : List Frame
  pub open_upvalues : List (Option ℕ)
  pub globals : Option ℕ
  pub natives : Option ℕ
  pub last_regex_matches : Option ℕ
  pub last_stack_trace : Option ℕ
  pub profile_statistics : Option ℕ
  pub packed_objects : Option ℕ
  pub console_handle : Option ℕ
  pub thrown_exception : Value
  pub last_error : Value
  pub ffi_slots : List Value
  pub callables : List Value
  pub interned : List (Option ℕ)
  pub is_marked : ℕ → Bool
  pub gray_capacity : ℕ
  pub bytes_allocated : ℕ
  pub next_gc_threshold : ℕ

-- The marks, and the stack of objects that are marked and not yet followed, its top first.
pub record Marking : Type 0 where
  pub is_marked : ℕ → Bool
  pub gray : List ℕ
  pub gray_capacity : ℕ

abbrev pub update : (ℕ → Bool) → ℕ → Bool → ℕ → Bool
update f a v b = if a == b then v else f b

unfoldable pub gray_stack_push : Marking → ℕ → Marking
gray_stack_push m a = record m {
  gray = a ∷ m.gray;
  gray_capacity =
      if ltb m.gray_capacity (length m.gray + 1)
      then (if m.gray_capacity == 0 then 64 else m.gray_capacity * 2)
      else m.gray_capacity;
}

unfoldable pub mark_obj : Option ℕ → Marking → Marking
mark_obj none m = m
mark_obj (some a) m =
    if m.is_marked a
    then m
    else gray_stack_push (record m { is_marked = update m.is_marked a true }) a

-- The calls of slp_gc_mark_obj in a row.
unfoldable pub mark_all : List (Option ℕ) → Marking → Marking
mark_all [] m = m
mark_all (r ∷ rs) m = mark_all rs (mark_obj r m)

unfoldable pub blacken : Option Object → Marking → Marking
blacken none m = m
blacken (some o) m = mark_all (references o) m

-- The pointers that mark_roots marks, in its order.
unfoldable pub roots : Vm → List (Option ℕ)
roots vm =
    map reference vm.stack
    ++ (frames_references vm.frames
        ++ (vm.open_upvalues
            ++ (vm.globals
                ∷ vm.natives
                ∷ vm.last_regex_matches
                ∷ vm.last_stack_trace
                ∷ vm.profile_statistics
                ∷ vm.packed_objects
                ∷ vm.console_handle
                ∷ reference vm.thrown_exception
                ∷ reference vm.last_error
                ∷ (map reference vm.ffi_slots ++ map reference vm.callables))))

unfoldable pub mark_roots : Vm → Marking → Marking
mark_roots vm m = mark_all (roots vm) m

-- One round of the loop of trace_references takes the top of the stack.
unfoldable pub trace_rounds : ℕ → Vm → Marking → Marking
trace_rounds zero vm m = m
trace_rounds (suc f) vm m = elim m.gray [
  | [] ↦ m
  | a ∷ gray ↦ trace_rounds f vm (blacken (vm.cell a) (record m { gray = gray }))
]

-- Between two collections the stack is empty.
unfoldable pub start : Vm → Marking
start vm = record { is_marked = vm.is_marked; gray = []; gray_capacity = vm.gray_capacity }

-- Each object is pushed once at most, so the number of objects is enough fuel.
unfoldable pub trace_references : Vm → Marking → Marking
trace_references vm m = trace_rounds (length vm.objects) vm m
