-- ===== src/Gc/Tests.antt =====
-- A collection over three objects, of which one is garbage.
use slp.Gc.Kept.{IsCollectable, gc_collect-Reachable, gc_collect-interned}
use slp.Gc.Mark.{
  Vm, roots, mark_roots, trace_references, start, trace_rounds, mark_all, mark_obj, gray_stack_push,
  blacken,
}
use slp.Gc.Marks.{In}
use slp.Gc.Points.{Points, IsRoot, Any, Refers, To, ◌∪◌, Nowhere}
use slp.Gc.Objects.{Object, references, reference, frames_references}
use slp.Gc.Sweep.{gc_collect, rebuild_interned, sweep, sweep_list, intern_all, intern, free_place}
use slp.Gc.Trace.{Reachable, IsTracked, traced, trace_references_lem}
use slp.Prelude.{
  ℕ, ◌≡◌, refl, sym, ap, subst, ◌∙◌, inl, inr, true, false, Option, some, none, [], ◌∷◌, ◌==◌,
  if◌then◌else◌, arith,
}
use slp.Value.{Value, ObjType, null, is_obj, address}

abbrev cell : ℕ → Option Object
cell a =
    if a == 1
    then some (Object.array (Value.string 2 [] ∷ null ∷ []) none)
    else if a == 2
    then some (Object.string 6 (104 ∷ 105 ∷ []))
    else if a == 3
    then some (Object.upvalue (Value.object ObjType.array 1))
    else none

-- A stack with the array, whose first element is the string; nothing refers to the upvalue.
abbrev machine : Vm
machine = record {
  cell = cell;
  objects = 3 ∷ 2 ∷ 1 ∷ [];
  stack = Value.object ObjType.array 1 ∷ [];
  frames = [];
  open_upvalues = [];
  globals = none;
  natives = none;
  last_regex_matches = none;
  last_stack_trace = none;
  profile_statistics = none;
  packed_objects = none;
  console_handle = none;
  thrown_exception = null;
  last_error = null;
  ffi_slots = [];
  callables = [];
  interned = none ∷ none ∷ none ∷ none ∷ [];
  is_marked = λ a. false;
  gray_capacity = 0;
  bytes_allocated = 48;
  next_gc_threshold = 0;
}

abbrev fifteen : ℕ → ℕ
fifteen t = 15

collected_list : (gc_collect fifteen machine).objects ≡ 2 ∷ 1 ∷ []
unfolding gc_collect rebuild_interned sweep sweep_list trace_references trace_rounds mark_roots
    mark_all roots frames_references mark_obj reference is_obj start gray_stack_push blacken address
    references
collected_list = refl

pointers_kept :
    (k a b : ℕ) (p o : Object) → a ≡ k → cell k ≡ some p → cell a ≡ some o → Points o b → Points p b
pointers_kept k a b p o e h h' j =
    let same : some o ≡ some p = sym h' ∙ ap cell e ∙ h in
    let same' : o ≡ p = cc same in subst (λ q. Points q b) same' j

listed_references :
    (a b : ℕ) (o : Object)
    → In a machine.objects
    → cell a ≡ some o
    → Points o b
    → In b machine.objects
unfolding Points Any Refers To ◌∪◌ Nowhere
listed_references a b o (inl e) h j =
    let i = pointers_kept 3 a b (Object.upvalue (Value.object ObjType.array 1)) o e refl h j in
    ground arith
listed_references a b o (inr (inl e)) h j =
    absurd (pointers_kept 2 a b (Object.string 6 (104 ∷ 105 ∷ [])) o e refl h j)
listed_references a b o (inr (inr (inl e))) h j =
    let i = pointers_kept 1 a b (Object.array (Value.string 2 [] ∷ null ∷ []) none) o e refl h j in
    ground arith
listed_references a b o (inr (inr (inr e))) h j = absurd e

machine-IsTracked : IsTracked machine
unfolding IsRoot Any Refers To ◌∪◌ Nowhere
machine-IsTracked = record {
  roots_tracked = λ a i. ground arith;
  references_tracked = listed_references;
}

machine-IsCollectable : IsCollectable machine
machine-IsCollectable = record {
  tracked = machine-IsTracked;
  clean = λ a. refl;
  distinct = (λ i. ground arith, (λ i. ground arith, (λ i. i, tt)));
}

trace_references_example :
    ((traced machine machine-IsTracked (λ a. refl)).gray ≡ [])
    × ((a : ℕ)
        → Reachable machine a
        → (traced machine machine-IsTracked (λ a. refl)).is_marked a ≡ true)
    × ((a : ℕ)
        → (traced machine machine-IsTracked (λ a. refl)).is_marked a ≡ true
        → Reachable machine a)
trace_references_example = trace_references_lem machine machine-IsTracked (λ a. refl)

gc_collect-Reachable_example :
    (Reachable machine 2 → In 2 (gc_collect fifteen machine).objects)
    × (In 2 (gc_collect fifteen machine).objects → Reachable machine 2)
gc_collect-Reachable_example = gc_collect-Reachable fifteen machine machine-IsCollectable 2

string_interned : In (some 2) (gc_collect fifteen machine).interned
unfolding gc_collect rebuild_interned sweep sweep_list trace_references trace_rounds mark_roots
    mark_all roots frames_references mark_obj reference is_obj start gray_stack_push blacken address
    references intern_all intern free_place
string_interned = inr (inr (inl refl))

gc_collect-interned_example : In 2 (gc_collect fifteen machine).objects
gc_collect-interned_example =
    gc_collect-interned fifteen machine machine-IsCollectable 2 string_interned
