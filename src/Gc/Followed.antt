-- ===== src/Gc/Followed.antt =====
-- The lists of pointers that mark_roots and blacken_object of src/slp_gc.c go through hold just what
-- the machine and the objects refer to.
use mathlib.Core.List.{map}
use slp.Gc.Mark.{Vm, roots}
use slp.Gc.Marks.{In}
use slp.Gc.Objects.{
  Object, Frame, reference, frame_references, frames_references, entries_references,
  regex_references, closure_references, continuation_references, references,
}
use slp.Gc.Points.{
  Addresses, Nowhere, To, ◌∪◌, Any, Refers, InEntry, InState, InFrame, Points, IsRoot,
}
use slp.Prelude.{ℕ, ◌≡◌, ◌≢◌, ◌⊎◌, inl, inr, refl, Option, some, none, List, [], ◌∷◌, ◌++◌}
use slp.Value.{Value, is_obj, address}

-- A list of pointers holds just the addresses `P`.
pub record IsPointers (rs : List (Option ℕ)) (P : Addresses) : Type 0 where
  pub only : (a : ℕ) → In (some a) rs → P a
  pub all : (a : ℕ) → P a → In (some a) rs

nothing : IsPointers [] Nowhere
unfolding Nowhere
nothing = record { only = λ a i. i; all = λ a p. p }

single : (r : Option ℕ) → IsPointers (r ∷ []) (To r)
unfolding To
single r = record {
  only = λ a i. elim i [ inl e ↦ e | inr none_left ↦ absurd none_left ];
  all = λ a p. inl p;
}

In-split : (x : Option ℕ) (rs ss : List (Option ℕ)) → In x (rs ++ ss) → In x rs ⊎ In x ss
In-split x [] ss i = inr i
In-split x (r ∷ rs) ss (inl e) = inl (inl e)
In-split x (r ∷ rs) ss (inr i) = elim (In-split x rs ss i) [ inl j ↦ inl (inr j) | inr j ↦ inr j ]

In-left : (x : Option ℕ) (rs ss : List (Option ℕ)) → In x rs → In x (rs ++ ss)
In-left x [] ss i = absurd i
In-left x (r ∷ rs) ss (inl e) = inl e
In-left x (r ∷ rs) ss (inr i) = inr (In-left x rs ss i)

In-right : (x : Option ℕ) (rs ss : List (Option ℕ)) → In x ss → In x (rs ++ ss)
In-right x [] ss i = i
In-right x (r ∷ rs) ss i = inr (In-right x rs ss i)

joined :
    {rs ss : List (Option ℕ)} {P Q : Addresses}
    → IsPointers rs P
    → IsPointers ss Q
    → IsPointers (rs ++ ss) (P ∪ Q)
unfolding ◌∪◌
joined {rs = rs} {ss = ss} p q = record {
  only = λ a i. elim (In-split (some a) rs ss i) [
    | inl j ↦ inl (p.only a j)
    | inr j ↦ inr (q.only a j)
  ];
  all = λ a e. elim e [
    | inl e ↦ In-left (some a) rs ss (p.all a e)
    | inr e ↦ In-right (some a) rs ss (q.all a e)
  ];
}

next :
    {r : Option ℕ} {rs : List (Option ℕ)} {Q : Addresses}
    → IsPointers rs Q
    → IsPointers (r ∷ rs) (To r ∪ Q)
next {r = r} q = joined (single r) q

object_value : (b : ℕ) → IsPointers (some b ∷ []) (λ a. a ≡ b)
object_value b = record {
  only = λ a i. elim i [ inl e ↦ cc | inr none_left ↦ absurd none_left ];
  all = λ a e. inl cc;
}

no_value : IsPointers (none ∷ []) (λ a. ⊥)
no_value = record {
  only = λ a i. elim i [ inl e ↦ cc | inr none_left ↦ none_left ];
  all = λ a p. absurd p;
}

value : (v : Value) → IsPointers (reference v ∷ []) (Refers v)
unfolding reference is_obj address Refers
value Value.null = no_value
value (Value.bool b) = no_value
value (Value.num n) = no_value
value (Value.string b cs) = object_value b
value (Value.long b n) = object_value b
value (Value.double b n) = object_value b
value (Value.tainted b v) = object_value b
value (Value.object t b) = object_value b

next_value :
    (v : Value) {rs : List (Option ℕ)} {Q : Addresses}
    → IsPointers rs Q
    → IsPointers (reference v ∷ rs) (Refers v ∪ Q)
next_value v q = joined (value v) q

values : (vs : List Value) → IsPointers (map reference vs) (Any Refers vs)
unfolding Any
values [] = nothing
values (v ∷ vs) = next_value v (values vs)

pointers : (rs : List (Option ℕ)) → IsPointers rs (Any To rs)
unfolding Any
pointers [] = nothing
pointers (r ∷ rs) = next (pointers rs)

states : (rs : List (Option ℕ × Option ℕ)) → IsPointers (regex_references rs) (Any InState rs)
unfolding Any InState regex_references
states [] = nothing
states ((text, pattern_text) ∷ rs) = joined (next (single pattern_text)) (states rs)

frames : (fs : List Frame) → IsPointers (frames_references fs) (Any InFrame fs)
unfolding Any InFrame frames_references frame_references
frames [] = nothing
frames (f ∷ fs) = joined (next (next (next (next (next (single f.trace_source)))))) (frames fs)

entry :
    (k v : Value) (es : List (Value × Value))
    → k ≢ Value.null
    → IsPointers (entries_references es) (Any InEntry es)
    → IsPointers
        (reference k ∷ reference v ∷ entries_references es)
        (InEntry (k, v) ∪ Any InEntry es)
unfolding InEntry ◌∪◌
entry k v es key q =
    let both = next_value k (next_value v q) in
    record {
      only = λ a i. elim (both.only a i) [
        | inl p ↦ inl (key, inl p)
        | inr (inl p) ↦ inl (key, inr p)
        | inr (inr p) ↦ inr p
      ];
      all = λ a p.
          both.all a (elim p [
            | inl (_, inl r) ↦ inl r
            | inl (_, inr r) ↦ inr (inl r)
            | inr r ↦ inr (inr r)
          ]);
    }

keyless :
    (v : Value) {rs : List (Option ℕ)} {Q : Addresses}
    → IsPointers rs Q
    → IsPointers rs (InEntry (Value.null, v) ∪ Q)
unfolding InEntry ◌∪◌
keyless v q = record {
  only = λ a i. inr (q.only a i);
  all = λ a p. elim p [ inl (key, _) ↦ absurd (key refl) | inr r ↦ q.all a r ];
}

entries : (es : List (Value × Value)) → IsPointers (entries_references es) (Any InEntry es)
unfolding Any entries_references
entries [] = nothing
entries ((Value.null, v) ∷ es) = keyless v (entries es)
entries ((Value.bool b, v) ∷ es) = entry (Value.bool b) v es (λ e. cc) (entries es)
entries ((Value.num n, v) ∷ es) = entry (Value.num n) v es (λ e. cc) (entries es)
entries ((Value.string b cs, v) ∷ es) = entry (Value.string b cs) v es (λ e. cc) (entries es)
entries ((Value.long b n, v) ∷ es) = entry (Value.long b n) v es (λ e. cc) (entries es)
entries ((Value.double b n, v) ∷ es) = entry (Value.double b n) v es (λ e. cc) (entries es)
entries ((Value.tainted b w, v) ∷ es) = entry (Value.tainted b w) v es (λ e. cc) (entries es)
entries ((Value.object t b, v) ∷ es) = entry (Value.object t b) v es (λ e. cc) (entries es)

-- The pointers that blacken_object marks are those of the object, whatever its type.
pub references-Points : (o : Object) → IsPointers (references o) (Points o)
unfolding references Points closure_references continuation_references
references-Points (Object.string h cs) = nothing
references-Points (Object.class name interfaces fields) = next (next (single fields))
references-Points (Object.java_object class_object list map' fields v) =
    next (next (next (next (value v))))
references-Points Object.long = nothing
references-Points Object.double = nothing
references-Points (Object.array elements view_source) =
    joined (values elements) (single view_source)
references-Points (Object.hash es miss removal) = joined (entries es) (next (single removal))
references-Points (Object.function name source_name constants) = next (next (values constants))
references-Points (Object.closure c) = next (
    next (
      next (
        joined (states c.regex_states) (
          next (
            joined (pointers c.upvalues)
              (joined (values c.coroutine_stack) (frames c.coroutine_frames)))))))
references-Points (Object.upvalue closed) = value closed
references-Points (Object.continuation c) =
    joined (values c.stack) (joined (frames c.frames) (next (next (single c.return_trace_source))))
references-Points (Object.native name) = single name
references-Points (Object.bridge keyword name c) = next (next (single c))
references-Points (Object.io_handle token vs) = next_value token (values vs)
references-Points (Object.key_value k v) = next_value k (value v)
references-Points (Object.tainted v) = value v
references-Points (Object.scalar_cell v watch_name) = next_value v (single watch_name)

-- The pointers that mark_roots marks are those of the machine.
pub roots-IsRoot : (vm : Vm) → IsPointers (roots vm) (IsRoot vm)
unfolding roots IsRoot
roots-IsRoot vm = joined (values vm.stack) (
    joined (frames vm.frames) (
      joined (pointers vm.open_upvalues) (
        next (
          next (
            next (
              next (
                next (
                  next (
                    next (
                      next_value vm.thrown_exception (
                        next_value vm.last_error
                          (joined (values vm.ffi_slots) (values vm.callables)))))))))))))
