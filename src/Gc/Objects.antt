-- ===== src/Gc/Objects.antt =====
-- What the collector sees of the objects: include/slp_value.h, include/slp_vm.h and blacken_object of
-- src/slp_gc.c. A pointer is an address, and `none` where it is NULL.
use mathlib.Core.List.{map}
use slp.Prelude.{ℕ, Option, some, none, List, [], ◌∷◌, ◌++◌, Bytes, if◌then◌else◌}
use slp.Value.{Value, is_obj, address}

-- The pointers and values of a call frame.
pub record Frame : Type 0 where
  pub closure : Option ℕ
  pub local_scopes : Option ℕ
  pub closure_scope : Option ℕ
  pub foreach_array : Option ℕ
  pub foreach_hash : Option ℕ
  pub foreach_key : Value
  pub foreach_iteration_array : Option ℕ
  pub foreach_last_key : Value
  pub foreach_last_value : Value
  pub continuation_return : Option ℕ
  pub trace_call : Option ℕ
  pub trace_source : Option ℕ

pub record Closure : Type 0 where
  pub function : Option ℕ
  pub scope : Option ℕ
  pub call_name : Option ℕ
  -- The text and the pattern of each state.
  pub regex_states : List (Option ℕ × Option ℕ)
  pub last_regex_matches : Option ℕ
  pub upvalues : List (Option ℕ)
  pub coroutine_stack : List Value
  pub coroutine_frames : List Frame

pub record Continuation : Type 0 where
  pub stack : List Value
  pub frames : List Frame
  pub coroutine_owner : Option ℕ
  pub return_trace_call : Option ℕ
  pub return_trace_source : Option ℕ

-- An array's elements are those below its count, an entry of a hash is its key and value.
pub data Object : Type 0 where
  -- The hash and the characters.
  string : ℕ → Bytes → Object
  -- The name, the interfaces and the fields.
  class : Option ℕ → Option ℕ → Option ℕ → Object
  -- The class, the list, the map, the fields and the value.
  java_object : Option ℕ → Option ℕ → Option ℕ → Option ℕ → Value → Object
  long double : Object
  -- The elements and the source of a view.
  array : List Value → Option ℕ → Object
  -- The entries and the two policies.
  hash : List (Value × Value) → Option ℕ → Option ℕ → Object
  -- The name, the source's name and the constants of the chunk.
  function : Option ℕ → Option ℕ → List Value → Object
  closure : Closure → Object
  upvalue : Value → Object
  continuation : Continuation → Object
  native : Option ℕ → Object
  -- The keyword, the name and the closure.
  bridge : Option ℕ → Option ℕ → Option ℕ → Object
  -- The token and the values.
  io_handle : Value → List Value → Object
  key_value : Value → Value → Object
  tainted : Value → Object
  -- The value and the watched name.
  scalar_cell : Value → Option ℕ → Object

-- What slp_gc_mark_value passes on: no pointer for a value that is no object.
unfoldable pub reference : Value → Option ℕ
reference v = if is_obj v then some (address v) else none

-- The marks of a frame, in their order; those of a running foreach are not marked.
unfoldable pub frame_references : Frame → List (Option ℕ)
frame_references f =
    f.closure ∷ f.local_scopes ∷ f.closure_scope ∷ f.continuation_return ∷ f.trace_call
    ∷ f.trace_source ∷ []

unfoldable pub frames_references : List Frame → List (Option ℕ)
frames_references [] = []
frames_references (f ∷ fs) = frame_references f ++ frames_references fs

-- An entry with no key is passed over, also one that marks a deletion.
unfoldable pub entries_references : List (Value × Value) → List (Option ℕ)
entries_references [] = []
entries_references ((Value.null, v) ∷ es) = entries_references es
entries_references ((k, v) ∷ es) = reference k ∷ reference v ∷ entries_references es

unfoldable pub regex_references : List (Option ℕ × Option ℕ) → List (Option ℕ)
regex_references [] = []
regex_references ((text, pattern_text) ∷ rs) = text ∷ pattern_text ∷ regex_references rs

unfoldable pub closure_references : Closure → List (Option ℕ)
closure_references c =
    c.function
    ∷ c.scope
    ∷ c.call_name
    ∷ (regex_references c.regex_states
        ++ (c.last_regex_matches
            ∷ (c.upvalues
                ++ (map reference c.coroutine_stack ++ frames_references c.coroutine_frames))))

unfoldable pub continuation_references : Continuation → List (Option ℕ)
continuation_references c =
    map reference c.stack
    ++ (frames_references c.frames
        ++ (c.coroutine_owner ∷ c.return_trace_call ∷ c.return_trace_source ∷ []))

-- The pointers that blacken_object marks, in its order; slp_gc_mark_obj passes over NULL, so the
-- tests for NULL before its calls are left to it.
unfoldable pub references : Object → List (Option ℕ)
references (Object.string h cs) = []
references (Object.class name interfaces fields) = name ∷ interfaces ∷ fields ∷ []
references (Object.java_object class_object list map' fields v) =
    class_object ∷ list ∷ map' ∷ fields ∷ reference v ∷ []
references Object.long = []
references Object.double = []
references (Object.array elements view_source) = map reference elements ++ view_source ∷ []
references (Object.hash entries miss removal) = entries_references entries ++ (miss ∷ removal ∷ [])
references (Object.function name source_name constants) =
    name ∷ source_name ∷ map reference constants
references (Object.closure c) = closure_references c
references (Object.upvalue closed) = reference closed ∷ []
references (Object.continuation c) = continuation_references c
references (Object.native name) = name ∷ []
references (Object.bridge keyword name c) = keyword ∷ name ∷ c ∷ []
references (Object.io_handle token values) = reference token ∷ map reference values
references (Object.key_value k v) = reference k ∷ reference v ∷ []
references (Object.tainted v) = reference v ∷ []
references (Object.scalar_cell v watch_name) = reference v ∷ watch_name ∷ []
