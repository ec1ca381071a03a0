-- ===== src/Gc/Points.antt =====
-- What an object and a machine refer to, field by field: include/slp_value.h and include/slp_vm.h.
-- Nothing here is taken from the collector's own lists of pointers.
use slp.Gc.Mark.{Vm}
use slp.Gc.Objects.{Object, Frame}
use slp.Prelude.{ℕ, ◌≡◌, ◌≢◌, ◌⊎◌, Option, some, List, [], ◌∷◌}
use slp.Value.{Value}

infixr 5 ◌∪◌
-- The addresses that a part of the memory refers to.
abbrev pub Addresses : Type 1
Addresses = ℕ → Type 0

unfoldable pub Nowhere : Addresses
Nowhere a = ⊥

unfoldable pub To : Option ℕ → Addresses
To p a = some a ≡ p

unfoldable pub ◌∪◌ : Addresses → Addresses → Addresses
(P ∪ Q) a = P a ⊎ Q a

unfoldable pub Any : {A : Type 0} → (A → Addresses) → List A → Addresses
Any P [] = Nowhere
Any P (x ∷ xs) = P x ∪ Any P xs

-- A value that is a number, a boolean or $null is no pointer.
unfoldable pub Refers : Value → Addresses
Refers Value.null a = ⊥
Refers (Value.bool b) a = ⊥
Refers (Value.num n) a = ⊥
Refers (Value.string b cs) a = a ≡ b
Refers (Value.long b n) a = a ≡ b
Refers (Value.double b n) a = a ≡ b
Refers (Value.tainted b v) a = a ≡ b
Refers (Value.object t b) a = a ≡ b

-- An entry without a key is none.
unfoldable pub InEntry : Value × Value → Addresses
InEntry (k, v) a = (k ≢ Value.null) × (Refers k ∪ Refers v) a

unfoldable pub InState : Option ℕ × Option ℕ → Addresses
InState (text, pattern_text) = To text ∪ To pattern_text

-- Of the pointers of a frame, those of a running foreach are no references.
unfoldable pub InFrame : Frame → Addresses
InFrame f =
    To f.closure
    ∪ To f.local_scopes
    ∪ To f.closure_scope
    ∪ To f.continuation_return
    ∪ To f.trace_call
    ∪ To f.trace_source

unfoldable pub Points : Object → Addresses
Points (Object.string h cs) = Nowhere
Points (Object.class name interfaces fields) = To name ∪ To interfaces ∪ To fields
Points (Object.java_object class_object list map' fields v) =
    To class_object ∪ To list ∪ To map' ∪ To fields ∪ Refers v
Points Object.long = Nowhere
Points Object.double = Nowhere
Points (Object.array elements view_source) = Any Refers elements ∪ To view_source
Points (Object.hash entries miss removal) = Any InEntry entries ∪ To miss ∪ To removal
Points (Object.function name source_name constants) =
    To name ∪ To source_name ∪ Any Refers constants
Points (Object.closure c) =
    To c.function
    ∪ To c.scope
    ∪ To c.call_name
    ∪ Any InState c.regex_states
    ∪ To c.last_regex_matches
    ∪ Any To c.upvalues
    ∪ Any Refers c.coroutine_stack
    ∪ Any InFrame c.coroutine_frames
Points (Object.upvalue closed) = Refers closed
Points (Object.continuation c) =
    Any Refers c.stack
    ∪ Any InFrame c.frames
    ∪ To c.coroutine_owner
    ∪ To c.return_trace_call
    ∪ To c.return_trace_source
Points (Object.native name) = To name
Points (Object.bridge keyword name c) = To keyword ∪ To name ∪ To c
Points (Object.io_handle token values) = Refers token ∪ Any Refers values
Points (Object.key_value k v) = Refers k ∪ Refers v
Points (Object.tainted v) = Refers v
Points (Object.scalar_cell v watch_name) = Refers v ∪ To watch_name

-- What the machine itself refers to.
unfoldable pub IsRoot : Vm → Addresses
IsRoot vm =
    Any Refers vm.stack
    ∪ Any InFrame vm.frames
    ∪ Any To vm.open_upvalues
    ∪ To vm.globals
    ∪ To vm.natives
    ∪ To vm.last_regex_matches
    ∪ To vm.last_stack_trace
    ∪ To vm.profile_statistics
    ∪ To vm.packed_objects
    ∪ To vm.console_handle
    ∪ Refers vm.thrown_exception
    ∪ Refers vm.last_error
    ∪ Any Refers vm.ffi_slots
    ∪ Any Refers vm.callables
