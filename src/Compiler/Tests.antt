-- ===== src/Compiler/Tests.antt =====
-- The jumps at a chunk of four bytes, and a variable two functions further out.
use slp.Chunk.{chunk_read_short}
use slp.Compiler.Emit.{Compiler, patch_jump, emit_loop, loop}
use slp.Compiler.Jumps.{patch_jump_lem, emit_loop_lem}
use slp.Compiler.Scopes.{
  named, resolve_local, add_upvalue, find_upvalue, new_upvalue, add_outer, resolve_upvalue,
}
use slp.Compiler.Innermost.{IsInnermost}
use slp.Compiler.Upvalues.{IsClean, resolved, resolve_upvalue_lem}
use slp.Hash.Key.{same_bytes}
use slp.Prelude.{
  ℕ, ◌⊎◌, refl, All, List, some, ◌+◌, ◌≡◌, false, none, [], ◌∷◌, length, get_or, arith,
}

abbrev compiler : Compiler
compiler = record {
  chunk = record {
    code = 69 ∷ 255 ∷ 255 ∷ 63 ∷ [];
    lines = 1 ∷ 1 ∷ 1 ∷ 1 ∷ [];
    capacity = 64;
    constants = [];
    constant_capacity = 0;
  };
  locals = [];
  scope_depth = 0;
  upvalues = [];
  had_error = false;
  error_line = 0;
  error_message = none;
}

patch_jump_example :
    (1 + 2 + chunk_read_short (patch_jump compiler 1).chunk 1 ≡ 4)
    × (get_or (patch_jump compiler 1).chunk.code 3 0 ≡ 63)
    × (length (patch_jump compiler 1).chunk.code ≡ 4)
    × ((patch_jump compiler 1).had_error ≡ false)
patch_jump_example =
    patch_jump_lem compiler 1 3 (omega arith) (omega arith) (λ e. omega (arith, e))
      (λ e. omega (arith, e))

emit_loop_example :
    (get_or (emit_loop compiler 0 1).chunk.code 4 0 ≡ loop)
    × (0 + chunk_read_short (emit_loop compiler 0 1).chunk (4 + 1) ≡ 4 + 3)
    × (length (emit_loop compiler 0 1).chunk.code ≡ 4 + 3)
    × ((emit_loop compiler 0 1).had_error ≡ false)
emit_loop_example = emit_loop_lem compiler 0 1 (omega arith) (omega arith)

abbrev outermost : Compiler
outermost = record compiler {
  locals = record { name = some (b'$' ∷ b'x' ∷ []); depth = 0; is_captured = false } ∷ [];
}

-- The name is used one function further in.
abbrev compilers : List Compiler
compilers = compiler ∷ outermost ∷ []

compilers-IsClean : All IsClean (resolve_upvalue (b'$' ∷ b'x' ∷ []) (compiler ∷ compilers)).1
unfolding resolve_upvalue add_outer add_upvalue find_upvalue new_upvalue resolve_local named
    same_bytes
compilers-IsClean = (refl, (refl, (refl, tt)))

resolve_upvalue_example :
    IsInnermost
      (b'$' ∷ b'x' ∷ [])
      compilers
      (resolved (resolve_upvalue (b'$' ∷ b'x' ∷ []) (compiler ∷ compilers)))
    × (((resolve_upvalue (b'$' ∷ b'x' ∷ []) (compiler ∷ compilers)).0 ≡ none)
        ⊎ ((v : ℕ × ℕ) × (resolved (resolve_upvalue (b'$' ∷ b'x' ∷ []) (compiler ∷ compilers))
              ≡ some v)))
resolve_upvalue_example =
    resolve_upvalue_lem (b'$' ∷ b'x' ∷ []) compiler compilers
      ((omega arith, omega arith), ((omega arith, omega arith), ((omega arith, omega arith), tt)))
      compilers-IsClean
