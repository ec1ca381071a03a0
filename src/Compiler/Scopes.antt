-- ===== src/Compiler/Scopes.antt =====
-- Locals and upvalues: begin_scope to resolve_upvalue, lines 126 to 194 of src/slp_compiler.c.
use slp.Compiler.Emit.{
  Compiler, Local, Upvalue, too_many_upvalues, compiler_error, emit_byte, pop, close_upvalue,
}
use slp.Hash.Key.{same_bytes}
use slp.Prelude.{
  ℕ, ◌+◌, ◌-◌, ◌%◌, Bool, true, false, not, ◌&&◌, Option, some, none, List, [], ◌∷◌, ◌++◌, ltb, leb,
  ◌==◌, if◌then◌else◌, Bytes, length,
}

unfoldable pub begin_scope : Compiler → Compiler
begin_scope c = record c { scope_depth = c.scope_depth + 1 }

-- The loop of end_scope over the locals, which are counted down to the first.
unfoldable pub close_locals : List Local → Compiler → Compiler
close_locals [] c = c
close_locals (l ∷ []) c = c
close_locals (l ∷ k ∷ ls) c =
    let c' = emit_byte c (if l.is_captured then close_upvalue else pop) 0 in
    let rest = close_locals (k ∷ ls) (record c' { locals = k ∷ ls }) in
    if ltb c.scope_depth l.depth then rest else c

-- A scope that ends has begun, so its depth is at least 1.
unfoldable pub end_scope : Compiler → Compiler
end_scope c = close_locals c.locals (record c { scope_depth = c.scope_depth - 1 })

unfoldable pub named : Bytes → Local → Bool
named name l = elim l.name [ none ↦ false | some text ↦ same_bytes text name ]

-- The index counts from the first local; `none` is the result -1.
unfoldable pub resolve_local : List Local → Bytes → Option ℕ
resolve_local [] name = none
resolve_local (l ∷ ls) name =
    let rest = resolve_local ls name in if named name l then some (length ls) else rest

-- `locals[i].is_captured = true`
unfoldable pub capture : List Local → ℕ → List Local
capture [] i = []
capture (l ∷ ls) i =
    let rest = capture ls i in
    if i == length ls then record l { is_captured = true } ∷ ls else l ∷ rest

abbrev pub same_bool : Bool → Bool → Bool
same_bool true b = b
same_bool false b = not b

-- The loop of add_upvalue, from `i` on.
unfoldable pub find_upvalue : List Upvalue → ℕ → Bool → ℕ → Option ℕ
find_upvalue [] index is_local i = none
find_upvalue (uv ∷ uvs) index is_local i =
    let rest = find_upvalue uvs index is_local (i + 1) in
    if uv.index == index && same_bool uv.is_local is_local then some i else rest

unfoldable pub new_upvalue : Compiler → ℕ → Bool → Compiler × ℕ
new_upvalue c index is_local =
    if leb 256 (length c.upvalues) then (compiler_error c 0 too_many_upvalues, 0) else (
      record c { upvalues = c.upvalues ++ record { index = index; is_local = is_local } ∷ [] },
      length c.upvalues,
    )

unfoldable pub add_upvalue : Compiler → ℕ → Bool → Compiler × ℕ
add_upvalue c index is_local = elim (find_upvalue c.upvalues index is_local 0) [
  | some i ↦ (c, i)
  | none ↦ new_upvalue c index is_local
]

-- The second half: the upvalue of the enclosing compiler, if there is one.
unfoldable pub add_outer : Compiler → Option ℕ × List Compiler → Option ℕ × List Compiler
add_outer c (none, outer) = (none, c ∷ outer)
add_outer c (some u, outer) = let (c', v) = add_upvalue c (u % 256) false in (some v, c' ∷ outer)

-- A compiler and those that enclose it; the indices are passed on as uint8_t.
unfoldable pub resolve_upvalue : Bytes → List Compiler → Option ℕ × List Compiler
resolve_upvalue name [] = (none, [])
resolve_upvalue name (c ∷ []) = (none, c ∷ [])
resolve_upvalue name (c ∷ e ∷ rest) = elim (resolve_local e.locals name) [
  | some i ↦
      let (c', v) = add_upvalue c (i % 256) true in
      (some v, c' ∷ record e { locals = capture e.locals i } ∷ rest)
  | none ↦ add_outer c (resolve_upvalue name (e ∷ rest))
]
