-- ===== src/Compiler/Upvalues.antt =====
-- The upvalue that is resolved is the innermost variable of the name: resolve_upvalue of
-- src/slp_compiler.c.
use slp.Compiler.Emit.{Compiler, Local, Upvalue, Message, too_many_upvalues, compiler_error}
use slp.Compiler.Innermost.{Place, further, IsInnermost, resolve_local-IsLast, resolve_local-none}
use slp.Compiler.Scopes.{
  named, resolve_local, capture, same_bool, find_upvalue, new_upvalue, add_upvalue, add_outer,
  resolve_upvalue,
}
use slp.Prelude.{
  ℕ, suc, ◌+◌, ◌%◌, ◌≤◌, ◌<◌, ◌≡◌, ◌⊎◌, inl, inr, refl, ap, ◌∙◌, Bool, true, false, ◌&&◌, Option,
  some, none, List, [], ◌∷◌, leb, ◌==◌, if◌then◌else◌, Bytes, length, get_elem?, get_elem?-concat,
  All, arith, Bool-cases, Option-cases,
}

-- The variable that an upvalue of the first compiler leads to.
unfoldable pub variable : List Compiler → ℕ → Place
variable [] u = none
variable (c ∷ outer) u = elim (get_elem? c.upvalues u) [
  | none ↦ none
  | some uv ↦ if uv.is_local then some (1, uv.index) else further (variable outer uv.index)
]

abbrev pub resolved : Option ℕ × List Compiler → Place
resolved (none, cs) = none
resolved (some u, cs) = variable cs u

-- The arrays of the structure have 256 places.
abbrev pub IsBounded : Compiler → Type 0
IsBounded c = (length c.locals ≤ 256) × (length c.upvalues ≤ 256)

abbrev pub IsClean : Compiler → Type 0
IsClean c = c.had_error ≡ false

resolve_local-bound :
    (ls : List Local) (name : Bytes) (i : ℕ) → resolve_local ls name ≡ some i → i < length ls
unfolding resolve_local
resolve_local-bound [] name i e = absurd cc
resolve_local-bound (l ∷ ls) name i e = elim (Bool-cases (named name l)) [
  | inl here ↦ let f : some (length ls) ≡ some i = rw here at e in ground (arith, f)
  | inr there ↦ omega (arith, resolve_local-bound ls name i (rw there at e))
]

same_bool-eq : (a b : Bool) → same_bool a b ≡ true → a ≡ b
same_bool-eq true true h = refl
same_bool-eq true false h = absurd cc
same_bool-eq false true h = absurd cc
same_bool-eq false false h = refl

find_upvalue-some :
    (uvs : List Upvalue) (index : ℕ) (is_local : Bool) (i j : ℕ)
    → find_upvalue uvs index is_local i ≡ some j
    → (k : ℕ) × (j ≡ i + k)
      × (k < length uvs)
      × (get_elem? uvs k ≡ some (record { index = index; is_local = is_local }))
unfolding find_upvalue
find_upvalue-some [] index is_local i j e = absurd cc
find_upvalue-some (uv ∷ uvs) index is_local i j e =
    elim (Bool-cases (uv.index == index && same_bool uv.is_local is_local)) [
      | inl here ↦
          let f : some i ≡ some j = rw here at e in
          let same_index : uv.index ≡ index = ground (arith, here) in
          let same : same_bool uv.is_local is_local ≡ true = ground (arith, here) in
          (
            0,
            ground (arith, f),
            omega arith,
            ap (λ n. some (record { index = n; is_local = uv.is_local })) same_index
                ∙ ap (λ b. some (record { index = index; is_local = b }))
                    (same_bool-eq uv.is_local is_local same),
          )
      | inr there ↦
          let (k, s, l, g) = find_upvalue-some uvs index is_local (i + 1) j (rw there at e) in
          (suc k, omega (arith, s), omega (arith, l), g)
    ]

add_upvalue-bound :
    (c : Compiler) (index : ℕ) (is_local : Bool)
    → length c.upvalues ≤ 256
    → (add_upvalue c index is_local).1 < 256
unfolding add_upvalue new_upvalue
add_upvalue-bound c index is_local h =
    elim (Option-cases (find_upvalue c.upvalues index is_local 0)) [
      | inl e ↦ rw (e, add_upvalue) (ground (arith, h))
      | inr (j, e) ↦
          let (k, s, l, g) = find_upvalue-some c.upvalues index is_local 0 j e in
          rw (e, add_upvalue) (omega (arith, s, l, h))
    ]

compiler_error-had_error :
    (c : Compiler) (line : ℕ) (m : Message) → (compiler_error c line m).had_error ≡ true
unfolding compiler_error
compiler_error-had_error c line m = ground arith

new_upvalue_lem :
    (c : Compiler) (index : ℕ) (is_local : Bool)
    → IsClean (new_upvalue c index is_local).0
    → get_elem? (new_upvalue c index is_local).0.upvalues (new_upvalue c index is_local).1
      ≡ some (record { index = index; is_local = is_local })
unfolding new_upvalue
new_upvalue_lem c index is_local clean = elim (Bool-cases (leb 256 (length c.upvalues))) [
  | inl full ↦
      let no = rw full at clean in
      absurd (let yes = compiler_error-had_error c 0 too_many_upvalues in ground (arith, no, yes))
  | inr room ↦
      rw room (get_elem?-concat c.upvalues [] (record { index = index; is_local = is_local }))
]

add_upvalue_lem :
    (c : Compiler) (index : ℕ) (is_local : Bool)
    → IsClean (add_upvalue c index is_local).0
    → get_elem? (add_upvalue c index is_local).0.upvalues (add_upvalue c index is_local).1
      ≡ some (record { index = index; is_local = is_local })
unfolding add_upvalue
add_upvalue_lem c index is_local clean =
    elim (Option-cases (find_upvalue c.upvalues index is_local 0)) [
      | inl e ↦
          rw (e, add_upvalue) (new_upvalue_lem c index is_local (rw (e, add_upvalue) at clean))
      | inr (j, e) ↦
          let (k, s, l, g) = find_upvalue-some c.upvalues index is_local 0 j e in
          rw (e, add_upvalue) (ap (get_elem? c.upvalues) (omega (arith, s)) ∙ g)
    ]

-- What a resolution gives: a small index, and, without an error, the innermost variable of the name.
record IsResolved (name : Bytes) (outer : List Compiler) (r : Option ℕ × List Compiler)
    : Type 0 where
  small : (u : ℕ) → r.0 ≡ some u → u < 256
  right : All IsClean r.1 → IsInnermost name outer (resolved r)
  leads : All IsClean r.1 → resolved r ≡ none → r.0 ≡ none

small_index : (i : ℕ) → i < 256 → i % 256 ≡ i
small_index i h = omega (arith, h)

further-none : (p : Place) → further p ≡ none → p ≡ none
further-none none e = refl
further-none (some (d, i)) e = absurd cc

inner_IsResolved :
    (name : Bytes) (c e e' : Compiler) (rest : List Compiler) (i : ℕ)
    → IsBounded c
    → IsBounded e
    → resolve_local e.locals name ≡ some i
    → IsResolved name
        (e ∷ rest)
        (some (add_upvalue c (i % 256) true).1, (add_upvalue c (i % 256) true).0 ∷ e' ∷ rest)
unfolding variable
inner_IsResolved name c e e' rest i bc be here =
    let bound = add_upvalue-bound c (i % 256) true bc.1 in
    let small_i : i < 256 = omega (arith, resolve_local-bound e.locals name i here, be.0) in
    record {
      small = λ u same. ground (arith, same, bound);
      right = λ clean.
          let found = IsInnermost.here {rest = rest} (resolve_local-IsLast e.locals name i here) in
          rw (add_upvalue_lem c (i % 256) true clean.0, variable, small_index i small_i) found;
      leads = λ clean e.
          let e' = rw (add_upvalue_lem c (i % 256) true clean.0, variable) at e in absurd cc;
    }

outer_IsResolved :
    (name : Bytes) (c e : Compiler) (rest : List Compiler) (r : Option ℕ × List Compiler)
    → IsBounded c
    → resolve_local e.locals name ≡ none
    → IsResolved name rest r
    → IsResolved name (e ∷ rest) (add_outer c r)
unfolding add_outer variable
outer_IsResolved name c e rest (none, cs) bc absent h = record {
  small = λ u same. absurd cc;
  right = λ clean. IsInnermost.outside (resolve_local-none e.locals name absent) (h.right clean.1);
  leads = λ clean same. refl;
}
outer_IsResolved name c e rest (some u, cs) bc absent h =
    let bound = add_upvalue-bound c (u % 256) false bc.1 in
    record {
      small = λ v same. ground (arith, same, bound);
      right = λ clean.
          let found =
            IsInnermost.outside (resolve_local-none e.locals name absent) (h.right clean.1) in
          rw (add_upvalue_lem c (u % 256) false clean.0, variable, small_index u (h.small u refl))
            found;
      leads = λ clean same.
          let same' =
            rw (add_upvalue_lem c (u % 256) false clean.0, variable, small_index u (h.small u refl))
              at same in
          let inner = h.leads clean.1 (further-none (variable cs u) same') in absurd cc;
    }

resolve_upvalue-IsResolved :
    (name : Bytes) (c : Compiler) (outer : List Compiler)
    → All IsBounded (c ∷ outer)
    → IsResolved name outer (resolve_upvalue name (c ∷ outer))
unfolding resolve_upvalue
resolve_upvalue-IsResolved name c [] bounded = record {
  small = λ u e. absurd cc;
  right = λ clean. IsInnermost.nowhere;
  leads = λ clean same. refl;
}
resolve_upvalue-IsResolved name c (e ∷ rest) bounded =
    elim (Option-cases (resolve_local e.locals name)) [
      | inl absent ↦
          rw (absent, resolve_upvalue)
            (outer_IsResolved name c e rest _ bounded.0 absent
              (resolve_upvalue-IsResolved name e rest bounded.1))
      | inr (i, here) ↦
          rw (here, resolve_upvalue)
            (inner_IsResolved name c e (record e { locals = capture e.locals i }) rest i bounded.0
              bounded.1.0 here)
    ]

-- If the compilers have at most 256 locals and upvalues each, and none of them has an error after the
-- resolution of a name, the upvalue that is returned leads through the enclosing compilers to the
-- innermost variable of the name: the last local of that very name in the nearest compiler that has
-- one. An upvalue that is returned always leads to a variable, so there is none if no enclosing
-- compiler has such a local.
pub resolve_upvalue_lem :
    (name : Bytes) (c : Compiler) (outer : List Compiler)
    → All IsBounded (c ∷ outer)
    → All IsClean (resolve_upvalue name (c ∷ outer)).1
    → IsInnermost name outer (resolved (resolve_upvalue name (c ∷ outer)))
      × (((resolve_upvalue name (c ∷ outer)).0 ≡ none)
          ⊎ ((v : ℕ × ℕ) × (resolved (resolve_upvalue name (c ∷ outer)) ≡ some v)))
resolve_upvalue_lem name c outer bounded clean =
    let r = resolve_upvalue-IsResolved name c outer bounded in
    (
      r.right clean,
      elim (Option-cases (resolved (resolve_upvalue name (c ∷ outer)))) [
        | inl e ↦ inl (r.leads clean e)
        | inr v ↦ inr v
      ],
    )
