-- ===== src/Compiler/Innermost.antt =====
-- The variable that a name stands for: the names of locals, and what resolve_local of
-- src/slp_compiler.c finds.
use slp.Compiler.Emit.{Compiler, Local}
use slp.Compiler.Scopes.{named, resolve_local}
use slp.Hash.Key.{same_bytes, same_bytes_refl}
use slp.Prelude.{
  ℕ, ◌+◌, ◌≡◌, refl, subst, ap, ◌∙◌, inl, inr, true, false, Bool-cases, Option, some, none, List,
  [], ◌∷◌, Bytes, length, All, arith,
}

-- How many compilers further out a variable is, and its place among the locals there.
abbrev pub Place : Type 0
Place = Option (ℕ × ℕ)

abbrev pub further : Place → Place
further none = none
further (some (d, i)) = some (d + 1, i)

-- A local that does not have the name.
abbrev IsOther : Bytes → Local → Type 0
IsOther name l = l.name ≡ some name → ⊥

-- The last local of the name, by its place from the first; the list begins with the last local.
pub data IsLast (name : Bytes) : List Local → ℕ → Type 0 where
  here : {l : Local} {ls : List Local} → l.name ≡ some name → IsLast name (l ∷ ls) (length ls)
  below :
      {l : Local} {ls : List Local} {i : ℕ}
      → IsOther name l
      → IsLast name ls i
      → IsLast name (l ∷ ls) i

-- The variable that a name stands for in the compilers, the nearest first: the last local of the name
-- in the nearest of them that has one.
pub data IsInnermost (name : Bytes) : List Compiler → Place → Type 0 where
  nowhere : IsInnermost name [] none
  here :
      {e : Compiler} {rest : List Compiler} {i : ℕ}
      → IsLast name e.locals i
      → IsInnermost name (e ∷ rest) (some (1, i))
  outside :
      {e : Compiler} {rest : List Compiler} {p : Place}
      → All (IsOther name) e.locals
      → IsInnermost name rest p
      → IsInnermost name (e ∷ rest) (further p)

same_bytes-eq : (a b : Bytes) → same_bytes a b ≡ true → a ≡ b
unfolding same_bytes
same_bytes-eq [] [] h = refl
same_bytes-eq [] (c ∷ cs) h = absurd (ground (arith, h))
same_bytes-eq (b ∷ bs) [] h = absurd (ground (arith, h))
same_bytes-eq (b ∷ bs) (c ∷ cs) h =
    let rest = same_bytes-eq bs cs (ground (arith, h)) in
    let first : b ≡ c = ground (arith, h) in ap (λ k. k ∷ bs) first ∙ ap (◌∷◌ c) rest

named-eq :
    (name : Bytes) (o : Option Bytes)
    → (elim o [ none ↦ false | some text ↦ same_bytes text name ]) ≡ true
    → o ≡ some name
named-eq name none h = absurd (ground (arith, h))
named-eq name (some text) h = ap some (same_bytes-eq text name h)

named_lem : (name : Bytes) (l : Local) → named name l ≡ true → l.name ≡ some name
unfolding named
named_lem name l h = named-eq name l.name h

other_lem : (name : Bytes) (l : Local) → named name l ≡ false → IsOther name l
unfolding named
other_lem name l h e = let e' = rw e at h in ground (arith, e', same_bytes_refl name)

pub resolve_local-IsLast :
    (ls : List Local) (name : Bytes) (i : ℕ) → resolve_local ls name ≡ some i → IsLast name ls i
unfolding resolve_local
resolve_local-IsLast [] name i e = absurd cc
resolve_local-IsLast (l ∷ ls) name i e = elim (Bool-cases (named name l)) [
  | inl found ↦
      let f : some (length ls) ≡ some i = rw found at e in
      let same : length ls ≡ i = ground (arith, f) in
      subst (IsLast name (l ∷ ls)) same (IsLast.here (named_lem name l found))
  | inr other ↦
      IsLast.below (other_lem name l other) (resolve_local-IsLast ls name i (rw other at e))
]

pub resolve_local-none :
    (ls : List Local) (name : Bytes) → resolve_local ls name ≡ none → All (IsOther name) ls
unfolding resolve_local
resolve_local-none [] name e = tt
resolve_local-none (l ∷ ls) name e = elim (Bool-cases (named name l)) [
  | inl found ↦ let f : some (length ls) ≡ none = rw found at e in absurd cc
  | inr other ↦ (other_lem name l other, resolve_local-none ls name (rw other at e))
]
