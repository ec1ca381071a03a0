-- ===== src/Array/Removal.antt =====
-- Removal from an array and from the sources of a view: slp_obj_array_remove_at of src/slp_value.c.
use slp.Array.Shifts.{length-close_gap, close_gap-outside, close_gap-inside}
use slp.Array.Store.{
  ObjArray, Chain, element, after_source, remove_own, array_remove_internal, removed,
  array_remove_at,
}
use slp.Array.Views.{
  own, after_source-own, IsArray, Mirrors, IsChain, IsChain-first, after_source-Mirrors,
  after_source-IsChain,
}
use slp.Prelude.{
  ℕ, suc, ◌+◌, ◌-◌, ◌<◌, ◌≡◌, inl, inr, refl, sym, ap, ◌∙◌, Bool, true, false, Option, some, none,
  List, [], ◌∷◌, if◌then◌else◌, ltb, leb, arith, Bool-cases,
}
use slp.Value.{Value}

-- The elements after the one at `i` was removed.
abbrev pub removed_at : List Value → ℕ → ℕ → Value
removed_at es i j = if ltb j i then element es j else element es (suc j)

remove_own-element :
    (a : ObjArray) (i j : ℕ)
    → IsArray a
    → i < a.count
    → j + 1 < a.count
    → element (remove_own a i).elements j ≡ removed_at a.elements i j
unfolding remove_own
remove_own-element a i j v h l = elim (Bool-cases (ltb j i)) [
  | inl before ↦ rw before (
      close_gap-outside (a.count - (i + 1)) a.elements (i + 1) j (omega arith)
        (inl (ground (arith, before))))
  | inr later ↦ rw later (
      close_gap-inside (a.count - (i + 1)) a.elements (i + 1) j (omega arith)
        (ground (arith, later)) (omega (arith, h, l)) (omega (arith, l, v)))
]

remove_own-IsArray : (a : ObjArray) (i : ℕ) → IsArray a → IsArray (remove_own a i)
unfolding remove_own
remove_own-IsArray a i v = omega (arith, v, length-close_gap (a.count - (i + 1)) a.elements (i + 1))

removed_at-shift :
    (a s : ObjArray) (i j : ℕ)
    → Mirrors a s
    → j + 1 < a.count
    → removed_at a.elements i j ≡ removed_at s.elements (a.view_offset + i) (a.view_offset + j)
removed_at-shift a s i j (fits, same) l = elim (Bool-cases (ltb j i)) [
  | inl before ↦
      let before' : ltb (a.view_offset + j) (a.view_offset + i) ≡ true = ground (arith, before) in
      rw (before, before') (same j (omega (arith, l)))
  | inr later ↦
      let later' : ltb (a.view_offset + j) (a.view_offset + i) ≡ false = ground (arith, later) in
      let e : a.view_offset + suc j ≡ suc (a.view_offset + j) = omega arith in
      rw (later, later') (same (suc j) (omega (arith, l)) ∙ ap (element s.elements) e)
]

remove_own-Mirrors :
    (a s : ObjArray) (i : ℕ)
    → IsArray a
    → IsArray s
    → i < a.count
    → Mirrors a s
    → Mirrors (remove_own a i) (remove_own s (a.view_offset + i))
unfolding remove_own
remove_own-Mirrors a s i va vs h (fits, same) = (
  omega (arith, fits, h),
  λ j l.
      remove_own-element a i j va h (omega (arith, l))
      ∙ removed_at-shift a s i j (fits, same) (omega (arith, l))
      ∙ sym (
          remove_own-element s (a.view_offset + i) (a.view_offset + j) vs (omega (arith, h, fits))
            (omega (arith, l, fits))),
)

array_remove_internal-IsChain :
    (from_child_view : Bool) (c : Chain) (index : ℕ)
    → IsChain c
    → IsChain (array_remove_internal from_child_view c index)
unfolding array_remove_internal after_source
array_remove_internal-IsChain from_child_view [] index h = h
array_remove_internal-IsChain from_child_view (a ∷ []) index h =
    elim (Bool-cases (leb a.count index)) [
      | inl out ↦ rw out h
      | inr inside ↦ rw inside (remove_own-IsArray a index h)
    ]
array_remove_internal-IsChain from_child_view (a ∷ s ∷ sources) index (va, m, rest) =
    elim (Bool-cases (leb a.count index)) [
      | inl out ↦ rw out (va, m, rest)
      | inr inside ↦
          let vs = IsChain-first s sources rest in
          let i = a.view_offset + index in
          let low : index < a.count = ground (arith, inside) in
          let inside' : leb s.count i ≡ false = ground (arith, low, m.0) in
          let deep = array_remove_internal-IsChain true (s ∷ sources) i rest in
          rw (inside, inside')
            (after_source-IsChain from_child_view (remove_own a index) _ _
              (remove_own-IsArray a index va)
              (after_source-Mirrors true (remove_own a index) _ _
                (remove_own-Mirrors a s index va vs low m))
              (rw inside' at deep))
    ]

-- A removal at an index that is in use returns the element that stood there and moves the later ones
-- down by one place.
pub array_remove_at-element :
    (a : ObjArray) (sources : Chain) (index j : ℕ)
    → IsArray a
    → index < a.count
    → j + 1 < a.count
    → ((array_remove_at (a ∷ sources) (some index)).0 ≡ element a.elements index)
      × (element (own (array_remove_at (a ∷ sources) (some index)).1).elements j
          ≡ removed_at a.elements index j)
      × ((own (array_remove_at (a ∷ sources) (some index)).1).count + 1 ≡ a.count)
unfolding array_remove_at array_remove_internal removed remove_own
array_remove_at-element a sources index j v h l =
    let inside : leb a.count index ≡ false = ground (arith, h) in
    let same =
      after_source-own false (remove_own a index)
        (array_remove_internal true sources (a.view_offset + index)) in
    rw inside (
      refl,
      ap (λ es. element es j) same.0 ∙ remove_own-element a index j v h l,
      omega (arith, same.1, h),
    )

-- If each array of a chain of views is a window of the next, this still holds after a removal at any
-- index from the first.
pub array_remove_at-IsChain :
    (c : Chain) (index : Option ℕ) → IsChain c → IsChain (array_remove_at c index).1
unfolding array_remove_at
array_remove_at-IsChain c none h = h
array_remove_at-IsChain c (some index) h = array_remove_internal-IsChain false c index h
