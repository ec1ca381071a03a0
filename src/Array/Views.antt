-- ===== src/Array/Views.antt =====
-- Insertion and removal in an array and in the sources of a view: slp_obj_array_insert and
-- slp_obj_array_remove_at of src/slp_value.c.
use slp.Array.Shifts.{
  ensure_array_capacity_room, element-ensure_array_capacity, length-open_gap, open_gap-outside,
  open_gap-inside,
}
use slp.Array.Store.{
  ObjArray, Chain, array_new, element, ensure_array_capacity, open_gap, after_source, clamp,
  insert_own, array_insert_internal, array_insert,
}
use slp.Prelude.{
  ℕ, suc, ◌+◌, ◌-◌, ◌≤◌, ◌<◌, ◌≡◌, inl, inr, refl, sym, ap, subst, ◌∙◌, Bool, true, false, Option,
  some, none, List, [], ◌∷◌, if◌then◌else◌, ltb, ◌==◌, length, set, length-set, get_or-set_self,
  get_or-set_other, arith, Bool-cases,
}
use slp.Value.{Value, null}

-- The elements that are in use stand in the memory.
abbrev pub IsArray : ObjArray → Type 0
IsArray a = a.count ≤ length a.elements

-- The view `a` is a window of its source `s`.
abbrev pub Mirrors : ObjArray → ObjArray → Type 0
Mirrors a s =
    (a.view_offset + a.count ≤ s.count)
    × ((j : ℕ) → j < a.count → element a.elements j ≡ element s.elements (a.view_offset + j))

-- Each array is the source of the view before it.
abbrev pub IsChain : Chain → Type 0
IsChain [] = Unit
IsChain (a ∷ []) = IsArray a
IsChain (a ∷ s ∷ sources) = IsArray a × Mirrors a s × IsChain (s ∷ sources)

-- The elements after a value was inserted at `i`.
abbrev pub inserted_at : List Value → ℕ → Value → ℕ → Value
inserted_at es i val j =
    if ltb j i then element es j else if j == i then val else element es (j - 1)

pub insert_own-element :
    (a : ObjArray) (i : ℕ) (val : Value) (j : ℕ)
    → IsArray a
    → i ≤ a.count
    → j ≤ a.count
    → element (insert_own a i val).elements j ≡ inserted_at a.elements i val j
unfolding insert_own
insert_own-element a i val j valid h l =
    let es = ensure_array_capacity a.elements (a.count + 1) in
    let n = a.count - i in
    let moved = open_gap n es a.count in
    let room = ensure_array_capacity_room a.elements (a.count + 1) in
    let size = length-open_gap n es a.count in
    elim (Bool-cases (ltb j i)) [
      | inl before ↦
          let b : j < i = ground (arith, before) in
          rw before (
            get_or-set_other moved i val j null (λ e. omega (arith, e, b))
            ∙ open_gap-outside n es a.count j (inl (omega (arith, b, h)))
            ∙ element-ensure_array_capacity a.elements (a.count + 1) j (omega (arith, b, h, valid)))
      | inr later ↦ elim (Bool-cases (j == i)) [
        | inl here ↦
            let e : j ≡ i = ground (arith, here) in
            rw (later, here)
              (ap (element (set moved i val)) e
                ∙ get_or-set_self moved i val null (omega (arith, size, room, h)))
        | inr other ↦
            let b : i < j = ground (arith, later, other) in
            let e : j ≡ suc (j - 1) = omega (arith, b) in
            rw (later, other)
              (get_or-set_other moved i val j null (λ e. omega (arith, e, b))
                ∙ ap (element moved) e
                ∙ open_gap-inside n es a.count (j - 1) (omega (arith, b, h)) (omega (arith, b, l))
                    (omega (arith, room))
                ∙ element-ensure_array_capacity a.elements (a.count + 1) (j - 1)
                    (omega (arith, b, l, valid)))
      ]
    ]

insert_own-IsArray : (a : ObjArray) (i : ℕ) (val : Value) → IsArray (insert_own a i val)
unfolding insert_own
insert_own-IsArray a i val =
    let es = ensure_array_capacity a.elements (a.count + 1) in
    let n = a.count - i in
    omega (
      arith,
      ensure_array_capacity_room a.elements (a.count + 1),
      length-open_gap n es a.count,
      length-set (open_gap n es a.count) i val,
    )

inserted_at-shift :
    (a s : ObjArray) (i : ℕ) (val : Value) (j : ℕ)
    → Mirrors a s
    → i ≤ a.count
    → j ≤ a.count
    → inserted_at a.elements i val j
      ≡ inserted_at s.elements (a.view_offset + i) val (a.view_offset + j)
inserted_at-shift a s i val j (fits, same) h l = elim (Bool-cases (ltb j i)) [
  | inl before ↦
      let before' : ltb (a.view_offset + j) (a.view_offset + i) ≡ true = ground (arith, before) in
      rw (before, before') (same j (ground (arith, before, h)))
  | inr later ↦
      let later' : ltb (a.view_offset + j) (a.view_offset + i) ≡ false = ground (arith, later) in
      elim (Bool-cases (j == i)) [
        | inl here ↦
            let here' : (a.view_offset + j == a.view_offset + i) ≡ true = ground (arith, here) in
            rw (later, later', here, here') refl
        | inr other ↦
            let other' : (a.view_offset + j == a.view_offset + i) ≡ false = ground (arith, other) in
            let e : a.view_offset + (j - 1) ≡ a.view_offset + j - 1 =
              ground (arith, later, other) in
            rw (later, later', other, other')
              (same (j - 1) (ground (arith, later, other, l)) ∙ ap (element s.elements) e)
      ]
]

insert_own-Mirrors :
    (a s : ObjArray) (i : ℕ) (val : Value)
    → IsArray a
    → IsArray s
    → i ≤ a.count
    → Mirrors a s
    → Mirrors (insert_own a i val) (insert_own s (a.view_offset + i) val)
unfolding insert_own
insert_own-Mirrors a s i val va vs h (fits, same) = (
  omega (arith, fits),
  λ j l.
      insert_own-element a i val j va h (omega (arith, l))
      ∙ inserted_at-shift a s i val j (fits, same) h (omega (arith, l))
      ∙ sym (
          insert_own-element s (a.view_offset + i) val (a.view_offset + j) vs
            (omega (arith, h, fits)) (omega (arith, l, fits))),
)

clamp_le : (count index : ℕ) → clamp count index ≤ count
unfolding clamp
clamp_le count index = ground arith

pub clamp_self : (count index : ℕ) → index ≤ count → clamp count index ≡ index
unfolding clamp
clamp_self count index h = ground (arith, h)

pub IsChain-first : (a : ObjArray) (sources : Chain) → IsChain (a ∷ sources) → IsArray a
IsChain-first a [] v = v
IsChain-first a (s ∷ sources) (v, m, rest) = v

pub after_source-Mirrors :
    (from_child_view : Bool) (a s : ObjArray) (sources : Chain)
    → Mirrors a s
    → Mirrors a (after_source from_child_view s sources)
unfolding after_source
after_source-Mirrors from_child_view a s [] m = m
after_source-Mirrors true a s (t ∷ sources) m = m
after_source-Mirrors false a s (t ∷ sources) m = m

pub after_source-IsChain :
    (from_child_view : Bool) (a s : ObjArray) (sources : Chain)
    → IsArray a
    → Mirrors a s
    → IsChain (s ∷ sources)
    → IsChain (after_source from_child_view a (s ∷ sources) ∷ s ∷ sources)
unfolding after_source
after_source-IsChain true a s sources v m rest = (v, m, rest)
after_source-IsChain false a s sources v m rest = (v, m, rest)

array_insert_internal-IsChain :
    (val : Value) (from_child_view : Bool) (c : Chain) (index : ℕ)
    → IsChain c
    → IsChain (array_insert_internal val from_child_view c index)
unfolding array_insert_internal after_source
array_insert_internal-IsChain val from_child_view [] index h = h
array_insert_internal-IsChain val from_child_view (a ∷ []) index h =
    insert_own-IsArray a (clamp a.count index) val
array_insert_internal-IsChain val from_child_view (a ∷ s ∷ sources) index (va, m, rest) =
    let i = clamp a.count index in
    let low = clamp_le a.count index in
    let vs = IsChain-first s sources rest in
    let own = insert_own-Mirrors a s i val va vs low m in
    let in_source = clamp_self s.count (a.view_offset + i) (omega (arith, m.0, low)) in
    after_source-IsChain from_child_view (insert_own a i val) _ _ (insert_own-IsArray a i val)
      (after_source-Mirrors true (insert_own a i val) _ _
        (subst (λ k. Mirrors (insert_own a i val) (insert_own s k val)) (sym in_source) own))
      (array_insert_internal-IsChain val true (s ∷ sources) (a.view_offset + i) rest)

-- The array itself.
abbrev pub own : Chain → ObjArray
own [] = array_new
own (a ∷ sources) = a

pub after_source-own :
    (from_child_view : Bool) (a : ObjArray) (sources : Chain)
    → ((after_source from_child_view a sources).elements ≡ a.elements)
      × ((after_source from_child_view a sources).count ≡ a.count)
unfolding after_source
after_source-own from_child_view a [] = (refl, refl)
after_source-own true a (s ∷ sources) = (refl, refl)
after_source-own false a (s ∷ sources) = (refl, refl)

-- If each array of a chain of views is a window of the next, this still holds after an insertion at
-- any index in the first.
pub array_insert-IsChain :
    (c : Chain) (index : Option ℕ) (val : Value) → IsChain c → IsChain (array_insert c index val)
unfolding array_insert
array_insert-IsChain c none val h = array_insert_internal-IsChain val false c 0 h
array_insert-IsChain c (some index) val h = array_insert_internal-IsChain val false c index h
