-- ===== src/Array/Shifts.antt =====
-- What the two loops that move elements do, and the growth of the memory: array_insert_internal,
-- array_remove_internal and ensure_array_capacity of src/slp_value.c.
use slp.Array.Store.{element, enlarge, ensure_array_capacity, open_gap, close_gap}
use slp.Prelude.{
  ℕ, zero, suc, ◌+◌, ◌-◌, ◌*◌, ◌≤◌, ◌<◌, ◌≡◌, ◌⊎◌, inl, inr, refl, sym, ap, ◌∙◌, List, [], ◌∷◌,
  ◌++◌, if◌then◌else◌, leb, ltb, ◌==◌, length, replicate, set, length-set, length-append,
  length-replicate, get_or-set_self, get_or-set_other, arith, Bool-cases, inr,
}
use slp.Value.{Value, null}

enlarge_enough :
    (n needed new_cap : ℕ) → 1 ≤ new_cap → needed ≤ new_cap + n → needed ≤ enlarge n needed new_cap
unfolding enlarge
enlarge_enough zero needed new_cap p h = omega (arith, h)
enlarge_enough (suc n) needed new_cap p h =
    let more : needed ≤ new_cap * 2 + n = omega (arith, p, h) in
    ground (arith, enlarge_enough n needed (new_cap * 2) (omega (arith, p)) more)

-- The memory has the room that is needed.
pub ensure_array_capacity_room :
    (es : List Value) (needed : ℕ) → needed ≤ length (ensure_array_capacity es needed)
unfolding ensure_array_capacity
ensure_array_capacity_room es needed = elim (Bool-cases (leb needed (length es))) [
  | inl enough ↦ rw enough (ground (arith, enough))
  | inr short ↦
      let first = if length es == 0 then 8 else length es * 2 in
      let cap = enlarge needed needed first in
      let large : needed ≤ cap = enlarge_enough needed needed first (ground arith) (ground arith) in
      let size = length-append es (replicate (cap - length es) null) in
      let added = length-replicate (cap - length es) null in
      rw short (ground (arith, short, large, size, added))
]

element-append : (es ys : List Value) (j : ℕ) → j < length es → element (es ++ ys) j ≡ element es j
element-append [] ys j h = absurd (omega (arith, h))
element-append (e ∷ es) ys zero h = refl
element-append (e ∷ es) ys (suc j) h = element-append es ys j (omega (arith, h))

-- Growth leaves the elements.
pub element-ensure_array_capacity :
    (es : List Value) (needed j : ℕ)
    → j < length es
    → element (ensure_array_capacity es needed) j ≡ element es j
unfolding ensure_array_capacity
element-ensure_array_capacity es needed j h = elim (Bool-cases (leb needed (length es))) [
  | inl enough ↦ rw enough refl
  | inr short ↦ rw short (element-append es _ j h)
]

pub length-open_gap : (n : ℕ) (es : List Value) (i : ℕ) → length (open_gap n es i) ≡ length es
unfolding open_gap
length-open_gap zero es i = refl
length-open_gap (suc n) es i = length-open_gap n _ (i - 1) ∙ length-set es i _

-- Outside of the gap's range an element stays.
pub open_gap-outside :
    (n : ℕ) (es : List Value) (i j : ℕ)
    → (j + n ≤ i) ⊎ (i < j)
    → element (open_gap n es i) j ≡ element es j
unfolding open_gap
open_gap-outside zero es i j h = refl
open_gap-outside (suc n) es i j h =
    let es' = set es i (element es (i - 1)) in
    let far : (j + n ≤ i - 1) ⊎ (i - 1 < j) = elim h [
      | inl l ↦ inl (omega (arith, l))
      | inr g ↦ inr (omega (arith, g))
    ] in
    open_gap-outside n es' (i - 1) j far
    ∙ get_or-set_other es i (element es (i - 1)) j null
        (λ e. elim h [ inl l ↦ omega (arith, l, e) | inr g ↦ omega (arith, g, e) ])

-- Within it an element moves up by one place.
pub open_gap-inside :
    (n : ℕ) (es : List Value) (i j : ℕ)
    → i ≤ j + n
    → j < i
    → i < length es
    → element (open_gap n es i) (suc j) ≡ element es j
unfolding open_gap
open_gap-inside zero es i j h l r = absurd (omega (arith, h, l))
open_gap-inside (suc n) es i j h l r =
    let v = element es (i - 1) in
    elim (Bool-cases (ltb (suc j) i)) [
      | inl below ↦
          open_gap-inside n (set es i v) (i - 1) j (omega (arith, h)) (ground (arith, below))
            (omega (arith, length-set es i v, r))
          ∙ get_or-set_other es i v j null (λ e. omega (arith, l, e))
      | inr top ↦
          let e : i ≡ suc j = ground (arith, top, l) in
          let e' : i - 1 ≡ j = omega (arith, e) in
          open_gap-outside n (set es i v) (i - 1) (suc j) (inr (omega (arith, e)))
          ∙ ap (element (set es i v)) (sym e)
          ∙ get_or-set_self es i v null r
          ∙ ap (element es) e'
    ]

pub length-close_gap : (n : ℕ) (es : List Value) (i : ℕ) → length (close_gap n es i) ≡ length es
unfolding close_gap
length-close_gap zero es i = refl
length-close_gap (suc n) es i = length-close_gap n _ (i + 1) ∙ length-set es (i - 1) _

-- Outside of the range that moves an element stays.
pub close_gap-outside :
    (n : ℕ) (es : List Value) (i j : ℕ)
    → 1 ≤ i
    → (suc j < i) ⊎ (i + n ≤ suc j)
    → element (close_gap n es i) j ≡ element es j
unfolding close_gap
close_gap-outside zero es i j p h = refl
close_gap-outside (suc n) es i j p h =
    let far : (suc j < i + 1) ⊎ (i + 1 + n ≤ suc j) = elim h [
      | inl l ↦ inl (omega (arith, l))
      | inr g ↦ inr (omega (arith, g))
    ] in
    close_gap-outside n (set es (i - 1) (element es i)) (i + 1) j (omega arith) far
    ∙ get_or-set_other es (i - 1) (element es i) j null
        (λ e. elim h [ inl l ↦ omega (arith, l, e, p) | inr g ↦ omega (arith, g, e, p) ])

-- Within it an element moves down by one place.
pub close_gap-inside :
    (n : ℕ) (es : List Value) (i j : ℕ)
    → 1 ≤ i
    → i ≤ suc j
    → suc j < i + n
    → suc j < length es
    → element (close_gap n es i) j ≡ element es (suc j)
unfolding close_gap
close_gap-inside zero es i j p h l r = absurd (omega (arith, h, l))
close_gap-inside (suc n) es i j p h l r =
    let v = element es i in
    elim (Bool-cases (ltb i (suc j))) [
      | inl above ↦
          close_gap-inside n (set es (i - 1) v) (i + 1) j (omega arith) (ground (arith, above))
            (omega (arith, l)) (omega (arith, length-set es (i - 1) v, r))
          ∙ get_or-set_other es (i - 1) v (suc j) null (λ e. ground (arith, above, e))
      | inr bottom ↦
          let e : i ≡ suc j = ground (arith, bottom, h) in
          let e' : i - 1 ≡ j = omega (arith, e) in
          close_gap-outside n (set es (i - 1) v) (i + 1) j (omega arith) (inl (omega (arith, e)))
          ∙ ap (element (set es (i - 1) v)) (sym e')
          ∙ get_or-set_self es (i - 1) v null (omega (arith, e, r))
          ∙ ap (element es) e
    ]
