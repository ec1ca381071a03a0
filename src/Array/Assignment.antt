-- ===== src/Array/Assignment.antt =====
-- Assignment to an element of an array: slp_obj_array_set and slp_obj_array_get of src/slp_value.c.
use slp.Array.Shifts.{
  ensure_array_capacity_room, element-ensure_array_capacity, close_gap-outside, length-close_gap,
}
use slp.Array.Store.{
  ObjArray, Chain, element, ensure_array_capacity, after_source, remove_own, array_remove_internal,
  removed, array_remove_at, last, array_pop, read_cell, array_get, cell_of, write_cell, target,
  set_cells, put_element, set_own, array_set_internal, array_set,
}
use slp.Array.Views.{IsArray, own, after_source-own}
use slp.Prelude.{
  ℕ, suc, ◌+◌, ◌-◌, ◌≤◌, ◌<◌, ◌≡◌, inl, inr, refl, ap, ◌∙◌, Bool, true, false, Option, some, none,
  [], ◌∷◌, ltb, leb, ◌==◌, length, get_or-set_self, get_or-set_other, arith, Bool-cases,
  Option-cases,
}
use slp.Value.{Value, null}

-- Values of which one is a cell and gets what the value reads as.
module _ (val r : Value) where
  write_cell-kept : (cell : ℕ → Value) (c x : ℕ) → cell x ≡ r → write_cell cell c r x ≡ r
  write_cell-kept cell c x h = elim (Bool-cases (x == c)) [
    | inl same ↦ rw same refl
    | inr other ↦ rw other h
  ]

  set_cells-kept :
      (cell : ℕ → Value) (t : Option ℕ) (x : ℕ)
      → read_cell cell val ≡ r
      → cell x ≡ r
      → set_cells cell val t x ≡ r
  unfolding set_cells
  set_cells-kept cell none x e h = h
  set_cells-kept cell (some c) x e h = rw e (write_cell-kept cell c x h)

read_cell-set_cells :
    (cell : ℕ → Value) (val : Value) (t : Option ℕ)
    → read_cell (set_cells cell val t) val ≡ read_cell cell val
unfolding read_cell set_cells
read_cell-set_cells cell val t = elim (Option-cases (cell_of val)) [
  | inl plain ↦ rw (plain, read_cell) refl
  | inr (c, e) ↦
      rw (e, read_cell) (set_cells-kept val (cell c) cell t c (rw (e, read_cell) refl) refl)
]

array_set_internal-kept :
    (val r : Value) (from_child_view : Bool) (cell : ℕ → Value) (c : Chain) (index x : ℕ)
    → read_cell cell val ≡ r
    → cell x ≡ r
    → (array_set_internal val from_child_view cell c index).0 x ≡ r
unfolding array_set_internal
array_set_internal-kept val r from_child_view cell [] index x e h = h
array_set_internal-kept val r from_child_view cell (a ∷ sources) index x e h =
    let t = target a index in
    let cell' = set_cells cell val t in
    let h' = set_cells-kept val r cell t x e h in
    elim (Bool-cases (ltb index a.count)) [
      | inl inside ↦ rw inside (
          array_set_internal-kept val r true cell' sources (a.view_offset + index) x
            (read_cell-set_cells cell val t ∙ e) h')
      | inr beyond ↦ rw beyond h'
    ]

-- The cell of the element gets what the value reads as.
array_set_internal-target :
    (val : Value) (from_child_view : Bool) (cell : ℕ → Value) (a : ObjArray) (sources : Chain)
    (index c : ℕ)
    → target a index ≡ some c
    → (array_set_internal val from_child_view cell (a ∷ sources) index).0 c ≡ read_cell cell val
unfolding array_set_internal set_cells
array_set_internal-target val from_child_view cell a sources index c e =
    let cell' = set_cells cell val (target a index) in
    let same : (c == c) ≡ true = ground arith in
    let written : cell' c ≡ read_cell cell val = rw (e, set_cells, same) refl in
    elim (Bool-cases (ltb index a.count)) [
      | inl inside ↦ rw inside (
          array_set_internal-kept val (read_cell cell val) true cell' sources
            (a.view_offset + index) c (read_cell-set_cells cell val (target a index)) written)
      | inr beyond ↦ rw beyond written
    ]

-- The value reads as before.
array_set_internal-read :
    (val : Value) (from_child_view : Bool) (cell : ℕ → Value) (c : Chain) (index : ℕ)
    → read_cell (array_set_internal val from_child_view cell c index).0 val ≡ read_cell cell val
unfolding read_cell
array_set_internal-read val from_child_view cell c index = elim (Option-cases (cell_of val)) [
  | inl plain ↦ rw (plain, read_cell) refl
  | inr (d, e) ↦
      rw (e, read_cell)
        (array_set_internal-kept val (cell d) from_child_view cell c index d
          (rw (e, read_cell) refl) refl)
]

target-cell_of :
    (a : ObjArray) (index c : ℕ)
    → target a index ≡ some c
    → cell_of (element (ensure_array_capacity a.elements (index + 1)) index) ≡ some c
unfolding target
target-cell_of a index c e = elim (Bool-cases (ltb index a.count)) [
  | inl inside ↦ rw inside at e
  | inr beyond ↦ let f : none ≡ some c = rw beyond at e in absurd cc
]

read_cell-cell :
    (cell : ℕ → Value) (v : Value) (c : ℕ) → cell_of v ≡ some c → read_cell cell v ≡ cell c
unfolding read_cell
read_cell-cell cell v c e = rw (e, read_cell) refl

set_own-in_use :
    (a : ObjArray) (index : ℕ) (val : Value) → leb (set_own a index val).count index ≡ false
unfolding set_own
set_own-in_use a index val = ground arith

set_own-element :
    (a : ObjArray) (index : ℕ) (val : Value)
    → target a index ≡ none
    → element (set_own a index val).elements index ≡ val
unfolding set_own put_element
set_own-element a index val e =
    let room = ensure_array_capacity_room a.elements (index + 1) in
    rw e (
      get_or-set_self (ensure_array_capacity a.elements (index + 1)) index val null
        (omega (arith, room)))

set_own-cell :
    (a : ObjArray) (index : ℕ) (val : Value) (c : ℕ)
    → target a index ≡ some c
    → element (set_own a index val).elements index
      ≡ element (ensure_array_capacity a.elements (index + 1)) index
unfolding set_own put_element
set_own-cell a index val c e = rw e refl

-- The element below an index that is set is what the memory held there.
set_own-below :
    (a : ObjArray) (index : ℕ) (val : Value) (j : ℕ)
    → target a index ≡ none
    → j < index
    → j < length a.elements
    → element (set_own a index val).elements j ≡ element a.elements j
unfolding set_own put_element
set_own-below a index val j e l within = rw e (
    get_or-set_other (ensure_array_capacity a.elements (index + 1)) index val j null
      (λ p. omega (arith, p, l))
    ∙ element-ensure_array_capacity a.elements (index + 1) j within)

beyond_target : (a : ObjArray) (index : ℕ) → a.count ≤ index → target a index ≡ none
unfolding target
beyond_target a index h = let out : ltb index a.count ≡ false = ground (arith, h) in rw out refl

array_set-own :
    (cell : ℕ → Value) (a : ObjArray) (sources : Chain) (index : ℕ) (val : Value)
    → ((own (array_set cell (a ∷ sources) (some index) val).1).elements
        ≡ (set_own a index val).elements)
      × ((own (array_set cell (a ∷ sources) (some index) val).1).count
          ≡ (set_own a index val).count)
unfolding array_set array_set_internal
array_set-own cell a sources index val = after_source-own false (set_own a index val) _

-- An element that was set reads as the value read before: as the contents of its cell where it is a
-- scalar cell, else as itself. This holds in an array and in a view, and where the element is a cell.
pub array_get-array_set :
    (cell : ℕ → Value) (a : ObjArray) (sources : Chain) (index : ℕ) (val : Value)
    → array_get
        (array_set cell (a ∷ sources) (some index) val).0
        (own (array_set cell (a ∷ sources) (some index) val).1)
        (some index)
      ≡ read_cell cell val
unfolding array_get array_set
array_get-array_set cell a sources index val =
    let (es, count) = array_set-own cell a sources index val in
    let in_use : leb (own (array_set cell (a ∷ sources) (some index) val).1).count index ≡ false =
      ap (λ n. leb n index) count ∙ set_own-in_use a index val in
    let at_index = ap (λ xs. element xs index) es in
    rw in_use (elim (Option-cases (target a index)) [
      | inl plain ↦
          ap (read_cell _) (at_index ∙ set_own-element a index val plain)
          ∙ array_set_internal-read val false cell (a ∷ sources) index
      | inr (c, e) ↦
          ap (read_cell _) (at_index ∙ set_own-cell a index val c e)
          ∙ read_cell-cell _ _ c (target-cell_of a index c e)
          ∙ array_set_internal-target val false cell a sources index c e
    ])

array_pop-last :
    (a : ObjArray) (n : ℕ)
    → a.count ≡ suc n
    → array_pop (a ∷ []) ≡ (element a.elements n, remove_own a n ∷ [])
unfolding array_pop array_remove_at array_remove_internal removed after_source
array_pop-last a n e =
    let inside : leb a.count n ≡ false = ground (arith, e) in
    ap (λ k. array_remove_at (a ∷ []) (last k)) e ∙ rw inside refl

remove_own-last :
    (a : ObjArray) (n : ℕ)
    → a.count ≡ suc n
    → element (remove_own a n).elements n ≡ element a.elements n
unfolding remove_own
remove_own-last a n e =
    close_gap-outside (a.count - (n + 1)) a.elements (n + 1) n (omega arith)
      (inr (omega (arith, e)))

-- If an array is set at an index that leaves a place free, after its last element was removed, the
-- place shows the removed element again, and not NULL.
pub array_set-removed :
    (cell : ℕ → Value) (a : ObjArray) (n : ℕ) (val : Value)
    → IsArray a
    → a.count ≡ suc n
    → ((array_pop (a ∷ [])).0 ≡ element a.elements n)
      × (element (own (array_set cell (array_pop (a ∷ [])).1 (some (suc n)) val).1).elements n
          ≡ element a.elements n)
      × ((own (array_set cell (array_pop (a ∷ [])).1 (some (suc n)) val).1).count ≡ suc (suc n))
unfolding remove_own set_own
array_set-removed cell a n val v e =
    let b = remove_own a n in
    let none_there : target b (suc n) ≡ none = beyond_target b (suc n) (omega (arith, e)) in
    let out : leb b.count (suc n) ≡ true = ground (arith, e) in
    let within : n < length b.elements =
      omega (arith, v, e, length-close_gap (a.count - (n + 1)) a.elements (n + 1)) in
    let popped = array_pop-last a n e in
    let same = array_set-own cell b [] (suc n) val in
    rw popped (
      refl,
      ap (λ es. element es n) same.0
          ∙ set_own-below b (suc n) val n none_there (omega arith) within
          ∙ remove_own-last a n e,
      same.1 ∙ rw out (omega arith),
    )
