-- ===== src/Array/Tests.antt =====
-- A view of a view of an array with three elements, of which the middle one is a scalar cell.
use slp.Array.Assignment.{array_get-array_set, array_set-removed}
use slp.Array.Removal.{removed_at, array_remove_at-element, array_remove_at-IsChain}
use slp.Array.Store.{
  ObjArray, element, array_insert, array_remove_at, array_pop, array_get, array_set, read_cell,
  array_view_is_valid,
}
use slp.Array.Validity.{behind, array_insert-view_is_valid}
use slp.Array.Views.{IsChain, own, array_insert-IsChain}
use slp.Prelude.{ℕ, zero, suc, ◌+◌, ◌<◌, ◌≡◌, refl, true, false, some, [], ◌∷◌, arith}
use slp.Value.{Value, ObjType, null, bool, object}

abbrev first_cell : Value
first_cell = object ObjType.scalar_cell 1

abbrev base : ObjArray
base = record {
  elements = bool true ∷ first_cell ∷ bool false ∷ [];
  count = 3;
  mutation_version = 3;
  view_offset = 0;
  view_source_version = 0;
  view_invalid = false;
}

abbrev window : ObjArray
window = record {
  elements = first_cell ∷ bool false ∷ [];
  count = 2;
  mutation_version = 2;
  view_offset = 1;
  view_source_version = 3;
  view_invalid = false;
}

abbrev pane : ObjArray
pane = record {
  elements = bool false ∷ [];
  count = 1;
  mutation_version = 1;
  view_offset = 1;
  view_source_version = 2;
  view_invalid = false;
}

window-Mirrors : (j : ℕ) → j < 2 → element window.elements j ≡ element base.elements (1 + j)
window-Mirrors zero l = refl
window-Mirrors (suc zero) l = refl
window-Mirrors (suc (suc j)) l = absurd (omega (arith, l))

pane-Mirrors : (j : ℕ) → j < 1 → element pane.elements j ≡ element window.elements (1 + j)
pane-Mirrors zero l = refl
pane-Mirrors (suc j) l = absurd (omega (arith, l))

views-IsChain : IsChain (pane ∷ window ∷ base ∷ [])
views-IsChain = (
  omega arith,
  (omega arith, pane-Mirrors),
  (omega arith, (omega arith, window-Mirrors), omega arith),
)

abbrev contents : ℕ → Value
contents c = null

array_insert-IsChain_example :
    IsChain (array_insert (pane ∷ window ∷ base ∷ []) (some 1) (bool true))
array_insert-IsChain_example =
    array_insert-IsChain (pane ∷ window ∷ base ∷ []) (some 1) (bool true) views-IsChain

array_remove_at-IsChain_example : IsChain (array_remove_at (pane ∷ window ∷ base ∷ []) (some 0)).1
array_remove_at-IsChain_example =
    array_remove_at-IsChain (pane ∷ window ∷ base ∷ []) (some 0) views-IsChain

array_remove_at-element_example :
    ((array_remove_at (base ∷ []) (some 0)).0 ≡ element base.elements 0)
    × (element (own (array_remove_at (base ∷ []) (some 0)).1).elements 1
        ≡ removed_at base.elements 0 1)
    × ((own (array_remove_at (base ∷ []) (some 0)).1).count + 1 ≡ 3)
array_remove_at-element_example =
    array_remove_at-element base [] 0 1 (omega arith) (omega arith) (omega arith)

array_get-array_set_example :
    array_get
      (array_set contents (window ∷ base ∷ []) (some 0) (bool true)).0
      (own (array_set contents (window ∷ base ∷ []) (some 0) (bool true)).1)
      (some 0)
    ≡ read_cell contents (bool true)
array_get-array_set_example = array_get-array_set contents window (base ∷ []) 0 (bool true)

array_set-removed_example :
    ((array_pop (base ∷ [])).0 ≡ element base.elements 2)
    × (element (own (array_set contents (array_pop (base ∷ [])).1 (some 3) null).1).elements 2
        ≡ element base.elements 2)
    × ((own (array_set contents (array_pop (base ∷ [])).1 (some 3) null).1).count ≡ 4)
array_set-removed_example = array_set-removed contents base 2 null (omega arith) refl

views_valid : array_view_is_valid (pane ∷ window ∷ base ∷ []) ≡ true
unfolding array_view_is_valid
views_valid = refl

array_insert-view_is_valid_example :
    (array_view_is_valid (array_insert (pane ∷ window ∷ base ∷ []) (some 0) null) ≡ true)
    × (array_view_is_valid (behind (array_insert (pane ∷ window ∷ base ∷ []) (some 0) null))
        ≡ false)
    × (array_view_is_valid (pane ∷ array_insert (window ∷ base ∷ []) (some 0) null) ≡ false)
array_insert-view_is_valid_example =
    array_insert-view_is_valid pane window (base ∷ []) 0 null views_valid
