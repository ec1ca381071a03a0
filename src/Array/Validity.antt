-- ===== src/Array/Validity.antt =====
-- When a view is invalid: slp_obj_array_view_is_valid of src/slp_value.c after an insertion.
use slp.Array.Store.{
  ObjArray, Chain, after_source, insert_own, array_insert_internal, array_insert,
  array_view_is_valid,
}
use slp.Prelude.{ℕ, ◌≡◌, refl, Bool, true, false, some, [], ◌∷◌, arith}
use slp.Value.{Value}

-- Behind the first array of a chain.
abbrev pub behind : Chain → Chain
behind [] = []
behind (a ∷ sources) = sources

-- Whether an array with these sources is no view.
abbrev pub has_no_source : Chain → Bool
has_no_source [] = true
has_no_source (t ∷ sources) = false

-- For any view of any array: if the view was valid, it is valid after an insertion through it, but no
-- more after an insertion in its source. After the insertion through the view its source is valid just
-- if that is no view itself.
pub array_insert-view_is_valid :
    (a s : ObjArray) (sources : Chain) (index : ℕ) (val : Value)
    → array_view_is_valid (a ∷ s ∷ sources) ≡ true
    → (array_view_is_valid (array_insert (a ∷ s ∷ sources) (some index) val) ≡ true)
      × (array_view_is_valid (behind (array_insert (a ∷ s ∷ sources) (some index) val))
          ≡ has_no_source sources)
      × (array_view_is_valid (a ∷ array_insert (s ∷ sources) (some index) val) ≡ false)
unfolding array_view_is_valid array_insert array_insert_internal after_source insert_own
array_insert-view_is_valid a s [] index val h = (ground arith, refl, ground arith)
array_insert-view_is_valid a s (t ∷ sources) index val h =
    (ground arith, ground arith, ground arith)
