-- ===== src/Array/Store.antt =====
-- The array and its views, lines 300 to 454 of src/slp_value.c.
use slp.Prelude.{
  ℕ, zero, suc, ◌+◌, ◌-◌, ◌*◌, Bool, true, false, not, ◌&&◌, Option, some, none, List, [], ◌∷◌,
  ◌++◌, ltb, leb, ◌==◌, if◌then◌else◌, length, get_or, set, replicate,
}
use slp.Value.{Value, ObjType, null, object}

-- The length of `elements` is the capacity; the elements from `count` on are memory that is not in use.
pub record ObjArray : Type 0 where
  pub elements : List Value
  pub count : ℕ
  pub mutation_version : ℕ
  pub view_offset : ℕ
  pub view_source_version : ℕ
  pub view_invalid : Bool

-- An array and, where it is a view, its source, the source's source and so on.
abbrev pub Chain : Type 0
Chain = List ObjArray

abbrev pub element : List Value → ℕ → Value
element es i = get_or es i null

unfoldable pub array_new : ObjArray
array_new = record {
  elements = [];
  count = 0;
  mutation_version = 0;
  view_offset = 0;
  view_source_version = 0;
  view_invalid = false;
}

-- `while (new_cap < needed) new_cap *= 2`; a capacity that is not 0 grows by 1 at least, so `needed`
-- is enough fuel.
unfoldable pub enlarge : ℕ → ℕ → ℕ → ℕ
enlarge zero needed new_cap = new_cap
enlarge (suc n) needed new_cap =
    let rest = enlarge n needed (new_cap * 2) in if ltb new_cap needed then rest else new_cap

unfoldable pub ensure_array_capacity : List Value → ℕ → List Value
ensure_array_capacity es needed =
    let capacity = length es in
    let new_cap = enlarge needed needed (if capacity == 0 then 8 else capacity * 2) in
    if leb needed capacity then es else es ++ replicate (new_cap - capacity) null

-- `for (i = count; i > index; i--) elements[i] = elements[i - 1]`, with `n` rounds left.
unfoldable pub open_gap : ℕ → List Value → ℕ → List Value
open_gap zero es i = es
open_gap (suc n) es i = open_gap n (set es i (element es (i - 1))) (i - 1)

-- `for (i = index + 1; i < count; i++) elements[i - 1] = elements[i]`, with `n` rounds left.
unfoldable pub close_gap : ℕ → List Value → ℕ → List Value
close_gap zero es i = es
close_gap (suc n) es i = close_gap n (set es (i - 1) (element es i)) (i + 1)

-- What a change does to the marks of a view, given its source after the change.
unfoldable pub after_source : Bool → ObjArray → Chain → ObjArray
after_source from_child_view a [] = a
after_source true a (s ∷ sources) = record a { view_invalid = true }
after_source false a (s ∷ sources) = record a { view_source_version = s.mutation_version }

-- An index above the count is the count.
unfoldable pub clamp : ℕ → ℕ → ℕ
clamp count index = if ltb count index then count else index

-- The array's own part of an insertion.
unfoldable pub insert_own : ObjArray → ℕ → Value → ObjArray
insert_own a index val =
    let es = ensure_array_capacity a.elements (a.count + 1) in
    record a {
      elements = set (open_gap (a.count - index) es a.count) index val;
      count = a.count + 1;
      mutation_version = a.mutation_version + 1;
    }

unfoldable pub array_insert_internal : Value → Bool → Chain → ℕ → Chain
array_insert_internal val from_child_view [] index = []
array_insert_internal val from_child_view (a ∷ sources) index =
    let i = clamp a.count index in
    let sources' = array_insert_internal val true sources (a.view_offset + i) in
    after_source from_child_view (insert_own a i val) sources' ∷ sources'

-- An index is an int: `none` stands for one below 0.
unfoldable pub array_insert : Chain → Option ℕ → Value → Chain
array_insert c none val = array_insert_internal val false c 0
array_insert c (some index) val = array_insert_internal val false c index

unfoldable pub array_push : Chain → Value → Chain
array_push [] val = []
array_push (a ∷ sources) val = array_insert (a ∷ sources) (some a.count) val

unfoldable pub remove_own : ObjArray → ℕ → ObjArray
remove_own a index = record a {
  elements = close_gap (a.count - (index + 1)) a.elements (index + 1);
  count = a.count - 1;
  mutation_version = a.mutation_version + 1;
}

-- The array that is left; the value that is returned is read by `removed`.
unfoldable pub array_remove_internal : Bool → Chain → ℕ → Chain
array_remove_internal from_child_view [] index = []
array_remove_internal from_child_view (a ∷ sources) index =
    let sources' = array_remove_internal true sources (a.view_offset + index) in
    if leb a.count index
    then a ∷ sources
    else after_source from_child_view (remove_own a index) sources' ∷ sources'

unfoldable pub removed : Chain → ℕ → Value
removed [] index = null
removed (a ∷ sources) index = if leb a.count index then null else element a.elements index

unfoldable pub array_remove_at : Chain → Option ℕ → Value × Chain
array_remove_at c none = (null, c)
array_remove_at c (some index) = (removed c index, array_remove_internal false c index)

abbrev pub last : ℕ → Option ℕ
last zero = none
last (suc n) = some n

unfoldable pub array_pop : Chain → Value × Chain
array_pop [] = (null, [])
array_pop (a ∷ sources) = array_remove_at (a ∷ sources) (last a.count)

unfoldable pub cell_of : Value → Option ℕ
cell_of (object ObjType.scalar_cell c) = some c
cell_of _ = none

-- `cell` is the contents of the scalar cells.
unfoldable pub read_cell : (ℕ → Value) → Value → Value
read_cell cell v = elim (cell_of v) [ none ↦ v | some c ↦ cell c ]

unfoldable pub array_get : (ℕ → Value) → ObjArray → Option ℕ → Value
array_get cell a none = null
array_get cell a (some index) =
    if leb a.count index then null else read_cell cell (element a.elements index)

abbrev pub write_cell : (ℕ → Value) → ℕ → Value → ℕ → Value
write_cell cell c v b = if b == c then v else cell b

-- The cell that an assignment writes to: the element's, where it is in use.
unfoldable pub target : ObjArray → ℕ → Option ℕ
target a index =
    if ltb index a.count
    then cell_of (element (ensure_array_capacity a.elements (index + 1)) index)
    else none

unfoldable pub set_cells : (ℕ → Value) → Value → Option ℕ → ℕ → Value
set_cells cell val none = cell
set_cells cell val (some c) = write_cell cell c (read_cell cell val)

unfoldable pub put_element : List Value → ℕ → Value → Option ℕ → List Value
put_element es index val none = set es index val
put_element es index val (some c) = es

unfoldable pub set_own : ObjArray → ℕ → Value → ObjArray
set_own a index val = record a {
  elements = put_element (ensure_array_capacity a.elements (index + 1)) index val (target a index);
  count = if leb a.count index then index + 1 else a.count;
  mutation_version = a.mutation_version + 1;
}

-- The source gets NULLs for the elements that the view skips, with `n` of them left.
unfoldable pub insert_nulls : ℕ → Chain → ℕ → Chain
insert_nulls zero sources place = sources
insert_nulls (suc n) sources place =
    insert_nulls n (array_insert_internal null true sources place) (place + 1)

-- An element that is there is set in the source too, where no NULL is inserted before.
unfoldable pub array_set_internal : Value → Bool → (ℕ → Value) → Chain → ℕ → (ℕ → Value) × Chain
array_set_internal val from_child_view cell [] index = (cell, [])
array_set_internal val from_child_view cell (a ∷ sources) index =
    let cell' = set_cells cell val (target a index) in
    let deeper = array_set_internal val true cell' sources (a.view_offset + index) in
    let padded = insert_nulls (index - a.count) sources (a.view_offset + a.count) in
    let inserted = array_insert_internal val true padded (a.view_offset + index) in
    let (cell'', sources') = if ltb index a.count then deeper else (cell', inserted) in
    (cell'', after_source from_child_view (set_own a index val) sources' ∷ sources')

unfoldable pub array_set : (ℕ → Value) → Chain → Option ℕ → Value → (ℕ → Value) × Chain
array_set cell c none val = (cell, c)
array_set cell c (some index) val = array_set_internal val false cell c index

-- The loop of sync_view: the elements from `i` on are set in the source.
unfoldable pub sync_elements : ℕ → (ℕ → Value) → ObjArray → Chain → ℕ → (ℕ → Value) × Chain
sync_elements zero cell a sources i = (cell, sources)
sync_elements (suc n) cell a sources i =
    let (cell', sources') =
      array_set cell sources (some (a.view_offset + i)) (element a.elements i) in
    sync_elements n cell' a sources' (i + 1)

unfoldable pub array_sync_view : (ℕ → Value) → Chain → (ℕ → Value) × Chain
array_sync_view cell [] = (cell, [])
array_sync_view cell (a ∷ sources) =
    let (cell', sources') = sync_elements a.count cell a sources 0 in (cell', a ∷ sources')

unfoldable pub array_view_is_valid : Chain → Bool
array_view_is_valid (a ∷ s ∷ sources) =
    not a.view_invalid && a.view_source_version == s.mutation_version
array_view_is_valid _ = true
