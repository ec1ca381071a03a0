-- ===== src/Gc/Kept.antt =====
-- What a collection keeps and frees: slp_gc_collect of src/slp_gc.c, and rebuild_interned behind its
-- sweep.
use slp.Gc.Mark.{Vm}
use slp.Gc.Marks.{In}
use slp.Gc.Objects.{Object}
use slp.Gc.Sweep.{sweep_list, sweep, intern, intern_all, rebuild_interned, gc_collect}
use slp.Gc.Trace.{Reachable, IsTracked, Reachable-tracked, traced, trace_references_lem}
use slp.Gc.Swept.{IsDistinct, Sweeps, sweep_list-Sweeps}
use slp.Prelude.{
  ℕ, zero, suc, ◌≡◌, ◌⊎◌, inl, inr, false, Option, some, none, List, [], ◌∷◌, replicate, set,
}

-- The table of strings after a row of interns has old entries and the addresses of the row.
In-set :
    (b : Option ℕ) (table : List (Option ℕ)) (i : ℕ) (v : Option ℕ)
    → In b (set table i v)
    → (b ≡ v) ⊎ In b table
In-set b [] i v h = absurd h
In-set b (x ∷ table) zero v h = elim h [ inl e ↦ inl e | inr j ↦ inr (inr j) ]
In-set b (x ∷ table) (suc i) v h = elim h [
  | inl e ↦ inr (inl e)
  | inr j ↦ elim (In-set b table i v j) [ inl e ↦ inl e | inr k ↦ inr (inr k) ]
]

In-intern :
    (b a : ℕ) (o : Option Object) (table : List (Option ℕ))
    → In (some b) (intern a o table)
    → (b ≡ a) ⊎ In (some b) table
unfolding intern
In-intern b a (some (Object.string h cs)) table j = elim (In-set (some b) table _ (some a) j) [
  | inl e ↦ inl cc
  | inr k ↦ inr k
]
In-intern b a none table j = inr j
In-intern b a (some _) table j = inr j

In-intern_all :
    (cell : ℕ → Option Object) (b : ℕ) (objects : List ℕ) (table : List (Option ℕ))
    → In (some b) (intern_all cell objects table)
    → In b objects ⊎ In (some b) table
unfolding intern_all
In-intern_all cell b [] table j = inr j
In-intern_all cell b (a ∷ objects) table j =
    elim (In-intern_all cell b objects (intern a (cell a) table) j) [
      | inl i ↦ inl (inr i)
      | inr i ↦ elim (In-intern b a (cell a) table i) [ inl e ↦ inl (inl e) | inr k ↦ inr k ]
    ]

In-replicate : (b n : ℕ) → In (some b) (replicate n none) → ⊥
In-replicate b zero h = h
In-replicate b (suc n) h = elim h [ inl e ↦ cc | inr j ↦ In-replicate b n j ]

-- The state in which a collection may start.
pub record IsCollectable (vm : Vm) : Type 0 where
  pub tracked : IsTracked vm
  pub clean : (a : ℕ) → vm.is_marked a ≡ false
  pub distinct : IsDistinct vm.objects

module _ (sizeof : ℕ → ℕ) (vm : Vm) (c : IsCollectable vm) where
  collected :
      Sweeps sizeof vm.cell
        (traced vm c.tracked c.clean).is_marked
        vm.objects
        (sweep_list sizeof vm.cell (traced vm c.tracked c.clean).is_marked vm.objects)
  collected = sweep_list-Sweeps sizeof vm.cell _ vm.objects c.distinct

  -- If every reference is to a listed object, no object is listed twice and no mark is set, a
  -- collection keeps every object that can be reached from the machine's own references and no other
  -- object.
  pub gc_collect-Reachable :
      (a : ℕ)
      → (Reachable vm a → In a (gc_collect sizeof vm).objects)
        × (In a (gc_collect sizeof vm).objects → Reachable vm a)
  unfolding gc_collect rebuild_interned sweep
  gc_collect-Reachable a =
      let (empty, marked, reached) = trace_references_lem vm c.tracked c.clean in
      (
        λ r. collected.keeps a (Reachable-tracked c.tracked r) (marked a r),
        λ i. reached a (collected.from_marks a i),
      )

  -- After a collection from such a state the table of interned strings has no pointer to a freed
  -- object.
  pub gc_collect-interned :
      (a : ℕ) → In (some a) (gc_collect sizeof vm).interned → In a (gc_collect sizeof vm).objects
  unfolding gc_collect rebuild_interned sweep
  gc_collect-interned a i = elim (In-intern_all vm.cell a _ _ i) [
    | inl kept ↦ kept
    | inr old ↦ absurd (In-replicate a _ old)
  ]
