-- ===== src/Gc/Swept.antt =====
-- What a sweep leaves of a list of objects: the loop of slp_gc_sweep of src/slp_gc.c.
use slp.Gc.Mark.{update}
use slp.Gc.Marks.{In}
use slp.Gc.Objects.{Object}
use slp.Gc.Sweep.{Swept, object_size, sweep_list}
use slp.Prelude.{
  ℕ, ◌+◌, ◌≡◌, inl, inr, subst, Bool, true, false, Option, List, [], ◌∷◌, arith, ◌==◌, Bool-cases,
}

-- No object stands twice in the list.
abbrev pub IsDistinct : List ℕ → Type 0
IsDistinct [] = Unit {0}
IsDistinct (a ∷ objects) = (In a objects → ⊥) × IsDistinct objects

module _ (sizeof : ℕ → ℕ) (cell : ℕ → Option Object) where
  -- The bytes that the objects of a list take.
  unfoldable pub total_size : List ℕ → ℕ
  total_size [] = 0
  total_size (a ∷ objects) = object_size sizeof (cell a) + total_size objects

  pub record Sweeps (f : ℕ → Bool) (objects : List ℕ) (s : Swept) : Type 0 where
    pub from_list : (a : ℕ) → In a s.kept → In a objects
    pub from_marks : (a : ℕ) → In a s.kept → f a ≡ true
    pub keeps : (a : ℕ) → In a objects → f a ≡ true → In a s.kept
    pub clears : (a : ℕ) → In a objects → s.is_marked a ≡ false
    pub sets_none : (a : ℕ) → s.is_marked a ≡ true → f a ≡ true
    pub sizes : s.freed + total_size s.kept ≡ total_size objects

  kept-Sweeps :
      (f : ℕ → Bool) (a : ℕ) (objects : List ℕ) (rest : Swept)
      → f a ≡ true
      → (In a objects → ⊥)
      → Sweeps (update f a false) objects rest
      → Sweeps f (a ∷ objects) (record rest { kept = a ∷ rest.kept })
  unfolding total_size
  kept-Sweeps f a objects rest k d s = record {
    from_list = λ b i. elim i [ inl e ↦ inl e | inr j ↦ inr (s.from_list b j) ];
    from_marks = λ b i. elim i [ inl e ↦ rw e k | inr j ↦ ground (arith, s.from_marks b j) ];
    keeps = λ b i h. elim i [
      | inl e ↦ inl e
      | inr j ↦ elim (Bool-cases (a == b)) [
        | inl same ↦ absurd (d (subst (λ c. In c objects) (ground arith) j))
        | inr other ↦ inr (s.keeps b j (rw other h))
      ]
    ];
    clears = λ b i. elim (Bool-cases (rest.is_marked b)) [
      | inr no_mark ↦ no_mark
      | inl marked ↦ elim i [
        | inl e ↦ absurd (ground (arith, s.sets_none b marked))
        | inr j ↦ s.clears b j
      ]
    ];
    sets_none = λ b h. ground (arith, s.sets_none b h);
    sizes = omega (arith, s.sizes);
  }

  freed-Sweeps :
      (f : ℕ → Bool) (a : ℕ) (objects : List ℕ) (rest : Swept)
      → f a ≡ false
      → Sweeps f objects rest
      → Sweeps f (a ∷ objects) (record rest { freed = object_size sizeof (cell a) + rest.freed })
  unfolding total_size
  freed-Sweeps f a objects rest k s = record {
    from_list = λ b i. inr (s.from_list b i);
    from_marks = s.from_marks;
    keeps = λ b i h. elim i [ inl e ↦ absurd (ground arith) | inr j ↦ s.keeps b j h ];
    clears = λ b i. elim (Bool-cases (rest.is_marked b)) [
      | inr no_mark ↦ no_mark
      | inl marked ↦ elim i [
        | inl e ↦ absurd (ground (arith, s.sets_none b marked))
        | inr j ↦ s.clears b j
      ]
    ];
    sets_none = s.sets_none;
    sizes = omega (arith, s.sizes);
  }

  pub sweep_list-Sweeps :
      (f : ℕ → Bool) (objects : List ℕ)
      → IsDistinct objects
      → Sweeps f objects (sweep_list sizeof cell f objects)
  unfolding sweep_list
  sweep_list-Sweeps f [] d = record {
    from_list = λ a i. i;
    from_marks = λ a i. absurd i;
    keeps = λ a i h. i;
    clears = λ a i. absurd i;
    sets_none = λ a h. h;
    sizes = unfold total_size in omega arith;
  }
  sweep_list-Sweeps f (a ∷ objects) d = elim (Bool-cases (f a)) [
    | inl k ↦
        rw k (kept-Sweeps f a objects _ k d.0 (sweep_list-Sweeps (update f a false) objects d.1))
    | inr k ↦ rw k (freed-Sweeps f a objects _ k (sweep_list-Sweeps f objects d.1))
  ]

pub sweep-IsDistinct :
    (sizeof : ℕ → ℕ) (cell : ℕ → Option Object) (f : ℕ → Bool) (objects : List ℕ)
    → IsDistinct objects
    → IsDistinct (sweep_list sizeof cell f objects).kept
unfolding sweep_list
sweep-IsDistinct sizeof cell f [] d = tt
sweep-IsDistinct sizeof cell f (a ∷ objects) d = elim (Bool-cases (f a)) [
  | inl k ↦ rw k (
    λ i. d.0 ((sweep_list-Sweeps sizeof cell (update f a false) objects d.1).from_list a i),
    sweep-IsDistinct sizeof cell (update f a false) objects d.1,
  )
  | inr k ↦ rw k (sweep-IsDistinct sizeof cell f objects d.1)
]
