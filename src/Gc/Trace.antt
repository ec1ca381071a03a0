-- ===== src/Gc/Trace.antt =====
-- Tracing from the roots: mark_roots and trace_references of src/slp_gc.c.
use slp.Gc.Mark.{
  Vm, Marking, mark_all, blacken, roots, mark_roots, trace_rounds, trace_references, start,
}
use slp.Gc.Marks.{In, mark_all-Marks, white-le-length, work, mark_all-work}
use slp.Gc.Followed.{references-Points, roots-IsRoot}
use slp.Gc.Objects.{Object, references}
use slp.Gc.Points.{Points, IsRoot}
use slp.Prelude.{
  ℕ, zero, suc, ◌≤◌, ◌≡◌, ◌⊎◌, inl, inr, refl, sym, subst, ap, ◌∙◌, true, false, Option, some, none,
  List, [], ◌∷◌, arith, length,
}

-- The objects that can be reached from the roots.
pub data Reachable (vm : Vm) : ℕ → Type 0 where
  root : {a : ℕ} → IsRoot vm a → Reachable vm a
  follow :
      {a b : ℕ} (o : Object) → Reachable vm a → vm.cell a ≡ some o → Points o b → Reachable vm b

-- Every reference of a listed object or of the machine is to a listed object. The pointers that a frame
-- keeps of a running foreach are no references.
pub record IsTracked (vm : Vm) : Type 0 where
  pub roots_tracked : (a : ℕ) → IsRoot vm a → In a vm.objects
  pub references_tracked :
      (a b : ℕ) (o : Object) → In a vm.objects → vm.cell a ≡ some o → Points o b → In b vm.objects

pub Reachable-tracked : {vm : Vm} {a : ℕ} → IsTracked vm → Reachable vm a → In a vm.objects
Reachable-tracked t (Reachable.root i) = t.roots_tracked _ i
Reachable-tracked t (Reachable.follow o r e j) =
    t.references_tracked _ _ o (Reachable-tracked t r) e j

-- While the loop runs: only reachable objects are marked, the stack holds marked ones, and a marked
-- object that is not on the stack has all that it refers to marked.
record IsTracing (vm : Vm) (m : Marking) : Type 0 where
  reached : (a : ℕ) → m.is_marked a ≡ true → Reachable vm a
  gray_marked : (a : ℕ) → In a m.gray → m.is_marked a ≡ true
  black :
      (a : ℕ)
      → m.is_marked a ≡ true
      → In a m.gray
        ⊎ ((b : ℕ) (o : Object)
            → vm.cell a ≡ some o
            → In (some b) (references o)
            → m.is_marked b ≡ true)

-- What `blacken` marks.
blackened : Option Object → List (Option ℕ)
blackened none = []
blackened (some o) = references o

blacken_lem : (c : Option Object) (m : Marking) → blacken c m ≡ mark_all (blackened c) m
unfolding blacken mark_all blackened
blacken_lem none m = refl
blacken_lem (some o) m = refl

blackened-references :
    (vm : Vm) (a b c : ℕ) (o : Object)
    → b ≡ a
    → vm.cell b ≡ some o
    → In (some c) (references o)
    → In (some c) (blackened (vm.cell a))
unfolding blackened
blackened-references vm a b c o s e j =
    let e' : vm.cell a ≡ some o = ap vm.cell (sym s) ∙ e in rw e' j

blackened-Reachable :
    (vm : Vm) (a c : ℕ) (o : Option Object)
    → Reachable vm a
    → vm.cell a ≡ o
    → In (some c) (blackened o)
    → Reachable vm c
unfolding blackened
blackened-Reachable vm a c none r e j = absurd j
blackened-Reachable vm a c (some o) r e j = Reachable.follow o r e ((references-Points o).only c j)

-- The round that takes `a` from the stack.
round-IsTracing :
    (vm : Vm) (m : Marking) (a : ℕ) (gray : List ℕ)
    → m.gray ≡ a ∷ gray
    → IsTracing vm m
    → IsTracing vm (mark_all (blackened (vm.cell a)) (record m { gray = gray }))
round-IsTracing vm m a gray g t =
    let refs = blackened (vm.cell a) in
    let p = mark_all-Marks refs (record m { gray = gray }) in
    let at_a : m.is_marked a ≡ true = t.gray_marked a (rw g (inl refl)) in
    record {
      reached = λ b k. elim (p.only b k) [
        | inl old ↦ t.reached b old
        | inr i ↦ blackened-Reachable vm a b (vm.cell a) (t.reached a at_a) refl i
      ];
      gray_marked = λ b i. elim (p.gray_marked b i) [
        | inl old ↦ p.kept b (t.gray_marked b (rw g (inr old)))
        | inr k ↦ k
      ];
      black = λ b k. elim (p.gray_new b k) [
        | inl old ↦ elim (t.black b old) [
          | inl i ↦
              let i' : In b (a ∷ gray) = subst (In b) g i in
              elim i' [
                | inl here ↦ inr (λ c o e j. p.done c (blackened-references vm a b c o here e j))
                | inr rest ↦ inl (p.gray_kept b rest)
              ]
          | inr all ↦ inr (λ c o e j. p.kept c (all c o e j))
        ]
        | inr i ↦ inl i
      ];
    }

trace_rounds-empty : (f : ℕ) (vm : Vm) (m : Marking) → m.gray ≡ [] → trace_rounds (suc f) vm m ≡ m
unfolding trace_rounds
trace_rounds-empty f vm m e =
    ap
      (λ (g : List ℕ). elim g as (λ _. Marking) [
        | [] ↦ m
        | b ∷ rest ↦ trace_rounds f vm (blacken (vm.cell b) (record m { gray = rest }))
      ])
      e

trace_rounds-step :
    (f : ℕ) (vm : Vm) (m : Marking) (a : ℕ) (gray : List ℕ)
    → m.gray ≡ a ∷ gray
    → trace_rounds (suc f) vm m
      ≡ trace_rounds f vm (mark_all (blackened (vm.cell a)) (record m { gray = gray }))
unfolding trace_rounds
trace_rounds-step f vm m a gray e =
    let opened : trace_rounds (suc f) vm m
        ≡ trace_rounds f vm (blacken (vm.cell a) (record m { gray = gray })) =
      ap
        (λ (g : List ℕ). elim g as (λ _. Marking) [
          | [] ↦ m
          | b ∷ rest ↦ trace_rounds f vm (blacken (vm.cell b) (record m { gray = rest }))
        ])
        e in
    opened ∙ ap (trace_rounds f vm) (blacken_lem (vm.cell a) (record m { gray = gray }))

List-cases : (xs : List ℕ) → (xs ≡ []) ⊎ ((a : ℕ) × (rest : List ℕ) × (xs ≡ a ∷ rest))
List-cases [] = inl refl
List-cases (x ∷ xs) = inr (x, xs, refl)

tracked-blackened :
    (vm : Vm) (a c : ℕ) (o : Option Object)
    → IsTracked vm
    → In a vm.objects
    → vm.cell a ≡ o
    → In (some c) (blackened o)
    → In c vm.objects
unfolding blackened
tracked-blackened vm a c none k i e j = absurd j
tracked-blackened vm a c (some o) k i e j =
    k.references_tracked a c o i e ((references-Points o).only c j)

-- With as much fuel as work the loop ends with an empty stack.
trace_rounds-IsTracing :
    (f : ℕ) (vm : Vm) (m : Marking)
    → IsTracked vm
    → work vm.objects m ≤ f
    → IsTracing vm m
    → IsTracing vm (trace_rounds f vm m) × ((trace_rounds f vm m).gray ≡ [])
unfolding trace_rounds
trace_rounds-IsTracing zero vm m k h t = (t, no_length m.gray (omega (arith, h)))
  where
    no_length : (xs : List ℕ) → length xs ≤ 0 → xs ≡ []
    no_length [] h = refl
    no_length (x ∷ xs) h = absurd (omega (arith, h))
trace_rounds-IsTracing (suc f) vm m k h t = elim (List-cases m.gray) [
  | inl e ↦ let still = trace_rounds-empty f vm m e in rw still (t, e)
  | inr (a, gray, e) ↦
      let n : Marking = record m { gray = gray } in
      let refs = blackened (vm.cell a) in
      let at_a : m.is_marked a ≡ true = t.gray_marked a (rw e (inl refl)) in
      let listed = Reachable-tracked k (t.reached a at_a) in
      let less =
        mark_all-work vm.objects refs n
          (λ c j. tracked-blackened vm a c (vm.cell a) k listed refl j) in
      let taken : length m.gray ≡ suc (length gray) = ap length e in
      let step = trace_rounds-step f vm m a gray e in
      rw step (
        trace_rounds-IsTracing f vm (mark_all refs n) k (omega (arith, h, less, taken))
          (round-IsTracing vm m a gray e t))
]

trace_rounds-kept :
    (f : ℕ) (vm : Vm) (m : Marking) (b : ℕ)
    → m.is_marked b ≡ true
    → (trace_rounds f vm m).is_marked b ≡ true
unfolding trace_rounds
trace_rounds-kept zero vm m b k = k
trace_rounds-kept (suc f) vm m b k = elim (List-cases m.gray) [
  | inl e ↦ let still = trace_rounds-empty f vm m e in rw still k
  | inr (a, gray, e) ↦
      let n : Marking = record m { gray = gray } in
      let refs = blackened (vm.cell a) in
      let step = trace_rounds-step f vm m a gray e in
      rw step (trace_rounds-kept f vm (mark_all refs n) b ((mark_all-Marks refs n).kept b k))
]

module _ (vm : Vm) (tracked : IsTracked vm) (clean : (a : ℕ) → vm.is_marked a ≡ false) where
  -- The marks at the end of the tracing.
  abbrev pub traced : Marking
  traced = trace_references vm (mark_roots vm (start vm))

  rooted-IsTracing : IsTracing vm (mark_roots vm (start vm))
  unfolding mark_roots start
  rooted-IsTracing =
      let p = mark_all-Marks (roots vm) (start vm) in
      record {
        reached = λ b k. elim (p.only b k) [
          | inl old ↦ absurd (ground (arith, clean b, old))
          | inr i ↦ Reachable.root ((roots-IsRoot vm).only b i)
        ];
        gray_marked = λ b i. elim (p.gray_marked b i) [ inl old ↦ absurd old | inr k ↦ k ];
        black = λ b k. elim (p.gray_new b k) [
          | inl old ↦ absurd (ground (arith, clean b, old))
          | inr i ↦ inl i
        ];
      }

  finished : IsTracing vm traced × (traced.gray ≡ [])
  unfolding trace_references mark_roots start
  finished =
      let less =
        mark_all-work vm.objects (roots vm) (start vm)
          (λ a i. tracked.roots_tracked a ((roots-IsRoot vm).only a i)) in
      let all = white-le-length vm.is_marked vm.objects in
      trace_rounds-IsTracing (length vm.objects) vm (mark_roots vm (start vm)) tracked
        (omega (arith, less, all)) rooted-IsTracing

  rooted-marked : (a : ℕ) → IsRoot vm a → traced.is_marked a ≡ true
  unfolding trace_references mark_roots
  rooted-marked a i =
      trace_rounds-kept (length vm.objects) vm (mark_roots vm (start vm)) a
        ((mark_all-Marks (roots vm) (start vm)).done a ((roots-IsRoot vm).all a i))

  Reachable-marked : (a : ℕ) → Reachable vm a → traced.is_marked a ≡ true
  Reachable-marked a (Reachable.root i) = rooted-marked a i
  Reachable-marked b (Reachable.follow {a = a} o r e j) =
      let k = Reachable-marked a r in
      elim (finished.0.black a k) [
        | inl i ↦ absurd (subst (In a) finished.1 i)
        | inr all ↦ all b o e ((references-Points o).all b j)
      ]

  -- If every reference is to a listed object and no mark is set before, the loop of trace_references
  -- ends with an empty stack, and just the objects that can be reached from the roots are marked.
  pub trace_references_lem :
      (traced.gray ≡ [])
      × ((a : ℕ) → Reachable vm a → traced.is_marked a ≡ true)
      × ((a : ℕ) → traced.is_marked a ≡ true → Reachable vm a)
  trace_references_lem = (finished.1, Reachable-marked, finished.0.reached)
