-- ===== src/Gc/Marks.antt =====
-- What a row of marks does: slp_gc_mark_obj of src/slp_gc.c.
use slp.Gc.Mark.{Marking, update, gray_stack_push, mark_obj, mark_all}
use slp.Prelude.{
  ℕ, ◌+◌, ◌≤◌, ◌≡◌, ◌⊎◌, inl, inr, refl, Bool, true, false, Option, some, none, List, [], ◌∷◌, ◌==◌,
  if◌then◌else◌, arith, length, Bool-cases,
}

-- Membership as a choice of a place.
abbrev pub In : {A : Type 0} → A → List A → Type 0
In x [] = ⊥
In x (y ∷ ys) = (x ≡ y) ⊎ In x ys

-- What the marks of `rs` change: just they are marked in addition, and what is newly marked is on
-- the stack.
pub record Marks (rs : List (Option ℕ)) (m m' : Marking) : Type 0 where
  pub kept : (a : ℕ) → m.is_marked a ≡ true → m'.is_marked a ≡ true
  pub done : (a : ℕ) → In (some a) rs → m'.is_marked a ≡ true
  pub only : (a : ℕ) → m'.is_marked a ≡ true → (m.is_marked a ≡ true) ⊎ In (some a) rs
  pub gray_kept : (a : ℕ) → In a m.gray → In a m'.gray
  pub gray_new : (a : ℕ) → m'.is_marked a ≡ true → (m.is_marked a ≡ true) ⊎ In a m'.gray
  pub gray_marked : (a : ℕ) → In a m'.gray → In a m.gray ⊎ (m'.is_marked a ≡ true)

unchanged-Marks :
    (m : Marking) (r : Option ℕ)
    → ((a : ℕ) → some a ≡ r → m.is_marked a ≡ true)
    → Marks (r ∷ []) m m
unchanged-Marks m r h = record {
  kept = λ a k. k;
  done = λ a i. elim i [ inl e ↦ h a e | inr e ↦ absurd e ];
  only = λ a k. inl k;
  gray_kept = λ a k. k;
  gray_new = λ a k. inl k;
  gray_marked = λ a k. inl k;
}

pushed-Marks :
    (m : Marking) (b : ℕ)
    → Marks (some b ∷ []) m (gray_stack_push (record m { is_marked = update m.is_marked b true }) b)
unfolding gray_stack_push
pushed-Marks m b = record {
  kept = λ a k. ground arith;
  done = λ a i. elim i [ inl e ↦ ground arith | inr e ↦ absurd e ];
  only = λ a k. elim (Bool-cases (b == a)) [
    | inl e ↦ inr (inl (ground arith))
    | inr e ↦ inl (rw e at k)
  ];
  gray_kept = λ a k. inr k;
  gray_new = λ a k. elim (Bool-cases (b == a)) [
    | inl e ↦ inr (inl (ground arith))
    | inr e ↦ inl (rw e at k)
  ];
  gray_marked = λ a i. elim i [ inl e ↦ inr (ground arith) | inr e ↦ inl e ];
}

mark_obj-Marks : (r : Option ℕ) (m : Marking) → Marks (r ∷ []) m (mark_obj r m)
unfolding mark_obj
mark_obj-Marks none m = unchanged-Marks m none (λ a e. cc)
mark_obj-Marks (some b) m = elim (Bool-cases (m.is_marked b)) [
  | inl e ↦ rw e (unchanged-Marks m (some b) (λ a p. ground arith))
  | inr e ↦ rw e (pushed-Marks m b)
]

Marks-trans :
    (r : Option ℕ) (rs : List (Option ℕ)) {m n o : Marking}
    → Marks (r ∷ []) m n
    → Marks rs n o
    → Marks (r ∷ rs) m o
Marks-trans r rs p q = record {
  kept = λ a k. q.kept a (p.kept a k);
  done = λ a i. elim i [ inl e ↦ q.kept a (p.done a (inl e)) | inr e ↦ q.done a e ];
  only = λ a k. elim (q.only a k) [
    | inl n ↦ elim (p.only a n) [
      | inl m ↦ inl m
      | inr i ↦ elim i [ inl e ↦ inr (inl e) | inr e ↦ absurd e ]
    ]
    | inr i ↦ inr (inr i)
  ];
  gray_kept = λ a k. q.gray_kept a (p.gray_kept a k);
  gray_new = λ a k. elim (q.gray_new a k) [
    | inl n ↦ elim (p.gray_new a n) [ inl m ↦ inl m | inr i ↦ inr (q.gray_kept a i) ]
    | inr i ↦ inr i
  ];
  gray_marked = λ a i. elim (q.gray_marked a i) [
    | inl n ↦ elim (p.gray_marked a n) [ inl m ↦ inl m | inr k ↦ inr (q.kept a k) ]
    | inr k ↦ inr k
  ];
}

pub mark_all-Marks : (rs : List (Option ℕ)) (m : Marking) → Marks rs m (mark_all rs m)
unfolding mark_all
mark_all-Marks [] m = record {
  kept = λ a k. k;
  done = λ a i. absurd i;
  only = λ a k. inl k;
  gray_kept = λ a k. k;
  gray_new = λ a k. inl k;
  gray_marked = λ a k. inl k;
}
mark_all-Marks (r ∷ rs) m = Marks-trans r rs (mark_obj-Marks r m) (mark_all-Marks rs (mark_obj r m))

-- The objects that are not marked.
unfoldable pub white : (ℕ → Bool) → List ℕ → ℕ
white f [] = 0
white f (a ∷ as') = (if f a then 0 else 1) + white f as'

pub white-le-length : (f : ℕ → Bool) (as' : List ℕ) → white f as' ≤ length as'
unfolding white
white-le-length f [] = omega arith
white-le-length f (a ∷ as') = ground (arith, white-le-length f as')

white-update_le : (f : ℕ → Bool) (b : ℕ) (as' : List ℕ) → white (update f b true) as' ≤ white f as'
unfolding white
white-update_le f b [] = omega arith
white-update_le f b (a ∷ as') = ground (arith, white-update_le f b as')

white-update_lt :
    (f : ℕ → Bool) (b : ℕ) (as' : List ℕ)
    → In b as'
    → f b ≡ false
    → white (update f b true) as' + 1 ≤ white f as'
unfolding white
white-update_lt f b [] i h = absurd i
white-update_lt f b (a ∷ as') (inl e) h = ground (arith, white-update_le f b as')
white-update_lt f b (a ∷ as') (inr i) h = ground (arith, white-update_lt f b as' i h)

-- What is still to be done: what is on the stack and what is not marked.
abbrev pub work : List ℕ → Marking → ℕ
work objects m = length m.gray + white m.is_marked objects

mark_obj-work :
    (objects : List ℕ) (r : Option ℕ) (m : Marking)
    → ((a : ℕ) → some a ≡ r → In a objects)
    → work objects (mark_obj r m) ≤ work objects m
unfolding mark_obj gray_stack_push
mark_obj-work objects none m h = omega arith
mark_obj-work objects (some b) m h = elim (Bool-cases (m.is_marked b)) [
  | inl e ↦ rw e (omega arith)
  | inr e ↦
      let more = white-update_lt m.is_marked b objects (h b refl) e in rw e (omega (arith, more))
]

-- Marking pointers to listed objects adds no work.
pub mark_all-work :
    (objects : List ℕ) (rs : List (Option ℕ)) (m : Marking)
    → ((a : ℕ) → In (some a) rs → In a objects)
    → work objects (mark_all rs m) ≤ work objects m
unfolding mark_all
mark_all-work objects [] m h = omega arith
mark_all-work objects (r ∷ rs) m h =
    let one = mark_obj-work objects r m (λ a e. h a (inl e)) in
    let rest = mark_all-work objects rs (mark_obj r m) (λ a i. h a (inr i)) in
    omega (arith, one, rest)
