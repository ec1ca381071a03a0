-- ===== src/StringBuffer/Appends.antt =====
-- What the appends of src/slp_utils.c do to the text and to the block.
use slp.Prelude.{
  ℕ, zero, suc, ◌+◌, ◌*◌, ◌≤◌, ◌≡◌, refl, ◌∙◌, ap, sym, [], ◌∷◌, ◌++◌, ◌==◌, take_prefix,
  if◌then◌else◌, Bytes, length, take, get_or, arith, length-append, append_assoc,
}
use slp.StringBuffer.{
  StringBuffer, doubled, reserve, string_buffer_append_char, string_buffer_append_string,
}

-- The characters in use.
abbrev pub text : StringBuffer → Bytes
text b = take b.count b.data'

-- The characters in use are in the block, which has room for what was written to it.
pub record IsValid (b : StringBuffer) : Type 0 where
  pub counted : b.count ≤ length b.data'
  pub fits : length b.data' ≤ b.capacity

length-take_all : (n : ℕ) (t : Bytes) → n ≤ length t → length (take n t) ≡ n
length-take_all zero t h = refl
length-take_all (suc n) [] h = absurd (omega (arith, h))
length-take_all (suc n) (c ∷ t) h = ap suc (length-take_all n t (omega (arith, h)))

take-append : (xs ys : Bytes) (n : ℕ) → n ≡ length xs → take n (xs ++ ys) ≡ xs
take-append xs ys n h = ap (λ k. take k (xs ++ ys)) h ∙ take_prefix xs ys

get_or-append_end : (xs : Bytes) (c n : ℕ) → n ≡ length xs → get_or (xs ++ c ∷ []) n 1 ≡ c
get_or-append_end [] c n h = rw h refl
get_or-append_end (x ∷ xs) c zero h = absurd (omega (arith, h))
get_or-append_end (x ∷ xs) c (suc n) h = get_or-append_end xs c n (omega (arith, h))

doubled-enough :
    (f capacity needed : ℕ)
    → 1 ≤ capacity
    → needed ≤ f + capacity
    → needed ≤ doubled f capacity needed
unfolding doubled
doubled-enough zero capacity needed one h = omega (arith, h)
doubled-enough (suc f) capacity needed one h =
    let rest =
      doubled-enough f (capacity * 2) needed (omega (arith, one)) (omega (arith, one, h)) in
    ground (arith, rest)

reserve-enough : (b : StringBuffer) (needed : ℕ) → needed ≤ reserve b needed
unfolding reserve
reserve-enough b needed =
    let first : ℕ = if b.capacity == 0 then 16 else b.capacity * 2 in
    let one : 1 ≤ first = ground arith in
    let loop = doubled-enough needed first needed one (omega arith) in ground (arith, loop)

-- What an append of `s` promises.
pub record IsAppended (b : StringBuffer) (s : Bytes) (b' : StringBuffer) : Type 0 where
  pub text : text b' ≡ text b ++ s
  pub valid : IsValid b'
  pub terminated : get_or b'.data' b'.count 1 ≡ 0

stored-IsAppended :
    (b : StringBuffer) (s : Bytes) (n capacity : ℕ)
    → IsValid b
    → n ≡ b.count + length s
    → n + 1 ≤ capacity
    → IsAppended b s (record { data' = text b ++ (s ++ 0 ∷ []); count = n; capacity = capacity })
stored-IsAppended b s n capacity v e room =
    let kept = length-take_all b.count b.data' v.counted in
    let used : n ≡ length (text b ++ s) = omega (arith, kept, e, length-append (text b) s) in
    let joined : text b ++ (s ++ 0 ∷ []) ≡ (text b ++ s) ++ 0 ∷ [] =
      sym (append_assoc (text b) s (0 ∷ [])) in
    let size : length (text b ++ (s ++ 0 ∷ [])) ≡ n + 1 =
      ap length joined ∙ omega (arith, used, length-append (text b ++ s) (0 ∷ [])) in
    record {
      text = ap (take n) joined ∙ take-append (text b ++ s) (0 ∷ []) n used;
      valid = record { counted = omega (arith, size); fits = omega (arith, size, room) };
      terminated = ap (λ t. get_or t n 1) joined ∙ get_or-append_end (text b ++ s) 0 n used;
    }

-- A character appended to a valid buffer stands behind the old text, with a terminating 0 behind it,
-- and all of it fits the block: the buffer stays valid.
append_char-IsAppended :
    (b : StringBuffer) (c : ℕ) → IsValid b → IsAppended b (c ∷ []) (string_buffer_append_char b c)
unfolding string_buffer_append_char
append_char-IsAppended b c v =
    stored-IsAppended b (c ∷ []) (b.count + 1) _ v (omega arith)
      (omega (arith, reserve-enough b (b.count + 2)))

-- A text of at least one character appended to a valid buffer stands behind the old text, with a
-- terminating 0 behind it, and the buffer stays valid.
pub append_string-IsAppended :
    (b : StringBuffer) (s : Bytes)
    → 1 ≤ length s
    → IsValid b
    → IsAppended b s (string_buffer_append_string b s)
unfolding string_buffer_append_string
append_string-IsAppended b [] h v = absurd (omega (arith, h))
append_string-IsAppended b (c ∷ s) h v =
    stored-IsAppended b (c ∷ s) (b.count + length (c ∷ s)) _ v refl
      (reserve-enough b (b.count + length (c ∷ s) + 1))
