-- ===== src/Bytecode/PoolTrip.antt =====
-- The code and the constant pool written and read back: src/slp_bytecode.c.
use slp.Prelude.{
  ℕ, zero, suc, ◌+◌, ◌≤◌, ◌≡◌, refl, sym, ap, subst, ◌∙◌, true, false, List, [], ◌∷◌, ◌++◌, some,
  Bytes, length, replicate, All, All-concat, arith, append_assoc, append-nil,
}
use slp.Bytecode.Parse.{deserialize_value, read_code, read_constants}
use slp.Bytecode.Print.{serialize_value, serialize_constants}
use slp.Bytecode.Reader.{Reader, advance}
use slp.Bytecode.Rest.{Rest, advance-Rest, read_u8-Rest}
use slp.Bytecode.ValueTrip.{
  Portable, value_bytes, reload, after, serialize_value-bytes, deserialize_value-Rest, after-Rest,
}
use slp.Bytecode.Writer.{Writer}
use slp.Chunk.Laws.{Distinct, Fresh, find_constant-Fresh, add_constant-new}
use slp.Chunk.{Chunk, constants_equal, chunk_write, add_new, chunk_add_constant}
use slp.Value.{Value, null, string, long, double, tainted, object}

-- The addresses that reading a value takes.
abbrev pub cost : Value → ℕ
cost (string a s) = 1
cost (long a l) = 1
cost (double a d) = 1
cost v = 0

-- The pool as it comes back: the same values, with new addresses in order.
abbrev pub reloaded : ℕ → List Value → List Value
reloaded a [] = []
reloaded a (v ∷ vs) = reload a v ∷ reloaded (a + cost v) vs

pub pool_bytes : List Value → Bytes
pool_bytes [] = []
pool_bytes (v ∷ vs) = value_bytes v ++ pool_bytes vs

pub serialize_constants-bytes :
    (w : Writer) (vs : List Value)
    → All Portable vs
    → ((serialize_constants w vs).1 ≡ true)
      × ((serialize_constants w vs).0.buffer ≡ w.buffer ++ pool_bytes vs)
unfolding serialize_constants pool_bytes
serialize_constants-bytes w [] p = (refl, sym (append-nil w.buffer))
serialize_constants-bytes w (v ∷ vs) p =
    let (done, written) = serialize_value-bytes w v p.0 in
    let (all, rest) = serialize_constants-bytes (serialize_value w v).0 vs p.1 in
    rw done
      (all, rest ∙ ap (λ b. b ++ pool_bytes vs) written ∙ append_assoc w.buffer (value_bytes v) _)

-- Constants that differ still differ when they come back at different addresses.
reload_apart :
    (x y : Value) (a b : ℕ)
    → Portable x
    → Portable y
    → a + cost x ≤ b
    → constants_equal x y ≡ false
    → constants_equal (reload a x) (reload b y) ≡ false
unfolding constants_equal
reload_apart null y a b p q h e = ground arith
reload_apart x y a b p q h e = ground arith

after-next : (r : Reader) (v : Value) → Portable v → (after r v).next ≡ r.next + cost v
unfolding after advance
after-next r (tainted a v) p = absurd p
after-next r (object t a) p = absurd p
after-next r _ p = omega arith

-- The pool of `c` holds nothing equal to what `vs` may come back as from address `a` on.
abbrev pub Apart : List Value → ℕ → List Value → Type 0
Apart pool a vs = All (λ y. (b : ℕ) → a ≤ b → Fresh (reload b y) pool) vs

Apart-step :
    (pool : List Value) (a : ℕ) (v : Value) (vs : List Value)
    → Portable v
    → All Portable vs
    → All (λ y. constants_equal v y ≡ false) vs
    → Apart pool a vs
    → Apart (pool ++ reload a v ∷ []) (a + cost v) vs
Apart-step pool a v [] pv ps d h = tt
Apart-step pool a v (y ∷ vs) pv ps d h = (
  λ b lt.
      All-concat _ pool (reload a v) (h.0 b (omega arith)) (reload_apart v y a b pv ps.0 lt d.0),
  Apart-step pool a v vs pv ps.1 d.1 h.1,
)

-- What the loop over the constants leaves: the pool extended by `vs` reloaded.
pub record Reads (c : Chunk) (a : ℕ) (vs : List Value) (rest : Bytes) (result : Chunk × Reader)
    : Type 0 where
  pub code : result.0.code ≡ c.code
  pub lines : result.0.lines ≡ c.lines
  pub constants : result.0.constants ≡ c.constants ++ reloaded a vs
  pub left : Rest result.1 rest

pub read_constants-suc :
    (n : ℕ) (c : Chunk) (r : Reader) {v : Value} {r' : Reader}
    → deserialize_value r ≡ (v, r')
    → read_constants (suc n) c r ≡ read_constants n (chunk_add_constant c v).0 r'
unfolding read_constants
read_constants-suc n c r e = ap (λ p. read_constants n (chunk_add_constant c p.0).0 p.1) e

pub read_constants-Reads :
    (vs : List Value) (c : Chunk) (r : Reader) (rest : Bytes)
    → All Portable vs
    → Distinct vs
    → Apart c.constants r.next vs
    → Rest r (pool_bytes vs ++ rest)
    → Reads c r.next vs rest (read_constants (length vs) c r)
unfolding read_constants pool_bytes add_new
read_constants-Reads [] c r rest p d h u = record {
  code = refl;
  lines = refl;
  constants = sym (append-nil c.constants);
  left = u;
}
read_constants-Reads (v ∷ vs) c r rest p d h u =
    let u' : Rest r (value_bytes v ++ (pool_bytes vs ++ rest)) =
      rw (append_assoc (value_bytes v) (pool_bytes vs) rest) at u in
    let one = deserialize_value-Rest r (pool_bytes vs ++ rest) v p.0 u' in
    let new : chunk_add_constant c (reload r.next v) ≡ add_new c (reload r.next v) =
      add_constant-new c _ (find_constant-Fresh c.constants _ 0 (h.0 r.next (omega arith))) in
    let ih =
      read_constants-Reads vs (add_new c (reload r.next v)).0 (after r v) rest p.1 d.1
        (rw (after-next r v p.0) (Apart-step c.constants r.next v vs p.0 p.1 d.0 h.1))
        (after-Rest r (pool_bytes vs ++ rest) v p.0 u') in
    subst (Reads c r.next (v ∷ vs) rest)
      (sym (
        read_constants-suc (length vs) c r one
        ∙ ap (λ q. read_constants (length vs) (q.0) (after r v)) new))
      (record {
        code = ih.code;
        lines = ih.lines;
        constants =
            ih.constants
            ∙ append_assoc c.constants (reload r.next v ∷ []) (reloaded (after r v).next vs)
            ∙ ap (λ (n : ℕ). c.constants ++ reload r.next v ∷ reloaded n vs) (after-next r v p.0);
        left = ih.left;
      })

-- The loop over the code appends the bytes, each with line 0.
abbrev pub coded : Chunk → Bytes → Chunk
coded c [] = c
coded c (b ∷ bs) = coded (chunk_write c b 0).0 bs

pub coded-fields :
    (c : Chunk) (bs : Bytes)
    → ((coded c bs).code ≡ c.code ++ bs)
      × ((coded c bs).lines ≡ c.lines ++ replicate (length bs) 0)
      × ((coded c bs).constants ≡ c.constants)
unfolding chunk_write
coded-fields c [] = (sym (append-nil c.code), sym (append-nil c.lines), refl)
coded-fields c (b ∷ bs) =
    let (code, lines, constants) = coded-fields (chunk_write c b 0).0 bs in
    (
      code ∙ append_assoc c.code (b ∷ []) bs,
      lines ∙ append_assoc c.lines (0 ∷ []) (replicate (length bs) 0),
      constants,
    )

-- The reader behind `n` single bytes.
abbrev pub stepped : Reader → ℕ → Reader
stepped r zero = r
stepped r (suc n) = stepped (advance r 1) n

pub stepped-next : (r : Reader) (n : ℕ) → (stepped r n).next ≡ r.next
unfolding advance
stepped-next r zero = refl
stepped-next r (suc n) = stepped-next (advance r 1) n

pub Apart-empty : (pool : List Value) (a : ℕ) (vs : List Value) → pool ≡ [] → Apart pool a vs
Apart-empty pool a [] e = tt
Apart-empty pool a (v ∷ vs) e = (λ b h. rw e tt, Apart-empty pool a vs e)

pub read_code-Rest :
    (bs : Bytes) (c : Chunk) (r : Reader) (rest : Bytes)
    → Rest r (bs ++ rest)
    → (read_code (length bs) c r ≡ (some (coded c bs), stepped r (length bs)))
      × Rest (stepped r (length bs)) rest
unfolding read_code
read_code-Rest [] c r rest h = (refl, h)
read_code-Rest (b ∷ bs) c r rest h = rw (read_u8-Rest r (bs ++ rest) b h) (
    read_code-Rest bs (chunk_write c b 0).0 (advance r 1) rest
      (advance-Rest r (b ∷ []) (bs ++ rest) h))
