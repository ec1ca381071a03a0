-- ===== src/Bytecode/Rest.antt =====
-- Reads from a reader whose unread input is known: src/slp_bytecode.c.
use mathlib.Core.List.{foldl}
use slp.Prelude.{
  ℕ, ◌+◌, ◌*◌, ◌^◌, ◌≤◌, ◌<◌, ◌≡◌, refl, sym, ap, ◌∙◌, [], ◌∷◌, ◌++◌, some, le→ltb, Bytes, length,
  drop, arith, drop-length, take_prefix, drop-drop, length-append,
}
use slp.Bytecode.Reader.{
  Reader, shift_in, reader_init, advance, read, remaining, read_u8, read_u32, read_u64,
}
use slp.Bytecode.Writer.{byte_at, u32_bytes, u64_bytes}

-- The bytes not yet read are `bs`.
pub record Rest (r : Reader) (bs : Bytes) : Type 0 where
  pub unread : drop r.offset r.input ≡ bs
  pub sized : r.offset + length bs ≡ r.size

pub reader_init-Rest : (bs : Bytes) (next : ℕ) → Rest (reader_init bs (length bs) next) bs
unfolding reader_init
reader_init-Rest bs next = record { unread = refl; sized = omega arith }

module _ (r : Reader) (bs rest : Bytes) (h : Rest r (bs ++ rest)) where
  pub read-Rest : read (length bs) r ≡ (some bs, advance r (length bs))
  unfolding read
  read-Rest = rw (
    le→ltb r.size (r.offset + length bs) (omega (arith, h.sized, length-append bs rest)),
    h.unread,
    take_prefix bs rest,
  )

  pub advance-Rest : Rest (advance r (length bs)) rest
  unfolding advance
  advance-Rest = record {
    unread =
        sym (drop-drop r.offset (length bs) (r.offset + length bs) r.input refl)
        ∙ ap (drop (length bs)) h.unread
        ∙ drop-length bs rest;
    sized = omega (arith, h.sized, length-append bs rest);
  }

  pub remaining-Rest : length bs ≤ remaining r
  unfolding remaining
  remaining-Rest = omega (arith, h.sized, length-append bs rest)

u32_sum :
    (n : ℕ)
    → n < 2 ^ 32
    → byte_at n 24 * 2 ^ 24 + byte_at n 16 * 2 ^ 16 + byte_at n 8 * 2 ^ 8 + byte_at n 0 ≡ n
u32_sum n h = omega arith

u64_sum : (n : ℕ) → n < 2 ^ 64 → foldl shift_in 0 (u64_bytes n) ≡ n
u64_sum n h = omega arith

module _ (r : Reader) (rest : Bytes) where
  pub read_u8-Rest : (b : ℕ) → Rest r (b ∷ rest) → read_u8 r ≡ (some b, advance r 1)
  unfolding read_u8
  read_u8-Rest b h = rw (read-Rest r (b ∷ []) rest h)

  pub read_u32-Rest :
      (n : ℕ) → n < 2 ^ 32 → Rest r (u32_bytes n ++ rest) → read_u32 r ≡ (some n, advance r 4)
  unfolding read_u32
  read_u32-Rest n b h = rw (read-Rest r (u32_bytes n) rest h) (rw (u32_sum n b))

  pub read_u64-Rest :
      (n : ℕ) → n < 2 ^ 64 → Rest r (u64_bytes n ++ rest) → read_u64 r ≡ (some n, advance r 8)
  unfolding read_u64
  read_u64-Rest n b h = rw (read-Rest r (u64_bytes n) rest h) (rw (u64_sum n b))
