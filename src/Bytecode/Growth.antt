-- ===== src/Bytecode/Growth.antt =====
-- What each write does to the buffer, and that the buffer never outgrows its capacity.
use slp.Prelude.{
  ℕ, ◌+◌, ◌*◌, ◌≤◌, ◌<◌, ◌≡◌, ◌⊎◌, inl, inr, Bool-cases, ltb, Bytes, length, length-append, arith,
}
use slp.Bytecode.Writer.{Writer, ensure_capacity, write}

-- The bytes written fit the capacity.
abbrev pub Fits : Writer → Type 0
Fits w = length w.buffer ≤ w.capacity

-- ensure_capacity makes room for what is needed and leaves a buffer with room alone; when it grows,
-- it at least doubles, to 64 bytes at least.
pub ensure_capacity_lem :
    (w : Writer) (needed : ℕ)
    → Fits w
    → (length w.buffer + needed ≤ ensure_capacity w needed)
      × (((length w.buffer + needed ≤ w.capacity) × (ensure_capacity w needed ≡ w.capacity))
          ⊎ ((w.capacity < length w.buffer + needed)
              × (2 * w.capacity ≤ ensure_capacity w needed)
              × (64 ≤ ensure_capacity w needed)))
unfolding ensure_capacity
ensure_capacity_lem w needed h = (
  ground arith,
  elim (Bool-cases (ltb w.capacity (length w.buffer + needed))) [
    | inl e ↦ inr (ground arith, ground arith, ground arith)
    | inr e ↦ inl (ground arith, ground arith)
  ],
)

-- A buffer that fits its capacity still fits after a write of any bytes.
pub write-Fits : (w : Writer) (bs : Bytes) → Fits w → Fits (write w bs)
unfolding write
write-Fits w bs h =
    omega (arith, length-append w.buffer bs, (ensure_capacity_lem w (length bs) h).0)
