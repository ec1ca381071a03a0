-- ===== src/Bytecode/Reader.antt =====
-- Bounded reads from the serialised bytes: src/slp_bytecode.c.
use mathlib.Core.List.{foldl}
use slp.Prelude.{
  ℕ, ◌+◌, ◌-◌, ◌*◌, ◌%◌, ◌^◌, Option, none, some, ltb, if◌then◌else◌, Bytes, get_or, take, drop,
}

-- `data`, `size` and `offset`, with the address that the allocator hands out next.
pub record Reader : Type 0 where
  pub input : Bytes
  pub size : ℕ
  pub offset : ℕ
  pub next : ℕ

unfoldable pub reader_init : Bytes → ℕ → ℕ → Reader
reader_init bytes size next = record { input = bytes; size = size; offset = 0; next = next }

-- A read returns `none` for C's `false`; the reader stays where the failure left it.
abbrev pub Read {ℓ} : Type ℓ → Type ℓ
Read A = Reader → Option A × Reader

abbrev pub continue {ℓ κ} :
    {A : Type ℓ} {B : Type κ} → Option A × Reader → (A → Read B) → Option B × Reader
continue (some a, r) f = f a r
continue (none, r) f = (none, r)

infixl 5 ◌>>=◌ ◌>>◌
abbrev pub ◌>>=◌ {ℓ κ} : {A : Type ℓ} {B : Type κ} → Read A → (A → Read B) → Read B
◌>>=◌ m f r = continue (m r) f

abbrev pub ◌>>◌ {ℓ} : {B : Type ℓ} → Read (Unit {0}) → Read B → Read B
m >> k = m >>= λ _. k

abbrev pub pure {ℓ} : {A : Type ℓ} → A → Read A
pure a r = (some a, r)

abbrev pub fail {ℓ} : {A : Type ℓ} → Read A
fail r = (none, r)

unfoldable pub advance : Reader → ℕ → Reader
advance r len = record r { offset = r.offset + len }

unfoldable pub read : ℕ → Read Bytes
read len r =
    if ltb r.size (r.offset + len)
    then (none, r)
    else (some (take len (drop r.offset r.input)), advance r len)

-- What is left of the input.
unfoldable pub remaining : Reader → ℕ
remaining r = r.size - r.offset

unfoldable pub read_u8 : Read ℕ
read_u8 = do b ← read 1; pure (get_or b 0 0)

-- The bytes are shifted into place; `|` of disjoint bytes is a sum.
unfoldable pub read_u16 : Read ℕ
read_u16 = do b ← read 2; pure (get_or b 0 0 * 256 + get_or b 1 0)

unfoldable pub read_u32 : Read ℕ
read_u32 = do
  b ← read 4
  pure (get_or b 0 0 * 2 ^ 24 + get_or b 1 0 * 2 ^ 16 + get_or b 2 0 * 2 ^ 8 + get_or b 3 0)

-- `*out = (*out << 8) | buf[i]`, in 64 bits.
abbrev pub shift_in : ℕ → ℕ → ℕ
shift_in out b = out * 256 % 2 ^ 64 + b

unfoldable pub read_u64 : Read ℕ
read_u64 = do b ← read 8; pure (foldl shift_in 0 b)

unfoldable pub read_f64 : Read ℕ
read_f64 = read_u64

-- The allocator hands out a new address.
unfoldable pub allocate : Read ℕ
allocate r = (some r.next, record r { next = r.next + 1 })
