-- ===== src/Cursor/Laws.antt =====
-- The cursor's methods against the bytes in front of it.
use oxih.Base.{
  ℕ, zero, suc, ◌+◌, ◌-◌, ◌^◌, ◌<◌, ◌≤◌, ◌≡◌, ◌≢◌, refl, sym, ◌∙◌, ap, [], ◌∷◌, ◌++◌, arith, length,
  All, lt→ltb, le→leb, replicate, leb,
}
use oxih.Bytes.{
  Bytes, IsByte, sub, from_le, le_bytes, from_le-le_bytes, length-sub, sub-IsByte, from_le-lt,
}
use oxih.Outcome.{Outcome, ok, err, panic, word, corrupted, require, ◌>>=◌, >>=-eq-ok}
use mathlib.Core.Path.{fun_ext}
use oxih.Cursor.{
  Cursor, read_slice, read_u16_le, read_u24_le, read_u32_le, read_u64_le, read_uint_le,
}

-- Zero bytes behind the top do not change the value.
from_le-zeros : (bs : Bytes) (k : ℕ) → from_le (bs ++ replicate k 0) ≡ from_le bs
from_le-zeros [] zero = refl
from_le-zeros [] (suc k) = omega (arith, from_le-zeros [] k)
from_le-zeros (b ∷ bs) k = omega (arith, from_le-zeros bs k)

pub read_slice_ok :
    (c : Cursor) (n : ℕ)
    → c.pos + n ≤ length c.bytes
    → length c.bytes < word
    → read_slice c n ≡ ok (sub c.bytes c.pos n, record c { pos = c.pos + n })
unfolding read_slice
read_slice_ok c n h small =
    rw (lt→ltb (c.pos + n) word (omega arith), le→leb (c.pos + n) (length c.bytes) h)

-- Past the end every fixed read is a `Corrupted` error, wherever the cursor stands.
pub read_slice_past :
    (c : Cursor) (n : ℕ) → length c.bytes < c.pos + n → read_slice c n ≡ err corrupted
unfolding read_slice
read_slice_past c n h = ground arith

pub read_slice-ne-panic : (c : Cursor) (n : ℕ) → read_slice c n ≢ panic
unfolding read_slice
read_slice-ne-panic c n = ground arith

-- In a buffer shorter than the address range, a value written little-endian in the `n ≤ 8` bytes in
-- front of the cursor, which it fits, is read back by `read_uint_le`, and the cursor is left behind it.
pub read_uint_le_field :
    (c : Cursor) (n v : ℕ)
    → n ≤ 8
    → c.pos + n ≤ length c.bytes
    → length c.bytes < word
    → sub c.bytes c.pos n ≡ le_bytes n v
    → v < 256 ^ n
    → read_uint_le c n ≡ ok (v, record c { pos = c.pos + n })
unfolding read_uint_le
read_uint_le_field c n v few long small field fits =
    let value : from_le (le_bytes n v ++ replicate (8 - n) 0) ≡ v =
      from_le-zeros (le_bytes n v) (8 - n) ∙ from_le-le_bytes n v fits in
    rw (read_slice_ok c n long small, le→leb n 8 few, field, value)

pads : (k : ℕ) → (λ (s : Bytes). from_le (s ++ replicate k 0)) ≡ from_le
pads k = fun_ext (λ s. from_le-zeros s k)

-- The fixed-width reads are `read_uint_le` at their widths, on every cursor.
pub fixed_reads :
    (c : Cursor)
    → (read_u16_le c ≡ read_uint_le c 2)
      × (read_u24_le c ≡ read_uint_le c 3)
      × (read_u32_le c ≡ read_uint_le c 4)
      × (read_u64_le c ≡ read_uint_le c 8)
unfolding read_u16_le read_u24_le read_u32_le read_u64_le read_uint_le
fixed_reads c =
    let with : ℕ → (Bytes → ℕ) → Outcome (ℕ × Cursor) =
      λ n f. read_slice c n >>= λ x. ok (f x.0, x.1) in
    (
      ap (with 2) (sym (pads 6)),
      ap (with 3) (pads 1 ∙ sym (pads 5)),
      ap (with 4) (sym (pads 4)),
      ap (with 8) (sym (pads 0)),
    )

read_slice_inv :
    (c d : Cursor) (n : ℕ) (s : Bytes)
    → read_slice c n ≡ ok (s, d)
    → (s ≡ sub c.bytes c.pos n)
      × (d.bytes ≡ c.bytes)
      × (d.pos ≡ c.pos + n)
      × (c.pos + n ≤ length c.bytes)
unfolding read_slice
read_slice_inv c d n s e = ground arith

bounds_part :
    (c d c' : Cursor) (n v : ℕ) (s : Bytes)
    → All IsByte c.bytes
    → read_slice c n ≡ ok (s, d)
    → ◌>>=◌ {C = ℕ × Cursor} (require (leb n 8)) (λ _. ok (from_le (s ++ replicate (8 - n) 0), d))
      ≡ ok (v, c')
    → (v < 256 ^ n)
      × (n ≤ 8)
      × (c'.bytes ≡ c.bytes)
      × (c'.pos ≡ c.pos + n)
      × (c'.pos ≤ length c.bytes)
bounds_part c d c' n v s h one e =
    let (is, kept, moved, inside) = read_slice_inv c d n s one in
    let field : from_le s < 256 ^ n = rw is (
      rw (length-sub c.bytes c.pos n inside) at
        (from_le-lt (sub c.bytes c.pos n) (sub-IsByte c.bytes c.pos n h))) in
    ground (arith, from_le-zeros s (8 - n))

-- A read over bytes that succeeds moves the cursor by the width, inside the bytes, and the value fits it.
pub read_uint_le_bounds :
    (c c' : Cursor) (n v : ℕ)
    → All IsByte c.bytes
    → read_uint_le c n ≡ ok (v, c')
    → (v < 256 ^ n)
      × (n ≤ 8)
      × (c'.bytes ≡ c.bytes)
      × (c'.pos ≡ c.pos + n)
      × (c'.pos ≤ length c.bytes)
unfolding read_uint_le
read_uint_le_bounds c c' n v h e =
    let (r, one, rest) = >>=-eq-ok (read_slice c n) _ e in bounds_part c r.1 c' n v r.0 h one rest
