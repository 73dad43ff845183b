-- ===== src/Bytes/Read.antt =====
-- The bounds-checked readers `read_u64_le`, `read_u32_le` and `read_u16_le` of
-- crates/oxih5-format/src/superblock.rs, which every parser of fixed structures uses.
use oxih.Base.{
  ℕ, ◌+◌, ◌^◌, ◌<◌, ◌≤◌, ◌≡◌, ◌≢◌, ◌∙◌, ap, [], ◌∷◌, arith, length, leb, lt→ltb, le→leb, All,
}
use oxih.Bytes.Le.{Bytes, from_le, le_bytes, from_le-le_bytes, IsByte, from_le-lt}
use oxih.Bytes.Slice.{sub, index, get_elem?-sub, sub-IsByte, length-sub}
use oxih.Outcome.{Outcome, ok, err, panic, format, guard, add_usize, word, ◌>>=◌, ◌>>◌, unwrap}

-- `if offset + n > bytes.len() { return Err(..) }`, then `from_le_bytes` of the sub-slice.
unfoldable pub read_le : ℕ → Bytes → ℕ → Outcome ℕ
read_le n bytes offset = do
  stop ← add_usize offset n
  guard (leb stop (length bytes)) format
  ok (from_le (sub bytes offset n))

abbrev pub read_u64_le : Bytes → ℕ → Outcome ℕ
read_u64_le bytes offset = read_le 8 bytes offset

abbrev pub read_u32_le : Bytes → ℕ → Outcome ℕ
read_u32_le bytes offset = read_le 4 bytes offset

abbrev pub read_u16_le : Bytes → ℕ → Outcome ℕ
read_u16_le bytes offset = read_le 2 bytes offset

pub read_le_ok :
    (n : ℕ) (bytes : Bytes) (offset : ℕ)
    → length bytes < word
    → offset + n ≤ length bytes
    → read_le n bytes offset ≡ ok (from_le (sub bytes offset n))
unfolding read_le
read_le_ok n bytes offset w h =
    rw (lt→ltb (offset + n) word (omega arith)) (rw (le→leb (offset + n) (length bytes) h))

-- The readers fail with a format error past the end, and panic only where the offset overflows.
pub read_le_past :
    (n : ℕ) (bytes : Bytes) (offset : ℕ)
    → offset + n < word
    → length bytes < offset + n
    → read_le n bytes offset ≡ err format
unfolding read_le
read_le_past n bytes offset w h = ground arith

pub read_le-ne-panic :
    (n : ℕ) (bytes : Bytes) (offset : ℕ) → offset + n < word → read_le n bytes offset ≢ panic
unfolding read_le
read_le-ne-panic n bytes offset w = ground arith

-- What a reader returns lies inside the bytes.
pub read_le-inside :
    (n : ℕ) (bytes : Bytes) (offset : ℕ) {v : ℕ}
    → read_le n bytes offset ≡ ok v
    → offset + n ≤ length bytes
unfolding read_le
read_le-inside n bytes offset h = ground arith

-- A field that holds the little-endian bytes of `v` is read back as `v`.
pub read_le_field :
    (n : ℕ) (bytes : Bytes) (offset v : ℕ)
    → length bytes < word
    → offset + n ≤ length bytes
    → sub bytes offset n ≡ le_bytes n v
    → v < 256 ^ n
    → read_le n bytes offset ≡ ok v
read_le_field n bytes offset v w h e b =
    read_le_ok n bytes offset w h ∙ ap ok (ap from_le e ∙ from_le-le_bytes n v b)

pub index_field : (bytes : Bytes) (p b : ℕ) → sub bytes p 1 ≡ b ∷ [] → index bytes p ≡ ok b
index_field bytes p b h = ap unwrap (get_elem?-sub bytes p h)

pub read_le_value :
    (n : ℕ) (bytes : Bytes) (offset : ℕ) {v : ℕ}
    → read_le n bytes offset ≡ ok v
    → v ≡ from_le (sub bytes offset n)
unfolding read_le
read_le_value n bytes offset h = ground arith

-- `n` bytes make a number of `8 * n` bits.
pub read_le-lt :
    (n : ℕ) (bytes : Bytes) (offset : ℕ) {v : ℕ}
    → All IsByte bytes
    → read_le n bytes offset ≡ ok v
    → v < 256 ^ n
read_le-lt n bytes offset h e =
    let inside = read_le-inside n bytes offset e in
    let field = from_le-lt (sub bytes offset n) (sub-IsByte bytes offset n h) in
    let value : from_le (sub bytes offset n) < 256 ^ n =
      rw (length-sub bytes offset n inside) at field in
    omega (arith, value, read_le_value n bytes offset e)
