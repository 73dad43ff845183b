-- ===== src/Filters/Shuffle.antt =====
-- `shuffle` and `unshuffle` of crates/oxih5-format/src/filters.rs: two loops each, over the bytes of
-- an element and over the elements, that fill a zeroed buffer.
pub mod Copy
pub mod Laws
pub mod Bytewise
use oxih.Base.{
  ℕ, zero, suc, ◌+◌, ◌*◌, ◌/◌, ◌%◌, ◌≡◌, List, [], ◌∷◌, true, false, not, length, set, replicate,
  ◌==◌, ltb, if◌then◌else◌,
}
use oxih.Bytes.{Bytes, index}
use oxih.Outcome.{Outcome, ok, err, panic, guard, require, format, ◌>>=◌, ◌>>◌}

-- `out[to] = bytes[from]`
unfoldable pub move_byte : Bytes → ℕ → ℕ → Bytes → Outcome Bytes
move_byte bytes to from out = do
  b ← index bytes from
  require (ltb to (length out))
  ok (set out to b)

-- `for elem_idx in ..`, with `left` rounds to go; the body moves one byte.
unfoldable pub copy_elems : (ℕ → ℕ) → (ℕ → ℕ) → Bytes → ℕ → ℕ → Bytes → Outcome Bytes
copy_elems to from bytes elem_idx zero out = ok out
copy_elems to from bytes elem_idx (suc left) out = do
  out ← move_byte bytes (to elem_idx) (from elem_idx) out
  copy_elems to from bytes (elem_idx + 1) left out

-- `for byte_pos in ..`, around it.
unfoldable pub copy_bytes : (ℕ → ℕ → ℕ) → (ℕ → ℕ → ℕ) → Bytes → ℕ → ℕ → ℕ → Bytes → Outcome Bytes
copy_bytes to from bytes n_elems byte_pos zero out = ok out
copy_bytes to from bytes n_elems byte_pos (suc left) out = do
  out ← copy_elems (to byte_pos) (from byte_pos) bytes 0 n_elems out
  copy_bytes to from bytes n_elems (byte_pos + 1) left out

-- The places of a byte of an element, in the two layouts.
abbrev pub by_elem : ℕ → ℕ → ℕ → ℕ
by_elem elem_size byte_pos elem_idx = elem_idx * elem_size + byte_pos

abbrev pub by_byte : ℕ → ℕ → ℕ → ℕ
by_byte n_elems byte_pos elem_idx = byte_pos * n_elems + elem_idx

unfoldable pub shuffle : Bytes → ℕ → Outcome Bytes
shuffle bytes elem_size = do
  guard (not (elem_size == 0)) format
  guard (length bytes % elem_size == 0) format
  let n_elems = length bytes / elem_size
  copy_bytes (by_byte n_elems) (by_elem elem_size) bytes n_elems 0 elem_size
      (replicate (length bytes) 0)

unfoldable pub unshuffle : Bytes → ℕ → Outcome Bytes
unshuffle bytes elem_size = do
  guard (not (elem_size == 0)) format
  guard (length bytes % elem_size == 0) format
  let n_elems = length bytes / elem_size
  copy_bytes (by_elem elem_size) (by_byte n_elems) bytes n_elems 0 elem_size
      (replicate (length bytes) 0)
