-- ===== src/Cursor.antt =====
-- The sequential reader of crates/oxih5-format/src/cursor.rs: the bytes and a position. A method
-- returns its result and the cursor that it leaves.
pub mod Laws
use oxih.Base.{
  ℕ, zero, suc, ◌+◌, ◌-◌, ◌≡◌, List, [], ◌∷◌, ◌++◌, Option, none, some, true, false, length, leb,
  ltb, get_elem?, replicate, if◌then◌else◌,
}
use oxih.Bytes.{Bytes, sub, get_range, from_le}
use oxih.Outcome.{Outcome, ok, err, guard, require, ok_or, checked_add, ◌>>=◌, ◌>>◌, corrupted}

pub record Cursor : Type 0 where
  pub bytes : Bytes
  pub pos : ℕ

unfoldable pub new : Bytes → Cursor
new bytes = record { bytes = bytes; pos = 0 }

unfoldable pub at : Bytes → ℕ → Cursor
at bytes pos = record { bytes = bytes; pos = pos }

unfoldable pub remaining : Cursor → ℕ
remaining c = length c.bytes - c.pos

unfoldable pub seek : Cursor → ℕ → Cursor
seek c pos = record c { pos = pos }

unfoldable pub skip : Cursor → ℕ → Outcome (Unit {0} × Cursor)
skip c n = do
  new_pos ← ok_or (checked_add c.pos n) corrupted
  guard (leb new_pos (length c.bytes)) corrupted
  ok (tt, record c { pos = new_pos })

unfoldable pub read_slice : Cursor → ℕ → Outcome (Bytes × Cursor)
read_slice c n = do
  stop ← ok_or (checked_add c.pos n) corrupted
  slice ← ok_or (get_range c.bytes c.pos n) corrupted
  ok (slice, record c { pos = stop })

unfoldable pub read_u8 : Cursor → Outcome (ℕ × Cursor)
read_u8 c = do b ← ok_or (get_elem? c.bytes c.pos) corrupted; ok (b, record c { pos = c.pos + 1 })

unfoldable pub read_u16_le : Cursor → Outcome (ℕ × Cursor)
read_u16_le c = do (s, c') ← read_slice c 2; ok (from_le s, c')

-- Three bytes, and a zero as the fourth.
unfoldable pub read_u24_le : Cursor → Outcome (ℕ × Cursor)
read_u24_le c = do (s, c') ← read_slice c 3; ok (from_le (s ++ (0 ∷ [])), c')

unfoldable pub read_u32_le : Cursor → Outcome (ℕ × Cursor)
read_u32_le c = do (s, c') ← read_slice c 4; ok (from_le s, c')

unfoldable pub read_u64_le : Cursor → Outcome (ℕ × Cursor)
read_u64_le c = do (s, c') ← read_slice c 8; ok (from_le s, c')

-- A width above the eight bytes of the buffer panics, after the slice has been read.
unfoldable pub read_uint_le : Cursor → ℕ → Outcome (ℕ × Cursor)
read_uint_le c width = do
  (s, c') ← read_slice c width
  require (leb width 8)
  ok (from_le (s ++ replicate (8 - width) 0), c')
