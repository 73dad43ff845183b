-- ===== src/LocalHeap.antt =====
-- The local heap of an old-style group, crates/oxih5-format/src/heap.rs.
pub mod Laws
use oxih.Base.{
  ℕ, suc, ◌+◌, ◌-◌, ◌≡◌, List, [], ◌∷◌, Option, none, some, true, false, not, length, take, drop,
  ltb, leb, ◌==◌, if◌then◌else◌,
}
use oxih.Bytes.{Bytes, index_range, index_from, index, eq_bytes, read_u64_le}
use oxih.Outcome.{Outcome, ok, err, guard, ok_or, checked_add, ◌>>=◌, ◌>>◌, format, corrupted}
use oxih.Utf8.{is_utf8}

abbrev pub heap_signature : Bytes
heap_signature = b'H' ∷ b'E' ∷ b'A' ∷ b'P' ∷ []

-- The bytes of the data segment.
pub record LocalHeap : Type 0 where
  pub segment : Bytes

-- `iter().position(|&b| b == 0)`
unfoldable pub nul_position : Bytes → Option ℕ
nul_position [] = none
nul_position (b ∷ bs) =
    let later = nul_position bs in
    if b == 0 then some 0 else elim later [ none ↦ none | some i ↦ some (suc i) ]

unfoldable pub name_at : LocalHeap → ℕ → Outcome Bytes
unfolding nul_position
name_at heap offset = do
  guard (ltb offset (length heap.segment)) format
  rest ← index_from (heap.segment) offset
  nul_pos ← ok_or (nul_position rest) format
  name ← index_range (heap.segment) offset nul_pos
  guard (is_utf8 name) format
  ok name

unfoldable pub parse : Bytes → ℕ → Outcome LocalHeap
parse file heap_address = do
  off32 ← ok_or (checked_add heap_address 32) corrupted
  guard (leb off32 (length file)) format
  signature ← index_range file heap_address 4
  guard (eq_bytes signature heap_signature) format
  version ← index file (heap_address + 4)
  guard (version == 0) format
  segment_size ← read_u64_le file (heap_address + 8)
  segment_address ← read_u64_le file (heap_address + 24)
  segment_end ← ok_or (checked_add segment_address segment_size) corrupted
  guard (leb segment_end (length file)) format
  segment ← index_range file segment_address segment_size
  ok (record { segment = segment })
