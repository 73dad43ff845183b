-- ===== src/Hyperslab.antt =====
-- Hyperslab selections, crates/oxih5-format/src/hyperslab.rs. `u64` arithmetic that the code leaves
-- unchecked panics where it overflows or goes below 0, and so does a division by a zero stride.
pub mod Selection
pub mod Placement
pub mod Validation
use oxih.Base.{
  ℕ, zero, suc, ◌+◌, ◌*◌, ◌/◌, ◌%◌, ◌-◌, List, [], ◌∷◌, Option, none, some, Bool, true, false, not,
  ◌&&◌, ◌||◌, ltb, leb, ◌==◌, if◌then◌else◌,
}
use oxih.Outcome.{Outcome, ok, guard, require, mul_usize, add_usize, sub_usize, format, ◌>>=◌, ◌>>◌}

pub record DimSelection : Type 0 where
  pub start : ℕ
  pub stride : ℕ
  pub count : ℕ
  pub block : ℕ

-- `DimSelection::contiguous(start .. end)`
unfoldable pub contiguous : ℕ → ℕ → Outcome DimSelection
contiguous start end = do
  count ← sub_usize end start
  ok (record { start = start; stride = 1; count = count; block = 1 })

unfoldable pub n_elements : DimSelection → Outcome ℕ
n_elements sel = mul_usize (sel.count) (sel.block)

abbrev pub is_empty_dim : DimSelection → Bool
is_empty_dim sel = sel.count == 0 || sel.block == 0

unfoldable pub last_element : DimSelection → Outcome (Option ℕ)
last_element sel = if is_empty_dim sel then ok none else (do
  blocks ← mul_usize (sel.count - 1) (sel.stride)
  last_block ← add_usize (sel.start) blocks
  last ← add_usize last_block (sel.block - 1)
  ok (some last))

unfoldable pub contains : DimSelection → ℕ → Outcome Bool
contains sel coord = if is_empty_dim sel || ltb coord (sel.start) then ok false else (do
  require (not (sel.stride == 0))
  let rel = coord - sel.start
  ok (ltb (rel / sel.stride) (sel.count) && ltb (rel % sel.stride) (sel.block)))

-- One range of `bounding_ranges`.
unfoldable pub bounding_range : DimSelection → Outcome (ℕ × ℕ)
bounding_range sel = if is_empty_dim sel then ok (0, 0) else (do
  last ← last_element sel
  end ← elim last [ none ↦ ok (sel.start) | some l ↦ add_usize l 1 ]
  ok (sel.start, end))

unfoldable pub bounding_ranges : List DimSelection → Outcome (List (ℕ × ℕ))
bounding_ranges [] = ok []
bounding_ranges (sel ∷ dims) = do
  range ← bounding_range sel
  ranges ← bounding_ranges dims
  ok (range ∷ ranges)

unfoldable pub output_shape : List DimSelection → Outcome (List ℕ)
output_shape [] = ok []
output_shape (sel ∷ dims) = do n ← n_elements sel; shape ← output_shape dims; ok (n ∷ shape)

unfoldable pub is_fully_contiguous : List DimSelection → Bool
is_fully_contiguous [] = true
is_fully_contiguous (sel ∷ dims) = sel.stride == 1 && sel.block == 1 && is_fully_contiguous dims

unfoldable pub is_empty : List DimSelection → Bool
is_empty [] = false
is_empty (sel ∷ dims) = is_empty_dim sel || is_empty dims

unfoldable pub validate : List DimSelection → Outcome (Unit {0})
validate [] = ok tt
validate (sel ∷ dims) = do
  guard (not (ltb 0 (sel.count) && ltb 0 (sel.block) && sel.stride == 0)) format
  validate dims

-- The coordinate in the output of a selected coordinate.
unfoldable pub out_coord : DimSelection → ℕ → Outcome ℕ
out_coord sel coord = do
  rel ← sub_usize coord (sel.start)
  require (not (sel.stride == 0))
  before ← mul_usize (rel / sel.stride) (sel.block)
  add_usize before (rel % sel.stride)
