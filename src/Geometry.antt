-- ===== src/Geometry.antt =====
-- Row-major coordinates: `row_major_strides` and `flat_to_coords`, of which
-- crates/oxih5-format/src/chunked/geometry.rs and hyperslab.rs each have a copy.
pub mod Coords
pub mod Copy
pub mod Elems
pub mod Locate
use oxih.Base.{
  ℕ, zero, suc, ◌+◌, ◌*◌, ◌/◌, ◌%◌, List, [], ◌∷◌, ◌==◌, if◌then◌else◌, Option, leb, length, some,
  none,
}
use oxih.Outcome.{Outcome, ok, panic, mul_usize, add_usize, ◌>>=◌}
use oxih.Bytes.{Bytes, put, index_range}

-- The stride in front of strides `strides`, of a dimension that `extent` follows.
unfoldable pub push_stride : ℕ → List ℕ → Outcome (List ℕ)
push_stride extent [] = ok []
push_stride extent (stride ∷ strides) = do
  larger ← mul_usize stride extent
  ok (larger ∷ stride ∷ strides)

-- The loop runs from the last dimension, whose stride is 1, to the first.
unfoldable pub row_major_strides : List ℕ → Outcome (List ℕ)
row_major_strides [] = ok []
row_major_strides (extent ∷ []) = ok (1 ∷ [])
row_major_strides (extent ∷ next ∷ dims) = do
  strides ← row_major_strides (next ∷ dims)
  push_stride next strides

-- The loop over `ndims` dimensions, which reads a stride for each. A zero stride leaves its coordinate
-- at 0.
unfoldable pub flat_to_coords : ℕ → List ℕ → ℕ → Outcome (List ℕ)
flat_to_coords flat strides zero = ok []
flat_to_coords flat [] (suc ndims) = panic
flat_to_coords flat (stride ∷ strides) (suc ndims) = do
  let left = if stride == 0 then flat else flat % stride
  let coord = if stride == 0 then 0 else flat / stride
  coords ← flat_to_coords left strides ndims
  ok (coord ∷ coords)

-- `coords.iter().zip(strides).map(|(c, s)| c * s).sum()`, from the terms summed so far.
unfoldable pub flat_index : ℕ → List ℕ → List ℕ → Outcome ℕ
flat_index sum [] strides = ok sum
flat_index sum (c ∷ coords) [] = ok sum
flat_index sum (c ∷ coords) (s ∷ strides) = do
  term ← mul_usize c s
  more ← add_usize sum term
  flat_index more coords strides

-- One element copied, where both its ends are in range.
unfoldable pub copy_elem : Bytes → ℕ → ℕ → ℕ → Bytes → Outcome Bytes
copy_elem source elem_size src dst output = do
  src_off ← mul_usize src elem_size
  dst_off ← mul_usize dst elem_size
  src_end ← add_usize src_off elem_size
  if leb src_end (length source)
      then (do
        dst_end ← add_usize dst_off elem_size
        if leb dst_end (length output)
            then (do elem ← index_range source src_off elem_size; put output dst_off elem)
            else ok output)
      else ok output

-- An iteration whose element lies outside is skipped.
unfoldable pub copy_or_skip : Bytes → ℕ → Option (ℕ × ℕ) → Bytes → Outcome Bytes
copy_or_skip source elem_size none output = ok output
copy_or_skip source elem_size (some (src, dst)) output = copy_elem source elem_size src dst output

-- `for flat in flat .. flat + n`: the body finds the element's places in the source and the output.
unfoldable pub copy_loop :
    (ℕ → Outcome (Option (ℕ × ℕ))) → Bytes → ℕ → ℕ → ℕ → Bytes → Outcome Bytes
copy_loop places source elem_size zero flat output = ok output
copy_loop places source elem_size (suc n) flat output = do
  move ← places flat
  output ← copy_or_skip source elem_size move output
  copy_loop places source elem_size n (flat + 1) output

-- `dims.iter().product()`, from the product so far.
unfoldable pub product_from : ℕ → List ℕ → Outcome ℕ
product_from total [] = ok total
product_from total (extent ∷ dims) = do total ← mul_usize total extent; product_from total dims

-- The loop over the dimensions of scatter_chunk: the place in a dataset of the element at chunk
-- coordinates, or none where it hangs over the dataset's end. An index out of range panics.
unfoldable pub locate : ℕ → List ℕ → List ℕ → List ℕ → List ℕ → Outcome (Option ℕ)
locate sum coords origin [] strides = ok (some sum)
locate sum (c ∷ coords) (o ∷ origin) (extent ∷ dims) (s ∷ strides) = do
  coord ← add_usize o c
  if leb extent coord then ok none else (do
    term ← mul_usize coord s
    more ← add_usize sum term
    locate more coords origin dims strides)
locate sum _ _ _ _ = panic
