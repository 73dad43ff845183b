-- ===== src/Tiles.antt =====
-- How the writer tiles a chunked dataset: the chunk grid of crates/oxih5/src/write/chunked.rs and
-- the tiles of crates/oxih5/src/write/payload.rs. A dataset is its shape, the bytes of its elements
-- and their size.
pub mod Counts
pub mod Grid
pub mod Cut
pub mod Shape
use oxih.Base.{
  ℕ, zero, suc, ◌+◌, ◌*◌, ◌/◌, ◌%◌, ◌-◌, ◌^◌, List, [], ◌∷◌, Option, none, some, Bool, true, false,
  not, ◌&&◌, ◌||◌, ltb, leb, ◌==◌, if◌then◌else◌, length, replicate, max,
}
use oxih.Bytes.{Bytes, eq_bytes}
use oxih.Outcome.{
  Outcome, ok, err, panic, guard, require, format, mul_usize, add_usize, ◌>>=◌, ◌>>◌,
}
use oxih.Geometry.{row_major_strides, copy_loop, product_from}
use oxih.Filters.Codecs.{Codecs}
use oxih.Filters.Pipeline.{Filter, apply_write_pipeline}

-- `usize::div_ceil`
unfoldable pub div_ceil : ℕ → ℕ → Outcome ℕ
div_ceil extent chunk = do
  require (not (chunk == 0))
  ok (if extent % chunk == 0 then extent / chunk else extent / chunk + 1)

unfoldable pub chunk_counts : List ℕ → List ℕ → Outcome (List ℕ)
chunk_counts [] chunk_shape = ok []
chunk_counts (extent ∷ shape) [] = ok []
chunk_counts (extent ∷ shape) (chunk ∷ chunk_shape) = do
  count ← div_ceil extent chunk
  counts ← chunk_counts shape chunk_shape
  ok (count ∷ counts)

-- `counts.contains(&0)`
unfoldable pub contains_zero : List ℕ → Bool
contains_zero [] = false
contains_zero (count ∷ counts) = count == 0 || contains_zero counts

-- The loop over the dimensions, the last one first: what is left of the flat index in front of
-- them, and the origin's coordinates.
unfoldable pub origin_at : List ℕ → List ℕ → ℕ → Outcome (ℕ × List ℕ)
origin_at [] chunk_shape flat = ok (flat, [])
origin_at (count ∷ counts) [] flat = panic
origin_at (count ∷ counts) (chunk ∷ chunk_shape) flat = do
  (rest, origin) ← origin_at counts chunk_shape flat
  require (not (count == 0))
  coord ← mul_usize (rest % count) chunk
  ok (rest / count, coord ∷ origin)

-- `for flat in flat .. flat + n`
unfoldable pub origins_from : List ℕ → List ℕ → ℕ → ℕ → Outcome (List (List ℕ))
origins_from counts chunk_shape zero flat = ok []
origins_from counts chunk_shape (suc n) flat = do
  (rest, origin) ← origin_at counts chunk_shape flat
  origins ← origins_from counts chunk_shape n (flat + 1)
  ok (origin ∷ origins)

unfoldable pub chunk_origins : List ℕ → List ℕ → Outcome (List (List ℕ))
chunk_origins shape chunk_shape = do
  counts ← chunk_counts shape chunk_shape
  if contains_zero counts
      then ok []
      else (do total ← product_from 1 counts; origins_from counts chunk_shape total 0)

abbrev pub max_chunks : ℕ
max_chunks = 2 ^ 24

-- The running product, in 128 bits that it cannot leave, is checked after each dimension.
unfoldable pub capped_product : ℕ → List ℕ → Outcome ℕ
capped_product total [] = ok total
capped_product total (count ∷ counts) = do
  guard (leb (total * count) max_chunks) format
  capped_product (total * count) counts

unfoldable pub chunk_count : List ℕ → List ℕ → Outcome ℕ
chunk_count shape chunk_shape = do
  counts ← chunk_counts shape chunk_shape
  if contains_zero counts then ok 0 else capped_product 1 counts

-- The loop over the dimensions of a tile: the dataset's element for the flat index `rest` of the
-- tile, or none where it hangs over the dataset's end. An index out of range panics.
unfoldable pub tile_source : ℕ → ℕ → List ℕ → List ℕ → List ℕ → List ℕ → Outcome (Option ℕ)
tile_source sum rest origin shape [] dataset_strides = ok (some sum)
tile_source sum rest (o ∷ origin) (extent ∷ shape) (k ∷ chunk_strides) (s ∷ dataset_strides) = do
  require (not (k == 0))
  absolute ← add_usize o (rest / k)
  if leb extent absolute then ok none else (do
    term ← mul_usize absolute s
    more ← add_usize sum term
    tile_source more (rest % k) origin shape chunk_strides dataset_strides)
tile_source sum rest _ _ _ _ = panic

abbrev pub moved_to : ℕ → Option ℕ → Option (ℕ × ℕ)
moved_to flat none = none
moved_to flat (some source) = some (source, flat)

abbrev pub tile_places : List ℕ → List ℕ → List ℕ → List ℕ → ℕ → Outcome (Option (ℕ × ℕ))
tile_places origin shape chunk_strides dataset_strides flat =
    tile_source 0 flat origin shape chunk_strides dataset_strides >>= λ source.
    ok (moved_to flat source)

unfoldable pub cut_tile : Bytes → List ℕ → List ℕ → List ℕ → ℕ → Outcome Bytes
cut_tile raw shape chunk_shape origin elem_size = do
  volume ← product_from 1 chunk_shape
  size ← mul_usize volume elem_size
  dataset_strides ← row_major_strides shape
  chunk_strides ← row_major_strides chunk_shape
  copy_loop (tile_places origin shape chunk_strides dataset_strides) raw elem_size volume 0
      (replicate size 0)

pub record ChunkImage : Type 0 where
  pub offsets : List ℕ
  pub bytes : Bytes

abbrev pub filtered : Codecs → Option Filter → ℕ → Bytes → Outcome Bytes
filtered codecs none elem_size tile = ok tile
filtered codecs (some filter) elem_size tile = apply_write_pipeline codecs tile filter elem_size

-- The loop over the origins, of `build`.
unfoldable pub build_images :
    Codecs
    → Bool
    → Bytes
    → List ℕ
    → List ℕ
    → ℕ
    → Option Filter
    → List (List ℕ)
    → Outcome (List ChunkImage)
build_images codecs verbatim raw shape chunk_shape elem_size filter [] = ok []
build_images codecs verbatim raw shape chunk_shape elem_size filter (origin ∷ origins) = do
  tile ← (if verbatim then ok raw else cut_tile raw shape chunk_shape origin elem_size)
  bytes ← filtered codecs filter elem_size tile
  images ← build_images codecs verbatim raw shape chunk_shape elem_size filter origins
  ok (record { offsets = origin; bytes = bytes } ∷ images)

-- `build` of a dataset in chunked storage.
unfoldable pub build :
    Codecs → Bytes → List ℕ → List ℕ → ℕ → Option Filter → Outcome (List ChunkImage)
build codecs raw shape chunk_shape elem_size filter = do
  origins ← chunk_origins shape chunk_shape
  let verbatim = length origins == 1 && eq_bytes chunk_shape shape
  build_images codecs verbatim raw shape chunk_shape elem_size filter origins

-- The loop of `chunk_shape_of`: an extent that the request leaves out is the whole dimension.

unfoldable pub chunk_extents : Bool → List ℕ → List ℕ → Outcome (List ℕ)
chunk_extents growth [] requested = ok []
chunk_extents growth (extent ∷ shape) [] = do
  extents ← chunk_extents false shape []
  ok (max extent 1 ∷ extents)
chunk_extents growth (extent ∷ shape) (chunk ∷ requested) = do
  guard (not (chunk == 0)) format
  guard (not (not growth && ltb 0 extent && ltb extent chunk)) format
  extents ← chunk_extents false shape requested
  ok (chunk ∷ extents)

-- The request and whether dimension 0 is unlimited, for a dataset in chunked storage.
unfoldable pub chunk_shape_of : List ℕ → Option (List ℕ × Bool) → Outcome (List ℕ)
chunk_shape_of shape none = ok []
chunk_shape_of shape (some (requested, unlimited_dim0)) = do
  guard (not (length shape == 0)) format
  guard (leb (length requested) (length shape)) format
  chunk_extents unlimited_dim0 shape requested
