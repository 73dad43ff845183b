-- ===== src/Chunked.antt =====
-- Chunked reading: `read_chunk_bytes`, `apply_filters_to_chunk` and `scatter_chunk` of
-- crates/oxih5-format/src/chunked/geometry.rs, `assemble_chunks` and `assemble_chunks_with_fill` of
-- crates/oxih5-format/src/chunked/read.rs. A filter function that the code is given is a parameter.
pub mod Scatter
pub mod Assemble
pub mod Parallel
pub mod Tile
pub mod Images
pub mod RoundTrip
use oxih.Base.{
  ℕ, zero, suc, ◌+◌, ◌*◌, ◌/◌, ◌-◌, List, [], ◌∷◌, ◌++◌, Option, none, some, Bool, true, false, not,
  ◌==◌, ltb, leb, if◌then◌else◌, length, replicate, min, take,
}
use oxih.Bytes.{Bytes, get_range}
use oxih.Outcome.{
  Outcome, ok, err, guard, require, format, mul_usize, add_usize, ok_or, ◌>>=◌, ◌>>◌,
}
use oxih.Geometry.{row_major_strides, flat_to_coords, copy_loop, product_from, locate}
use oxih.Filters.Codecs.{Codecs, FilterInfo}
use oxih.Filters.Pipeline.{apply_pipeline_sized}

-- `ChunkRecord` of crates/oxih5-format/src/btree_v2.rs
pub record ChunkRecord : Type 0 where
  pub address : ℕ
  pub size : ℕ
  pub filter_mask : ℕ
  pub offsets : List ℕ

unfoldable pub read_chunk_bytes : Bytes → ChunkRecord → Outcome Bytes
read_chunk_bytes file_data rec = do
  stop ← add_usize (rec.address) (rec.size)
  ok_or (get_range file_data (rec.address) (rec.size)) format

unfoldable pub apply_filters_to_chunk :
    Codecs → Bytes → ℕ → Option (List FilterInfo) → ℕ → Option ℕ → Outcome Bytes
apply_filters_to_chunk codecs raw filter_mask none elem_size expected_out_len = ok raw
apply_filters_to_chunk codecs raw filter_mask (some []) elem_size expected_out_len = ok raw
apply_filters_to_chunk codecs raw filter_mask (some (filter ∷ filters)) elem_size expected_out_len =
    apply_pipeline_sized codecs raw (filter ∷ filters) filter_mask elem_size expected_out_len

abbrev pub moved_from : ℕ → Option ℕ → Option (ℕ × ℕ)
moved_from flat none = none
moved_from flat (some dst) = some (flat, dst)

abbrev pub scatter_places : List ℕ → List ℕ → List ℕ → List ℕ → ℕ → Outcome (Option (ℕ × ℕ))
scatter_places origin dims chunk_strides dataset_strides flat =
    flat_to_coords flat chunk_strides (length dims) >>= λ coords.
    locate 0 coords origin dims dataset_strides >>= λ dst. ok (moved_from flat dst)

-- The loop over the elements of one chunk, with the strides and the chunk's volume at hand.
unfoldable pub scatter_elems :
    Bytes → List ℕ → Bytes → List ℕ → List ℕ → List ℕ → ℕ → ℕ → Outcome Bytes
scatter_elems output origin chunk_data dims chunk_strides dataset_strides chunk_volume elem_size =
    do
      require (not (elem_size == 0))
      copy_loop (scatter_places origin dims chunk_strides dataset_strides) chunk_data elem_size
          (min (length chunk_data / elem_size) chunk_volume) 0 output

unfoldable pub scatter_chunk : Bytes → List ℕ → Bytes → List ℕ → List ℕ → ℕ → Outcome Bytes
scatter_chunk output origin chunk_data chunk_dims dataset_dims elem_size = do
  dataset_strides ← row_major_strides dataset_dims
  chunk_strides ← row_major_strides chunk_dims
  chunk_volume ← product_from 1 chunk_dims
  scatter_elems output origin chunk_data dataset_dims chunk_strides dataset_strides chunk_volume
      elem_size

-- The loop over the chunks, whose `dims`, strides and volume `scatter` is given.
unfoldable pub assemble_from :
    (Bytes → ℕ → Outcome Bytes)
    → Bytes
    → ℕ
    → (Bytes → List ℕ → Bytes → Outcome Bytes)
    → List ChunkRecord
    → Bytes
    → Outcome Bytes
assemble_from apply_filters file_data ndims scatter [] output = ok output
assemble_from apply_filters file_data ndims scatter (chunk ∷ chunks) output = do
  guard (leb ndims (length (chunk.offsets))) format
  raw ← read_chunk_bytes file_data chunk
  chunk_data ← apply_filters raw (chunk.filter_mask)
  output ← scatter output (chunk.offsets) chunk_data
  assemble_from apply_filters file_data ndims scatter chunks output

-- What follows the output's allocation.
unfoldable pub assemble_into :
    List ChunkRecord
    → Bytes
    → List ℕ
    → List ℕ
    → ℕ
    → (Bytes → ℕ → Outcome Bytes)
    → Bytes
    → Outcome Bytes
assemble_into chunks file_data chunk_dims dataset_dims elem_size apply_filters output = do
  dataset_strides ← row_major_strides dataset_dims
  chunk_strides ← row_major_strides chunk_dims
  chunk_volume ← product_from 1 chunk_dims
  assemble_from apply_filters file_data (length dataset_dims)
      (λ output origin chunk_data.
        scatter_elems output origin chunk_data dataset_dims chunk_strides dataset_strides
          chunk_volume elem_size)
      chunks output

unfoldable pub assemble_chunks :
    List ChunkRecord → Bytes → List ℕ → List ℕ → ℕ → (Bytes → ℕ → Outcome Bytes) → Outcome Bytes
assemble_chunks chunks file_data chunk_dims dataset_dims elem_size apply_filters = do
  guard (length chunk_dims == length dataset_dims) format
  guard (not (elem_size == 0)) format
  total_elems ← product_from 1 dataset_dims
  size ← mul_usize total_elems elem_size
  assemble_into chunks file_data chunk_dims dataset_dims elem_size apply_filters (replicate size 0)

-- `n` copies of the fill value.
unfoldable pub cycle_of : ℕ → Bytes → Bytes
cycle_of zero fill = []
cycle_of (suc n) fill = fill ++ cycle_of n fill

abbrev pub filled : Option Bytes → ℕ → ℕ → ℕ → Bytes
filled none n elem_size size = replicate size 0
filled (some fill) n elem_size size =
    if length fill == elem_size then cycle_of n fill else replicate size 0

unfoldable pub assemble_chunks_with_fill :
    List ChunkRecord
    → Bytes
    → List ℕ
    → List ℕ
    → ℕ
    → Option Bytes
    → (Bytes → ℕ → Outcome Bytes)
    → Outcome Bytes
assemble_chunks_with_fill chunks file_data chunk_dims dataset_dims elem_size fill_value
      apply_filters =
    do
      guard (length chunk_dims == length dataset_dims) format
      guard (not (elem_size == 0)) format
      total_elems ← product_from 1 dataset_dims
      size ← mul_usize total_elems elem_size
      assemble_into chunks file_data chunk_dims dataset_dims elem_size apply_filters
          (filled fill_value total_elems elem_size size)

-- The closure that `read_chunked` gives `assemble_chunks_with_fill`.
abbrev pub chunk_filters : Codecs → List FilterInfo → List ℕ → ℕ → Bytes → ℕ → Outcome Bytes
chunk_filters codecs pipeline chunk_dims elem_size raw mask =
    if length pipeline == 0 then ok raw else (do
      volume ← product_from 1 chunk_dims
      expected ← mul_usize volume elem_size
      apply_pipeline_sized codecs raw pipeline mask elem_size (some expected))

-- The end of `read_chunked`, with the chunk records at hand, without the feature `parallel`.
unfoldable pub read_serial :
    Codecs
    → Bytes
    → List FilterInfo
    → List ℕ
    → List ℕ
    → ℕ
    → Option Bytes
    → List ChunkRecord
    → Outcome Bytes
read_serial codecs file_data pipeline chunk_dims dataset_dims elem_size fill_value chunks =
    assemble_chunks_with_fill chunks file_data chunk_dims dataset_dims elem_size fill_value
      (chunk_filters codecs pipeline chunk_dims elem_size)

-- Phase 1 with the feature: the chunks' results, in the order of the records.
unfoldable pub decode_all :
    Codecs
    → Bytes
    → List FilterInfo
    → List ℕ
    → ℕ
    → List ChunkRecord
    → Outcome (List (List ℕ × Bytes))
decode_all codecs file_data pipeline chunk_dims elem_size [] = ok []
decode_all codecs file_data pipeline chunk_dims elem_size (rec ∷ chunks) = do
  raw ← read_chunk_bytes file_data rec
  volume ← product_from 1 chunk_dims
  expected ← mul_usize volume elem_size
  chunk_data ←
      apply_filters_to_chunk codecs raw (rec.filter_mask) (some pipeline) elem_size (some expected)
  decoded ← decode_all codecs file_data pipeline chunk_dims elem_size chunks
  ok ((rec.offsets, chunk_data) ∷ decoded)

-- Phase 2.
unfoldable pub scatter_all : List ℕ → List ℕ → ℕ → List (List ℕ × Bytes) → Bytes → Outcome Bytes
scatter_all chunk_dims dataset_dims elem_size [] output = ok output
scatter_all chunk_dims dataset_dims elem_size ((origin, chunk_data) ∷ decoded) output = do
  output ← scatter_chunk output origin chunk_data chunk_dims dataset_dims elem_size
  scatter_all chunk_dims dataset_dims elem_size decoded output

unfoldable pub read_parallel :
    Codecs
    → Bytes
    → List FilterInfo
    → List ℕ
    → List ℕ
    → ℕ
    → Option Bytes
    → List ChunkRecord
    → Outcome Bytes
read_parallel codecs file_data pipeline chunk_dims dataset_dims elem_size fill_value chunks = do
  total_elems ← product_from 1 dataset_dims
  size ← mul_usize total_elems elem_size
  decoded ← decode_all codecs file_data pipeline chunk_dims elem_size chunks
  scatter_all chunk_dims dataset_dims elem_size decoded
      (filled fill_value total_elems elem_size size)

-- The layout's chunk extents, of which a last one that is the element size is dropped.
unfoldable pub real_chunk_dims : List ℕ → ℕ → Outcome (List ℕ)
real_chunk_dims chunk_dims ndims =
    if length chunk_dims == ndims + 1
    then ok (take ndims chunk_dims)
    else (if length chunk_dims == ndims then ok chunk_dims else err format)
