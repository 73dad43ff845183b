-- ===== src/Filters/Pipeline.antt =====
-- The read side of the filter pipeline (`apply_pipeline`, `apply_pipeline_sized` and
-- `apply_one_inverse` of crates/oxih5-format/src/filters.rs) and the write side
-- (`apply_write_pipeline` of crates/oxih5/src/write/payload.rs, `descriptors` of
-- crates/oxih5/src/write/pipeline.rs).
pub mod Laws
pub mod RoundTrip
use oxih.Base.{
  ℕ, zero, suc, ◌+◌, ◌*◌, ◌/◌, ◌%◌, ◌-◌, ◌^◌, List, [], ◌∷◌, ◌++◌, Option, none, some, Bool, true,
  false, not, length, ltb, leb, ◌==◌, ◌&&◌, if◌then◌else◌,
}
use oxih.Bytes.{Bytes, index, index_range}
use oxih.Outcome.{add_usize, Outcome, ok, err, guard, format, unsupported_filter, ◌>>=◌, ◌>>◌}
use oxih.Filters.Shuffle.{shuffle, unshuffle}
use oxih.Filters.Fletcher.{append_fletcher32, verify_fletcher32}
use oxih.Filters.Nbit.{unpack_nbit, decode_scaleoffset_int}
use oxih.Filters.Codecs.{FilterInfo, Codecs, inflate_deflate, deflate_compress, decode_szip}

-- The first client-data word when present and positive, else the dataset's element size.
abbrev pub shuffle_size : List ℕ → ℕ → ℕ
shuffle_size [] elem_size = elem_size
shuffle_size (v ∷ _) elem_size = if ltb 0 v then v else elem_size

unfoldable pub inverse_nbit : Bytes → FilterInfo → Outcome Bytes
inverse_nbit bytes filter =
    if leb 7 (length (filter.client_data))
    then (do
      class ← index (filter.client_data) 1
      sizeof_elem ← index (filter.client_data) 2
      precision ← index (filter.client_data) 5
      bit_offset ← index (filter.client_data) 6
      if class == 0 && ltb 0 sizeof_elem && ltb 0 precision
          then unpack_nbit bytes sizeof_elem precision bit_offset
          else err unsupported_filter)
    else err unsupported_filter

unfoldable pub inverse_scaleoffset : Bytes → ℕ → Outcome Bytes
inverse_scaleoffset [] elem_size = ok []
inverse_scaleoffset (min_bits ∷ bytes) elem_size = do
  guard (not (elem_size == 0)) format
  header ← add_usize 1 elem_size
  guard (leb header (1 + length bytes)) format
  if min_bits == 0 then ok bytes else (do
    min_val_bytes ← index_range bytes 0 elem_size
    packed_data ← index_range bytes elem_size (length bytes - elem_size)
    decode_scaleoffset_int packed_data elem_size min_bits min_val_bytes)

unfoldable pub inverse_szip : Codecs → Bytes → FilterInfo → Option ℕ → Outcome Bytes
inverse_szip codecs bytes filter expected_out_len = elim (codecs.szip) [
  | none ↦ err unsupported_filter
  | some szip_decode ↦ decode_szip szip_decode bytes filter expected_out_len
]

unfoldable pub apply_one_inverse : Codecs → Bytes → FilterInfo → ℕ → Option ℕ → Outcome Bytes
apply_one_inverse codecs bytes filter elem_size expected_out_len =
    let es = shuffle_size (filter.client_data) elem_size in
    if filter.id == 1
    then inflate_deflate codecs bytes
    else (if filter.id == 2
        then (if es == 0 then ok bytes else unshuffle bytes es)
        else (if filter.id == 3
            then verify_fletcher32 bytes
            else (if filter.id == 5
                then inverse_nbit bytes filter
                else (if filter.id == 6
                    then inverse_scaleoffset bytes elem_size
                    else (if filter.id == 4
                        then inverse_szip codecs bytes filter expected_out_len
                        else err unsupported_filter)))))

abbrev pub is_masked : ℕ → ℕ → Bool
is_masked filter_mask idx = ltb idx 32 && filter_mask / 2 ^ idx % 2 == 1

-- The filters from the `idx`-th on, the last one undone first.
unfoldable pub undo_from : Codecs → List FilterInfo → ℕ → ℕ → ℕ → Option ℕ → Bytes → Outcome Bytes
undo_from codecs [] idx filter_mask elem_size expected_out_len bytes = ok bytes
undo_from codecs (filter ∷ filters) idx filter_mask elem_size expected_out_len bytes = do
  bytes ← undo_from codecs filters (idx + 1) filter_mask elem_size expected_out_len bytes
  if is_masked filter_mask idx
      then ok bytes
      else apply_one_inverse codecs bytes filter elem_size expected_out_len

unfoldable pub apply_pipeline_sized :
    Codecs → Bytes → List FilterInfo → ℕ → ℕ → Option ℕ → Outcome Bytes
apply_pipeline_sized codecs raw filters filter_mask elem_size expected_out_len =
    undo_from codecs filters 0 filter_mask elem_size expected_out_len raw

abbrev pub apply_pipeline : Codecs → Bytes → List FilterInfo → ℕ → ℕ → Outcome Bytes
apply_pipeline codecs raw filters filter_mask elem_size =
    apply_pipeline_sized codecs raw filters filter_mask elem_size none

-- `struct Filter` of crates/oxih5/src/write/tree.rs
pub record Filter : Type 0 where
  pub shuffle : Bool
  pub deflate : Option ℕ
  pub fletcher32 : Bool

abbrev pub deflate_stage : Codecs → Option ℕ → Bytes → Outcome Bytes
deflate_stage codecs none bytes = ok bytes
deflate_stage codecs (some level) bytes = deflate_compress codecs bytes level

unfoldable pub apply_write_pipeline : Codecs → Bytes → Filter → ℕ → Outcome Bytes
apply_write_pipeline codecs tile filter elem_size = do
  bytes ← (if filter.shuffle then shuffle tile elem_size else ok tile)
  bytes ← deflate_stage codecs (filter.deflate) bytes
  if filter.fletcher32 then append_fletcher32 bytes else ok bytes

abbrev pub deflate_descriptor : Option ℕ → List FilterInfo
deflate_descriptor none = []
deflate_descriptor (some level) = record { id = 1; flags = 1; client_data = level ∷ [] } ∷ []

-- A description's name is left out; `client_data` is one value or none.
unfoldable pub descriptors : Filter → ℕ → List FilterInfo
descriptors filter elem_size =
    (if filter.shuffle then record { id = 2; flags = 1; client_data = elem_size ∷ [] } ∷ [] else [])
    ++ (deflate_descriptor (filter.deflate)
        ++ (if filter.fletcher32 then record { id = 3; flags = 0; client_data = [] } ∷ [] else []))
