-- ===== src/Chunked/Parallel.antt =====
-- The two ways to read the chunks: one by one, or decoded first and scattered then.
use oxih.Base.{
  ℕ, ◌≤◌, ◌<◌, ◌≡◌, refl, sym, ◌∙◌, ap, List, [], ◌∷◌, Option, some, false, arith, length, All,
  le→leb, ◌==◌, eq_refl,
}
use oxih.Bytes.{Bytes}
use oxih.Outcome.{Outcome, ok, err, panic, mul_usize, ◌>>=◌, >>=-eq-ok, ok_eq}
use oxih.Geometry.{row_major_strides, product_from}
use oxih.Filters.Codecs.{Codecs, FilterInfo}
use oxih.Chunked.{
  ChunkRecord, read_chunk_bytes, apply_filters_to_chunk, scatter_elems, scatter_chunk,
  assemble_from, assemble_into, assemble_chunks_with_fill, chunk_filters, read_serial, decode_all,
  scatter_all, read_parallel, err, filled,
}

-- Every chunk has at least the dataset's rank.
abbrev pub Ranked : ℕ → List ChunkRecord → Type 0
Ranked ndims chunks = All (λ rec. ndims ≤ length (rec.offsets)) chunks

module _ (codecs : Codecs) (file_data : Bytes) (pipeline : List FilterInfo) (chunk dims : List ℕ)
    (elem_size : ℕ) {volume expected : ℕ} {chunk_strides dataset_strides : List ℕ}
    (counted : product_from 1 chunk ≡ ok volume) (sized : mul_usize volume elem_size ≡ ok expected)
    (by_chunk : row_major_strides chunk ≡ ok chunk_strides)
    (by_dataset : row_major_strides dims ≡ ok dataset_strides) where
  same_filters :
      (raw : Bytes) (mask : ℕ)
      → apply_filters_to_chunk codecs raw mask (some pipeline) elem_size (some expected)
        ≡ chunk_filters codecs pipeline chunk elem_size raw mask
  unfolding apply_filters_to_chunk
  same_filters raw mask = filters_case pipeline
    where
      filters_case :
          (pipeline : List FilterInfo)
          → apply_filters_to_chunk codecs raw mask (some pipeline) elem_size (some expected)
            ≡ chunk_filters codecs pipeline chunk elem_size raw mask
      filters_case [] = refl
      filters_case (filter ∷ filters) =
          let some_filter : (length (filter ∷ filters) == 0) ≡ false = ground arith in
          rw (some_filter, counted, sized) refl

  abbrev scatter : Bytes → List ℕ → Bytes → Outcome Bytes
  scatter output origin chunk_data =
      scatter_elems output origin chunk_data dims chunk_strides dataset_strides volume elem_size

  abbrev serial : List ChunkRecord → Bytes → Outcome Bytes
  serial =
      assemble_from (chunk_filters codecs pipeline chunk elem_size) file_data (length dims) scatter

  scatter_chunk-scatter :
      (output : Bytes) (origin : List ℕ) (chunk_data : Bytes)
      → scatter_chunk output origin chunk_data chunk dims elem_size
        ≡ scatter output origin chunk_data
  unfolding scatter_chunk
  scatter_chunk-scatter output origin chunk_data = rw (by_dataset, by_chunk, counted) refl

  serial_step :
      (rec : ChunkRecord) (chunks : List ChunkRecord) (output : Bytes) {raw chunk_data : Bytes}
      (tail : List (List ℕ × Bytes))
      → length dims ≤ length (rec.offsets)
      → read_chunk_bytes file_data rec ≡ ok raw
      → chunk_filters codecs pipeline chunk elem_size raw (rec.filter_mask) ≡ ok chunk_data
      → ((out : Bytes) → serial chunks out ≡ scatter_all chunk dims elem_size tail out)
      → serial (rec ∷ chunks) output
        ≡ scatter_all chunk dims elem_size ((rec.offsets, chunk_data) ∷ tail) output
  unfolding assemble_from scatter_all
  serial_step rec chunks output {raw} {chunk_data} tail rank read decode later =
      rw (le→leb (length dims) (length (rec.offsets)) rank, read)
        (ap (λ m. m >>= λ bytes. scatter output (rec.offsets) bytes >>= λ out. serial chunks out)
            decode
          ∙ each_output (scatter output (rec.offsets) chunk_data) later
          ∙ ap (λ m. m >>= λ out. scatter_all chunk dims elem_size tail out)
              (sym (scatter_chunk-scatter output (rec.offsets) chunk_data)))
    where
      each_output :
          (m : Outcome Bytes) {f g : Bytes → Outcome Bytes}
          → ((out : Bytes) → f out ≡ g out)
          → (m >>= f) ≡ (m >>= g)
      each_output (ok out) h = h out
      each_output (err e) h = refl
      each_output panic h = refl

  assemble_from-scatter_all :
      (chunks : List ChunkRecord) (output : Bytes) {decoded : List (List ℕ × Bytes)}
      → Ranked (length dims) chunks
      → decode_all codecs file_data pipeline chunk elem_size chunks ≡ ok decoded
      → serial chunks output ≡ scatter_all chunk dims elem_size decoded output
  unfolding decode_all assemble_from scatter_all
  assemble_from-scatter_all [] output ranked done =
      ap (λ d. scatter_all chunk dims elem_size d output) (ok_eq done)
  assemble_from-scatter_all (rec ∷ chunks) output (rank, ranked) done =
      let (raw, read, further) = >>=-eq-ok (read_chunk_bytes file_data rec) _ done in
      let (chunk_data, decode, later) =
        >>=-eq-ok
          (apply_filters_to_chunk codecs raw (rec.filter_mask) (some pipeline) elem_size
            (some expected))
          _ (rw (counted, sized) at further) in
      let (tail, tail_done, last) =
        >>=-eq-ok (decode_all codecs file_data pipeline chunk elem_size chunks) _ later in
      serial_step rec chunks output tail rank read
        (sym (same_filters raw (rec.filter_mask)) ∙ decode)
        (λ out. assemble_from-scatter_all chunks out ranked tail_done)
      ∙ ap (λ d. scatter_all chunk dims elem_size d output) (ok_eq last)

-- For chunk extents of the dataset's rank and a positive element size, whose strides and chunk size do
-- not overflow, and chunks of at least that rank that can all be read and decoded: reading with the
-- feature `parallel` gives what reading without it gives, be it an error or a panic.
pub read_parallel-read_serial :
    (codecs : Codecs) (file_data : Bytes) (pipeline : List FilterInfo) (chunk dims : List ℕ)
    (elem_size : ℕ) (fill_value : Option Bytes) (chunks : List ChunkRecord) {volume expected : ℕ}
    {chunk_strides dataset_strides : List ℕ} {decoded : List (List ℕ × Bytes)}
    → length chunk ≡ length dims
    → 0 < elem_size
    → product_from 1 chunk ≡ ok volume
    → mul_usize volume elem_size ≡ ok expected
    → row_major_strides chunk ≡ ok chunk_strides
    → row_major_strides dims ≡ ok dataset_strides
    → Ranked (length dims) chunks
    → decode_all codecs file_data pipeline chunk elem_size chunks ≡ ok decoded
    → read_parallel codecs file_data pipeline chunk dims elem_size fill_value chunks
      ≡ read_serial codecs file_data pipeline chunk dims elem_size fill_value chunks
unfolding read_parallel read_serial assemble_chunks_with_fill assemble_into
read_parallel-read_serial codecs file_data pipeline chunk dims elem_size fill_value chunks rank pos
      counted sized by_chunk by_dataset ranked done =
    let nonzero : (elem_size == 0) ≡ false = ground arith in
    rw (rank, eq_refl (length dims), nonzero, done, by_chunk, by_dataset, counted)
      (for_each (product_from 1 dims) (λ total. for_each (mul_usize total elem_size) (λ size. sym (
        assemble_from-scatter_all codecs file_data pipeline chunk dims elem_size counted sized
          by_chunk by_dataset chunks (filled fill_value total elem_size size) ranked done))))
  where
    for_each :
        (m : Outcome ℕ) {f g : ℕ → Outcome Bytes} → ((n : ℕ) → f n ≡ g n) → (m >>= f) ≡ (m >>= g)
    for_each (ok n) h = h n
    for_each (err e) h = refl
    for_each panic h = refl
