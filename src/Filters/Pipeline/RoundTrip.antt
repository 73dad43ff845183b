-- ===== src/Filters/Pipeline/RoundTrip.antt =====
-- The reader undoes what the writer did to a chunk.
use oxih.Base.{
  ℕ, ◌+◌, ◌%◌, ◌<◌, ◌≤◌, ◌≡◌, refl, [], ◌∷◌, List, Option, none, some, length, Bool, true, false,
  arith, All, ◌==◌, if◌then◌else◌, ◌++◌, ◌^◌, ◌∙◌, le→leb, lt→ltb,
}
use oxih.Filters.Pipeline.Laws.{unmasked}
use oxih.Bytes.{Bytes, IsByte}
use oxih.Outcome.{Outcome, ok, ◌>>=◌}
use oxih.Filters.Shuffle.{shuffle}
use oxih.Filters.Shuffle.Laws.{unshuffle-shuffle}
use oxih.Filters.Shuffle.Bytewise.{shuffle-IsByte}
use oxih.Filters.Fletcher.{append_fletcher32}
use oxih.Filters.Fletcher.RoundTrip.{verify_fletcher32-append_fletcher32, append_fletcher32-IsByte}
use oxih.Filters.Codecs.{Codecs, FilterInfo, deflate_compress, inflate_deflate}
use oxih.Filters.Pipeline.{
  Filter, undo_from, apply_pipeline_sized, apply_one_inverse, deflate_stage, apply_write_pipeline,
  descriptors, deflate_descriptor,
}

-- What the code relies on from zlib: a buffer compresses at each level up to 9, and decompressing
-- the stream gives the buffer back.
abbrev pub IsLossless : Codecs → Type 0
IsLossless codecs =
    (bytes : Bytes) (level : ℕ)
    → All IsByte bytes
    → level ≤ 9
    → (packed : Bytes) × (codecs.zlib_compress bytes level ≡ some packed)
      × All IsByte packed
      × (codecs.zlib_decompress packed ≡ some bytes)

-- `0..=9`, where a level is given.
abbrev pub IsLevel : Option ℕ → Type 0
IsLevel none = Unit
IsLevel (some level) = level ≤ 9

module _ (codecs : Codecs) (elem_size : ℕ) (expected : Option ℕ) where
  -- A stage of the writer, and the filters that undo it.
  record Stage (forward : Bytes → Outcome Bytes) (filters : List FilterInfo) (bytes : Bytes)
      : Type 0 where
    result : Bytes
    runs : forward bytes ≡ ok result
    bytewise : All IsByte result
    undone : (idx : ℕ) → undo_from codecs filters idx 0 elem_size expected result ≡ ok bytes

  idle-Stage : (bytes : Bytes) → All IsByte bytes → Stage ok [] bytes
  unfolding undo_from
  idle-Stage bytes all = record {
    result = bytes;
    runs = refl;
    bytewise = all;
    undone = λ idx. refl;
  }

  undo_from-append :
      (xs ys : List FilterInfo) (idx : ℕ) (bytes : Bytes) {mid : Bytes}
      → undo_from codecs ys (idx + length xs) 0 elem_size expected bytes ≡ ok mid
      → undo_from codecs (xs ++ ys) idx 0 elem_size expected bytes
        ≡ undo_from codecs xs idx 0 elem_size expected mid
  unfolding undo_from
  undo_from-append [] ys idx bytes h = (rw here at h)
    where
      here : idx + length {A = FilterInfo} [] ≡ idx
      here = omega arith
  undo_from-append (x ∷ xs) ys idx bytes h =
      rw (undo_from-append xs ys (idx + 1) bytes (rw next at h)) refl
    where
      next : idx + length (x ∷ xs) ≡ idx + 1 + length xs
      next = omega arith

  then-Stage :
      (f g : Bytes → Outcome Bytes) (xs ys : List FilterInfo) (bytes : Bytes)
      → (one : Stage f xs bytes) → Stage g ys (one.result)
      → Stage (λ b. f b >>= g) (xs ++ ys) bytes
  then-Stage f g xs ys bytes one two = record {
    result = two.result;
    runs = rw one.runs two.runs;
    bytewise = two.bytewise;
    undone = λ idx.
        undo_from-append xs ys idx two.result (two.undone (idx + length xs)) ∙ one.undone idx;
  }

  shuffle-Stage :
      (bytes : Bytes) (w : ℕ)
      → All IsByte bytes
      → 0 < w
      → length bytes % w ≡ 0
      → Stage (λ b. shuffle b w) (record { id = 2; flags = 1; client_data = w ∷ [] } ∷ []) bytes
  unfolding undo_from apply_one_inverse
  shuffle-Stage bytes w all pos whole =
      let (out, runs, same, back) = unshuffle-shuffle bytes w pos whole in
      record {
        result = out;
        runs = runs;
        bytewise = shuffle-IsByte bytes w all runs;
        undone = λ idx. rw (unmasked idx, lt→ltb 0 w pos, nonzero) back;
      }
    where
      nonzero : (w == 0) ≡ false
      nonzero = ground arith

  deflate-Stage :
      (bytes : Bytes) (level : ℕ)
      → IsLossless codecs
      → All IsByte bytes
      → level ≤ 9
      → Stage
          (λ b. deflate_compress codecs b level)
          (record { id = 1; flags = 1; client_data = level ∷ [] } ∷ [])
          bytes
  unfolding undo_from apply_one_inverse deflate_compress inflate_deflate
  deflate-Stage bytes level lossless all low =
      let (packed, runs, packed_bytes, back) = lossless bytes level all low in
      record {
        result = packed;
        runs = rw (le→leb level 9 low, runs) refl;
        bytewise = packed_bytes;
        undone = λ idx. rw (unmasked idx, back) refl;
      }

  fletcher-Stage :
      (bytes : Bytes)
      → All IsByte bytes
      → Stage append_fletcher32 (record { id = 3; flags = 0; client_data = [] } ∷ []) bytes
  unfolding undo_from apply_one_inverse
  fletcher-Stage bytes all =
      let (out, runs, same, back) = verify_fletcher32-append_fletcher32 bytes all in
      record {
        result = out;
        runs = runs;
        bytewise = append_fletcher32-IsByte bytes all runs;
        undone = λ idx. rw (unmasked idx) back;
      }

  shuffle_choice :
      (chosen : Bool) (bytes : Bytes) (w : ℕ)
      → All IsByte bytes
      → 0 < w
      → length bytes % w ≡ 0
      → Stage
          (λ b. if chosen then shuffle b w else ok b)
          (if chosen then record { id = 2; flags = 1; client_data = w ∷ [] } ∷ [] else [])
          bytes
  shuffle_choice true bytes w all pos whole = shuffle-Stage bytes w all pos whole
  shuffle_choice false bytes w all pos whole = idle-Stage bytes all

  deflate_choice :
      (level : Option ℕ) (bytes : Bytes)
      → IsLossless codecs
      → All IsByte bytes
      → IsLevel level
      → Stage (deflate_stage codecs level) (deflate_descriptor level) bytes
  deflate_choice none bytes lossless all low = idle-Stage bytes all
  deflate_choice (some level) bytes lossless all low = deflate-Stage bytes level lossless all low

  fletcher_choice :
      (chosen : Bool) (bytes : Bytes)
      → All IsByte bytes
      → Stage
          (λ b. if chosen then append_fletcher32 b else ok b)
          (if chosen then record { id = 3; flags = 0; client_data = [] } ∷ [] else [])
          bytes
  fletcher_choice true bytes all = fletcher-Stage bytes all
  fletcher_choice false bytes all = idle-Stage bytes all

-- Where zlib is lossless and the deflate level, if there is one, is at most 9: a tile of bytes, of a
-- whole number of elements of a positive size that fits in 32 bits, goes through the writer's
-- pipeline without an error, whichever filters are chosen, and the reader gets the tile back from
-- what is stored, with the descriptions that the writer records, no filter masked, and whatever
-- element size and output length it is told.
pub apply_pipeline_sized-apply_write_pipeline :
    (codecs : Codecs) (filter : Filter) (tile : Bytes) (elem_size told_size : ℕ)
    (expected : Option ℕ)
    → IsLossless codecs
    → All IsByte tile
    → IsLevel (filter.deflate)
    → 0 < elem_size
    → elem_size < 2 ^ 32
    → length tile % elem_size ≡ 0
    → (stored : Bytes) × (apply_write_pipeline codecs tile filter elem_size ≡ ok stored)
      × (apply_pipeline_sized codecs stored
            (descriptors filter (elem_size % 2 ^ 32))
            0
            told_size
            expected
          ≡ ok tile)
unfolding apply_write_pipeline apply_pipeline_sized descriptors
apply_pipeline_sized-apply_write_pipeline codecs filter tile w told expected lossless all low pos
      fits whole =
    let as_u32 : w % 2 ^ 32 ≡ w = omega arith in
    let one = shuffle_choice codecs told expected (filter.shuffle) tile w all pos whole in
    let two =
      deflate_choice codecs told expected (filter.deflate) one.result lossless one.bytewise low in
    let three = fletcher_choice codecs told expected (filter.fletcher32) two.result two.bytewise in
    let rest = then-Stage codecs told expected _ _ _ _ one.result two three in
    let every = then-Stage codecs told expected _ _ _ _ tile one rest in
    (every.result, every.runs, rw as_u32 (every.undone 0))
