-- ===== src/Tests/Codecs.antt =====
-- The filters at small chunks. The codec here stores a buffer as it is.
use oxih.Base.{
  ℕ, ◌%◌, ◌^◌, ◌≡◌, refl, [], ◌∷◌, ◌++◌, none, some, true, arith, length, All, List, ◌⊎◌, ◌≢◌,
}
use oxih.Bytes.{Bytes, IsByte, le_bytes}
use oxih.Outcome.{ok, err, corrupted}
use oxih.Filters.Shuffle.{shuffle, unshuffle, move_byte, copy_elems, copy_bytes}
use oxih.Filters.Shuffle.Laws.{unshuffle-shuffle, shuffle-unshuffle}
use oxih.Filters.Fletcher.{
  fletcher32_compute, fletcher_words, fletcher_block, fletcher_tail, append_fletcher32,
  verify_fletcher32,
}
use oxih.Filters.Fletcher.Checksum.{IsFletcher32, fletcher32_compute_lem}
use oxih.Filters.Fletcher.RoundTrip.{verify_fletcher32-append_fletcher32, verify_fletcher32_decides}
use oxih.Filters.Codecs.{Codecs, FilterInfo}
use oxih.Filters.Pipeline.{Filter, apply_write_pipeline, apply_pipeline_sized, descriptors}
use oxih.Filters.Pipeline.Laws.{apply_pipeline_masked}
use oxih.Filters.Pipeline.RoundTrip.{apply_pipeline_sized-apply_write_pipeline}

abbrev pub stored_codecs : Codecs
stored_codecs = record {
  zlib_decompress = λ bytes. some bytes;
  zlib_compress = λ bytes level. some bytes;
  szip = none;
}

-- Three elements of two bytes.
abbrev chunk : Bytes
chunk = 1 ∷ 2 ∷ 3 ∷ 4 ∷ 5 ∷ 6 ∷ []

chunk-IsByte : All IsByte chunk
chunk-IsByte =
    (omega arith, (omega arith, (omega arith, (omega arith, (omega arith, (omega arith, tt))))))

abbrev every_filter : Filter
every_filter = record { shuffle = true; deflate = some 6; fletcher32 = true }

shuffle_run : shuffle chunk 2 ≡ ok (1 ∷ 3 ∷ 5 ∷ 2 ∷ 4 ∷ 6 ∷ [])
unfolding shuffle copy_bytes copy_elems move_byte
shuffle_run = refl

fletcher_run : fletcher32_compute chunk ≡ ok 236194060
unfolding fletcher32_compute fletcher_words fletcher_block fletcher_tail
fletcher_run = refl

pipeline_example :
    (stored : Bytes) × (apply_write_pipeline stored_codecs chunk every_filter 2 ≡ ok stored)
    × (apply_pipeline_sized stored_codecs stored (descriptors every_filter (2 % 2 ^ 32)) 0 1 none
        ≡ ok chunk)
pipeline_example =
    apply_pipeline_sized-apply_write_pipeline stored_codecs every_filter chunk 2 1 none
      (λ bytes level all low. (bytes, refl, all, refl)) chunk-IsByte (omega arith) (omega arith)
      (omega arith) refl

abbrev two_filters : List FilterInfo
two_filters =
    record { id = 2; flags = 1; client_data = 2 ∷ [] }
    ∷ record { id = 9; flags = 0; client_data = [] }
    ∷ []

-- The mask leaves out the second filter, which the reader does not know, and the first is undone.
masked_example :
    apply_pipeline_sized stored_codecs chunk two_filters 2 2 none
    ≡ apply_pipeline_sized stored_codecs chunk
        (record { id = 2; flags = 1; client_data = 2 ∷ [] } ∷ [])
        0
        2
        none
masked_example = apply_pipeline_masked stored_codecs chunk two_filters 2 2 none (omega arith)

unshuffle-shuffle_example :
    (out : Bytes) × (shuffle chunk 2 ≡ ok out) × (length out ≡ 6) × (unshuffle out 2 ≡ ok chunk)
unshuffle-shuffle_example = unshuffle-shuffle chunk 2 (omega arith) refl

shuffle-unshuffle_example :
    (out : Bytes) × (unshuffle chunk 3 ≡ ok out) × (length out ≡ 6) × (shuffle out 3 ≡ ok chunk)
shuffle-unshuffle_example = shuffle-unshuffle chunk 3 (omega arith) refl

fletcher32_compute_example :
    (checksum : ℕ) × (fletcher32_compute chunk ≡ ok checksum) × IsFletcher32 chunk checksum
fletcher32_compute_example = fletcher32_compute_lem chunk chunk-IsByte

verify_fletcher32_example :
    (out : Bytes) × (append_fletcher32 chunk ≡ ok out)
    × (length out ≡ 10)
    × (verify_fletcher32 out ≡ ok chunk)
verify_fletcher32_example = verify_fletcher32-append_fletcher32 chunk chunk-IsByte

verify_fletcher32_decides_example :
    ((fletcher32_compute chunk ≡ ok 0) × (verify_fletcher32 (chunk ++ le_bytes 4 0) ≡ ok chunk))
    ⊎ ((fletcher32_compute chunk ≢ ok 0)
        × (verify_fletcher32 (chunk ++ le_bytes 4 0) ≡ err corrupted))
verify_fletcher32_decides_example = verify_fletcher32_decides chunk (le_bytes 4 0) chunk-IsByte refl
