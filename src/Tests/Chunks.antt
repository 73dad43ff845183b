-- ===== src/Tests/Chunks.antt =====
-- Chunks and selections: three elements of one byte in chunks of two, and small selections.
use oxih.Base.{
  ℕ, ◌+◌, ◌*◌, ◌≡◌, ◌<◌, ◌≤◌, ◌↔◌, refl, List, [], ◌∷◌, none, some, true, false, leb, if◌then◌else◌,
  arith, length, All, get_elem?, ◌^◌, ◌≢◌,
}
use oxih.Bytes.{Bytes, IsByte, sub, splice}
use oxih.Outcome.{ok, err, format, panic}
use oxih.Hyperslab.{
  validate, DimSelection, contains, last_element, bounding_range, n_elements, out_coord,
}
use oxih.Hyperslab.Validation.{validate-contains}
use oxih.Geometry.{row_major_strides, push_stride, product_from, copy_loop, copy_or_skip, copy_elem}
use oxih.Geometry.Coords.{volume, Inside, place_of}
use oxih.Geometry.Locate.{shift}
use oxih.Tiles.{
  ChunkImage, chunk_origins, chunk_counts, contains_zero, origins_from, origin_at, div_ceil,
  cut_tile, tile_source, build, build_images, chunk_shape_of, chunk_extents, chunk_count,
}
use oxih.Tiles.Counts.{counts_of, scale}
use oxih.Tiles.Grid.{IsOrigin, chunk_origins_cover}
use oxih.Tiles.Cut.{Sized}
use oxih.Tiles.Shape.{completed, FitsShape, chunk_shape_of-FitsShape, chunk_count-chunk_origins}
use oxih.Chunked.{
  ChunkRecord, read_serial, read_parallel, decode_all, read_chunk_bytes, apply_filters_to_chunk,
}
use oxih.Chunked.Parallel.{read_parallel-read_serial}
use oxih.Chunked.RoundTrip.{read_serial-build, build_images_count}
use oxih.Hyperslab.Selection.{Selects, IsSound, contains_iff, contains_misses_last}
use oxih.Hyperslab.Placement.{bounding_range_tight, out_coord_order, out_coord_onto}
use oxih.Tests.Codecs.{stored_codecs}

abbrev three : Bytes
three = 10 ∷ 20 ∷ 30 ∷ []

three-IsByte : All IsByte three
three-IsByte = (omega arith, (omega arith, (omega arith, tt)))

three-Sized : Sized (3 ∷ []) (2 ∷ []) 1
three-Sized = record {
  tiled = (omega arith, omega arith, omega arith, tt);
  elem_pos = omega arith;
  dataset_fits = omega arith;
  tile_fits = omega arith;
}

-- The second tile hangs over the end by one element.
abbrev two_images : List ChunkImage
two_images =
    record { offsets = 0 ∷ []; bytes = 10 ∷ 20 ∷ [] }
    ∷ record { offsets = 2 ∷ []; bytes = 30 ∷ 0 ∷ [] }
    ∷ []

three_built : build stored_codecs three (3 ∷ []) (2 ∷ []) 1 none ≡ ok two_images
unfolding build build_images chunk_origins chunk_counts contains_zero origins_from origin_at
    div_ceil cut_tile tile_source copy_loop copy_or_skip copy_elem row_major_strides push_stride
    product_from sub splice
three_built = refl

abbrev stored_file : Bytes
stored_file = 30 ∷ 0 ∷ 7 ∷ 10 ∷ 20 ∷ []

abbrev two_records : List ChunkRecord
two_records =
    record { address = 3; size = 2; filter_mask = 0; offsets = 0 ∷ [] }
    ∷ record { address = 0; size = 2; filter_mask = 0; offsets = 2 ∷ [] }
    ∷ []

build_images_example :
    (images : List ChunkImage) × (build stored_codecs three (3 ∷ []) (2 ∷ []) 1 none ≡ ok images)
    × (length images ≡ volume (counts_of (3 ∷ []) (2 ∷ [])))
build_images_example =
    build_images_count stored_codecs none three (3 ∷ []) (2 ∷ []) 1
      (λ bytes level all low. (bytes, refl, all, refl)) tt (omega arith) three-Sized refl
      three-IsByte

read_serial_example :
    read_serial stored_codecs stored_file [] (2 ∷ []) (3 ∷ []) 1 none two_records ≡ ok three
unfolding sub
read_serial_example =
    read_serial-build stored_codecs none three (3 ∷ []) (2 ∷ []) 1 stored_file two_records
      two_images none (λ bytes level all low. (bytes, refl, all, refl)) tt (omega arith) three-Sized
      refl three-IsByte three_built (omega arith)
      (
        record {
          offsets_are = refl;
          unmasked = refl;
          sized = refl;
          fits = omega arith;
          bytes_are = refl;
        },
        (
          record {
            offsets_are = refl;
            unmasked = refl;
            sized = refl;
            fits = omega arith;
            bytes_are = refl;
          },
          tt,
        ),
      )

three_origins : chunk_origins (3 ∷ []) (2 ∷ []) ≡ ok ((0 ∷ []) ∷ (2 ∷ []) ∷ [])
unfolding chunk_origins chunk_counts contains_zero origins_from origin_at div_ceil product_from
three_origins = refl

decoded_run :
    decode_all stored_codecs stored_file [] (2 ∷ []) 1 two_records
    ≡ ok ((0 ∷ [], 10 ∷ 20 ∷ []) ∷ (2 ∷ [], 30 ∷ 0 ∷ []) ∷ [])
unfolding decode_all read_chunk_bytes apply_filters_to_chunk product_from sub
decoded_run = refl

read_parallel_example :
    read_parallel stored_codecs stored_file [] (2 ∷ []) (3 ∷ []) 1 none two_records
    ≡ read_serial stored_codecs stored_file [] (2 ∷ []) (3 ∷ []) 1 none two_records
unfolding row_major_strides push_stride product_from
read_parallel_example =
    read_parallel-read_serial stored_codecs stored_file [] (2 ∷ []) (3 ∷ []) 1 none two_records
      {volume = 2} {expected = 2} {chunk_strides = 1 ∷ []} {dataset_strides = 1 ∷ []} refl
      (omega arith) refl refl refl refl (omega arith, (omega arith, tt)) decoded_run

chunk_origins_example :
    (origins : List (List ℕ)) × (chunk_origins (3 ∷ []) (2 ∷ []) ≡ ok origins)
    × (length origins ≡ volume (counts_of (3 ∷ []) (2 ∷ [])))
    × ((grid : List ℕ)
        → Inside grid (counts_of (3 ∷ []) (2 ∷ []))
        → get_elem? origins (place_of grid (counts_of (3 ∷ []) (2 ∷ [])))
          ≡ some (scale grid (2 ∷ [])))
    × All (IsOrigin (3 ∷ []) (2 ∷ [])) origins
    × ((coords : List ℕ)
        → Inside coords (3 ∷ [])
        → (i : ℕ) × (origin : List ℕ) × (inner : List ℕ) × (get_elem? origins i ≡ some origin)
          × Inside inner (2 ∷ [])
          × (shift origin inner ≡ coords))
chunk_origins_example = chunk_origins_cover (3 ∷ []) (2 ∷ []) (three-Sized.tiled) (omega arith)

-- Blocks of two at 5, 8 and 11.
abbrev blocks : DimSelection
blocks = record { start = 5; stride = 3; count = 3; block = 2 }

blocks-IsSound : IsSound blocks
blocks-IsSound = record { apart = omega arith; fits = omega arith }

contains_example : (contains blocks 9 ≡ ok true) ↔ Selects blocks 9
contains_example = contains_iff blocks 9 blocks-IsSound

-- One block of four, at a stride of one.
abbrev overlapping : DimSelection
overlapping = record { start = 0; stride = 1; count = 1; block = 4 }

missed_example :
    (last : ℕ) × (last_element overlapping ≡ ok (some last))
    × Selects overlapping last
    × (contains overlapping last ≡ ok false)
missed_example =
    contains_misses_last overlapping (omega arith) (omega arith) (omega arith) (omega arith)

bounding_range_example :
    (last : ℕ) × (bounding_range blocks ≡ ok (5, last + 1))
    × Selects blocks 5
    × Selects blocks last
    × ((coord : ℕ) → Selects blocks coord → (5 ≤ coord) × (coord < last + 1))
bounding_range_example = bounding_range_tight blocks (omega arith) (omega arith) (omega arith)

out_coord_order_example :
    (m : ℕ) × (n : ℕ) × (out_coord blocks 6 ≡ ok m)
    × (out_coord blocks 11 ≡ ok n)
    × (m < n)
    × (n < 3 * 2)
out_coord_order_example =
    out_coord_order blocks 6 11 blocks-IsSound (0, 1, omega arith, omega arith, refl)
      (2, 0, omega arith, omega arith, refl) (omega arith)

out_coord_onto_example :
    (n_elements blocks ≡ ok (3 * 2))
    × (coord : ℕ) × Selects blocks coord
    × (out_coord blocks coord ≡ ok 4)
out_coord_onto_example = out_coord_onto blocks 4 blocks-IsSound (omega arith)

-- A first dimension of three elements in chunks of two, and an empty second one.
chunk_shape_example :
    (2 ∷ 1 ∷ [] ≡ completed (3 ∷ 0 ∷ []) (2 ∷ [])) × FitsShape false (3 ∷ 0 ∷ []) (2 ∷ 1 ∷ [])
unfolding chunk_shape_of chunk_extents
chunk_shape_example =
    chunk_shape_of-FitsShape (3 ∷ 0 ∷ []) (2 ∷ []) false (omega arith, (omega arith, tt))
      (omega arith, tt) refl

chunk_count_example :
    (origins : List (List ℕ)) × (chunk_origins (3 ∷ []) (2 ∷ []) ≡ ok origins)
    × (chunk_count (3 ∷ []) (2 ∷ [])
        ≡ (if leb (length origins) (2 ^ 24) then ok (length origins) else err format))
chunk_count_example = chunk_count-chunk_origins (3 ∷ []) (2 ∷ []) (three-Sized.tiled) (omega arith)

validate_example : All (λ sel. (coord : ℕ) → contains sel coord ≢ panic) (blocks ∷ overlapping ∷ [])
unfolding validate
validate_example = validate-contains (blocks ∷ overlapping ∷ []) refl
