-- ===== src/Chunked/Images.antt =====
-- The images that `build` makes of a dataset, filters included.
use oxih.Base.{
  ℕ, ◌*◌, ◌%◌, ◌^◌, ◌<◌, ◌≡◌, refl, sym, ◌∙◌, ap, List, [], ◌∷◌, Option, none, some, Bool, false,
  arith, length, All, lt→ltb, ◌==◌, Bool-cases, inl, inr, ◌&&◌, if◌then◌else◌, subst,
}
use oxih.Bytes.{Bytes, IsByte, eq_bytes, eq_bytes_iff}
use oxih.Outcome.{ok, word, ok_eq}
use oxih.Geometry.Coords.{volume}
use oxih.Geometry.Locate.{product_lem}
use oxih.Filters.Codecs.{Codecs}
use oxih.Filters.Pipeline.{Filter, descriptors, apply_pipeline_sized, undo_from}
use oxih.Filters.Pipeline.RoundTrip.{IsLossless, IsLevel, apply_pipeline_sized-apply_write_pipeline}
use oxih.Tiles.{ChunkImage, chunk_origins, cut_tile, filtered, build_images, build}
use oxih.Tiles.Counts.{Tiled-Positive}
use oxih.Tiles.Grid.{IsOrigin, chunk_origins_cover}
use oxih.Tiles.Cut.{Sized, volume-lt}
use oxih.Chunked.{chunk_filters, FilterInfo}
use oxih.Chunked.Scatter.{HoldsTile}
use oxih.Chunked.Tile.{cut-HoldsTile, verbatim-HoldsTile}

-- The pipeline message of a dataset with a filter.
abbrev pub pipeline_of : Option Filter → ℕ → List FilterInfo
pipeline_of none elem_size = []
pipeline_of (some filter) elem_size = descriptors filter (elem_size % 2 ^ 32)

abbrev pub IsLegal : Option Filter → Type 0
IsLegal none = Unit
IsLegal (some filter) = IsLevel (filter.deflate)

module _ (codecs : Codecs) (filter : Option Filter) (raw : Bytes) (shape chunk : List ℕ)
    (elem_size : ℕ) (lossless : IsLossless codecs) (legal : IsLegal filter)
    (narrow : elem_size < 2 ^ 32) (sized : Sized shape chunk elem_size) where
  chunk_filters-sized :
      (pipeline : List FilterInfo) (stored tile : Bytes)
      → ((expected : Option ℕ)
          → apply_pipeline_sized codecs stored pipeline 0 elem_size expected ≡ ok tile)
      → chunk_filters codecs pipeline chunk elem_size stored 0 ≡ ok tile
  unfolding apply_pipeline_sized undo_from
  chunk_filters-sized [] stored tile h = h none
  chunk_filters-sized (f ∷ pipeline) stored tile h =
      let (shape_pos, chunk_pos) = Tiled-Positive shape chunk (sized.tiled) in
      let small = volume-lt (volume chunk) elem_size (sized.elem_pos) (sized.tile_fits) in
      let one : 1 * volume chunk ≡ volume chunk = omega arith in
      let total = product_lem 1 chunk (omega arith) chunk_pos (omega arith) ∙ ap ok one in
      let some_filter : (length (f ∷ pipeline) == 0) ≡ false = ground arith in
      rw (some_filter, total, lt→ltb (volume chunk * elem_size) word (sized.tile_fits))
        (h (some (volume chunk * elem_size)))

  -- A tile goes through the filters of either side.
  filtered_lem :
      (tile : Bytes)
      → All IsByte tile
      → length tile ≡ volume chunk * elem_size
      → (stored : Bytes) × (filtered codecs filter elem_size tile ≡ ok stored)
        × (chunk_filters codecs (pipeline_of filter elem_size) chunk elem_size stored 0 ≡ ok tile)
  filtered_lem tile all long = filter_case filter legal
    where
      whole_elems : (v e : ℕ) → 0 < e → v * e % e ≡ 0
      whole_elems v e h = grind arith

      even : length tile % elem_size ≡ 0
      even = ap (λ l. l % elem_size) long ∙ whole_elems (volume chunk) elem_size (sized.elem_pos)

      filter_case :
          (filter : Option Filter)
          → IsLegal filter
          → (stored : Bytes) × (filtered codecs filter elem_size tile ≡ ok stored)
            × (chunk_filters codecs (pipeline_of filter elem_size) chunk elem_size stored 0
                ≡ ok tile)
      filter_case none legal = (tile, refl, refl)
      filter_case (some f) legal =
          let back = λ (expected : Option ℕ).
            apply_pipeline_sized-apply_write_pipeline codecs f tile elem_size elem_size expected
              lossless all legal (sized.elem_pos) narrow even in
          let (stored, runs, undone) = back none in
          (
            stored,
            runs,
            chunk_filters-sized (descriptors f (elem_size % 2 ^ 32)) stored tile (λ expected.
                let (again, reruns, undoes) = back expected in
                subst
                  (λ b.
                    apply_pipeline_sized codecs b (descriptors f (elem_size % 2 ^ 32)) 0 elem_size
                      expected
                    ≡ ok tile)
                  (ok_eq (sym reruns ∙ runs)) undoes),
          )

  -- The image of a tile at an origin.
  pub record ImageAt (image : ChunkImage) (origin : List ℕ) : Type 0 where
    pub at_origin : image.offsets ≡ origin
    pub tile : Bytes
    pub decoded :
        chunk_filters codecs (pipeline_of filter elem_size) chunk elem_size (image.bytes) 0
        ≡ ok tile
    pub holds : HoldsTile tile raw shape chunk origin elem_size

  abbrev pub ImagesAt : List ChunkImage → List (List ℕ) → Type 0
  ImagesAt [] [] = Unit
  ImagesAt (image ∷ images) (origin ∷ origins) = ImageAt image origin × ImagesAt images origins
  ImagesAt _ _ = ⊥

  abbrev Tileable : Bool → List ℕ → Type 0
  Tileable verbatim origin =
      (tile : Bytes) × ((if verbatim then ok raw else cut_tile raw shape chunk origin elem_size)
        ≡ ok tile)
      × All IsByte tile
      × HoldsTile tile raw shape chunk origin elem_size

  build_images_lem :
      (verbatim : Bool) (origins : List (List ℕ))
      → All (Tileable verbatim) origins
      → (images : List ChunkImage) × (build_images codecs verbatim raw shape chunk elem_size filter
            origins
          ≡ ok images)
        × ImagesAt images origins
  unfolding build_images
  build_images_lem verbatim [] all = ([], refl, tt)
  build_images_lem verbatim (origin ∷ origins) ((tile, cut, bytes, holds), all) =
      let (stored, kept, decoded) = filtered_lem tile bytes (holds.0) in
      let (images, rest, at) = build_images_lem verbatim origins all in
      (
        record { offsets = origin; bytes = stored } ∷ images,
        rw (cut, kept, rest) refl,
        (record { at_origin = refl; tile = tile; decoded = decoded; holds = holds }, at),
      )

  module _ (whole : length raw ≡ volume shape * elem_size) (all : All IsByte raw) where
    cuts :
        (origins : List (List ℕ))
        → All (IsOrigin shape chunk) origins
        → All (Tileable false) origins
    cuts [] h = tt
    cuts (origin ∷ origins) (h, hs) =
        (cut-HoldsTile raw shape chunk elem_size sized whole origin all h, cuts origins hs)

    -- The borrowed tile and the cut tiles.
    tileable :
        (origins : List (List ℕ))
        → chunk_origins shape chunk ≡ ok origins
        → All (IsOrigin shape chunk) origins
        → All (Tileable (length origins == 1 && eq_bytes chunk shape)) origins
    tileable [] cut h = tt
    tileable (first ∷ second ∷ origins) cut h =
        let many : (length (first ∷ second ∷ origins) == 1) ≡ false = ground arith in
        subst (λ v. All (Tileable (v && eq_bytes chunk shape)) (first ∷ second ∷ origins))
          (sym many) (cuts (first ∷ second ∷ origins) h)
    tileable (origin ∷ []) cut h = elim (Bool-cases (eq_bytes chunk shape)) [
      | inl e ↦
          subst (λ v. All (Tileable v) (origin ∷ [])) (sym e)
            (
              (
                raw,
                refl,
                all,
                verbatim-HoldsTile raw shape chunk elem_size sized whole origin
                    ((eq_bytes_iff chunk shape).0 e) cut,
              ),
              tt,
            )
      | inr e ↦ subst (λ v. All (Tileable v) (origin ∷ [])) (sym e) (cuts (origin ∷ []) h)
    ]

    pub build_lem :
        (images : List ChunkImage) × (origins : List (List ℕ)) × (chunk_origins shape chunk
          ≡ ok origins)
        × (build codecs raw shape chunk elem_size filter ≡ ok images)
        × ImagesAt images origins
    unfolding build
    build_lem =
        let small = volume-lt (volume shape) elem_size (sized.elem_pos) (sized.dataset_fits) in
        let (origins, ran, n, on_grid, every, cover) =
          chunk_origins_cover shape chunk (sized.tiled) small in
        let verbatim = length origins == 1 && eq_bytes chunk shape in
        let (images, built, at) = build_images_lem verbatim origins (tileable origins ran every) in
        (images, origins, ran, rw ran built, at)
