-- ===== src/Chunked/Assemble.antt =====
-- A dataset assembled from the tiles that a file holds.
use oxih.Base.{
  ℕ, zero, suc, ◌+◌, ◌*◌, ◌<◌, ◌≡◌, refl, sym, ◌∙◌, ap, List, [], ◌∷◌, Option, none, some, true,
  false, arith, length, All, get_elem?, leb, le→leb, lt→ltb, ◌==◌, eq_refl, length-append,
  length-replicate, replicate, Bool-cases, inl, inr, ==_iff, subst,
}
use oxih.Bytes.{Bytes}
use oxih.Outcome.{Outcome, ok, word, ok_eq}
use oxih.Geometry.Coords.{
  coords_at, volume, strides_of, Inside, place_of, place_of-lt-volume, row_major_strides_lem,
  coords_at-place_of, place_of-coords_at,
}
use oxih.Geometry.Elems.{ext_elem_at}
use oxih.Geometry.Copy.{elem_at, Copied}
use oxih.Geometry.Locate.{shift, spot, Inside-inside, product_lem}
use oxih.Tiles.{chunk_origins}
use oxih.Tiles.Counts.{Tiled-Positive, Tiled-length}
use oxih.Tiles.Grid.{IsOrigin, chunk_origins_cover}
use oxih.Tiles.Cut.{Sized, tile_spot, volume-lt}
use oxih.Chunked.{
  ChunkRecord, read_chunk_bytes, scatter_elems, assemble_from, assemble_into, assemble_chunks,
  assemble_chunks_with_fill, filled, cycle_of, moved_from,
}
use oxih.Chunked.Scatter.{HoldsTile, scatter_elems_lem}

module _ (file_data raw : Bytes) (shape chunk : List ℕ) (elem_size : ℕ)
    (apply_filters : Bytes → ℕ → Outcome Bytes) where
  -- The record's bytes, once filtered back, hold the tile at an origin.
  pub record TileAt (rec : ChunkRecord) (origin : List ℕ) : Type 0 where
    pub at_origin : rec.offsets ≡ origin
    pub stored : Bytes
    pub tile : Bytes
    pub read : read_chunk_bytes file_data rec ≡ ok stored
    pub decoded : apply_filters stored (rec.filter_mask) ≡ ok tile
    pub holds : HoldsTile tile raw shape chunk origin elem_size

  abbrev pub TilesAt : List ChunkRecord → List (List ℕ) → Type 0
  TilesAt [] [] = Unit
  TilesAt (rec ∷ chunks) (origin ∷ origins) = TileAt rec origin × TilesAt chunks origins
  TilesAt _ _ = ⊥

  abbrev scatter : Bytes → List ℕ → Bytes → Outcome Bytes
  scatter output origin chunk_data =
      scatter_elems output origin chunk_data shape (strides_of chunk) (strides_of shape)
        (volume chunk) elem_size

  module _ (sized : Sized shape chunk elem_size) where
    assemble_from_lem :
        (chunks : List ChunkRecord) (origins : List (List ℕ)) (output : Bytes)
        → All (IsOrigin shape chunk) origins
        → TilesAt chunks origins
        → length output ≡ volume shape * elem_size
        → (after : Bytes) × (assemble_from apply_filters file_data
              (length shape)
              scatter
              chunks
              output
            ≡ ok after)
          × (length after ≡ length output)
          × ((d : ℕ)
              → elem_at output elem_size d ≡ elem_at raw elem_size d
              → elem_at after elem_size d ≡ elem_at raw elem_size d)
          × ((i f d : ℕ) (origin : List ℕ)
              → get_elem? origins i ≡ some origin
              → f < volume chunk
              → tile_spot shape chunk origin f ≡ some d
              → elem_at after elem_size d ≡ elem_at raw elem_size d)
    unfolding assemble_from
    assemble_from_lem [] [] output all at long =
        (output, refl, refl, λ d e. e, λ i f d origin e h s. absurd (cc e))
    assemble_from_lem [] (origin ∷ origins) output all at long = absurd at
    assemble_from_lem (rec ∷ chunks) [] output all at long = absurd at
    assemble_from_lem (rec ∷ chunks) (origin ∷ origins) output (is_origin, all) (at, ats) long =
        let (mid, ran, copied) =
          scatter_elems_lem raw (at.tile) shape chunk origin elem_size sized is_origin (at.holds)
            output long in
        let (after, rest, same, keep, hit) =
          assemble_from_lem chunks origins mid all ats (copied.same_length ∙ long) in
        let rank : leb (length shape) (length (rec.offsets)) ≡ true =
          le→leb _ _ (omega (arith, is_origin.rank, ap (λ o. length o) (at.at_origin))) in
        (
          after,
          rw (rank, at.read, at.decoded) (rw (at.at_origin, ran) rest),
          same ∙ copied.same_length,
          λ d e. keep d (copied.keeps d e),
          each after keep hit copied,
        )
      where
        each :
            {mid : Bytes} (after : Bytes)
            → ((d : ℕ)
                → elem_at mid elem_size d ≡ elem_at raw elem_size d
                → elem_at after elem_size d ≡ elem_at raw elem_size d)
            → ((i f d : ℕ) (origin : List ℕ)
                → get_elem? origins i ≡ some origin
                → f < volume chunk
                → tile_spot shape chunk origin f ≡ some d
                → elem_at after elem_size d ≡ elem_at raw elem_size d)
            → Copied elem_size
                (elem_at raw elem_size)
                (λ f. moved_from f (tile_spot shape chunk origin f))
                0
                (volume chunk)
                output
                mid
            → (i f d : ℕ) (at : List ℕ) → get_elem? (origin ∷ origins) i ≡ some at
            → f < volume chunk
            → tile_spot shape chunk at f ≡ some d
            → elem_at after elem_size d ≡ elem_at raw elem_size d
        each after keep hit copied zero f d at e h s =
            let same : origin ≡ at = cc e in
            keep d (
              copied.hits f f d (omega arith) (omega arith)
                (ap (moved_from f) (ap (λ o. tile_spot shape chunk o f) same ∙ s)))
        each after keep hit copied (suc i) f d at e h s = hit i f d at e h s

    -- Whatever the output held, the tiles at all the origins make it the dataset.
    pub assemble_into_lem :
        (chunks : List ChunkRecord) (origins : List (List ℕ)) (output : Bytes)
        → length raw ≡ volume shape * elem_size
        → length output ≡ volume shape * elem_size
        → chunk_origins shape chunk ≡ ok origins
        → TilesAt chunks origins
        → assemble_into chunks file_data chunk shape elem_size apply_filters output ≡ ok raw
    unfolding assemble_into
    assemble_into_lem chunks origins output whole long cut at =
        let (shape_pos, chunk_pos) = Tiled-Positive shape chunk (sized.tiled) in
        let dataset_small =
          volume-lt (volume shape) elem_size (sized.elem_pos) (sized.dataset_fits) in
        let tile_small = volume-lt (volume chunk) elem_size (sized.elem_pos) (sized.tile_fits) in
        let one : 1 * volume chunk ≡ volume chunk = omega arith in
        let total = product_lem 1 chunk (omega arith) chunk_pos (omega arith) ∙ ap ok one in
        let (grid, ran, n, on_grid, all, cover) =
          chunk_origins_cover shape chunk (sized.tiled) dataset_small in
        let same : grid ≡ origins = ok_eq (sym ran ∙ cut) in
        let (after, run, len, keep, hit) =
          assemble_from_lem chunks grid output all (subst (TilesAt chunks) (sym same) at) long in
        let everywhere : after ≡ raw =
          ext_elem_at elem_size (volume shape) after raw (len ∙ long) whole (λ d h.
            let (inside, back) = place_of-coords_at d shape h in
            let (i, origin, inner, found, inner_inside, behind) =
              cover (coords_at d (strides_of shape)) inside in
            hit i (place_of inner chunk) d origin found
              (place_of-lt-volume inner chunk inner_inside)
              (ap (λ c. spot 0 (shift origin c) shape) (coords_at-place_of inner chunk inner_inside)
                ∙ ap (λ c. spot 0 c shape) behind
                ∙ spot_inside (coords_at d (strides_of shape)) d inside back)) in
        rw
          (
            row_major_strides_lem shape shape_pos dataset_small,
            row_major_strides_lem chunk chunk_pos tile_small,
            total,
          )
          (run ∙ ap ok everywhere)
      where
        spot_inside :
            (coords : List ℕ) (d : ℕ)
            → Inside coords shape
            → place_of coords shape ≡ d
            → spot 0 coords shape ≡ some d
        spot_inside coords d h e = rw (Inside-inside coords shape h) (ap some (omega (arith, e)))

length-cycle_of : (n e : ℕ) (fill : Bytes) → length fill ≡ e → length (cycle_of n fill) ≡ n * e
unfolding cycle_of
length-cycle_of zero e fill h = omega arith
length-cycle_of (suc n) e fill h =
    omega (arith, length-append fill (cycle_of n fill), length-cycle_of n e fill h, step n e)
  where
    step : (n e : ℕ) → suc n * e ≡ e + n * e
    step n e = grind arith

length-filled : (fill : Option Bytes) (n e : ℕ) → length (filled fill n e (n * e)) ≡ n * e
length-filled none n e = length-replicate {A = ℕ} (n * e) 0
length-filled (some fill) n e = elim (Bool-cases (length fill == e)) [
  | inl same ↦ rw same (length-cycle_of n e fill ((==_iff (length fill) e).0 same))
  | inr other ↦ rw other (length-replicate {A = ℕ} (n * e) 0)
]

-- For chunk records that hold, behind a filter function, the tiles of a dataset at all of the
-- writer's origins, of sizes that the arithmetic can hold: assembling the chunks, with or without a
-- fill value, gives the dataset.
pub assemble_chunks_tiles :
    (file_data raw : Bytes) (shape chunk : List ℕ) (elem_size : ℕ)
    (apply_filters : Bytes → ℕ → Outcome Bytes) (chunks : List ChunkRecord)
    (origins : List (List ℕ)) (fill_value : Option Bytes)
    → Sized shape chunk elem_size
    → length raw ≡ volume shape * elem_size
    → chunk_origins shape chunk ≡ ok origins
    → TilesAt file_data raw shape chunk elem_size apply_filters chunks origins
    → (assemble_chunks chunks file_data chunk shape elem_size apply_filters ≡ ok raw)
      × (assemble_chunks_with_fill chunks file_data chunk shape elem_size fill_value apply_filters
          ≡ ok raw)
unfolding assemble_chunks assemble_chunks_with_fill
assemble_chunks_tiles file_data raw shape chunk elem_size apply_filters chunks origins fill_value
      sized whole cut at =
    let (shape_pos, chunk_pos) = Tiled-Positive shape chunk (sized.tiled) in
    let small = volume-lt (volume shape) elem_size (sized.elem_pos) (sized.dataset_fits) in
    let one : 1 * volume shape ≡ volume shape = omega arith in
    let total = product_lem 1 shape (omega arith) shape_pos (omega arith) ∙ ap ok one in
    let nonzero : (elem_size == 0) ≡ false = ground (arith, sized.elem_pos) in
    let rank = Tiled-length shape chunk (sized.tiled) in
    let run = λ (output : Bytes) (long : length output ≡ volume shape * elem_size).
      assemble_into_lem file_data raw shape chunk elem_size apply_filters sized chunks origins
        output whole long cut at in
    (
      rw
          (
            rank,
            eq_refl (length shape),
            nonzero,
            total,
            lt→ltb (volume shape * elem_size) word (sized.dataset_fits),
          )
          (run (replicate (volume shape * elem_size) 0)
            (length-replicate {A = ℕ} (volume shape * elem_size) 0)),
      rw
          (
            rank,
            eq_refl (length shape),
            nonzero,
            total,
            lt→ltb (volume shape * elem_size) word (sized.dataset_fits),
          )
          (run (filled fill_value (volume shape) elem_size (volume shape * elem_size))
            (length-filled fill_value (volume shape) elem_size)),
    )
