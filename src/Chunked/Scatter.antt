-- ===== src/Chunked/Scatter.antt =====
-- A chunk scattered over a dataset.
use oxih.Base.{
  ℕ, ◌*◌, ◌/◌, ◌<◌, ◌≡◌, refl, sym, ◌∙◌, ap, List, Option, none, some, arith, length, min, ◌==◌,
  false, subst,
}
use oxih.Bytes.{Bytes}
use oxih.Outcome.{ok}
use oxih.Geometry.Coords.{volume, strides_of, coords_at, length-strides_of, flat_to_coords_lem}
use oxih.Geometry.Copy.{elem_at, Brings, Copied, copy_loop_lem}
use oxih.Tiles.Counts.{Tiled-length}
use oxih.Tiles.Grid.{IsOrigin}
use oxih.Tiles.Cut.{Sized, tile_spot, locate-tile_spot, spot-volume, flat-lt}
use oxih.Chunked.{moved_from, scatter_places, scatter_elems, flat_to_coords}

whole_elems : (v e : ℕ) → 0 < e → v * e / e ≡ v
whole_elems v e h = grind arith

-- A tile holds the dataset's elements, and anything in its overhang.
abbrev pub HoldsTile : Bytes → Bytes → List ℕ → List ℕ → List ℕ → ℕ → Type 0
HoldsTile tile raw shape chunk origin elem_size =
    (length tile ≡ volume chunk * elem_size)
    × ((flat i : ℕ)
        → flat < volume chunk
        → tile_spot shape chunk origin flat ≡ some i
        → elem_at tile elem_size flat ≡ elem_at raw elem_size i)

module _ (raw tile : Bytes) (shape chunk origin : List ℕ) (elem_size : ℕ)
    (sized : Sized shape chunk elem_size) (is_origin : IsOrigin shape chunk origin)
    (holds : HoldsTile tile raw shape chunk origin elem_size) where
  scatter-Brings :
      (flat : ℕ) (at : Option ℕ)
      → flat < volume chunk
      → tile_spot shape chunk origin flat ≡ at
      → Brings tile elem_size
          (volume shape * elem_size)
          (elem_at raw elem_size)
          (moved_from flat at)
  scatter-Brings flat none h e = tt
  scatter-Brings flat (some i) h e =
      let from = flat-lt flat (volume chunk) elem_size h in
      (
        omega (arith, holds.0, from),
        flat-lt i (volume shape) elem_size (spot-volume _ shape e),
        holds.1 flat i h e,
      )

  -- The coordinates of an element inside the chunk.
  chunk_coords :
      (flat : ℕ)
      → flat_to_coords flat (strides_of chunk) (length shape)
        ≡ ok (coords_at flat (strides_of chunk))
  chunk_coords flat =
      let rank : length (strides_of chunk) ≡ length shape =
        length-strides_of chunk ∙ Tiled-length shape chunk (sized.tiled) in
      subst (λ n. flat_to_coords flat (strides_of chunk) n ≡ ok (coords_at flat (strides_of chunk)))
        rank (flat_to_coords_lem flat (strides_of chunk))

  -- After the loop the elements under the tile are the dataset's, and the others as before.
  pub scatter_elems_lem :
      (output : Bytes)
      → length output ≡ volume shape * elem_size
      → (after : Bytes) × (scatter_elems output origin tile shape
            (strides_of chunk)
            (strides_of shape)
            (volume chunk)
            elem_size
          ≡ ok after)
        × Copied elem_size
            (elem_at raw elem_size)
            (λ f. moved_from f (tile_spot shape chunk origin f))
            0
            (volume chunk)
            output
            after
  unfolding scatter_elems
  scatter_elems_lem output long =
      let nonzero : (elem_size == 0) ≡ false = ground (arith, sized.elem_pos) in
      let n : min (length tile / elem_size) (volume chunk) ≡ volume chunk =
        ap (λ l. min (l / elem_size) (volume chunk)) (holds.0)
        ∙ (let q = whole_elems (volume chunk) elem_size (sized.elem_pos) in omega (arith, q)) in
      rw (nonzero, n)
        (copy_loop_lem tile elem_size (elem_at raw elem_size)
          (omega (arith, holds.0, sized.tile_fits))
          (scatter_places origin shape (strides_of chunk) (strides_of shape))
          (λ f. moved_from f (tile_spot shape chunk origin f)) (volume chunk) 0 output
          (omega (arith, long, sized.dataset_fits))
          (λ f lo hi.
            rw
              (
                chunk_coords f,
                locate-tile_spot shape chunk origin elem_size f sized is_origin (omega arith),
              )
              refl)
          (λ f lo hi.
            subst
              (λ l.
                Brings tile elem_size l (elem_at raw elem_size)
                  (moved_from f (tile_spot shape chunk origin f)))
              (sym long) (scatter-Brings f (tile_spot shape chunk origin f) (omega arith) refl)))
