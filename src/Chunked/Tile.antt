-- ===== src/Chunked/Tile.antt =====
-- The tiles that `build` stores: those that it cuts, and the dataset itself where one chunk is all of it.
use oxih.Base.{
  ℕ, zero, suc, ◌+◌, ◌*◌, ◌≡◌, refl, sym, ◌∙◌, ap, List, [], ◌∷◌, Option, none, some, arith, length,
  All, get_elem?, replicate, subst,
}
use oxih.Bytes.{Bytes, IsByte, sub-IsByte}
use oxih.Outcome.{ok, ok_eq}
use oxih.Geometry.Coords.{
  coords_at, volume, strides_of, Inside, place_of, place_of-coords_at, Positive,
}
use oxih.Geometry.Elems.{All-elem_at}
use oxih.Geometry.Copy.{elem_at}
use oxih.Geometry.Locate.{shift, spot, Inside-inside, inside, Inside-length}
use oxih.Tiles.{chunk_origins, cut_tile}
use oxih.Tiles.Counts.{Tiled-Positive}
use oxih.Tiles.Grid.{IsOrigin, chunk_origins_cover}
use oxih.Tiles.Cut.{Sized, tile_spot, tile_elem, cut_tile_lem, volume-lt}
use oxih.Chunked.Scatter.{HoldsTile}

All-replicate : (n : ℕ) → All IsByte (replicate n 0)
All-replicate zero = tt
All-replicate (suc n) = (omega arith, All-replicate n)

abbrev zeros : List ℕ → List ℕ
zeros [] = []
zeros (extent ∷ dims) = 0 ∷ zeros dims

zeros-Inside : (dims : List ℕ) → Positive dims → Inside (zeros dims) dims
zeros-Inside [] h = tt
zeros-Inside (e ∷ dims) (h, hs) = (h, zeros-Inside dims hs)

-- An origin in front of the first element moves nothing.
shift-zeros :
    (origin inner dims coords : List ℕ)
    → length inner ≡ length origin
    → length coords ≡ length origin
    → shift origin inner ≡ zeros dims
    → shift origin coords ≡ coords
shift-zeros [] inner dims [] h k e = refl
shift-zeros [] inner dims (c ∷ coords) h k e = absurd (omega (arith, k))
shift-zeros (o ∷ origin) [] dims coords h k e = absurd (omega (arith, h))
shift-zeros (o ∷ origin) (i ∷ inner) dims [] h k e = absurd (omega (arith, k))
shift-zeros (o ∷ origin) (i ∷ inner) [] (c ∷ coords) h k e = absurd (cc e)
shift-zeros (o ∷ origin) (i ∷ inner) (d ∷ dims) (c ∷ coords) h k e =
    let first : o + i ≡ 0 = cc e in
    let head : o + c ≡ c = omega (arith, first) in
    cc (head, shift-zeros origin inner dims coords (omega (arith, h)) (omega (arith, k)) (cc e))

only_one : (o origin : List ℕ) (i : ℕ) → get_elem? (o ∷ []) i ≡ some origin → origin ≡ o
only_one o origin zero h = cc h
only_one o origin (suc i) h = absurd (cc h)

module _ (raw : Bytes) (shape chunk : List ℕ) (elem_size : ℕ) (sized : Sized shape chunk elem_size)
    (whole : length raw ≡ volume shape * elem_size) where
  -- A tile that has been cut is bytes, and holds the dataset's elements.
  pub cut-HoldsTile :
      (origin : List ℕ)
      → All IsByte raw
      → IsOrigin shape chunk origin
      → (tile : Bytes) × (cut_tile raw shape chunk origin elem_size ≡ ok tile)
        × All IsByte tile
        × HoldsTile tile raw shape chunk origin elem_size
  cut-HoldsTile origin all is_origin =
      let (tile, ran, len, each) =
        cut_tile_lem raw shape chunk origin elem_size sized is_origin whole in
      (
        tile,
        ran,
        All-elem_at elem_size (volume chunk) tile len (λ f h.
            subst (All IsByte) (sym (each f h)) (elem_bytes (tile_spot shape chunk origin f))),
        (len, λ f i h e. each f h ∙ ap (tile_elem raw elem_size) e),
      )
    where
      elem_bytes : (at : Option ℕ) → All IsByte (tile_elem raw elem_size at)
      elem_bytes none = All-replicate elem_size
      elem_bytes (some i) = sub-IsByte raw (i * elem_size) elem_size all

  -- The one tile of a dataset whose chunk is the whole shape is the dataset.
  pub verbatim-HoldsTile :
      (origin : List ℕ)
      → chunk ≡ shape
      → chunk_origins shape chunk ≡ ok (origin ∷ [])
      → HoldsTile raw raw shape chunk origin elem_size
  verbatim-HoldsTile origin same cut =
      let (shape_pos, chunk_pos) = Tiled-Positive shape chunk (sized.tiled) in
      let small = volume-lt (volume shape) elem_size (sized.elem_pos) (sized.dataset_fits) in
      let (grid, ran, n, on_grid, all, cover) =
        chunk_origins_cover shape chunk (sized.tiled) small in
      let one : grid ≡ origin ∷ [] = ok_eq (sym ran ∙ cut) in
      let (i, found_origin, inner, found, inside, start) =
        cover (zeros shape) (zeros-Inside shape shape_pos) in
      let it : found_origin ≡ origin =
        only_one origin found_origin i (subst (λ g. get_elem? g i ≡ some found_origin) one found) in
      let first : shift origin inner ≡ zeros shape =
        subst (λ o. shift o inner ≡ zeros shape) it start in
      let is_origin : IsOrigin shape chunk origin =
        (subst (All (IsOrigin shape chunk)) one all).0 in
      let rank : length shape ≡ length chunk = ap (λ s. length s) (sym same) in
      let inner_rank : length inner ≡ length origin =
        omega (arith, Inside-length inner chunk inside, rank, is_origin.rank) in
      (
        subst (λ s. length raw ≡ volume s * elem_size) (sym same) whole,
        λ f d h e.
            let (coords_inside, back) = place_of-coords_at f chunk h in
            let coords = coords_at f (strides_of chunk) in
            let long : length coords ≡ length origin =
              omega (arith, Inside-length coords chunk coords_inside, rank, is_origin.rank) in
            let still = shift-zeros origin inner shape coords inner_rank long first in
            let at : spot 0 coords shape ≡ some f =
              subst (λ s. spot 0 coords s ≡ some f) same
                (spot_place coords chunk f coords_inside back) in
            ap (elem_at raw elem_size)
              (some_eq (sym at ∙ ap (λ c. spot 0 c shape) (sym still) ∙ e)),
      )
    where
      some_eq : {a b : ℕ} → some a ≡ some b → a ≡ b
      some_eq h = cc

      spot_place :
          (coords dims : List ℕ) (f : ℕ)
          → Inside coords dims
          → place_of coords dims ≡ f
          → spot 0 coords dims ≡ some f
      spot_place coords dims f h e = rw (Inside-inside coords dims h) (ap some (omega (arith, e)))
