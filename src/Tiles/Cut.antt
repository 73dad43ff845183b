-- ===== src/Tiles/Cut.antt =====
-- The tile that the writer cuts at an origin, against the dataset's elements.
use oxih.Base.{
  ℕ, suc, ◌+◌, ◌*◌, ◌/◌, ◌%◌, ◌≤◌, ◌<◌, ◌≡◌, ◌≢◌, refl, sym, ◌∙◌, ap, List, [], ◌∷◌, Option, none,
  some, arith, length, lt→ltb, ◌==◌, false, replicate, length-replicate, inl, inr, Bool-cases,
  if◌then◌else◌, leb, Option-cases,
}
use mathlib.Core.Path.{fun_ext, subst}
use oxih.Bytes.{Bytes, sub-replicate}
use oxih.Outcome.{Outcome, ok, word, ◌>>=◌, add_usize, mul_usize}
use oxih.Geometry.{locate}
use oxih.Geometry.Coords.{
  volume, strides_of, row_major_strides_lem, place_of-coords_at, place_of-lt-volume, coords_at,
}
use oxih.Geometry.Copy.{elem_at, Brings, copy_loop_lem}
use oxih.Geometry.Locate.{shift, spot, inside, inside-Inside, locate_lem, product_lem}
use oxih.Tiles.{tile_source, moved_to, tile_places, cut_tile}
use oxih.Tiles.Counts.{Tiled, Tiled-Positive, Tiled-length}
use oxih.Tiles.Grid.{IsOrigin}

-- The place in the dataset of the element at a flat index of a tile, if it has one.
abbrev pub tile_spot : List ℕ → List ℕ → List ℕ → ℕ → Option ℕ
tile_spot shape chunk origin flat = spot 0 (shift origin (coords_at flat (strides_of chunk))) shape

-- Sizes that the code's arithmetic can hold.
pub record Sized (shape chunk : List ℕ) (elem_size : ℕ) : Type 0 where
  pub tiled : Tiled shape chunk
  pub elem_pos : 0 < elem_size
  pub dataset_fits : volume shape * elem_size < word
  pub tile_fits : volume chunk * elem_size < word

pub volume-lt : (v e : ℕ) → 0 < e → v * e < word → v < word
volume-lt v e h k = grind arith

pub flat-lt : (i v e : ℕ) → i < v → i * e + e ≤ v * e
flat-lt i v e h = grind arith

abbrev further : ℕ → ℕ → ℕ → ℕ → ℕ → (ℕ → Outcome (Option ℕ)) → Outcome (Option ℕ)
further c o extent s sum later = add_usize o c >>= λ coord.
    if leb extent coord
    then ok none
    else (mul_usize coord s >>= λ term. add_usize sum term >>= λ more. later more)

length-strides_of : (dims : List ℕ) → length (strides_of dims) ≡ length dims
length-strides_of [] = refl
length-strides_of (e ∷ dims) = ap suc (length-strides_of dims)

-- The tile's loop over the dimensions finds what the reader's finds.
tile_source-locate :
    (sum flat : ℕ) (origin shape chunk strides : List ℕ)
    → flat < volume chunk
    → length origin ≡ length shape
    → length chunk ≡ length shape
    → length strides ≡ length shape
    → tile_source sum flat origin shape (strides_of chunk) strides
      ≡ locate sum (coords_at flat (strides_of chunk)) origin shape strides
unfolding tile_source locate coords_at
tile_source-locate sum flat [] [] [] strides h a b c = refl
tile_source-locate sum flat (o ∷ origin) [] chunk strides h a b c = absurd (omega (arith, a))
tile_source-locate sum flat [] (e ∷ shape) chunk strides h a b c = absurd (omega (arith, a))
tile_source-locate sum flat origin [] (k ∷ chunk) strides h a b c = absurd (omega (arith, b))
tile_source-locate sum flat origin (e ∷ shape) [] strides h a b c = absurd (omega (arith, b))
tile_source-locate sum flat (o ∷ origin) (e ∷ shape) (k ∷ chunk) [] h a b c =
    absurd (omega (arith, c))
tile_source-locate sum flat (o ∷ origin) (e ∷ shape) (k ∷ chunk) (s ∷ strides) h a b c =
    let (nonzero, column) = split flat k (volume chunk) h in
    let later : (λ more.
      tile_source more (flat % volume chunk) origin shape (strides_of chunk) strides)
        ≡ (λ more.
            locate more (coords_at (flat % volume chunk) (strides_of chunk)) origin shape strides) =
      fun_ext (λ more.
        tile_source-locate more (flat % volume chunk) origin shape chunk strides column
          (omega (arith, a)) (omega (arith, b)) (omega (arith, c))) in
    rw nonzero (ap (further (flat / volume chunk) o e s sum) later)
  where
    split : (flat k v : ℕ) → flat < k * v → ((v == 0) ≡ false) × (flat % v < v)
    split flat k v h = let pos : 0 < v = grind arith in (ground arith, grind arith)

pub spot-volume : (coords dims : List ℕ) {d : ℕ} → spot 0 coords dims ≡ some d → d < volume dims
spot-volume coords dims h = elim (Bool-cases (inside coords dims)) [
  | inl e ↦
      let below = place_of-lt-volume coords dims (inside-Inside coords dims e) in
      let at = some_eq (rw e at h) in omega (arith, below, at)
  | inr e ↦ absurd (cc (rw e at h))
]
  where
    some_eq : {a b : ℕ} → some a ≡ some b → a ≡ b
    some_eq h = cc

-- What both loops find at a flat index of a tile.
pub locate-tile_spot :
    (shape chunk origin : List ℕ) (elem_size flat : ℕ)
    → Sized shape chunk elem_size
    → IsOrigin shape chunk origin
    → flat < volume chunk
    → locate 0 (coords_at flat (strides_of chunk)) origin shape (strides_of shape)
      ≡ ok (tile_spot shape chunk origin flat)
locate-tile_spot shape chunk origin elem_size flat sized is_origin h =
    let small = volume-lt (volume shape) elem_size (sized.elem_pos) (sized.dataset_fits) in
    locate_lem 0 (coords_at flat (strides_of chunk)) chunk origin shape
      (place_of-coords_at flat chunk h).0 (is_origin.near) (is_origin.rank) (omega (arith, small))

-- The bytes that a tile holds for a place in the dataset; a tile's overhang holds zeros.
abbrev pub tile_elem : Bytes → ℕ → Option ℕ → Bytes
tile_elem raw elem_size none = replicate elem_size 0
tile_elem raw elem_size (some i) = elem_at raw elem_size i

module _ (raw : Bytes) (shape chunk origin : List ℕ) (elem_size : ℕ)
    (sized : Sized shape chunk elem_size) (is_origin : IsOrigin shape chunk origin)
    (whole : length raw ≡ volume shape * elem_size) where
  tile_places_lem :
      (flat : ℕ)
      → flat < volume chunk
      → tile_places origin shape (strides_of chunk) (strides_of shape) flat
        ≡ ok (moved_to flat (tile_spot shape chunk origin flat))
  tile_places_lem flat h =
      let same =
        tile_source-locate 0 flat origin shape chunk (strides_of shape) h (is_origin.rank)
          (Tiled-length shape chunk (sized.tiled)) (length-strides_of shape) in
      rw (same ∙ locate-tile_spot shape chunk origin elem_size flat sized is_origin h) refl

  tile-Brings :
      (flat : ℕ) (at : Option ℕ)
      → flat < volume chunk
      → tile_spot shape chunk origin flat ≡ at
      → Brings raw elem_size
          (volume chunk * elem_size)
          (λ f. tile_elem raw elem_size (tile_spot shape chunk origin f))
          (moved_to flat at)
  tile-Brings flat none h e = tt
  tile-Brings flat (some i) h e =
      let below = spot-volume (shift origin (coords_at flat (strides_of chunk))) shape e in
      let from = flat-lt i (volume shape) elem_size below in
      (
        omega (arith, whole, from),
        flat-lt flat (volume chunk) elem_size h,
        ap (tile_elem raw elem_size) (sym e),
      )

  -- The tile has its full size, and each of its elements is the dataset's, or zeros in the overhang.
  pub cut_tile_lem :
      (tile : Bytes) × (cut_tile raw shape chunk origin elem_size ≡ ok tile)
      × (length tile ≡ volume chunk * elem_size)
      × ((flat : ℕ)
          → flat < volume chunk
          → elem_at tile elem_size flat
            ≡ tile_elem raw elem_size (tile_spot shape chunk origin flat))
  unfolding cut_tile
  cut_tile_lem =
      let (shape_pos, chunk_pos) = Tiled-Positive shape chunk (sized.tiled) in
      let dataset_small =
        volume-lt (volume shape) elem_size (sized.elem_pos) (sized.dataset_fits) in
      let tile_small = volume-lt (volume chunk) elem_size (sized.elem_pos) (sized.tile_fits) in
      let one : 1 * volume chunk ≡ volume chunk = omega arith in
      let total = product_lem 1 chunk (omega arith) chunk_pos (omega arith) ∙ ap ok one in
      let size = volume chunk * elem_size in
      let blank = length-replicate {A = ℕ} size 0 in
      let (tile, ran, copied) =
        copy_loop_lem raw elem_size (λ f. tile_elem raw elem_size (tile_spot shape chunk origin f))
          (omega (arith, whole, sized.dataset_fits))
          (tile_places origin shape (strides_of chunk) (strides_of shape))
          (λ f. moved_to f (tile_spot shape chunk origin f)) (volume chunk) 0 (replicate size 0)
          (omega (arith, blank, sized.tile_fits)) (λ f lo hi. tile_places_lem f (omega arith))
          (λ f lo hi.
            subst
              (λ l.
                Brings raw elem_size l
                  (λ f. tile_elem raw elem_size (tile_spot shape chunk origin f))
                  (moved_to f (tile_spot shape chunk origin f)))
              (sym blank) (tile-Brings f (tile_spot shape chunk origin f) (omega arith) refl)) in
      (
        tile,
        rw
            (
              total,
              lt→ltb size word (sized.tile_fits),
              row_major_strides_lem shape shape_pos dataset_small,
              row_major_strides_lem chunk chunk_pos tile_small,
            )
            ran,
        copied.same_length ∙ blank,
        λ flat h. elim (Option-cases (tile_spot shape chunk origin flat)) [
          | inl off ↦
              copied.frame flat (λ f s lo hi. skipped f s flat off)
              ∙ sub-replicate size (flat * elem_size) elem_size
                  (flat-lt flat (volume chunk) elem_size h)
              ∙ ap (tile_elem raw elem_size) (sym off)
          | inr (i, at) ↦
              copied.hits flat i flat (omega arith) (omega arith) (ap (moved_to flat) at)
        ],
      )
    where
      -- An iteration writes only its own place of the tile.
      moved_at : (f s d : ℕ) (o : Option ℕ) → moved_to f o ≡ some (s, d) → (f ≡ d) × (o ≡ some s)
      moved_at f s d none e = absurd (cc e)
      moved_at f s d (some t) e = (cc e, cc e)

      skipped :
          (f s d : ℕ)
          → tile_spot shape chunk origin d ≡ none
          → moved_to f (tile_spot shape chunk origin f) ≢ some (s, d)
      skipped f s d off e =
          let (same, hit) = moved_at f s d (tile_spot shape chunk origin f) e in
          absurd (cc (sym off ∙ ap (tile_spot shape chunk origin) (sym same) ∙ hit))
