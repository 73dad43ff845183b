-- ===== src/Tiles/Grid.antt =====
-- The chunk grid: the origins that the writer cuts at, against the coordinates of the grid.
use oxih.Base.{
  ℕ, zero, suc, ◌+◌, ◌*◌, ◌/◌, ◌%◌, ◌≤◌, ◌<◌, ◌≡◌, refl, ◌∙◌, ap, List, [], ◌∷◌, some, arith,
  length, lt→ltb, ◌==◌, false, get_elem?, All,
}
use oxih.Outcome.{ok, word}
use oxih.Geometry.Coords.{
  volume, strides_of, Inside, place_of, coords_at-place_of, place_of-coords_at, place_of-lt-volume,
  coords_at,
}
use oxih.Geometry.Locate.{Near, shift, product_lem}
use oxih.Tiles.{origin_at, origins_from, chunk_origins}
use oxih.Tiles.Counts.{
  tiles_of, counts_of, scale, chunk_of, within, Tiled, quotients, tile-lt, quotient-lt-tiles,
  counts-Positive, counts-le-volume, chunk_counts_lem, contains_zero_lem,
}

-- The origin for the flat index of a place of the grid, with `q` rounds of the whole grid in front.
origin_at_lem :
    (q : ℕ) (shape chunk grid : List ℕ)
    → Tiled shape chunk
    → Inside grid (counts_of shape chunk)
    → origin_at
        (counts_of shape chunk)
        chunk
        (q * volume (counts_of shape chunk) + place_of grid (counts_of shape chunk))
      ≡ ok (q, scale grid chunk)
unfolding origin_at
origin_at_lem q [] [] [] t h = ap (λ n. ok (n, [])) (omega arith)
origin_at_lem q [] [] (g ∷ grid) t h = absurd h
origin_at_lem q [] (k ∷ chunk) grid t h = absurd t
origin_at_lem q (e ∷ shape) [] grid t h = absurd t
origin_at_lem q (e ∷ shape) (k ∷ chunk) [] t h = absurd h
origin_at_lem q (e ∷ shape) (k ∷ chunk) (g ∷ grid) (he, hk, room, t) (h, hs) =
    let count = tiles_of e k in
    let flat =
      regroup q count g (volume (counts_of shape chunk)) (place_of grid (counts_of shape chunk)) in
    let (row, column) = digits q count g h in
    let nonzero : (count == 0) ≡ false = ground arith in
    let start = tile-lt g e k hk h in
    rw (flat, origin_at_lem (q * count + g) shape chunk grid t hs)
      (rw (nonzero, column, row, lt→ltb (g * k) word (omega arith)) refl)
  where
    regroup : (q c g v p : ℕ) → q * (c * v) + (g * v + p) ≡ (q * c + g) * v + p
    regroup q c g v p = grind arith

    digits : (q c g : ℕ) → g < c → ((q * c + g) / c ≡ q) × ((q * c + g) % c ≡ g)
    digits q c g h = (grind arith, grind arith)

-- What every origin of the grid is.
pub record IsOrigin (shape chunk origin : List ℕ) : Type 0 where
  pub near : Near origin chunk
  pub rank : length origin ≡ length shape

scale-IsOrigin :
    (shape chunk grid : List ℕ)
    → Tiled shape chunk
    → Inside grid (counts_of shape chunk)
    → IsOrigin shape chunk (scale grid chunk)
scale-IsOrigin [] [] [] t h = record { near = tt; rank = refl }
scale-IsOrigin [] [] (g ∷ grid) t h = absurd h
scale-IsOrigin [] (k ∷ chunk) grid t h = absurd t
scale-IsOrigin (e ∷ shape) [] grid t h = absurd t
scale-IsOrigin (e ∷ shape) (k ∷ chunk) [] t h = absurd h
scale-IsOrigin (e ∷ shape) (k ∷ chunk) (g ∷ grid) (he, hk, room, t) (h, hs) =
    let start = tile-lt g e k hk h in
    let tail = scale-IsOrigin shape chunk grid t hs in
    record { near = (omega (arith, start, room), tail.near); rank = ap suc (tail.rank) }

abbrev origin_of : List ℕ → List ℕ → ℕ → List ℕ
origin_of shape chunk flat = scale (coords_at flat (strides_of (counts_of shape chunk))) chunk

module _ (shape chunk : List ℕ) (tiled : Tiled shape chunk) where
  origin_at_flat :
      (flat : ℕ)
      → flat < volume (counts_of shape chunk)
      → origin_at (counts_of shape chunk) chunk flat ≡ ok (0, origin_of shape chunk flat)
  origin_at_flat flat h =
      let counts = counts_of shape chunk in
      let (grid, same) = place_of-coords_at flat counts h in
      let start : flat ≡ 0 * volume counts + place_of (coords_at flat (strides_of counts)) counts =
        omega (arith, same) in
      ap (origin_at counts chunk) start
      ∙ origin_at_lem 0 shape chunk (coords_at flat (strides_of counts)) tiled grid

  origins_from_lem :
      (n flat : ℕ)
      → flat + n ≤ volume (counts_of shape chunk)
      → (origins : List (List ℕ)) × (origins_from (counts_of shape chunk) chunk n flat ≡ ok origins)
        × All (IsOrigin shape chunk) origins
        × (length origins ≡ n)
        × ((i : ℕ) → i < n → get_elem? origins i ≡ some (origin_of shape chunk (flat + i)))
  unfolding origins_from
  origins_from_lem zero flat h = ([], refl, tt, refl, λ i k. absurd (omega arith))
  origins_from_lem (suc n) flat h =
      let (origins, ran, all, len, at) = origins_from_lem n (flat + 1) (omega arith) in
      let first = origin_of shape chunk flat in
      let (grid, same) = place_of-coords_at flat (counts_of shape chunk) (omega arith) in
      (
        first ∷ origins,
        rw (origin_at_flat flat (omega arith), ran) refl,
        (
          scale-IsOrigin shape chunk (coords_at flat (strides_of (counts_of shape chunk))) tiled
              grid,
          all,
        ),
        ap suc len,
        each origins at,
      )
    where
      each :
          (origins : List (List ℕ))
          → ((i : ℕ) → i < n → get_elem? origins i ≡ some (origin_of shape chunk (flat + 1 + i)))
          → (i : ℕ) → i < suc n
          → get_elem? (origin_of shape chunk flat ∷ origins) i
            ≡ some (origin_of shape chunk (flat + i))
      each origins at zero k = ap (λ f. some (origin_of shape chunk f)) (omega arith)
      each origins at (suc i) k =
          at i (omega arith) ∙ ap (λ f. some (origin_of shape chunk f)) (omega arith)

chunk_of-Inside :
    (coords shape chunk : List ℕ)
    → Tiled shape chunk
    → Inside coords shape
    → Inside (chunk_of coords chunk) (counts_of shape chunk)
chunk_of-Inside [] [] [] t h = tt
chunk_of-Inside (x ∷ coords) [] chunk t h = absurd h
chunk_of-Inside coords [] (k ∷ chunk) t h = absurd t
chunk_of-Inside coords (e ∷ shape) [] t h = absurd t
chunk_of-Inside [] (e ∷ shape) (k ∷ chunk) t h = absurd h
chunk_of-Inside (x ∷ coords) (e ∷ shape) (k ∷ chunk) (he, hk, room, t) (h, hs) =
    (quotient-lt-tiles x e k hk h, chunk_of-Inside coords shape chunk t hs)

-- Each element is the one at `within` behind the origin of its chunk.
within-Inside :
    (coords shape chunk : List ℕ)
    → Tiled shape chunk
    → Inside coords shape
    → Inside (within coords chunk) chunk
      × (shift (scale (chunk_of coords chunk) chunk) (within coords chunk) ≡ coords)
within-Inside [] [] [] t h = (tt, refl)
within-Inside (x ∷ coords) [] chunk t h = absurd h
within-Inside coords [] (k ∷ chunk) t h = absurd t
within-Inside coords (e ∷ shape) [] t h = absurd t
within-Inside [] (e ∷ shape) (k ∷ chunk) t h = absurd h
within-Inside (x ∷ coords) (e ∷ shape) (k ∷ chunk) (he, hk, room, t) (h, hs) =
    let (rest, same) = within-Inside coords shape chunk t hs in
    let (q, r) = quotients x k hk in ((r, rest), cc (q, same))

-- For a shape and chunk extents of one rank, none of them 0, that fit the address range: the writer's
-- origins are as many as the grid has places; the one at the row-major place of each of the grid's
-- coordinates is these coordinates times the chunk extents; each has the dataset's rank and room for a
-- chunk in the address range; and every coordinate of the dataset lies, by coordinates inside a chunk,
-- behind one of them.
pub chunk_origins_cover :
    (shape chunk : List ℕ)
    → Tiled shape chunk
    → volume shape < word
    → (origins : List (List ℕ)) × (chunk_origins shape chunk ≡ ok origins)
      × (length origins ≡ volume (counts_of shape chunk))
      × ((grid : List ℕ)
          → Inside grid (counts_of shape chunk)
          → get_elem? origins (place_of grid (counts_of shape chunk)) ≡ some (scale grid chunk))
      × All (IsOrigin shape chunk) origins
      × ((coords : List ℕ)
          → Inside coords shape
          → (i : ℕ) × (origin : List ℕ) × (inner : List ℕ) × (get_elem? origins i ≡ some origin)
            × Inside inner chunk
            × (shift origin inner ≡ coords))
unfolding chunk_origins
chunk_origins_cover shape chunk tiled small =
    let counts = counts_of shape chunk in
    let positive = counts-Positive shape chunk tiled in
    let few = counts-le-volume shape chunk tiled in
    let one : 1 * volume counts ≡ volume counts = omega arith in
    let total = product_lem 1 counts (omega arith) positive (omega arith) ∙ ap ok one in
    let (origins, ran, all, len, at) =
      origins_from_lem shape chunk tiled (volume counts) 0 (omega arith) in
    let on_grid : (grid : List ℕ)
        → Inside grid counts
        → get_elem? origins (place_of grid counts) ≡ some (scale grid chunk) =
      λ grid inside.
        let start : 0 + place_of grid counts ≡ place_of grid counts = omega arith in
        at (place_of grid counts) (place_of-lt-volume grid counts inside)
        ∙ ap (λ f. some (scale (coords_at f (strides_of counts)) chunk)) start
        ∙ ap (λ g. some (scale g chunk)) (coords_at-place_of grid counts inside) in
    (
      origins,
      rw (chunk_counts_lem shape chunk tiled, contains_zero_lem counts positive, total) ran,
      len,
      on_grid,
      all,
      λ coords h.
          let grid = chunk_of coords chunk in
          let within_grid = chunk_of-Inside coords shape chunk tiled h in
          let (inner, same) = within-Inside coords shape chunk tiled h in
          (
            place_of grid counts,
            scale grid chunk,
            within coords chunk,
            on_grid grid within_grid,
            inner,
            same,
          ),
    )
