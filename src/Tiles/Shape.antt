-- ===== src/Tiles/Shape.antt =====
-- The chunk shape that the writer completes, and the count of chunks that it caps.
use oxih.Base.{
  ◌+◌, ℕ, ◌*◌, ◌^◌, ◌≤◌, ◌<◌, ◌≡◌, refl, List, [], ◌∷◌, some, Bool, true, false, not, arith, length,
  ltb, leb, le→leb, lt→leb, ◌==◌, if◌then◌else◌, inl, inr, ◌&&◌, All, leb→le, subst, ◌⊎◌, sym, ◌++◌,
  map, ◌∙◌, ap, max, drop,
}
use native.Mathlib.Nat.{mul_assoc}
use oxih.Outcome.{ok, err, word, format, guard, >>=-eq-ok, ok_eq}
use oxih.Geometry.Coords.{volume, Positive, volume-pos}
use oxih.Tiles.{
  capped_product, max_chunks, chunk_count, chunk_origins, chunk_extents, chunk_shape_of,
}
use oxih.Tiles.Counts.{Tiled, counts_of, counts-Positive, chunk_counts_lem, contains_zero_lem}
use oxih.Tiles.Grid.{chunk_origins_cover}

-- Extents that a `u64` coordinate and a chunk extent behind it can be added in.
abbrev pub Small : List ℕ → Type 0
Small extents = All (λ e. e ≤ 2 ^ 63) extents

guard_ok : (b : Bool) → guard b format ≡ ok tt → b ≡ true
guard_ok true h = refl
guard_ok false h = absurd (cc h)

-- Chunk extents for a shape, the first dimension's extent free to grow or not: one for each dimension,
-- none of them 0, each with its dimension inside the address range, and none longer than a dimension
-- that is fixed and not empty.
abbrev pub FitsShape : Bool → List ℕ → List ℕ → Type 0
FitsShape growth [] [] = Unit
FitsShape growth (e ∷ shape) (k ∷ chunk) =
    (0 < k) × (e + k ≤ word) × ((growth ≡ true) ⊎ (e ≡ 0) ⊎ (k ≤ e)) × FitsShape false shape chunk
FitsShape growth _ _ = ⊥

-- The chunk extents that stand for a request: its own, and behind them whole dimensions, of an empty
-- one a single element.
abbrev pub completed : List ℕ → List ℕ → List ℕ
completed shape requested = requested ++ map (λ e. max e 1) (drop (length requested) shape)

whole-FitsShape :
    (growth : Bool) (shape : List ℕ)
    → Small shape
    → (chunk_extents growth shape [] ≡ ok (completed shape []))
      × FitsShape growth shape (completed shape [])
unfolding chunk_extents
whole-FitsShape growth [] small = (refl, tt)
whole-FitsShape growth (e ∷ shape) (low, small) =
    let (runs, rest) = whole-FitsShape false shape small in
    (rw runs refl, (omega arith, omega arith, omega arith, rest))

chunk_extents-FitsShape :
    (growth : Bool) (shape requested : List ℕ) {chunk : List ℕ}
    → Small shape
    → Small requested
    → length requested ≤ length shape
    → chunk_extents growth shape requested ≡ ok chunk
    → (chunk ≡ completed shape requested) × FitsShape growth shape chunk
unfolding chunk_extents
chunk_extents-FitsShape growth shape [] small fits short h =
    let (runs, good) = whole-FitsShape growth shape small in
    let same : completed shape [] ≡ _ = ok_eq (sym runs ∙ h) in
    (sym same, subst (FitsShape growth shape) same good)
chunk_extents-FitsShape growth [] (k ∷ requested) small fits short h = absurd (omega (arith, short))
chunk_extents-FitsShape growth (e ∷ shape) (k ∷ requested) (low, small) (wide, fits) short h =
    let (done, nonzero, next) = >>=-eq-ok (guard (not (k == 0)) format) _ h in
    let (again, fixed, later) =
      >>=-eq-ok (guard (not (not growth && ltb 0 e && ltb e k)) format) _ next in
    let (tail, rest, whole) = >>=-eq-ok (chunk_extents false shape requested) _ later in
    let some_chunk = guard_ok (not (k == 0)) nonzero in
    let no_longer = guard_ok (not (not growth && ltb 0 e && ltb e k)) fixed in
    let (same, good) =
      chunk_extents-FitsShape false shape requested small fits (omega (arith, short)) rest in
    (
      sym (ok_eq whole) ∙ ap (λ ks. k ∷ ks) same,
      subst (FitsShape growth (e ∷ shape)) (ok_eq whole)
          (ground (arith, some_chunk), omega arith, bounded growth e k no_longer, good),
    )
  where
    bounded :
        (growth : Bool) (e k : ℕ)
        → not (not growth && ltb 0 e && ltb e k) ≡ true
        → (growth ≡ true) ⊎ (e ≡ 0) ⊎ (k ≤ e)
    bounded growth e k h = ground arith

-- For a dataset and a request whose extents are at most 2^63, those of the dataset zero or not: the
-- chunk shape that the writer accepts is the request, completed by whole dimensions, of an empty one a
-- single element. It has the dataset's rank and no zero extent, fits the address range together with the
-- dataset's extents, and no extent of it is longer than its dimension, but for an empty dimension and an
-- unlimited first one.
pub chunk_shape_of-FitsShape :
    (shape requested : List ℕ) (unlimited_dim0 : Bool) {chunk : List ℕ}
    → Small shape
    → Small requested
    → chunk_shape_of shape (some (requested, unlimited_dim0)) ≡ ok chunk
    → (chunk ≡ completed shape requested) × FitsShape unlimited_dim0 shape chunk
unfolding chunk_shape_of
chunk_shape_of-FitsShape shape requested unlimited_dim0 small fits h =
    let (done, ranked, next) = >>=-eq-ok (guard (not (length shape == 0)) format) _ h in
    let (again, short, rest) =
      >>=-eq-ok (guard (leb (length requested) (length shape)) format) _ next in
    chunk_extents-FitsShape unlimited_dim0 shape requested small fits
      (leb→le (length requested) (length shape)
        (guard_ok (leb (length requested) (length shape)) short))
      rest

-- Of a dataset without a zero extent, these are extents that the grid takes.
FitsShape-Tiled :
    (growth : Bool) (shape chunk : List ℕ)
    → Positive shape
    → FitsShape growth shape chunk
    → Tiled shape chunk
FitsShape-Tiled growth [] [] pos h = tt
FitsShape-Tiled growth [] (k ∷ chunk) pos h = absurd h
FitsShape-Tiled growth (e ∷ shape) [] pos h = absurd h
FitsShape-Tiled growth (e ∷ shape) (k ∷ chunk) (he, pos) (hk, room, low, h) =
    (he, hk, room, FitsShape-Tiled false shape chunk pos h)

capped_product_lem :
    (total : ℕ) (counts : List ℕ)
    → Positive counts
    → total ≤ max_chunks
    → capped_product total counts
      ≡ (if leb (total * volume counts) max_chunks then ok (total * volume counts) else err format)
unfolding capped_product
capped_product_lem total [] pos low =
    let one : total * 1 ≡ total = omega arith in rw (one, le→leb total max_chunks low) refl
capped_product_lem total (c ∷ counts) (h, hs) low =
    let order : total * c * volume counts ≡ total * (c * volume counts) =
      mul_assoc total c (volume counts) in
    let grows = at_least (total * c) (volume counts) (volume-pos counts hs) in
    elim (le_or_lt (total * c) max_chunks) [
      | inl within ↦ rw (le→leb (total * c) max_chunks within) (
          subst
            (λ n.
              capped_product (total * c) counts ≡ (if leb n max_chunks then ok n else err format))
            order (capped_product_lem (total * c) counts hs within))
      | inr above ↦
          rw
            (
              lt→leb (total * c) max_chunks above,
              lt→leb (total * (c * volume counts)) max_chunks (omega (arith, order, grows, above)),
            )
            refl
    ]
  where
    at_least : (a b : ℕ) → 0 < b → a ≤ a * b
    at_least a b h = grind arith

    le_or_lt : (a b : ℕ) → (a ≤ b) ⊎ (b < a)
    le_or_lt a b = omega arith

-- For a shape and chunk extents of one rank, none of them 0, that fit the address range: the writer
-- cuts as many tiles as it counts, which is the volume of the grid, and counting is a format error
-- where that is more than 2^24.
pub chunk_count-chunk_origins :
    (shape chunk : List ℕ)
    → Tiled shape chunk
    → volume shape < word
    → (origins : List (List ℕ)) × (chunk_origins shape chunk ≡ ok origins)
      × (chunk_count shape chunk
          ≡ (if leb (length origins) (2 ^ 24) then ok (length origins) else err format))
unfolding chunk_count
chunk_count-chunk_origins shape chunk tiled small =
    let counts = counts_of shape chunk in
    let positive = counts-Positive shape chunk tiled in
    let (origins, ran, n, on_grid, all, cover) = chunk_origins_cover shape chunk tiled small in
    let one : 1 * volume counts ≡ length origins = omega (arith, n) in
    let capped = capped_product_lem 1 counts positive (omega arith) in
    (
      origins,
      ran,
      rw (chunk_counts_lem shape chunk tiled, contains_zero_lem counts positive)
          (subst (λ m. capped_product 1 counts ≡ (if leb m max_chunks then ok m else err format))
            one capped),
    )
