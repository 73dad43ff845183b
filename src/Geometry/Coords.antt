-- ===== src/Geometry/Coords.antt =====
-- Coordinates inside a shape, and the places of the row-major order.
use oxih.Base.{
  if◌then◌else◌, ℕ, ◌+◌, ◌*◌, ◌/◌, ◌%◌, ◌<◌, ◌≡◌, refl, sym, ◌∙◌, ap, List, [], ◌∷◌, arith, lt→ltb,
  ◌==◌, false, length, Bool-cases, suc, inl, inr,
}
use native.Mathlib.Nat.{mul_comm}
use oxih.Outcome.{ok, word}
use oxih.Geometry.{push_stride, row_major_strides, flat_to_coords, flat_index}

-- The number of elements of a shape.
abbrev pub volume : List ℕ → ℕ
volume [] = 1
volume (extent ∷ dims) = extent * volume dims

-- `stride[d]` is the product of the extents behind `d`.
abbrev pub strides_of : List ℕ → List ℕ
strides_of [] = []
strides_of (extent ∷ dims) = volume dims ∷ strides_of dims

-- The coordinates of a place of the row-major order, by the strides.
unfoldable pub coords_at : ℕ → List ℕ → List ℕ
coords_at flat [] = []
coords_at flat (stride ∷ strides) =
    let at_zero = coords_at flat strides in
    let further = coords_at (flat % stride) strides in
    if stride == 0 then 0 ∷ at_zero else (flat / stride) ∷ further

pub flat_to_coords_lem :
    (flat : ℕ) (strides : List ℕ)
    → flat_to_coords flat strides (length strides) ≡ ok (coords_at flat strides)
unfolding flat_to_coords coords_at
flat_to_coords_lem flat [] = refl
flat_to_coords_lem flat (stride ∷ strides) = elim (Bool-cases (stride == 0)) [
  | inl z ↦ rw (z, flat_to_coords_lem flat strides) refl
  | inr nz ↦ rw (nz, flat_to_coords_lem (flat % stride) strides) refl
]

pub length-strides_of : (dims : List ℕ) → length (strides_of dims) ≡ length dims
length-strides_of [] = refl
length-strides_of (extent ∷ dims) = ap suc (length-strides_of dims)

-- One coordinate for each extent, below it.
abbrev pub Inside : List ℕ → List ℕ → Type 0
Inside [] [] = Unit
Inside (c ∷ coords) (extent ∷ dims) = (c < extent) × Inside coords dims
Inside _ _ = ⊥

-- The place of coordinates in the row-major order.
abbrev pub place_of : List ℕ → List ℕ → ℕ
place_of [] dims = 0
place_of (c ∷ coords) [] = 0
place_of (c ∷ coords) (extent ∷ dims) = c * volume dims + place_of coords dims

pub place_of-lt-volume :
    (coords dims : List ℕ) → Inside coords dims → place_of coords dims < volume dims
place_of-lt-volume [] [] h = omega arith
place_of-lt-volume [] (e ∷ dims) h = absurd h
place_of-lt-volume (c ∷ coords) [] h = absurd h
place_of-lt-volume (c ∷ coords) (e ∷ dims) (h, hs) =
    below c e (volume dims) (place_of coords dims) h (place_of-lt-volume coords dims hs)
  where
    below : (c e v p : ℕ) → c < e → p < v → c * v + p < e * v
    below c e v p h k = grind arith

abbrev pub Positive : List ℕ → Type 0
Positive [] = Unit
Positive (extent ∷ dims) = (0 < extent) × Positive dims

pub volume-pos : (dims : List ℕ) → Positive dims → 0 < volume dims
volume-pos [] h = omega arith
volume-pos (e ∷ dims) (h, hs) = let rest = volume-pos dims hs in grind arith

-- The strides, where the shape's volume fits a `usize`.
pub row_major_strides_lem :
    (dims : List ℕ)
    → Positive dims
    → volume dims < word
    → row_major_strides dims ≡ ok (strides_of dims)
unfolding row_major_strides push_stride
row_major_strides_lem [] pos small = refl
row_major_strides_lem (e ∷ []) pos small = refl
row_major_strides_lem (e ∷ f ∷ dims) (h, hs) small =
    let tail : volume (f ∷ dims) < word = shrink e (f * volume dims) h small in
    let order : volume dims * f ≡ f * volume dims = mul_comm (volume dims) f in
    rw (row_major_strides_lem (f ∷ dims) hs tail, order, lt→ltb (f * volume dims) word tail) refl
  where
    shrink : (e v : ℕ) → 0 < e → e * v < word → v < word
    shrink e v h k = grind arith

-- The coordinates of a place, and the place of coordinates, in a shape without a zero extent.
pub coords_at-place_of :
    (coords dims : List ℕ)
    → Inside coords dims
    → coords_at (place_of coords dims) (strides_of dims) ≡ coords
unfolding coords_at
coords_at-place_of [] [] h = refl
coords_at-place_of [] (e ∷ dims) h = absurd h
coords_at-place_of (c ∷ coords) [] h = absurd h
coords_at-place_of (c ∷ coords) (e ∷ dims) (h, hs) =
    let (quotient, rest, nonzero) =
      split c (volume dims) (place_of coords dims) (place_of-lt-volume coords dims hs) in
    rw (nonzero, quotient, rest) (ap (◌∷◌ c) (coords_at-place_of coords dims hs))
  where
    split : (c v p : ℕ) → p < v → ((c * v + p) / v ≡ c) × ((c * v + p) % v ≡ p) × ((v == 0) ≡ false)
    split c v p h = (grind arith, grind arith, ground arith)

pub place_of-coords_at :
    (flat : ℕ) (dims : List ℕ)
    → flat < volume dims
    → Inside (coords_at flat (strides_of dims)) dims
      × (place_of (coords_at flat (strides_of dims)) dims ≡ flat)
unfolding coords_at
place_of-coords_at flat [] h = (tt, omega arith)
place_of-coords_at flat (e ∷ dims) h =
    let (row, column, back, nonzero) = split flat e (volume dims) h in
    let (inside, same) = place_of-coords_at (flat % volume dims) dims column in
    rw nonzero ((row, inside), rw same back)
  where
    split :
        (flat e v : ℕ)
        → flat < e * v
        → (flat / v < e) × (flat % v < v) × (flat / v * v + flat % v ≡ flat) × ((v == 0) ≡ false)
    split flat e v h =
        let pos : 0 < v = grind arith in (grind arith, grind arith, grind arith, ground arith)

-- The sum of the products of coordinates and strides is the place, where it fits a `usize`.
pub flat_index_lem :
    (sum : ℕ) (coords dims : List ℕ)
    → Inside coords dims
    → sum + place_of coords dims < word
    → flat_index sum coords (strides_of dims) ≡ ok (sum + place_of coords dims)
unfolding flat_index
flat_index_lem sum [] [] h small = ap ok (omega arith)
flat_index_lem sum [] (e ∷ dims) h small = absurd h
flat_index_lem sum (c ∷ coords) [] h small = absurd h
flat_index_lem sum (c ∷ coords) (e ∷ dims) (h, hs) small =
    rw
      (
        lt→ltb (c * volume dims) word (omega arith),
        lt→ltb (sum + c * volume dims) word (omega arith),
      )
      (flat_index_lem (sum + c * volume dims) coords dims hs (omega arith) ∙ ap ok (omega arith))

-- Two places agree only at one and the same coordinates.
pub place_of-injective :
    (xs ys dims : List ℕ)
    → Inside xs dims
    → Inside ys dims
    → place_of xs dims ≡ place_of ys dims
    → xs ≡ ys
place_of-injective xs ys dims hx hy same =
    sym (coords_at-place_of xs dims hx)
    ∙ ap (λ p. coords_at p (strides_of dims)) same
    ∙ coords_at-place_of ys dims hy
