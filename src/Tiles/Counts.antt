-- ===== src/Tiles/Counts.antt =====
-- How many chunks cover a shape, and the shapes and chunk extents that the grid takes.
use oxih.Base.{
  ℕ, suc, ◌+◌, ◌*◌, ◌/◌, ◌%◌, ◌≤◌, ◌<◌, ◌≡◌, refl, ap, List, [], ◌∷◌, arith, length, ◌==◌, false,
  if◌then◌else◌, inl, ◌≢◌, ◌⊎◌, inr,
}
use oxih.Outcome.{ok, word}
use oxih.Geometry.Coords.{volume, Positive}
use oxih.Tiles.{div_ceil, chunk_counts, contains_zero}

-- How many chunks of an extent cover a dimension.
abbrev pub tiles_of : ℕ → ℕ → ℕ
tiles_of extent chunk = if extent % chunk == 0 then extent / chunk else extent / chunk + 1

abbrev pub counts_of : List ℕ → List ℕ → List ℕ
counts_of [] chunk = []
counts_of (extent ∷ shape) [] = []
counts_of (extent ∷ shape) (k ∷ chunk) = tiles_of extent k ∷ counts_of shape chunk

-- The origin of the chunk at a place of the grid.
abbrev pub scale : List ℕ → List ℕ → List ℕ
scale [] chunk = []
scale (g ∷ grid) [] = []
scale (g ∷ grid) (k ∷ chunk) = (g * k) ∷ scale grid chunk

-- The coordinates of the chunk that an element lies in, and those of the element inside it.
abbrev pub chunk_of : List ℕ → List ℕ → List ℕ
chunk_of [] chunk = []
chunk_of (x ∷ coords) [] = []
chunk_of (x ∷ coords) (k ∷ chunk) = (x / k) ∷ chunk_of coords chunk

abbrev pub within : List ℕ → List ℕ → List ℕ
within [] chunk = []
within (x ∷ coords) [] = []
within (x ∷ coords) (k ∷ chunk) = (x % k) ∷ within coords chunk

-- A shape and chunk extents of one rank, none of them 0, and small enough for `u64` coordinates.
abbrev pub Tiled : List ℕ → List ℕ → Type 0
Tiled [] [] = Unit
Tiled (extent ∷ shape) (k ∷ chunk) =
    (0 < extent) × (0 < k) × (extent + k ≤ word) × Tiled shape chunk
Tiled _ _ = ⊥

pub Tiled-Positive : (shape chunk : List ℕ) → Tiled shape chunk → Positive shape × Positive chunk
Tiled-Positive [] [] t = (tt, tt)
Tiled-Positive [] (k ∷ chunk) t = absurd t
Tiled-Positive (e ∷ shape) [] t = absurd t
Tiled-Positive (e ∷ shape) (k ∷ chunk) (he, hk, h, t) =
    let (ps, pc) = Tiled-Positive shape chunk t in ((he, ps), (hk, pc))

pub Tiled-length : (shape chunk : List ℕ) → Tiled shape chunk → length chunk ≡ length shape
Tiled-length [] [] t = refl
Tiled-length [] (k ∷ chunk) t = absurd t
Tiled-length (e ∷ shape) [] t = absurd t
Tiled-length (e ∷ shape) (k ∷ chunk) (he, hk, h, t) = ap suc (Tiled-length shape chunk t)

pub quotients : (e k : ℕ) → 0 < k → (e / k * k + e % k ≡ e) × (e % k < k)
quotients e k h = (grind arith, grind arith)

ne→==_false : (a : ℕ) → a ≢ 0 → (a == 0) ≡ false
ne→==_false a h = ground arith

zero_or_not : (a : ℕ) → (a ≡ 0) ⊎ (a ≢ 0)
zero_or_not a = omega arith

tiles-pos : (e k : ℕ) → 0 < e → 0 < k → 0 < tiles_of e k
tiles-pos e k he hk = elim (zero_or_not (e % k)) [
  | inl z ↦ rw z (whole e k he hk z)
  | inr more ↦ rw (ne→==_false (e % k) more) (omega arith)
]
  where
    whole : (e k : ℕ) → 0 < e → 0 < k → e % k ≡ 0 → 0 < e / k
    whole e k he hk z = let (q, r) = quotients e k hk in grind arith

-- A place of the grid starts inside the shape.
pub tile-lt : (g e k : ℕ) → 0 < k → g < tiles_of e k → g * k < e
tile-lt g e k hk h = elim (zero_or_not (e % k)) [
  | inl z ↦ exact_case g e k hk z (rw z at h)
  | inr more ↦ ragged_case g e k hk more (rw (ne→==_false (e % k) more) at h)
]
  where
    exact_case : (g e k : ℕ) → 0 < k → e % k ≡ 0 → g < e / k → g * k < e
    exact_case g e k hk z h =
        let (q, r) = quotients e k hk in
        let rows : g * k + k ≤ e / k * k = grind arith in omega arith

    ragged_case : (g e k : ℕ) → 0 < k → e % k ≢ 0 → g < e / k + 1 → g * k < e
    ragged_case g e k hk more h =
        let (q, r) = quotients e k hk in
        let last : g ≤ e / k = omega arith in
        let rows : g * k ≤ e / k * k = grind arith in omega arith

-- An element lies in a place of the grid.
pub quotient-lt-tiles : (x e k : ℕ) → 0 < k → x < e → x / k < tiles_of e k
quotient-lt-tiles x e k hk h = elim (zero_or_not (e % k)) [
  | inl z ↦ rw z (exact_case x e k hk z h)
  | inr more ↦ rw (ne→==_false (e % k) more) (ragged_case x e k hk h)
]
  where
    exact_case : (x e k : ℕ) → 0 < k → e % k ≡ 0 → x < e → x / k < e / k
    exact_case x e k hk z h =
        let (q, r) = quotients e k hk in
        let (p, s) = quotients x k hk in smaller (x / k) (e / k) k (omega arith)
      where
        smaller : (a b k : ℕ) → a * k < b * k → a < b
        smaller a b k h = grind arith

    ragged_case : (x e k : ℕ) → 0 < k → x < e → x / k < e / k + 1
    ragged_case x e k hk h = grind arith

pub counts-Positive : (shape chunk : List ℕ) → Tiled shape chunk → Positive (counts_of shape chunk)
counts-Positive [] [] t = tt
counts-Positive [] (k ∷ chunk) t = absurd t
counts-Positive (e ∷ shape) [] t = absurd t
counts-Positive (e ∷ shape) (k ∷ chunk) (he, hk, h, t) =
    (tiles-pos e k he hk, counts-Positive shape chunk t)

pub counts-le-volume :
    (shape chunk : List ℕ) → Tiled shape chunk → volume (counts_of shape chunk) ≤ volume shape
counts-le-volume [] [] t = omega arith
counts-le-volume [] (k ∷ chunk) t = absurd t
counts-le-volume (e ∷ shape) [] t = absurd t
counts-le-volume (e ∷ shape) (k ∷ chunk) (he, hk, h, t) =
    product (tiles_of e k) e (volume (counts_of shape chunk)) (volume shape) (tiles-le e k hk)
      (counts-le-volume shape chunk t)
  where
    product : (a b c d : ℕ) → a ≤ b → c ≤ d → a * c ≤ b * d
    product a b c d h k = grind arith

    quotient-le : (e k : ℕ) → 0 < k → e / k ≤ e
    quotient-le e k hk = let (q, r) = quotients e k hk in grind arith

    quotient-lt : (e k : ℕ) → 0 < k → e % k ≢ 0 → e / k + 1 ≤ e
    quotient-lt e k hk more =
        let (q, r) = quotients e k hk in let low : e / k ≤ e / k * k = grind arith in omega arith

    tiles-le : (e k : ℕ) → 0 < k → tiles_of e k ≤ e
    tiles-le e k hk = elim (zero_or_not (e % k)) [
      | inl z ↦ rw z (quotient-le e k hk)
      | inr more ↦ rw (ne→==_false (e % k) more) (quotient-lt e k hk more)
    ]

pub chunk_counts_lem :
    (shape chunk : List ℕ)
    → Tiled shape chunk
    → chunk_counts shape chunk ≡ ok (counts_of shape chunk)
unfolding chunk_counts div_ceil
chunk_counts_lem [] chunk t = refl
chunk_counts_lem (e ∷ shape) [] t = absurd t
chunk_counts_lem (e ∷ shape) (k ∷ chunk) (he, hk, h, t) =
    let nonzero : (k == 0) ≡ false = ground arith in
    rw (nonzero, chunk_counts_lem shape chunk t) refl

pub contains_zero_lem : (counts : List ℕ) → Positive counts → contains_zero counts ≡ false
unfolding contains_zero
contains_zero_lem [] h = refl
contains_zero_lem (c ∷ counts) (h, hs) =
    let nonzero : (c == 0) ≡ false = ground arith in rw (nonzero, contains_zero_lem counts hs) refl
