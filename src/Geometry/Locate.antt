-- ===== src/Geometry/Locate.antt =====
-- The place in a dataset of an element of a chunk, where it lies inside the dataset.
use oxih.Base.{
  ℕ, ◌+◌, ◌*◌, ◌≤◌, ◌<◌, ◌≡◌, refl, List, [], ◌∷◌, Option, none, some, Bool, true, false, ◌&&◌,
  arith, length, ltb, lt→ltb, le→leb, lt→leb, if◌then◌else◌, Bool-cases, inl, inr, ltb→lt, ap, ◌⊎◌,
  ◌∙◌, le→ltb,
}
use native.Mathlib.Nat.{mul_assoc}
use oxih.Outcome.{ok, word}
use oxih.Geometry.{locate, product_from}
use oxih.Geometry.Coords.{volume, strides_of, Inside, place_of, Positive, volume-pos}

-- The coordinates behind an origin.
abbrev pub shift : List ℕ → List ℕ → List ℕ
shift [] coords = []
shift (o ∷ origin) [] = []
shift (o ∷ origin) (c ∷ coords) = (o + c) ∷ shift origin coords

abbrev pub inside : List ℕ → List ℕ → Bool
inside [] [] = true
inside [] (extent ∷ dims) = false
inside (c ∷ coords) [] = false
inside (c ∷ coords) (extent ∷ dims) = ltb c extent && inside coords dims

pub inside-Inside : (coords dims : List ℕ) → inside coords dims ≡ true → Inside coords dims
inside-Inside [] [] h = tt
inside-Inside [] (e ∷ dims) h = cc h
inside-Inside (c ∷ coords) [] h = cc h
inside-Inside (c ∷ coords) (e ∷ dims) h = elim (Bool-cases (ltb c e)) [
  | inl low ↦ (ltb→lt c e low, inside-Inside coords dims (rw low at h))
  | inr high ↦ absurd (cc (rw high at h))
]

pub Inside-inside : (coords dims : List ℕ) → Inside coords dims → inside coords dims ≡ true
Inside-inside [] [] h = refl
Inside-inside [] (e ∷ dims) h = absurd h
Inside-inside (c ∷ coords) [] h = absurd h
Inside-inside (c ∷ coords) (e ∷ dims) (h, hs) = rw (lt→ltb c e h) (Inside-inside coords dims hs)

pub Inside-length : (coords dims : List ℕ) → Inside coords dims → length coords ≡ length dims
Inside-length [] [] h = refl
Inside-length [] (e ∷ dims) h = absurd h
Inside-length (c ∷ coords) [] h = absurd h
Inside-length (c ∷ coords) (e ∷ dims) (h, hs) = omega (arith, Inside-length coords dims hs)

-- What `locate` is to find.
abbrev pub spot : ℕ → List ℕ → List ℕ → Option ℕ
spot sum coords dims = if inside coords dims then some (sum + place_of coords dims) else none

-- The origin is near enough that a chunk's coordinates behind it fit a `u64`.
abbrev pub Near : List ℕ → List ℕ → Type 0
Near [] [] = Unit
Near (o ∷ origin) (c ∷ extents) = (o + c ≤ word) × Near origin extents
Near _ _ = ⊥

pub locate_lem :
    (sum : ℕ) (coords chunk origin dims : List ℕ)
    → Inside coords chunk
    → Near origin chunk
    → length origin ≡ length dims
    → sum + volume dims < word
    → locate sum coords origin dims (strides_of dims) ≡ ok (spot sum (shift origin coords) dims)
unfolding locate
locate_lem sum [] [] [] [] h near same small =
    let start : sum ≡ sum + 0 = omega arith in ap (λ n. ok (some n)) start
locate_lem sum [] [] [] (e ∷ dims) h near same small = absurd (omega (arith, same))
locate_lem sum [] [] (o ∷ origin) dims h near same small = absurd near
locate_lem sum [] (k ∷ chunk) origin dims h near same small = absurd h
locate_lem sum (c ∷ coords) [] origin dims h near same small = absurd h
locate_lem sum (c ∷ coords) (k ∷ chunk) [] dims h near same small = absurd near
locate_lem sum (c ∷ coords) (k ∷ chunk) (o ∷ origin) [] h near same small =
    absurd (omega (arith, same))
locate_lem sum (c ∷ coords) (k ∷ chunk) (o ∷ origin) (e ∷ dims) (h, hs) (near, nears) same small =
    let fits = lt→ltb (o + c) word (omega (arith, h, near)) in
    elim (lt_or_le (o + c) e) [
      | inl low ↦
          let row = below (o + c) e (volume dims) low in
          let v = volume dims in
          rw
            (
              fits,
              lt→leb e (o + c) low,
              lt→ltb (o + c) e low,
              lt→ltb ((o + c) * v) word (omega (arith, row, small)),
              lt→ltb (sum + (o + c) * v) word (omega (arith, row, small)),
            )
            (locate_lem (sum + (o + c) * v) coords chunk origin dims hs nears (omega (arith, same))
                (omega (arith, row, small))
              ∙ ap (λ f. ok (if inside (shift origin coords) dims then some f else none))
                  (omega arith))
      | inr high ↦ rw (fits, le→leb e (o + c) high, le→ltb (o + c) e high) refl
    ]
  where
    below : (c e v : ℕ) → c < e → c * v + v ≤ e * v
    below c e v h = grind arith

    lt_or_le : (a b : ℕ) → (a < b) ⊎ (b ≤ a)
    lt_or_le a b = omega arith

-- The product, where the whole of it fits.
pub product_lem :
    (total : ℕ) (dims : List ℕ)
    → 0 < total
    → Positive dims
    → total * volume dims < word
    → product_from total dims ≡ ok (total * volume dims)
unfolding product_from
product_lem total [] pos all small = ap ok (omega arith)
product_lem total (e ∷ dims) pos (h, hs) small =
    let order : total * e * volume dims ≡ total * (e * volume dims) =
      mul_assoc total e (volume dims) in
    rw
      (lt→ltb (total * e) word
        (shrink (total * e) (volume dims) (volume-pos dims hs) (rw order small)))
      (product_lem (total * e) dims (positive total e pos h) hs (rw order small) ∙ ap ok order)
  where
    shrink : (t v : ℕ) → 0 < v → t * v < word → t < word
    shrink t v h k = grind arith

    positive : (t e : ℕ) → 0 < t → 0 < e → 0 < t * e
    positive t e h k = grind arith
