-- ===== src/Hyperslab/Selection.antt =====
-- A selection of one dimension against the elements that it stands for.
use oxih.Base.{
  ℕ, ◌+◌, ◌*◌, ◌/◌, ◌%◌, ◌-◌, ◌≤◌, ◌<◌, ◌≡◌, ◌↔◌, refl, sym, ◌∙◌, ap, some, true, false, arith, ltb,
  lt→ltb, leb, le→leb, ◌==◌,
}
use oxih.Outcome.{ok, word}
use native.Mathlib.Nat.{div-add-mod, mul_comm}
use oxih.Hyperslab.{is_empty_dim, DimSelection, contains, last_element, out_coord}

-- The code's own words: element `j` of block `k`.
abbrev pub Selects : DimSelection → ℕ → Type 0
Selects sel coord =
    (k : ℕ) × (j : ℕ) × (k < sel.count) × (j < sel.block) × (coord ≡ sel.start + k * sel.stride + j)

-- Blocks that do not overlap, the last of them inside the 64-bit range.
pub record IsSound (sel : DimSelection) : Type 0 where
  pub apart : sel.block ≤ sel.stride
  pub fits : sel.start + sel.count * sel.stride < word

split : (k j s : ℕ) → j < s → ((k * s + j) / s ≡ k) × ((k * s + j) % s ≡ j)
split k j s h = (grind arith, grind arith)

-- For blocks that do not overlap and lie in the 64-bit range, `contains` tells the selected coordinates from the others.
pub contains_iff :
    (sel : DimSelection) (coord : ℕ)
    → IsSound sel
    → (contains sel coord ≡ ok true) ↔ Selects sel coord
unfolding contains
contains_iff sel coord sound = (there, back)
  where
    there : contains sel coord ≡ ok true → Selects sel coord
    there h =
        let low : sel.start ≤ coord = ground (arith, h) in
        let whole = div-add-mod (coord - sel.start) (sel.stride) in
        (
          (coord - sel.start) / sel.stride,
          (coord - sel.start) % sel.stride,
          ground (arith, h),
          ground (arith, h),
          omega (arith, whole, mul_comm (sel.stride) ((coord - sel.start) / sel.stride)),
        )

    back : Selects sel coord → contains sel coord ≡ ok true
    back (k, j, hk, hj, e) =
        let (quotient, rest) = split k j (sel.stride) (omega (arith, sound.apart)) in
        let rel : coord - sel.start ≡ k * sel.stride + j = omega arith in
        let low : ltb coord (sel.start) ≡ false = ground (arith, e) in
        let some_dim : is_empty_dim sel ≡ false = ground (arith, hk, hj) in
        let moves : (sel.stride == 0) ≡ false = ground (arith, hj, sound.apart) in
        rw
          (
            some_dim,
            low,
            moves,
            rel,
            quotient,
            rest,
            lt→ltb k (sel.count) hk,
            lt→ltb j (sel.block) hj,
          )
          refl

-- For some blocks at a positive stride that lie in the 64-bit range, each longer than the stride: the
-- last element that the selection stands for, which `last_element` gives, is one that `contains` does
-- not find.
pub contains_misses_last :
    (sel : DimSelection)
    → 0 < sel.count
    → 0 < sel.stride
    → sel.stride < sel.block
    → sel.start + sel.count * sel.stride + sel.block < word
    → (last : ℕ) × (last_element sel ≡ ok (some last))
      × Selects sel last
      × (contains sel last ≡ ok false)
unfolding contains last_element
contains_misses_last sel some_blocks moves over fits =
    let whole = last_stride (sel.count) (sel.stride) some_blocks in
    let last = sel.start + (sel.count - 1) * sel.stride + (sel.block - 1) in
    let some_dim : is_empty_dim sel ≡ false = ground arith in
    let low : ltb last (sel.start) ≡ false = ground arith in
    let past : ltb ((last - sel.start) / sel.stride) (sel.count) ≡ false =
      le→ltb_false _ _
        (past_end (sel.count) (sel.stride) (last - sel.start) moves (omega (arith, whole))) in
    let nonzero : (sel.stride == 0) ≡ false = ground arith in
    (
      last,
      rw
          (
            some_dim,
            lt→ltb ((sel.count - 1) * sel.stride) word (omega (arith, whole)),
            lt→ltb (sel.start + (sel.count - 1) * sel.stride) word (omega (arith, whole)),
            lt→ltb last word (omega (arith, whole)),
          )
          refl,
      (sel.count - 1, sel.block - 1, omega arith, omega arith, refl),
      rw (some_dim, low, nonzero, past) refl,
    )
  where
    last_stride : (c s : ℕ) → 0 < c → (c - 1) * s + s ≡ c * s
    last_stride c s h =
        let step : c ≡ c - 1 + 1 = omega arith in
        let one : (c - 1 + 1) * s ≡ (c - 1) * s + s = grind arith in
        sym one ∙ ap (λ n. n * s) (sym step)

    past_end : (c s r : ℕ) → 0 < s → c * s ≤ r → c ≤ r / s
    past_end c s r h k = grind arith

    le→ltb_false : (a b : ℕ) → b ≤ a → ltb a b ≡ false
    le→ltb_false a b h = ground arith

-- The output coordinate of element `j` of block `k`.
pub out_coord_lem :
    (sel : DimSelection) (k j : ℕ)
    → IsSound sel
    → k < sel.count
    → j < sel.block
    → out_coord sel (sel.start + k * sel.stride + j) ≡ ok (k * sel.block + j)
unfolding out_coord
out_coord_lem sel k j sound hk hj =
    let (quotient, rest) = split k j (sel.stride) (omega (arith, sound.apart)) in
    let rel : sel.start + k * sel.stride + j - sel.start ≡ k * sel.stride + j = omega arith in
    let low : leb (sel.start) (sel.start + k * sel.stride + j) ≡ true = le→leb _ _ (omega arith) in
    let moves : (sel.stride == 0) ≡ false = ground (arith, hj, sound.apart) in
    let small : k * sel.block + j < word =
      below (sel.count) (sel.stride) (sel.block) k j (sound.apart) hk hj
        (omega (arith, sound.fits)) in
    rw
      (
        low,
        rel,
        moves,
        quotient,
        rest,
        lt→ltb (k * sel.block) word (omega arith),
        lt→ltb (k * sel.block + j) word small,
      )
      refl
  where
    below : (c s b k j : ℕ) → b ≤ s → k < c → j < b → c * s < word → k * b + j < word
    below c s b k j h hk hj small =
        let one : k * b + j < c * b = grind arith in
        let two : c * b ≤ c * s = grind arith in omega arith
