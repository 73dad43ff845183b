-- ===== src/Hyperslab/Placement.antt =====
-- Where a selection's elements lie in the dataset and in the output, one dimension at a time.
use oxih.Base.{
  ℕ, ◌+◌, ◌*◌, ◌/◌, ◌%◌, ◌-◌, ◌≤◌, ◌<◌, ◌≡◌, refl, sym, ◌∙◌, ap, false, arith, lt→ltb, inl, ◌⊎◌,
  inr,
}
use oxih.Outcome.{ok, word}
use oxih.Hyperslab.{is_empty_dim, DimSelection, last_element, bounding_range, n_elements, out_coord}
use oxih.Hyperslab.Selection.{Selects, IsSound, out_coord_lem}

last_block : (c s : ℕ) → 0 < c → (c - 1) * s + s ≡ c * s
last_block c s h =
    let step : c ≡ c - 1 + 1 = omega arith in
    let one : (c - 1 + 1) * s ≡ (c - 1) * s + s = grind arith in
    sym one ∙ ap (λ n. n * s) (sym step)

block_before : (k c s : ℕ) → k < c → k * s ≤ (c - 1) * s
block_before k c s h = let step : k ≤ c - 1 = omega arith in scaled k (c - 1) s step
  where
    scaled : (a b s : ℕ) → a ≤ b → a * s ≤ b * s
    scaled a b s h = grind arith

-- For a selection of some elements that lies in the 64-bit range, the bounding range encloses every
-- selected coordinate, and its first and last coordinates are selected.
pub bounding_range_tight :
    (sel : DimSelection)
    → 0 < sel.count
    → 0 < sel.block
    → sel.start + sel.count * sel.stride + sel.block < word
    → (last : ℕ) × (bounding_range sel ≡ ok (sel.start, last + 1))
      × Selects sel (sel.start)
      × Selects sel last
      × ((coord : ℕ) → Selects sel coord → (sel.start ≤ coord) × (coord < last + 1))
unfolding bounding_range last_element
bounding_range_tight sel blocks elements fits =
    let whole = last_block (sel.count) (sel.stride) blocks in
    let last = sel.start + (sel.count - 1) * sel.stride + (sel.block - 1) in
    let some_dim : is_empty_dim sel ≡ false = ground arith in
    (
      last,
      rw
          (
            some_dim,
            lt→ltb ((sel.count - 1) * sel.stride) word (omega (arith, whole)),
            lt→ltb (sel.start + (sel.count - 1) * sel.stride) word (omega (arith, whole)),
            lt→ltb last word (omega (arith, whole)),
            lt→ltb (last + 1) word (omega (arith, whole)),
          )
          refl,
      (0, 0, blocks, elements, omega arith),
      (sel.count - 1, sel.block - 1, omega arith, omega arith, refl),
      λ coord (k, j, hk, hj, e).
          let before = block_before k (sel.count) (sel.stride) hk in
          (omega (arith, e), omega (arith, e, before)),
    )

next_row : (k l b : ℕ) → k < l → k * b + b ≤ l * b
next_row k l b h = grind arith

-- An earlier coordinate is in the same block or in an earlier one.
earlier : (k j l i s : ℕ) → k * s + j < l * s + i → i < s → (k ≡ l) ⊎ (k < l)
earlier k j l i s less hi = elim (lt_cases k l) [
  | inl e ↦ inl e
  | inr (inl h) ↦ inr h
  | inr (inr h) ↦ let rows : l * s + s ≤ k * s = next_row l k s h in absurd (omega (arith, rows))
]
  where
    lt_cases : (k l : ℕ) → (k ≡ l) ⊎ (k < l) ⊎ (l < k)
    lt_cases k l = omega arith

in_range : (k j c b : ℕ) → k < c → j < b → k * b + j < c * b
in_range k j c b h g = grind arith

-- For blocks that do not overlap and lie in the 64-bit range, the output coordinates of the selected elements lie below the
-- dimension's element count, and they are in the order of the elements.
pub out_coord_order :
    (sel : DimSelection) (lower upper : ℕ)
    → IsSound sel
    → Selects sel lower
    → Selects sel upper
    → lower < upper
    → (m : ℕ) × (n : ℕ) × (out_coord sel lower ≡ ok m)
      × (out_coord sel upper ≡ ok n)
      × (m < n)
      × (n < sel.count * sel.block)
out_coord_order sel lower upper sound (k, j, hk, hj, e) (l, i, hl, hi, f) before = (
  k * sel.block + j,
  l * sel.block + i,
  ap (out_coord sel) e ∙ out_coord_lem sel k j sound hk hj,
  ap (out_coord sel) f ∙ out_coord_lem sel l i sound hl hi,
  ordered k j l i (sel.block) (sel.stride) (sound.apart) hj hi (omega (arith, e, f)),
  in_range l i (sel.count) (sel.block) hl hi,
)
  where
    ordered :
        (k j l i b s : ℕ) → b ≤ s → j < b → i < b → k * s + j < l * s + i → k * b + j < l * b + i
    ordered k j l i b s h hj hi less = elim (earlier k j l i s less (omega arith)) [
      | inl same ↦
          let rows : k * b ≡ l * b = ap (λ n. n * b) same in
          let steps : k * s ≡ l * s = ap (λ n. n * s) same in omega (arith, rows, steps)
      | inr further ↦ let rows : k * b + b ≤ l * b = next_row k l b further in omega (arith, rows)
    ]

-- For blocks that do not overlap and lie in the 64-bit range, every coordinate below the element count is the output coordinate
-- of a selected element.
pub out_coord_onto :
    (sel : DimSelection) (n : ℕ)
    → IsSound sel
    → n < sel.count * sel.block
    → (n_elements sel ≡ ok (sel.count * sel.block))
      × (coord : ℕ) × Selects sel coord
      × (out_coord sel coord ≡ ok n)
unfolding n_elements
out_coord_onto sel n sound h =
    let (row, column, back) = split n (sel.count) (sel.block) h in
    let small : sel.count * sel.block < word =
      shrink (sel.count) (sel.block) (sel.stride) (sound.apart) (omega (arith, sound.fits)) in
    (
      rw (lt→ltb (sel.count * sel.block) word small) refl,
      sel.start + n / sel.block * sel.stride + n % sel.block,
      (n / sel.block, n % sel.block, row, column, refl),
      out_coord_lem sel (n / sel.block) (n % sel.block) sound row column ∙ ap ok back,
    )
  where
    split : (n c b : ℕ) → n < c * b → (n / b < c) × (n % b < b) × (n / b * b + n % b ≡ n)
    split n c b h = let pos : 0 < b = grind arith in (grind arith, grind arith, grind arith)

    shrink : (c b s : ℕ) → b ≤ s → c * s < word → c * b < word
    shrink c b s h small = let less : c * b ≤ c * s = grind arith in omega arith
