-- ===== src/SymTable/Chunks.antt =====
-- `chunks`: the pieces of a list, and how many there are.
use oxih.Base.{
  ℕ, zero, suc, ◌+◌, ◌*◌, ◌≤◌, ◌<◌, ◌≡◌, refl, ◌∙◌, ap, List, [], ◌∷◌, ◌++◌, arith, length, take,
  drop, All, All-take, All-drop, length-take, length-drop, take-append-drop, ◌⊎◌, inl, inr,
}
use oxih.SymTable.{chunks_from, div_up}
use oxih.SymTable.Plan.{div_up_bounds}

module _ {ℓ} {A : Type ℓ} where
  abbrev pub concat : List (List A) → List A
  concat [] = []
  concat (xs ∷ lists) = xs ++ concat lists

  shorter :
      (size fuel : ℕ) (x : A) (list : List A)
      → 0 < size
      → length (x ∷ list) ≤ suc fuel
      → length (drop size (x ∷ list)) ≤ fuel
  shorter size fuel x list pos h = omega (arith, length-drop size (x ∷ list))

  pub concat-chunks_from :
      (fuel size : ℕ) (list : List A)
      → 0 < size
      → length list ≤ fuel
      → concat (chunks_from fuel size list) ≡ list
  unfolding chunks_from
  concat-chunks_from zero size [] pos h = refl
  concat-chunks_from zero size (x ∷ list) pos h = absurd (omega arith)
  concat-chunks_from (suc fuel) size [] pos h = refl
  concat-chunks_from (suc fuel) size (x ∷ list) pos h =
      ap (λ rest. take size (x ∷ list) ++ rest)
        (concat-chunks_from fuel size (drop size (x ∷ list)) pos (shorter size fuel x list pos h))
      ∙ take-append-drop size (x ∷ list)

  pub chunks_from-All {κ} :
      (P : A → Type κ) (fuel size : ℕ) (list : List A)
      → All P list
      → All (λ chunk. (length chunk ≤ size) × All P chunk) (chunks_from fuel size list)
  unfolding chunks_from
  chunks_from-All P zero size list h = tt
  chunks_from-All P (suc fuel) size [] h = tt
  chunks_from-All P (suc fuel) size (x ∷ list) h = (
    (omega (arith, length-take size (x ∷ list)), All-take P size (x ∷ list) h),
    chunks_from-All P fuel size (drop size (x ∷ list)) (All-drop P size (x ∷ list) h),
  )

  count_bounds :
      (fuel size : ℕ) (list : List A)
      → 0 < size
      → length list ≤ fuel
      → (length list ≤ length (chunks_from fuel size list) * size)
        × (length (chunks_from fuel size list) * size < length list + size)
  unfolding chunks_from
  count_bounds zero size [] pos h = (omega arith, omega arith)
  count_bounds zero size (x ∷ list) pos h = absurd (omega arith)
  count_bounds (suc fuel) size [] pos h = (omega arith, omega arith)
  count_bounds (suc fuel) size (x ∷ list) pos h =
      let rest = chunks_from fuel size (drop size (x ∷ list)) in
      let (enough, tight) =
        count_bounds fuel size (drop size (x ∷ list)) pos (shorter size fuel x list pos h) in
      let left = length-drop size (x ∷ list) in
      let next = one_more (length rest) size in
      let short = zero_below (length rest) size in
      (
        omega (arith, enough, left, next),
        elim (le_or_lt size (length (x ∷ list))) [
          | inl long ↦ omega (arith, tight, left, next, long)
          | inr over ↦
              let none_left = short (omega (arith, tight, left, over)) in
              omega (arith, next, none_left)
        ],
      )
    where
      one_more : (c s : ℕ) → suc c * s ≡ c * s + s
      one_more c s = grind arith

      zero_below : (r s : ℕ) → r * s < s → r * s ≡ 0
      zero_below zero s h = omega arith
      zero_below (suc r) s h = absurd (omega (arith, one_more r s))

      le_or_lt : (a b : ℕ) → (a ≤ b) ⊎ (b < a)
      le_or_lt a b = omega arith

  pub length-chunks_from :
      (fuel size : ℕ) (list : List A)
      → 0 < size
      → length list ≤ fuel
      → length (chunks_from fuel size list) ≡ div_up (length list) size
  length-chunks_from fuel size list pos h =
      let (enough, tight) = count_bounds fuel size list pos h in
      let (as_many, as_few) = div_up_bounds (length list) size pos in
      unique (length (chunks_from fuel size list)) (div_up (length list) size) (length list) size
        enough tight as_many as_few
    where
      at_most : (c d s : ℕ) → c * s < d * s + s → c ≤ d
      at_most c d s h = grind arith

      unique : (c d n s : ℕ) → n ≤ c * s → c * s < n + s → n ≤ d * s → d * s < n + s → c ≡ d
      unique c d n s a b x y =
          let one = at_most c d s (omega arith) in
          let two = at_most d c s (omega arith) in omega arith
