-- ===== src/Geometry/Elems.antt =====
-- Buffers of whole elements, by their elements.
use oxih.Base.{
  ℕ, zero, suc, ◌+◌, ◌*◌, ◌<◌, ◌≡◌, refl, sym, ◌∙◌, ap, [], ◌∷◌, ◌++◌, arith, length, take, drop,
  subst, drop-drop, length-drop, take-append-drop, All, All-append,
}
use oxih.Bytes.{Bytes, sub, IsByte}
use oxih.Geometry.Copy.{elem_at}

elem_at-drop :
    (xs : Bytes) (elem_size i : ℕ)
    → elem_at (drop elem_size xs) elem_size i ≡ elem_at xs elem_size (suc i)
unfolding sub
elem_at-drop xs elem_size i =
    ap (take elem_size)
      (drop-drop elem_size (i * elem_size) xs ∙ ap (λ k. drop k xs) (next i elem_size))
  where
    next : (i n : ℕ) → n + i * n ≡ suc i * n
    next i n = grind arith

elem_at-zero : (xs : Bytes) (elem_size : ℕ) → elem_at xs elem_size 0 ≡ take elem_size xs
unfolding sub
elem_at-zero xs elem_size =
    let start : 0 * elem_size ≡ 0 = omega arith in ap (λ k. take elem_size (drop k xs)) start

rest_length : (xs : Bytes) (m n : ℕ) → length xs ≡ suc n * m → length (drop m xs) ≡ n * m
rest_length xs m n h = omega (arith, length-drop m xs, wide n m)
  where
    wide : (n m : ℕ) → suc n * m ≡ m + n * m
    wide n m = grind arith

-- Buffers of whole elements with the same elements are equal.
pub ext_elem_at :
    (elem_size n : ℕ) (xs ys : Bytes)
    → length xs ≡ n * elem_size
    → length ys ≡ n * elem_size
    → ((i : ℕ) → i < n → elem_at xs elem_size i ≡ elem_at ys elem_size i)
    → xs ≡ ys
ext_elem_at elem_size zero [] [] lx ly same = refl
ext_elem_at elem_size zero [] (y ∷ ys) lx ly same = absurd (omega arith)
ext_elem_at elem_size zero (x ∷ xs) ys lx ly same = absurd (omega arith)
ext_elem_at elem_size (suc n) xs ys lx ly same =
    let first =
      sym (elem_at-zero xs elem_size) ∙ same 0 (omega arith) ∙ elem_at-zero ys elem_size in
    let others =
      ext_elem_at elem_size n (drop elem_size xs) (drop elem_size ys)
        (rest_length xs elem_size n lx) (rest_length ys elem_size n ly)
        (λ i h.
          elem_at-drop xs elem_size i
          ∙ same (suc i) (omega arith)
          ∙ sym (elem_at-drop ys elem_size i)) in
    sym (take-append-drop elem_size xs)
    ∙ ap (λ t. t ++ drop elem_size xs) first
    ∙ ap (λ t. take elem_size ys ++ t) others
    ∙ take-append-drop elem_size ys

-- A buffer consists of bytes where its elements do.
pub All-elem_at :
    (elem_size n : ℕ) (xs : Bytes)
    → length xs ≡ n * elem_size
    → ((i : ℕ) → i < n → All IsByte (elem_at xs elem_size i))
    → All IsByte xs
All-elem_at elem_size zero [] h all = tt
All-elem_at elem_size zero (x ∷ xs) h all = absurd (omega arith)
All-elem_at elem_size (suc n) xs h all = subst (All IsByte) (take-append-drop elem_size xs) (
    All-append IsByte (take elem_size xs) (drop elem_size xs)
      (subst (All IsByte) (elem_at-zero xs elem_size) (all 0 (omega arith)))
      (All-elem_at elem_size n (drop elem_size xs) (rest_length xs elem_size n h) (λ i k.
        subst (All IsByte) (sym (elem_at-drop xs elem_size i)) (all (suc i) (omega arith)))))
