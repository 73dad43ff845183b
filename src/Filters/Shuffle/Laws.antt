-- ===== src/Filters/Shuffle/Laws.antt =====
-- `shuffle` and `unshuffle` undo one another.
use oxih.Base.{
  ℕ, ◌+◌, ◌*◌, ◌/◌, ◌%◌, ◌<◌, ◌≡◌, sym, ◌∙◌, ap, arith, length, get_elem?, replicate,
  length-replicate, ext_get_elem?, get_elem?-length, ◌==◌, ltb, Bool-cases, inl, inr, false, ltb→lt,
}
use oxih.Bytes.{Bytes}
use oxih.Outcome.{Outcome, ok}
use native.Mathlib.Nat.{mul_comm, div-add-mod}
use oxih.Filters.Shuffle.{by_elem, by_byte, shuffle, unshuffle}
use oxih.Filters.Shuffle.Copy.{copy_bytes_lem}

mul_add_mod : (w e d : ℕ) → d < w → (e * w + d) % w ≡ d
mul_add_mod w e d h = grind arith

-- A place names its row and its column.
row_unique : (w d e d' e' : ℕ) → d < w → d' < w → e * w + d ≡ e' * w + d' → (e ≡ e') × (d ≡ d')
row_unique w d e d' e' h h' q =
    let same : d ≡ d' =
      rw (mul_add_mod w e d h, mul_add_mod w e' d' h') at (ap (λ (t : ℕ). t % w) q) in
    (grind arith, same)

-- Each byte of element `e` of `n` lies inside the buffer, in both layouts.
elem_inside : (w n d e : ℕ) → d < w → e < n → e * w + d < n * w
elem_inside w n d e h k = grind arith

-- What both transforms do to a whole number of elements.
record Moves (bytes : Bytes) (to from : ℕ → ℕ → ℕ) (w n : ℕ) (r : Outcome Bytes) : Type 0 where
  result : Bytes
  runs : r ≡ ok result
  same_length : length result ≡ length bytes
  moved : (d e : ℕ) → d < w → e < n → get_elem? result (to d e) ≡ get_elem? bytes (from d e)

module _ (bytes : Bytes) (w n : ℕ) (pos : 0 < w) (whole : length bytes ≡ n * w) where
  count : length bytes / w ≡ n
  count = rw whole (grind arith)

  no_rest : length bytes % w ≡ 0
  no_rest = rw whole (grind arith)

  shuffle-Moves : Moves bytes (by_byte n) (by_elem w) w n (shuffle bytes w)
  unfolding shuffle
  shuffle-Moves =
      let done =
        copy_bytes_lem (by_byte n) (by_elem w) bytes n 0 w (replicate (length bytes) 0)
          (λ d e lo hi k.
            let low : d < w = omega arith in
            (
              omega (
                arith,
                elem_inside n w e d k low,
                whole,
                length-replicate {A = ℕ} (length bytes) 0,
                mul_comm n w,
              ),
              omega (arith, elem_inside w n d e low k),
            ))
          (λ d e d' e' h h' k k' q. row_unique n e d e' d' k k' q) in
      let nonzero : (w == 0) ≡ false = ground arith in
      record {
        result = done.result;
        runs = rw (nonzero, no_rest, count) done.runs;
        same_length = done.same_length ∙ length-replicate {A = ℕ} (length bytes) 0;
        moved = λ d e h k. done.moved d e (omega arith) (omega arith) k;
      }

  unshuffle-Moves : Moves bytes (by_elem w) (by_byte n) w n (unshuffle bytes w)
  unfolding unshuffle
  unshuffle-Moves =
      let done =
        copy_bytes_lem (by_elem w) (by_byte n) bytes n 0 w (replicate (length bytes) 0)
          (λ d e lo hi k.
            let low : d < w = omega arith in
            (
              omega (
                arith,
                elem_inside w n d e low k,
                whole,
                length-replicate {A = ℕ} (length bytes) 0,
              ),
              omega (arith, elem_inside n w e d k low, mul_comm n w),
            ))
          (λ d e d' e' h h' k k' q.
            let (x, y) = row_unique w d e d' e' (omega arith) (omega arith) q in (y, x)) in
      let nonzero : (w == 0) ≡ false = ground arith in
      record {
        result = done.result;
        runs = rw (nonzero, no_rest, count) done.runs;
        same_length = done.same_length ∙ length-replicate {A = ℕ} (length bytes) 0;
        moved = λ d e h k. done.moved d e (omega arith) (omega arith) k;
      }

-- Every place of the buffer is a byte of an element.
place : (w n i : ℕ) → i < n * w → (i / w * w + i % w ≡ i) × (i % w < w) × (i / w < n)
place w n i h = let pos : 0 < w = grind arith in (grind arith, grind arith, grind arith)

-- Two buffers that agree at every byte of every element are equal.
agree :
    (xs ys : Bytes) (w n : ℕ)
    → length xs ≡ n * w
    → length ys ≡ length xs
    → ((d e : ℕ) → d < w → e < n → get_elem? xs (e * w + d) ≡ get_elem? ys (e * w + d))
    → xs ≡ ys
agree xs ys w n whole same h = ext_get_elem? xs ys (λ i. elim (Bool-cases (ltb i (length xs))) [
  | inl inside ↦
      let (is, low, row) = place w n i (rw whole at (ltb→lt i (length xs) inside)) in
      rw is at (h (i % w) (i / w) low row)
  | inr past ↦ get_elem?-length xs i (ground arith) ∙ sym (get_elem?-length ys i (ground arith))
])

abbrev elems : Bytes → ℕ → ℕ
elems bytes w = length bytes / w

whole_elems : (bytes : Bytes) (w : ℕ) → length bytes % w ≡ 0 → length bytes ≡ elems bytes w * w
whole_elems bytes w h = omega (arith, div-add-mod (length bytes) w, mul_comm w (elems bytes w))

module _ (bytes : Bytes) (w : ℕ) (pos : 0 < w) (whole : length bytes % w ≡ 0) where
  -- On a whole number of elements of `w` bytes, shuffling and then unshuffling gives the data back;
  -- neither fails or changes the length.
  pub unshuffle-shuffle :
      (out : Bytes) × (shuffle bytes w ≡ ok out)
      × (length out ≡ length bytes)
      × (unshuffle out w ≡ ok bytes)
  unshuffle-shuffle =
      let n = elems bytes w in
      let size = whole_elems bytes w whole in
      let there = shuffle-Moves bytes w n pos size in
      let back = unshuffle-Moves there.result w n pos (there.same_length ∙ size) in
      let same : back.result ≡ bytes =
        agree back.result bytes w n (back.same_length ∙ there.same_length ∙ size)
          (sym (back.same_length ∙ there.same_length))
          (λ d e h k. back.moved d e h k ∙ there.moved d e h k) in
      (there.result, there.runs, there.same_length, back.runs ∙ ap ok same)

  -- On a whole number of elements of `w` bytes, unshuffling and then shuffling gives the data back;
  -- neither fails or changes the length.
  pub shuffle-unshuffle :
      (out : Bytes) × (unshuffle bytes w ≡ ok out)
      × (length out ≡ length bytes)
      × (shuffle out w ≡ ok bytes)
  shuffle-unshuffle =
      let n = elems bytes w in
      let size = whole_elems bytes w whole in
      let there = unshuffle-Moves bytes w n pos size in
      let back = shuffle-Moves there.result w n pos (there.same_length ∙ size) in
      let same : back.result ≡ bytes =
        agree back.result bytes n w (back.same_length ∙ there.same_length ∙ size ∙ mul_comm n w)
          (sym (back.same_length ∙ there.same_length))
          (λ d e h k. back.moved e d k h ∙ there.moved e d k h) in
      (there.result, there.runs, there.same_length, back.runs ∙ ap ok same)
