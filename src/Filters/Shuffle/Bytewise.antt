-- ===== src/Filters/Shuffle/Bytewise.antt =====
-- The transforms give bytes for bytes.
use oxih.Base.{
  ◌%◌, ◌/◌, ◌==◌, ℕ, zero, suc, ◌+◌, ◌≡◌, [], ◌∷◌, All, set, length, replicate, arith, not, ltb,
}
use oxih.Bytes.{Bytes, IsByte, get_elem?-IsByte, index}
use oxih.Outcome.{ok, >>=-eq-ok, ok_eq, unwrap_eq}
use oxih.Filters.Shuffle.{
  move_byte, copy_elems, copy_bytes, by_elem, by_byte, shuffle, guard, require, format,
}

-- The loops move bytes only.
set-IsByte : (xs : Bytes) (i v : ℕ) → All IsByte xs → IsByte v → All IsByte (set xs i v)
set-IsByte [] i v h k = h
set-IsByte (x ∷ xs) zero v h k = (k, h.1)
set-IsByte (x ∷ xs) (suc i) v h k = (h.0, set-IsByte xs i v h.1 k)

move_byte-IsByte :
    (bytes : Bytes) (to from : ℕ) (out : Bytes) {result : Bytes}
    → All IsByte bytes
    → All IsByte out
    → move_byte bytes to from out ≡ ok result
    → All IsByte result
unfolding move_byte
move_byte-IsByte bytes to from out all k h =
    let (b, at, rest) = >>=-eq-ok (index bytes from) _ h in
    let (u, fits, done) = >>=-eq-ok (require (ltb to (length out))) _ rest in
    rw (ok_eq done) at (set-IsByte out to b k (get_elem?-IsByte bytes from all (unwrap_eq _ at)))

copy_elems-IsByte :
    (to from : ℕ → ℕ) (bytes : Bytes) (i left : ℕ) (out : Bytes) {result : Bytes}
    → All IsByte bytes
    → All IsByte out
    → copy_elems to from bytes i left out ≡ ok result
    → All IsByte result
unfolding copy_elems
copy_elems-IsByte to from bytes i zero out all k h = rw (ok_eq h) at k
copy_elems-IsByte to from bytes i (suc left) out all k h =
    let (next, at, rest) = >>=-eq-ok (move_byte bytes (to i) (from i) out) _ h in
    copy_elems-IsByte to from bytes (i + 1) left next all
      (move_byte-IsByte bytes (to i) (from i) out all k at) rest

copy_bytes-IsByte :
    (to from : ℕ → ℕ → ℕ) (bytes : Bytes) (n b left : ℕ) (out : Bytes) {result : Bytes}
    → All IsByte bytes
    → All IsByte out
    → copy_bytes to from bytes n b left out ≡ ok result
    → All IsByte result
unfolding copy_bytes
copy_bytes-IsByte to from bytes n b zero out all k h = rw (ok_eq h) at k
copy_bytes-IsByte to from bytes n b (suc left) out all k h =
    let (next, at, rest) = >>=-eq-ok (copy_elems (to b) (from b) bytes 0 n out) _ h in
    copy_bytes-IsByte to from bytes n (b + 1) left next all
      (copy_elems-IsByte (to b) (from b) bytes 0 n out all k at) rest

zeros-IsByte : (n : ℕ) → All IsByte (replicate n 0)
zeros-IsByte zero = tt
zeros-IsByte (suc n) = (omega arith, zeros-IsByte n)

pub shuffle-IsByte :
    (bytes : Bytes) (w : ℕ) {result : Bytes}
    → All IsByte bytes
    → shuffle bytes w ≡ ok result
    → All IsByte result
unfolding shuffle
shuffle-IsByte bytes w all h =
    let (u, nonzero, h1) = >>=-eq-ok (guard (not (w == 0)) format) _ h in
    let (v, whole, h2) = >>=-eq-ok (guard (length bytes % w == 0) format) _ h1 in
    let n = length bytes / w in
    copy_bytes-IsByte (by_byte n) (by_elem w) bytes n 0 w _ all (zeros-IsByte (length bytes)) h2
