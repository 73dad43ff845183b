-- ===== src/Filters/Fletcher/RoundTrip.antt =====
-- `verify_fletcher32` against `append_fletcher32`.
use oxih.Base.{
  ℕ, ◌+◌, ◌-◌, ◌≡◌, ◌≢◌, refl, ◌∙◌, ◌++◌, true, false, arith, length, All, ◌==◌, leb, ◌⊎◌,
  Bool-cases, length-append, eq_refl, inl, ==_iff, inr, le→leb, drop-append, take-append, take_all,
  All-append,
}
use oxih.Bytes.{
  Bytes, IsByte, le_bytes, from_le, sub, length-le_bytes, from_le-le_bytes, get_range_ok,
  le_bytes-IsByte,
}
use oxih.Outcome.{Outcome, ok, err, corrupted, ◌>>=◌, ◌>>◌, >>=-eq-ok, ok_eq}
use oxih.Filters.Fletcher.{fletcher32_compute, append_fletcher32, verify_fletcher32, guard}
use oxih.Filters.Fletcher.Checksum.{fletcher32_compute_lem}

sub-append_front : (xs ys : Bytes) → sub (xs ++ ys) 0 (length xs) ≡ xs
unfolding sub
sub-append_front xs ys = take-append xs ys

sub-append_back : (xs ys : Bytes) → length ys ≡ 4 → sub (xs ++ ys) (length xs) 4 ≡ ys
unfolding sub
sub-append_back xs ys h = rw (drop-append xs ys) (take_all 4 ys (omega (arith, h)))

-- The stored checksum is the last four bytes.
verify-append :
    (bytes stored : Bytes)
    → length stored ≡ 4
    → verify_fletcher32 (bytes ++ stored)
      ≡ (fletcher32_compute bytes >>= λ c. guard (from_le stored == c) corrupted >> ok bytes)
unfolding verify_fletcher32
verify-append bytes stored four =
    let size : length (bytes ++ stored) ≡ length bytes + 4 =
      omega (arith, length-append bytes stored, four) in
    let cut : length (bytes ++ stored) - 4 ≡ length bytes = omega (arith, size) in
    let enough : leb 4 (length (bytes ++ stored)) ≡ true = le→leb 4 _ (omega (arith, size)) in
    let front = get_range_ok (bytes ++ stored) 0 (length bytes) (omega (arith, size)) in
    let back = get_range_ok (bytes ++ stored) (length bytes) 4 (omega (arith, size)) in
    rw (enough, cut, front, sub-append_front bytes stored, back, sub-append_back bytes stored four)
      refl

-- On every list of bytes, appending the checksum succeeds and adds four bytes, and verifying the result
-- gives the list back.
pub verify_fletcher32-append_fletcher32 :
    (bytes : Bytes)
    → All IsByte bytes
    → (out : Bytes) × (append_fletcher32 bytes ≡ ok out)
      × (length out ≡ length bytes + 4)
      × (verify_fletcher32 out ≡ ok bytes)
unfolding append_fletcher32
verify_fletcher32-append_fletcher32 bytes all =
    let (checksum, runs, is) = fletcher32_compute_lem bytes all in
    let read : from_le (le_bytes 4 checksum) ≡ checksum =
      from_le-le_bytes 4 checksum (omega (arith, is.fits)) in
    (
      bytes ++ le_bytes 4 checksum,
      rw runs refl,
      omega (arith, length-append bytes (le_bytes 4 checksum), length-le_bytes 4 checksum),
      verify-append bytes (le_bytes 4 checksum) (length-le_bytes 4 checksum)
          ∙ rw (runs, read, eq_refl checksum) refl,
    )

other_sum :
    {stored : ℕ} {run : Outcome ℕ} (checksum : ℕ)
    → run ≡ ok checksum
    → (stored == checksum) ≡ false
    → run ≢ ok stored
other_sum checksum h other e = ground (arith, h, other, e)

-- A list of bytes with four more after it is accepted when they are its Fletcher-32 checksum, and refused
-- as corrupted when they are not.
pub verify_fletcher32_decides :
    (bytes stored : Bytes)
    → All IsByte bytes
    → length stored ≡ 4
    → ((fletcher32_compute bytes ≡ ok (from_le stored))
        × (verify_fletcher32 (bytes ++ stored) ≡ ok bytes))
      ⊎ ((fletcher32_compute bytes ≢ ok (from_le stored))
          × (verify_fletcher32 (bytes ++ stored) ≡ err corrupted))
verify_fletcher32_decides bytes stored all four =
    let (checksum, runs, is) = fletcher32_compute_lem bytes all in
    let test = verify-append bytes stored four in
    elim (Bool-cases (from_le stored == checksum)) [
      | inl same ↦
          inl
            (rw (runs, (==_iff (from_le stored) checksum).0 same) refl, test ∙ rw (runs, same) refl)
      | inr other ↦ inr (λ e. other_sum checksum runs other e, test ∙ rw (runs, other) refl)
    ]

pub append_fletcher32-IsByte :
    (bytes : Bytes) {out : Bytes}
    → All IsByte bytes
    → append_fletcher32 bytes ≡ ok out
    → All IsByte out
unfolding append_fletcher32
append_fletcher32-IsByte bytes all h =
    let (checksum, runs, done) = >>=-eq-ok (fletcher32_compute bytes) _ h in
    rw (ok_eq done) at
      (All-append IsByte bytes (le_bytes 4 checksum) all (le_bytes-IsByte 4 checksum))
