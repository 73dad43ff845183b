-- ===== src/Filters/Fletcher/Checksum.antt =====
-- The Fletcher-32 checksum of a whole buffer, and the filter's round trip.
use oxih.Base.{
  ℕ, suc, ◌+◌, ◌*◌, ◌/◌, ◌%◌, ◌^◌, ◌<◌, ◌≡◌, refl, inl, inr, true, arith, length, All, ◌==◌,
  Bool-cases, get_elem?, sym, ◌≤◌, some,
}
use oxih.Bytes.{Bytes, IsByte, index_lt, get_elem?-IsByte}
use oxih.Outcome.{ok}
use oxih.Filters.Fletcher.{
  Accumulators, fletcher_tail, fletcher_words, fold16, wrap32, fletcher32_compute,
}
use oxih.Filters.Fletcher.Blocks.{
  After, Bounded, next, next-After, folded, folded-After, words_lem, word_at, plain_sum,
  running_sum, get_or-get_elem?, get_or_past, triangle,
}

-- How many words a buffer has, a trailing byte being half of one.
abbrev pub words_of : Bytes → ℕ
words_of bytes = (length bytes + 1) / 2

-- The two halves of a checksum are the two sums modulo 65535.
pub record IsFletcher32 (bytes : Bytes) (checksum : ℕ) : Type 0 where
  pub fits : checksum < 2 ^ 32
  pub low_half : checksum % 65536 % 65535 ≡ plain_sum bytes (words_of bytes) % 65535
  pub high_half : checksum / 65536 % 65535 ≡ running_sum bytes (words_of bytes) % 65535

start-After : (bytes : Bytes) → After bytes 0 (record { i = 0; sum1 = 0; sum2 = 0 })
unfolding plain_sum running_sum
start-After bytes = record { place = refl; first = refl; second = refl }

start-Bounded : Bounded 0 (record { i = 0; sum1 = 0; sum2 = 0 })
unfolding triangle
start-Bounded = record { first = omega arith; second = omega arith }

abbrev tail_of : Accumulators → ℕ → Accumulators
tail_of acc w =
    let end = folded (next acc w) in record { i = acc.i; sum1 = end.sum1; sum2 = end.sum2 }

tail_odd :
    (bytes : Bytes) (acc : Accumulators) {high : ℕ}
    → (length bytes % 2 == 1) ≡ true
    → get_elem? bytes (acc.i) ≡ some high
    → fletcher_tail bytes acc ≡ ok (tail_of acc (high * 256))
unfolding fletcher_tail
tail_odd bytes acc odd h = rw (odd, h) refl

-- The sums after the last word, whole or half.
record Complete (bytes : Bytes) (acc : Accumulators) : Type 0 where
  first : acc.sum1 % 65535 ≡ plain_sum bytes (words_of bytes) % 65535
  second : acc.sum2 % 65535 ≡ running_sum bytes (words_of bytes) % 65535
  low : acc.sum1 ≤ 65895
  high : acc.sum2 ≤ 131070

tail_lem :
    (bytes : Bytes) (acc : Accumulators)
    → All IsByte bytes
    → After bytes (length bytes / 2) acc
    → Bounded 0 acc
    → (out : Accumulators) × (fletcher_tail bytes acc ≡ ok out) × Complete bytes out
unfolding fletcher_tail word_at triangle
tail_lem bytes acc all after bounded = elim (Bool-cases (length bytes % 2 == 1)) [
  | inl odd ↦
      let j = length bytes / 2 in
      let rest : length bytes ≡ j + j + 1 = ground arith in
      let (high, h) = index_lt bytes (j + j) (omega arith) in
      let word : high * 256 + 0 ≡ word_at bytes j =
        omega
          (arith, get_or-get_elem? bytes (j + j) h, get_or_past bytes (j + j + 1) (omega arith)) in
      let (then, so) =
        next-After bytes j 0 (high * 256) acc (omega arith)
          (omega (arith, get_elem?-IsByte bytes (j + j) all h)) (omega (arith, word)) after
          bounded in
      let (there, still) =
        folded-After bytes (suc j) 1 (next acc (high * 256)) (omega arith) then so in
      let count : suc j ≡ words_of bytes = omega arith in
      let done = rw count at there in
      (
        _,
        tail_odd bytes acc odd (rw (sym after.place) at h),
        record {
          first = done.first;
          second = done.second;
          low = omega (arith, still.first);
          high = omega (arith, still.second);
        },
      )
  | inr even ↦
      let count : length bytes / 2 ≡ words_of bytes = ground arith in
      let done = rw count at after in
      (
        acc,
        rw even refl,
        record {
          first = done.first;
          second = done.second;
          low = omega (arith, bounded.first);
          high = omega (arith, bounded.second);
        },
      )
]

abbrev checksum_of : Accumulators → ℕ
checksum_of acc = wrap32 (fold16 (acc.sum2) * 65536) + fold16 (acc.sum1)

compute_runs :
    (bytes : Bytes) {mid out : Accumulators}
    → fletcher_words
        (length bytes / 2)
        bytes
        (length bytes / 2)
        (record { i = 0; sum1 = 0; sum2 = 0 })
      ≡ ok mid
    → fletcher_tail bytes mid ≡ ok out
    → fletcher32_compute bytes ≡ ok (checksum_of out)
unfolding fletcher32_compute
compute_runs bytes h t = rw (h, t) refl

-- On every list of bytes the code computes, without a panic, a checksum below `2^32` whose low half is
-- the sum of the big-endian 16-bit words modulo 65535, and its high half the sum of the running sums
-- modulo 65535.
pub fletcher32_compute_lem :
    (bytes : Bytes)
    → All IsByte bytes
    → (checksum : ℕ) × (fletcher32_compute bytes ≡ ok checksum) × IsFletcher32 bytes checksum
fletcher32_compute_lem bytes all =
    let words = length bytes / 2 in
    let (mid, runs, after, bounded) =
      words_lem words bytes words 0 words _ all (omega arith) (omega arith) (omega arith)
        (start-After bytes) start-Bounded in
    let (out, ends, done) = tail_lem bytes mid all after bounded in
    let low : fold16 (out.sum1) < 65536 = omega (arith, done.low) in
    let high : fold16 (out.sum2) < 65536 = omega (arith, done.high) in
    (
      checksum_of out,
      compute_runs bytes runs ends,
      record {
        fits = omega (arith, low, high);
        low_half = omega (arith, low, high, done.first);
        high_half = omega (arith, low, high, done.second);
      },
    )
