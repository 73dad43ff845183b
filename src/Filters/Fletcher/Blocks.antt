-- ===== src/Filters/Fletcher/Blocks.antt =====
-- The Fletcher-32 code against its definition: the sum of the 16-bit words and the sum of the
-- running sums, modulo 65535.
use oxih.Base.{
  [], ◌∷◌, ap, ℕ, zero, suc, ◌+◌, ◌*◌, ◌%◌, ◌-◌, ◌≤◌, ◌<◌, ◌≡◌, refl, arith, length, get_elem?,
  get_or, All, min, some, sym, ◌∙◌,
}
use oxih.Bytes.{Bytes, IsByte, index_lt, get_elem?-IsByte}
use oxih.Outcome.{ok}
use oxih.Filters.Fletcher.{Accumulators, fletcher_block, fletcher_words, fold16, wrap32}

-- The `j`-th 16-bit word, big-endian; the bytes past the end count as 0.
unfoldable pub word_at : Bytes → ℕ → ℕ
word_at bytes j = get_or bytes (j + j) 0 * 256 + get_or bytes (j + j + 1) 0

-- The sum of the first `j` words.
unfoldable pub plain_sum : Bytes → ℕ → ℕ
plain_sum bytes zero = 0
plain_sum bytes (suc j) = plain_sum bytes j + word_at bytes j

-- The sum of the first `j` running sums.
unfoldable pub running_sum : Bytes → ℕ → ℕ
running_sum bytes zero = 0
running_sum bytes (suc j) = running_sum bytes j + plain_sum bytes (suc j)

-- `1 + .. + t`
unfoldable pub triangle : ℕ → ℕ
triangle zero = 0
triangle (suc t) = triangle t + suc t

triangle_360 : triangle 360 ≡ 64980
unfolding triangle
triangle_360 = refl

triangle-le : (k t : ℕ) {u : ℕ} → k + t ≡ u → triangle t ≤ triangle u
unfolding triangle
triangle-le zero t {u} h = let same : t ≡ u = omega arith in omega (arith, ap triangle same)
triangle-le (suc k) t {u} h = omega (arith, triangle-le k (suc t) {u = u} (omega arith))

-- The accumulators after `j` words.
pub record After (bytes : Bytes) (j : ℕ) (acc : Accumulators) : Type 0 where
  pub place : acc.i ≡ j + j
  pub first : acc.sum1 % 65535 ≡ plain_sum bytes j % 65535
  pub second : acc.sum2 % 65535 ≡ running_sum bytes j % 65535

-- Their bounds after `t` words of a block.
pub record Bounded (t : ℕ) (acc : Accumulators) : Type 0 where
  pub first : acc.sum1 ≤ 65895 + 65535 * t
  pub second : acc.sum2 ≤ 131070 + 65895 * t + 65535 * triangle t

triangle_room : (t : ℕ) → t < 360 → triangle t + suc t ≤ 64980
unfolding triangle
triangle_room t h =
    let top : 359 - t + suc t ≡ 360 = omega arith in
    omega (arith, triangle-le (359 - t) (suc t) top, triangle_360)

pub get_or-get_elem? : (bs : Bytes) (p : ℕ) {b : ℕ} → get_elem? bs p ≡ some b → get_or bs p 0 ≡ b
get_or-get_elem? [] p h = cc
get_or-get_elem? (x ∷ bs) zero h = cc
get_or-get_elem? (x ∷ bs) (suc p) h = get_or-get_elem? bs p h

pub get_or_past : (bs : Bytes) (p : ℕ) → length bs ≤ p → get_or bs p 0 ≡ 0
get_or_past [] p h = refl
get_or_past (x ∷ bs) zero h = absurd (omega arith)
get_or_past (x ∷ bs) (suc p) h = get_or_past bs p (omega arith)

abbrev pub next : Accumulators → ℕ → Accumulators
next acc w =
    let sum1 = wrap32 (acc.sum1 + w) in
    record { i = acc.i + 2; sum1 = sum1; sum2 = wrap32 (acc.sum2 + sum1) }

pub next-After :
    (bytes : Bytes) (j t w : ℕ) (acc : Accumulators)
    → t < 360
    → w < 65536
    → w ≡ word_at bytes j
    → After bytes j acc
    → Bounded t acc
    → After bytes (suc j) (next acc w) × Bounded (suc t) (next acc w)
unfolding plain_sum running_sum triangle
next-After bytes j t w acc k lt is after bounded =
    let most : triangle t + suc t ≤ 64980 = triangle_room t k in
    let fits1 : wrap32 (acc.sum1 + w) ≡ acc.sum1 + w = omega (arith, bounded.first) in
    let fits2 : wrap32 (acc.sum2 + (acc.sum1 + w)) ≡ acc.sum2 + (acc.sum1 + w) =
      omega (arith, bounded.first, bounded.second) in
    (
      record {
        place = omega (arith, after.place);
        first = rw fits1 (omega (arith, after.first, is));
        second = rw (fits1, fits2) (omega (arith, after.first, after.second, is));
      },
      record {
        first = rw fits1 (omega (arith, bounded.first));
        second = rw (fits1, fits2) (omega (arith, bounded.first, bounded.second));
      },
    )

word_at-get_elem? :
    (bytes : Bytes) (j : ℕ) {high low : ℕ}
    → get_elem? bytes (j + j) ≡ some high
    → get_elem? bytes (j + j + 1) ≡ some low
    → high * 256 + low ≡ word_at bytes j
unfolding word_at
word_at-get_elem? bytes j h l =
    omega (arith, get_or-get_elem? bytes (j + j) h, get_or-get_elem? bytes (j + j + 1) l)

block_step :
    (bytes : Bytes) (block : ℕ) (acc : Accumulators) {high low : ℕ}
    → get_elem? bytes (acc.i) ≡ some high
    → get_elem? bytes (acc.i + 1) ≡ some low
    → fletcher_block bytes (suc block) acc
      ≡ fletcher_block bytes block (next acc (high * 256 + low))
unfolding fletcher_block
block_step bytes block acc h l = rw (h, l)

-- A block adds its words, and no addition wraps.
block_lem :
    (bytes : Bytes) (block j t n top : ℕ) (acc : Accumulators)
    → All IsByte bytes
    → block + t ≡ top
    → top ≤ 360
    → j + block ≡ n
    → n + n ≤ length bytes
    → After bytes j acc
    → Bounded t acc
    → (out : Accumulators) × (fletcher_block bytes block acc ≡ ok out)
      × After bytes n out
      × Bounded top out
unfolding fletcher_block
block_lem bytes zero j t n top acc all at_top le at_n room after bounded =
    let same_t : t ≡ top = omega arith in
    let same_j : j ≡ n = omega arith in (acc, refl, rw same_j at after, rw same_t at bounded)
block_lem bytes (suc block) j t n top acc all at_top le at_n room after bounded =
    let (high, h) = index_lt bytes (j + j) (omega arith) in
    let (low, l) = index_lt bytes (j + j + 1) (omega arith) in
    let (then, so) =
      next-After bytes j t (high * 256 + low) acc (omega arith)
        (omega
          (arith, get_elem?-IsByte bytes (j + j) all h, get_elem?-IsByte bytes (j + j + 1) all l))
        (word_at-get_elem? bytes j h l) after bounded in
    let (out, runs, there, still) =
      block_lem bytes block (suc j) (suc t) n top _ all (omega arith) le (omega arith) room then
        so in
    let step = block_step bytes block acc (rw (sym after.place) at h) (rw (sym after.place) at l) in
    (out, step ∙ runs, there, still)

abbrev pub folded : Accumulators → Accumulators
folded acc = record { i = acc.i; sum1 = fold16 (acc.sum1); sum2 = fold16 (acc.sum2) }

-- A fold keeps both sums modulo 65535 and makes room for the next block.
pub folded-After :
    (bytes : Bytes) (n t : ℕ) (acc : Accumulators)
    → t ≤ 360
    → After bytes n acc
    → Bounded t acc
    → After bytes n (folded acc) × Bounded 0 (folded acc)
unfolding triangle
folded-After bytes n t acc le after bounded =
    let most : triangle t ≤ 64980 =
      let top : 360 - t + t ≡ 360 = omega arith in
      omega (arith, triangle-le (360 - t) t top, triangle_360) in
    (
      record {
        place = after.place;
        first = omega (arith, after.first);
        second = omega (arith, after.second);
      },
      record { first = omega (arith, bounded.first); second = omega (arith, bounded.second) },
    )

pub words_lem :
    (fuel : ℕ) (bytes : Bytes) (words j n : ℕ) (acc : Accumulators)
    → All IsByte bytes
    → words ≤ fuel
    → j + words ≡ n
    → n + n ≤ length bytes
    → After bytes j acc
    → Bounded 0 acc
    → (out : Accumulators) × (fletcher_words fuel bytes words acc ≡ ok out)
      × After bytes n out
      × Bounded 0 out
unfolding fletcher_words
words_lem fuel bytes zero j n acc all enough at_n room after bounded =
    let same : j ≡ n = omega arith in (acc, refl, rw same at after, bounded)
words_lem zero bytes (suc words) j n acc all enough at_n room after bounded = absurd (omega arith)
words_lem (suc fuel) bytes (suc words) j n acc all enough at_n room after bounded =
    let block = min (suc words) 360 in
    let (out, runs, there, still) =
      block_lem bytes block j 0 (j + block) block acc all (omega arith) (omega arith) refl
        (omega arith) after bounded in
    let (then, so) = folded-After bytes (j + block) block out (omega arith) there still in
    let (end, rest, done, low) =
      words_lem fuel bytes (suc words - block) (j + block) n (folded out) all (omega arith)
        (omega arith) room then so in
    (end, rw runs rest, done, low)
