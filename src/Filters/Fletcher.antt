-- ===== src/Filters/Fletcher.antt =====
-- `fletcher32_compute`, `append_fletcher32` and `verify_fletcher32` of
-- crates/oxih5-format/src/filters.rs. The two accumulators are 32-bit and wrap.
pub mod Blocks
pub mod Checksum
pub mod RoundTrip
use oxih.Base.{
  ℕ, zero, suc, ◌+◌, ◌*◌, ◌/◌, ◌%◌, ◌-◌, ◌^◌, List, ◌++◌, true, false, length, ◌==◌, ltb, leb,
  if◌then◌else◌, not, min,
}
use oxih.Bytes.{Bytes, index, le_bytes, from_le, index_range}
use oxih.Outcome.{Outcome, ok, err, panic, guard, corrupted, ◌>>=◌, ◌>>◌}

abbrev pub wrap32 : ℕ → ℕ
wrap32 x = x % 4294967296

-- `(x & 0xffff) + (x >> 16)`
abbrev pub fold16 : ℕ → ℕ
fold16 x = x % 65536 + x / 65536

pub record Accumulators : Type 0 where
  i : ℕ
  sum1 : ℕ
  sum2 : ℕ

-- `while block > 0`
unfoldable pub fletcher_block : Bytes → ℕ → Accumulators → Outcome Accumulators
fletcher_block bytes zero acc = ok acc
fletcher_block bytes (suc block) acc = do
  high ← index bytes (acc.i)
  low ← index bytes (acc.i + 1)
  let sum1 = wrap32 (acc.sum1 + (high * 256 + low))
  fletcher_block bytes block
      (record { i = acc.i + 2; sum1 = sum1; sum2 = wrap32 (acc.sum2 + sum1) })

-- `while words > 0`: a block takes at least one word, so `words` rounds are enough.
unfoldable pub fletcher_words : ℕ → Bytes → ℕ → Accumulators → Outcome Accumulators
fletcher_words fuel bytes zero acc = ok acc
fletcher_words zero bytes (suc words) acc = panic
fletcher_words (suc fuel) bytes (suc words) acc = do
  let block = min (suc words) 360
  acc ← fletcher_block bytes block acc
  fletcher_words fuel bytes (suc words - block)
      (record { i = acc.i; sum1 = fold16 (acc.sum1); sum2 = fold16 (acc.sum2) })

-- The trailing odd byte is the high half of a word.
unfoldable pub fletcher_tail : Bytes → Accumulators → Outcome Accumulators
fletcher_tail bytes acc =
    if length bytes % 2 == 1
    then (do
      high ← index bytes (acc.i)
      let sum1 = wrap32 (acc.sum1 + high * 256)
      let sum2 = wrap32 (acc.sum2 + sum1)
      ok (record { i = acc.i; sum1 = fold16 sum1; sum2 = fold16 sum2 }))
    else ok acc

-- `(sum2 << 16) | sum1`: the second reduction leaves `sum1` below `2^16`, where `|` is `+`.
unfoldable pub fletcher32_compute : Bytes → Outcome ℕ
fletcher32_compute bytes = do
  let words = length bytes / 2
  acc ← fletcher_words words bytes words (record { i = 0; sum1 = 0; sum2 = 0 })
  acc ← fletcher_tail bytes acc
  ok (wrap32 (fold16 (acc.sum2) * 65536) + fold16 (acc.sum1))

unfoldable pub append_fletcher32 : Bytes → Outcome Bytes
append_fletcher32 bytes = do checksum ← fletcher32_compute bytes; ok (bytes ++ le_bytes 4 checksum)

unfoldable pub verify_fletcher32 : Bytes → Outcome Bytes
verify_fletcher32 bytes = do
  guard (leb 4 (length bytes)) corrupted
  payload ← index_range bytes 0 (length bytes - 4)
  checksum_bytes ← index_range bytes (length bytes - 4) 4
  computed ← fletcher32_compute payload
  guard (from_le checksum_bytes == computed) corrupted
  ok payload
