-- ===== src/Filters/Nbit.antt =====
-- `unpack_nbit` and `decode_scaleoffset_int` of crates/oxih5-format/src/filters.rs. An `i64` is its
-- residue modulo `2 ^ 64`; a shift by 64 or more is an overflow.
use oxih.Base.{
  ℕ, zero, suc, ◌+◌, ◌*◌, ◌/◌, ◌%◌, ◌-◌, ◌^◌, [], ◌∷◌, not, length, ltb, leb, ◌==◌, ◌||◌,
  if◌then◌else◌, min, replicate, take,
}
use oxih.Bytes.{Bytes, index, index_range, le_bytes, from_le, put}
use oxih.Outcome.{Outcome, ok, guard, require, mul_usize, format, word, ◌>>=◌, ◌>>◌}

-- The bits of one element, the most significant first; `|=` sets a bit that is still 0.
unfoldable pub nbit_value : Bytes → ℕ → ℕ → ℕ → ℕ → ℕ → Outcome ℕ
nbit_value bytes bits bit_start b zero value = ok value
nbit_value bytes bits bit_start b (suc left) value = do
  let byte_idx = (bit_start + b) / 8
  let bit_in_byte = 7 - (bit_start + b) % 8
  value ←
      (if ltb byte_idx (length bytes)
        then (do
          byte ← index bytes byte_idx
          require (ltb (bits - 1 - b) 64)
          ok (value + byte / 2 ^ bit_in_byte % 2 * 2 ^ (bits - 1 - b)))
        else ok value)
  nbit_value bytes bits bit_start (b + 1) left value

unfoldable pub nbit_elems : Bytes → ℕ → ℕ → ℕ → ℕ → ℕ → Bytes → Outcome Bytes
nbit_elems bytes elem_size bits offset i zero out = ok out
nbit_elems bytes elem_size bits offset i (suc left) out = do
  value ← nbit_value bytes bits (i * bits) 0 bits 0
  require (ltb offset 64)
  let value_bytes = le_bytes 8 (value * 2 ^ offset % word)
  out ← put out (i * elem_size) (take (min elem_size 8) value_bytes)
  nbit_elems bytes elem_size bits offset (i + 1) left out

unfoldable pub unpack_nbit : Bytes → ℕ → ℕ → ℕ → Outcome Bytes
unpack_nbit bytes elem_size bits offset = do
  guard (not (elem_size == 0)) format
  guard (not (bits == 0)) format
  let max_bits = min (elem_size * 8) (word - 1) % 2 ^ 32
  guard (leb bits max_bits) format
  guard (ltb offset max_bits) format
  let n_elems = min (length bytes * 8) (word - 1) / bits
  size ← mul_usize n_elems elem_size
  nbit_elems bytes elem_size bits offset 0 n_elems (replicate size 0)

-- The first `n` bytes, 0 where there are none.
abbrev pub padded : ℕ → Bytes → Bytes
padded zero bytes = []
padded (suc n) [] = 0 ∷ padded n []
padded (suc n) (b ∷ bytes) = b ∷ padded n bytes

-- `iN::from_le_bytes(..) as i64`, for `n` bytes
abbrev pub signed : ℕ → Bytes → ℕ
signed n bytes =
    let v = from_le (padded n bytes) in
    if ltb v (2 ^ (8 * n - 1)) then v else v + (word - 2 ^ (8 * n))

abbrev pub minimum_value : ℕ → Bytes → ℕ
minimum_value elem_size bytes =
    if elem_size == 1 || elem_size == 2 || elem_size == 4 || elem_size == 8
    then signed elem_size bytes
    else 0

-- A single byte is not sign-extended here.
abbrev pub packed_value : ℕ → Bytes → ℕ
packed_value elem_size src =
    if elem_size == 1
    then from_le (padded 1 src)
    else (if elem_size == 2 || elem_size == 4 || elem_size == 8 then signed elem_size src else 0)

unfoldable pub scaleoffset_elems : Bytes → ℕ → ℕ → ℕ → ℕ → Bytes → Outcome Bytes
scaleoffset_elems unpacked elem_size min_val i zero out = ok out
scaleoffset_elems unpacked elem_size min_val i (suc left) out = do
  src ← index_range unpacked (i * elem_size) elem_size
  let result = (packed_value elem_size src + min_val) % word
  result_bytes ← index_range (le_bytes 8 result) 0 elem_size
  out ← put out (i * elem_size) result_bytes
  scaleoffset_elems unpacked elem_size min_val (i + 1) left out

unfoldable pub decode_scaleoffset_int : Bytes → ℕ → ℕ → Bytes → Outcome Bytes
decode_scaleoffset_int bytes elem_size min_bits min_val_bytes =
    if elem_size == 0 || min_bits == 0 then ok bytes else (do
      unpacked ← unpack_nbit bytes elem_size min_bits 0
      let n_elems = length unpacked / elem_size
      scaleoffset_elems unpacked elem_size (minimum_value elem_size min_val_bytes) 0 n_elems
          (replicate (length unpacked) 0))
