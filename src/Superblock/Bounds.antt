-- ===== src/Superblock/Bounds.antt =====
-- `superblock::parse` on any input: it never panics, and what it returns is in range.
use oxih.Base.{
  ◌==◌, ◌||◌, ℕ, ◌+◌, ◌*◌, ◌<◌, ◌≤◌, ◌≡◌, ◌≢◌, arith, All, length, Bool-cases, leb, none, ◌⊎◌, inl,
  inr, leb→le,
}
use oxih.Bytes.{
  Bytes, index-ne-panic, read_le-ne-panic, IsByte, sub, read_le-lt, index_lt, eq_bytes,
  eq_bytes_iff, index_range_ok,
}
use oxih.Outcome.{ok, panic, word}
use oxih.Superblock.{
  parse, parse_version, parse_v0, parse_v1, parse_v2, parse_old, read_offset_at, Superblock,
  offset_value, hdf5_signature,
}
use oxih.Superblock.Fields.{IsOffsetWidth, Fits, none-Fits, read_offset_at-lt, parse_v2-Fits}

read_offset_at-ne-panic : (bytes : Bytes) (pos size : ℕ) → read_offset_at bytes pos size ≢ panic
unfolding read_offset_at offset_value
read_offset_at-ne-panic bytes pos size = ground arith

parse_old-ne-panic :
    (version len base_at root_at : ℕ) (bytes : Bytes)
    → 15 ≤ len
    → base_at + 8 < word
    → root_at + 8 < word
    → parse_old version len base_at root_at bytes ≢ panic
unfolding parse_old
parse_old-ne-panic version len base_at root_at bytes h hb hr = ground (
  arith,
  index-ne-panic bytes 13,
  index-ne-panic bytes 14,
  read_le-ne-panic 8 bytes base_at,
  read_le-ne-panic 8 bytes root_at,
)

parse_v2-ne-panic : (bytes : Bytes) (version : ℕ) → parse_v2 bytes version ≢ panic
unfolding parse_v2
parse_v2-ne-panic bytes version = elim (Bool-cases (leb 13 (length bytes))) [
  | inl e ↦
      let (soo, at) = index_lt bytes 9 (omega (arith, leb→le 13 (length bytes) e)) in
      rw (e, at)
        (ground (
          arith,
          index-ne-panic bytes 10,
          read_offset_at-ne-panic bytes 12 soo,
          read_offset_at-ne-panic bytes (12 + soo) soo,
          read_offset_at-ne-panic bytes (12 + 3 * soo) soo,
        ))
  | inr e ↦ rw e (λ p. cc)
]

parse_version-ne-panic : (version : ℕ) (bytes : Bytes) → parse_version version bytes ≢ panic
unfolding parse_version parse_v0 parse_v1
parse_version-ne-panic version bytes = ground (
  arith,
  parse_old-ne-panic 0 96 24 64 bytes,
  parse_old-ne-panic 1 100 28 68 bytes,
  parse_v2-ne-panic bytes version,
)

-- No input makes the parser panic.
pub parse-ne-panic : (bytes : Bytes) → parse bytes ≢ panic
unfolding parse
parse-ne-panic bytes = elim (Bool-cases (leb 9 (length bytes))) [
  | inl e ↦
      let (b, at) = index_lt bytes 8 (leb→le 9 (length bytes) e) in
      rw (e, at) (ground (arith, parse_version-ne-panic b bytes))
  | inr e ↦ rw e (λ p. cc)
]

-- A parsed superblock carries the signature, a version of 0 to 3, addresses of 64 bits, and an
-- extension only in version 2 or 3; an old one has 8-byte offsets and lengths, a new one offsets of a
-- width that the reader knows.
pub record InRange (bytes : Bytes) (sb : Superblock) : Type 0 where
  pub signed : sub bytes 0 8 ≡ hdf5_signature
  pub known : sb.version ≤ 3
  pub base_fits : sb.base_address < word
  pub root_fits : sb.root_object_header_address < word
  pub widths : sb.version ≤ 1 → (sb.size_of_offsets ≡ 8) × (sb.size_of_lengths ≡ 8)
  pub no_extension : sb.version ≤ 1 → sb.superblock_extension_address ≡ none
  pub offset_width : 2 ≤ sb.version → IsOffsetWidth (sb.size_of_offsets)
  pub extension_fits : Fits (sb.superblock_extension_address)
  pub long_enough : 16 ≤ length bytes

parse_old-InRange :
    (version len base_at root_at : ℕ) (bytes : Bytes) {sb : Superblock}
    → version ≤ 1
    → 20 ≤ len
    → All IsByte bytes
    → sub bytes 0 8 ≡ hdf5_signature
    → parse_old version len base_at root_at bytes ≡ ok sb
    → InRange bytes sb
unfolding parse_old
parse_old-InRange version len base_at root_at bytes {sb} hv hl h sig e = record {
  signed = sig;
  known = ground arith;
  base_fits = ground (arith, read_le-lt 8 bytes base_at {v = sb.base_address} h);
  root_fits = ground (arith, read_le-lt 8 bytes root_at {v = sb.root_object_header_address} h);
  widths = λ _. ground arith;
  no_extension = λ _. ground arith;
  offset_width = λ k. ground arith;
  extension_fits = none-Fits (ground arith);
  long_enough = ground arith;
}

parse_v2-InRange :
    (bytes : Bytes) (version : ℕ) {sb : Superblock}
    → (version ≡ 2) ⊎ (version ≡ 3)
    → All IsByte bytes
    → sub bytes 0 8 ≡ hdf5_signature
    → parse_v2 bytes version ≡ ok sb
    → InRange bytes sb
unfolding parse_v2
parse_v2-InRange bytes version {sb} hv h sig e =
    let soo = sb.size_of_offsets in
    let root = read_offset_at-lt bytes (12 + 3 * soo) soo {v = sb.root_object_header_address} h in
    record {
      signed = sig;
      known = ground arith;
      base_fits = ground (arith, read_offset_at-lt bytes 12 soo {v = sb.base_address} h);
      root_fits = ground (arith, root);
      widths = λ k. ground arith;
      no_extension = λ k. ground arith;
      offset_width = λ k. ground (arith, root);
      extension_fits = parse_v2-Fits bytes version h e;
      long_enough = ground (arith, root);
    }

parse_version-InRange :
    (version : ℕ) (bytes : Bytes) {sb : Superblock}
    → All IsByte bytes
    → sub bytes 0 8 ≡ hdf5_signature
    → parse_version version bytes ≡ ok sb
    → InRange bytes sb
unfolding parse_version parse_v0 parse_v1
parse_version-InRange version bytes h sig e = elim (Bool-cases (version == 0)) [
  | inl v0 ↦ parse_old-InRange 0 96 24 64 bytes (omega arith) (omega arith) h sig (rw v0 at e)
  | inr not0 ↦ elim (Bool-cases (version == 1)) [
    | inl v1 ↦
        parse_old-InRange 1 100 28 68 bytes (omega arith) (omega arith) h sig (rw (not0, v1) at e)
    | inr not1 ↦ elim (Bool-cases (version == 2 || version == 3)) [
      | inl v2 ↦ parse_v2-InRange bytes version (ground arith) h sig (rw (not0, not1, v2) at e)
      | inr other ↦ absurd (cc (rw (not0, not1, other) at e))
    ]
  ]
]

-- What `parse` accepts, of a list of bytes, has the signature and at least 16 bytes, a version of 0 to
-- 3, and addresses of 64 bits, that of an extension included; an old one has 8-byte offsets and
-- lengths and no extension, a new one offsets of 1, 2, 4 or 8 bytes.
pub parse-InRange :
    (bytes : Bytes) {sb : Superblock} → All IsByte bytes → parse bytes ≡ ok sb → InRange bytes sb
unfolding parse
parse-InRange bytes {sb} h e = elim (Bool-cases (leb 9 (length bytes))) [
  | inr short ↦ absurd (cc (rw short at e))
  | inl long ↦
      let signature = index_range_ok bytes 0 8 (omega (arith, leb→le 9 (length bytes) long)) in
      elim (Bool-cases (eq_bytes (sub bytes 0 8) hdf5_signature)) [
        | inr foreign ↦ absurd (cc (rw (long, signature, foreign) at e))
        | inl signed ↦
            let (b, at) = index_lt bytes 8 (leb→le 9 (length bytes) long) in
            parse_version-InRange b bytes h ((eq_bytes_iff _ _).0 signed)
              (rw (long, signature, signed, at) at e)
      ]
]
