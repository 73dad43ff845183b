-- ===== src/Superblock/Fields.antt =====
-- The offset fields of `superblock::parse` of crates/oxih5-format/src/superblock.rs: their widths and
-- their ranges.
use oxih.Base.{
  ◌==◌, ℕ, ◌+◌, ◌*◌, ◌<◌, ◌≤◌, ◌≡◌, arith, All, length, Bool-cases, leb, none, ◌⊎◌, inl,
  if◌then◌else◌, inr, leb→le, Option, some, subst,
}
use oxih.Bytes.{Bytes, IsByte, sub, from_le-lt_le, sub-IsByte, length-sub, index}
use oxih.Outcome.{ok, word, ok_eq, >>=-eq-ok, guard, format}
use oxih.Superblock.{parse_v2, read_offset_at, Superblock, offset_value}

-- The widths that an offset field can have.
abbrev pub IsOffsetWidth : ℕ → Type 0
IsOffsetWidth size = (size ≡ 1) ⊎ (size ≡ 2) ⊎ (size ≡ 4) ⊎ (size ≡ 8)

-- An address, if there is one, has 64 bits.
abbrev pub Fits : Option ℕ → Type 0
Fits none = Unit
Fits (some address) = address < word

offset_value-lt :
    (size : ℕ) (field : Bytes) {v : ℕ}
    → All IsByte field
    → length field ≡ size
    → offset_value size field ≡ ok v
    → v < word
unfolding offset_value
offset_value-lt size field h e k = ground (arith, from_le-lt_le 8 field)

pub read_offset_at-lt :
    (bytes : Bytes) (pos size : ℕ) {v : ℕ}
    → All IsByte bytes
    → read_offset_at bytes pos size ≡ ok v
    → (v < word) × (0 < size) × IsOffsetWidth size × (pos + size ≤ length bytes)
unfolding read_offset_at
read_offset_at-lt bytes pos size h e = elim (Bool-cases (leb (pos + size) (length bytes))) [
  | inl fits ↦
      let inside = leb→le (pos + size) (length bytes) fits in
      let value = rw fits at e in
      (
        offset_value-lt size (sub bytes pos size) (sub-IsByte bytes pos size h)
            (length-sub bytes pos size inside) value,
        unfold offset_value in ground arith,
        unfold offset_value in ground arith,
        inside,
      )
  | inr out ↦ absurd (cc (rw out at e))
]

pub none-Fits : {address : Option ℕ} → address ≡ none → Fits address
none-Fits h = rw h tt

address-Fits : (raw undefined : ℕ) → raw < word → Fits (if raw == undefined then none else some raw)
address-Fits raw undefined h = elim (Bool-cases (raw == undefined)) [
  | inl all_bits ↦ rw all_bits tt
  | inr address ↦ rw address h
]

-- The extension's address that version 2 or 3 reads.
pub parse_v2-Fits :
    (bytes : Bytes) (version : ℕ) {sb : Superblock}
    → All IsByte bytes
    → parse_v2 bytes version ≡ ok sb
    → Fits (sb.superblock_extension_address)
unfolding parse_v2
parse_v2-Fits bytes version h e =
    let (done, long, at9) = >>=-eq-ok (guard (leb 13 (length bytes)) format) _ e in
    let (soo, soo_read, at10) = >>=-eq-ok (index bytes 9) _ at9 in
    let (lengths, lengths_read, at12) = >>=-eq-ok (index bytes 10) _ at10 in
    let (base, base_read, at_ext) = >>=-eq-ok (read_offset_at bytes 12 soo) _ at12 in
    let (raw, raw_read, at_root) = >>=-eq-ok (read_offset_at bytes (12 + soo) soo) _ at_ext in
    let (root, root_read, last) = >>=-eq-ok (read_offset_at bytes (12 + 3 * soo) soo) _ at_root in
    subst (λ (sb : Superblock). Fits (sb.superblock_extension_address)) (ok_eq last)
      (address-Fits raw _ ((read_offset_at-lt bytes (12 + soo) soo h raw_read).0))
