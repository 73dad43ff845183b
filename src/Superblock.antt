-- ===== src/Superblock.antt =====
-- The superblock parser, crates/oxih5-format/src/superblock.rs. A file is its list of bytes.
pub mod Fields
pub mod Bounds
use oxih.Base.{
  ℕ, ◌+◌, ◌-◌, ◌*◌, ◌^◌, ◌≡◌, List, [], ◌∷◌, Option, none, some, true, false, ◌||◌, not, length,
  ltb, leb, ◌==◌, if◌then◌else◌,
}
use oxih.Bytes.{Bytes, index_range, get_range, index, eq_bytes, from_le, read_u64_le, read_u16_le}
use oxih.Outcome.{
  Outcome, ok, err, guard, ok_or, ◌>>=◌, ◌>>◌, bad_signature, unsupported_superblock, format,
  not_implemented, word,
}

abbrev pub hdf5_signature : Bytes
hdf5_signature = 0x89 ∷ 0x48 ∷ 0x44 ∷ 0x46 ∷ 0x0d ∷ 0x0a ∷ 0x1a ∷ 0x0a ∷ []

pub record Superblock : Type 0 where
  pub version : ℕ
  pub size_of_offsets : ℕ
  pub size_of_lengths : ℕ
  pub base_address : ℕ
  pub root_object_header_address : ℕ
  pub superblock_extension_address : Option ℕ

-- `parse_v0` and `parse_v1` are one text but for the length, the places of the two addresses, and
-- the version they report.
unfoldable pub parse_old : ℕ → ℕ → ℕ → ℕ → Bytes → Outcome Superblock
parse_old version len base_at root_at bytes = do
  guard (leb len (length bytes)) format
  size_of_offsets ← index bytes 13
  size_of_lengths ← index bytes 14
  guard (not (not (size_of_offsets == 8) || not (size_of_lengths == 8))) format
  base_address ← read_u64_le bytes base_at
  root_object_header_address ← read_u64_le bytes root_at
  ok (record {
    version = version;
    size_of_offsets = size_of_offsets;
    size_of_lengths = size_of_lengths;
    base_address = base_address;
    root_object_header_address = root_object_header_address;
    superblock_extension_address = none;
  })

unfoldable pub parse_v0 : Bytes → Outcome Superblock
parse_v0 = parse_old 0 96 24 64

unfoldable pub parse_v1 : Bytes → Outcome Superblock
parse_v1 = parse_old 1 100 28 68

-- All bits set, for an offset field of `soo` bytes.
unfoldable pub undefined_address : ℕ → ℕ
undefined_address soo = if leb 8 soo then word - 1 else 2 ^ (soo * 8) - 1

-- The match on the width of `read_offset_at`.
unfoldable pub offset_value : ℕ → Bytes → Outcome ℕ
offset_value size bytes =
    if size == 1 || size == 2 || size == 4 || size == 8 then ok (from_le bytes) else err format

unfoldable pub read_offset_at : Bytes → ℕ → ℕ → Outcome ℕ
unfolding offset_value
read_offset_at bytes pos size = do
  field ← ok_or (get_range bytes pos size) format
  offset_value size field

unfoldable pub parse_v2 : Bytes → ℕ → Outcome Superblock
parse_v2 bytes version = do
  guard (leb 13 (length bytes)) format
  soo ← index bytes 9
  size_of_lengths ← index bytes 10
  base_address ← read_offset_at bytes 12 soo
  raw_ext ← read_offset_at bytes (12 + soo) soo
  root_object_header_address ← read_offset_at bytes (12 + 3 * soo) soo
  ok (record {
    version = version;
    size_of_offsets = soo;
    size_of_lengths = size_of_lengths;
    base_address = base_address;
    root_object_header_address = root_object_header_address;
    superblock_extension_address = if raw_ext == undefined_address soo then none else some raw_ext;
  })

-- The match on the version byte.
unfoldable pub parse_version : ℕ → Bytes → Outcome Superblock
parse_version version bytes =
    if version == 0
    then parse_v0 bytes
    else if version == 1
    then parse_v1 bytes
    else if version == 2 || version == 3
    then parse_v2 bytes version
    else err (unsupported_superblock version)

unfoldable pub parse : Bytes → Outcome Superblock
parse bytes = do
  guard (leb 9 (length bytes)) format
  signature ← index_range bytes 0 8
  guard (eq_bytes signature hdf5_signature) bad_signature
  version ← index bytes 8
  parse_version version bytes

-- The "B-tree 'K' Values" message of a superblock extension.
pub record BtreeKValues : Type 0 where
  pub indexed_storage_internal_k : ℕ
  pub group_internal_k : ℕ
  pub group_leaf_k : ℕ

unfoldable pub decode_btree_k_values : Bytes → Outcome BtreeKValues
decode_btree_k_values bytes = do
  guard (leb 7 (length bytes)) format
  version ← index bytes 0
  guard (version == 0) not_implemented
  indexed ← read_u16_le bytes 1
  internal ← read_u16_le bytes 3
  leaf ← read_u16_le bytes 5
  ok (record {
    indexed_storage_internal_k = indexed;
    group_internal_k = internal;
    group_leaf_k = leaf;
  })

unfoldable pub decode_shared_message_table : Bytes → ℕ → Outcome ℕ
decode_shared_message_table bytes size_of_offsets = do
  guard (leb (1 + size_of_offsets + 1) (length bytes)) format
  version ← index bytes 0
  guard (version == 0) not_implemented
  read_offset_at bytes 1 size_of_offsets
