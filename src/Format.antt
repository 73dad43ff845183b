-- ===== src/Format.antt =====
-- The writer's fixed structures, crates/oxih5/src/write/format.rs, with the geometry constants of
-- crates/oxih5/src/write/btree_v1.rs. A writer takes the buffer and returns it with the count of
-- bytes that it owns.
pub mod SuperblockRoundTrip
pub mod HeapRoundTrip
pub mod SnodFields
pub mod SnodEntries
pub mod SnodAgree
pub mod SnodRoundTrip
use oxih.Base.{
  ℕ, zero, suc, ◌+◌, ◌-◌, ◌*◌, ◌^◌, List, [], ◌∷◌, true, false, length, ltb, leb, if◌then◌else◌,
}
use oxih.Bytes.{Bytes, put, le_bytes, fill_zero}
use oxih.Outcome.{Outcome, ok, err, guard, ◌>>=◌, ◌>>◌, format, word}
use oxih.Superblock.{hdf5_signature}
use oxih.LocalHeap.{heap_signature}
use oxih.Snod.{snod_signature}

abbrev pub write_u8 : Bytes → ℕ → ℕ → Outcome Bytes
write_u8 buf offset val = put buf offset (val ∷ [])

abbrev pub write_u16_le : Bytes → ℕ → ℕ → Outcome Bytes
write_u16_le buf offset val = put buf offset (le_bytes 2 val)

abbrev pub write_u32_le : Bytes → ℕ → ℕ → Outcome Bytes
write_u32_le buf offset val = put buf offset (le_bytes 4 val)

abbrev pub write_u64_le : Bytes → ℕ → ℕ → Outcome Bytes
write_u64_le buf offset val = put buf offset (le_bytes 8 val)

abbrev pub sym_leaf_k : ℕ
sym_leaf_k = 4

abbrev pub group_internal_k : ℕ
group_internal_k = 16

abbrev pub snod_max_entries : ℕ
snod_max_entries = 2 * sym_leaf_k

abbrev pub ste_size : ℕ
ste_size = 40

abbrev pub snod_prefix : ℕ
snod_prefix = 8

abbrev pub snod_size : ℕ
snod_size = snod_prefix + snod_max_entries * ste_size

abbrev pub msg_hdr_size : ℕ
msg_hdr_size = 8

unfoldable pub write_msg_header : Bytes → ℕ → ℕ → ℕ → ℕ → Outcome Bytes
write_msg_header buf offset msg_type body_size flags = do
  buf ← fill_zero buf offset msg_hdr_size
  buf ← write_u16_le buf offset msg_type
  buf ← write_u16_le buf (offset + 2) body_size
  write_u8 buf (offset + 4) flags

abbrev pub signature_size : ℕ
signature_size = 8

abbrev pub root_oh_addr : ℕ
root_oh_addr = 96

unfoldable pub write_signature : Bytes → Outcome (Bytes × ℕ)
write_signature buf = do buf ← put buf 0 hdf5_signature; ok (buf, signature_size)

unfoldable pub write_superblock : Bytes → ℕ → ℕ → ℕ → Outcome (Bytes × ℕ)
write_superblock buf btree_addr heap_addr eof_addr = do
  buf ← fill_zero buf signature_size (root_oh_addr - signature_size)
  buf ← write_u8 buf 8 0x00
  buf ← write_u8 buf 9 0x00
  buf ← write_u8 buf 10 0x00
  buf ← write_u8 buf 11 0x00
  buf ← write_u8 buf 12 0x00
  buf ← write_u8 buf 13 0x08
  buf ← write_u8 buf 14 0x08
  buf ← write_u8 buf 15 0x00
  buf ← write_u16_le buf 16 sym_leaf_k
  buf ← write_u16_le buf 18 group_internal_k
  buf ← write_u32_le buf 20 0
  buf ← write_u64_le buf 24 0
  buf ← write_u64_le buf 32 (word - 1)
  buf ← write_u64_le buf 40 eof_addr
  buf ← write_u64_le buf 48 (word - 1)
  buf ← write_u64_le buf 56 0
  buf ← write_u64_le buf 64 root_oh_addr
  buf ← write_u32_le buf 72 1
  buf ← write_u32_le buf 76 0
  buf ← write_u64_le buf 80 btree_addr
  buf ← write_u64_le buf 88 heap_addr
  ok (buf, root_oh_addr - signature_size)

abbrev pub heap_header_size : ℕ
heap_header_size = 32

unfoldable pub write_local_heap : Bytes → ℕ → ℕ → ℕ → ℕ → Outcome (Bytes × ℕ)
write_local_heap buf base data_addr data_size used_size = do
  buf ← fill_zero buf base heap_header_size
  buf ← put buf base heap_signature
  buf ← write_u8 buf (base + 4) 0x00
  buf ← write_u64_le buf (base + 8) data_size
  buf ← write_u64_le buf (base + 16) used_size
  buf ← write_u64_le buf (base + 24) data_addr
  ok (buf, heap_header_size)

pub data SnodValue : Type 0 where
  object : ℕ → SnodValue
  group : ℕ → ℕ → ℕ → SnodValue
  soft_link : ℕ → SnodValue

pub record SnodEntry : Type 0 where
  pub name_offset : ℕ
  pub value : SnodValue

-- The match on an entry's value; `ste` is the place of the entry.
unfoldable pub write_value : Bytes → ℕ → SnodValue → Outcome Bytes
write_value buf ste (object oh_addr) = write_u64_le buf (ste + 8) oh_addr
write_value buf ste (group oh_addr btree_addr heap_addr) = do
  buf ← write_u64_le buf (ste + 8) oh_addr
  buf ← write_u32_le buf (ste + 16) 1
  buf ← write_u32_le buf (ste + 20) 0
  buf ← write_u64_le buf (ste + 24) btree_addr
  write_u64_le buf (ste + 32) heap_addr
write_value buf ste (soft_link link_value_offset) = do
  buf ← write_u64_le buf (ste + 8) (word - 1)
  buf ← write_u32_le buf (ste + 16) 2
  buf ← write_u32_le buf (ste + 20) 0
  write_u32_le buf (ste + 24) link_value_offset

-- The loop over the entries, from the place of the first on.
unfoldable pub write_entries : Bytes → ℕ → List SnodEntry → Outcome Bytes
write_entries buf ste [] = ok buf
write_entries buf ste (entry ∷ entries) = do
  buf ← write_u64_le buf ste entry.name_offset
  buf ← write_value buf ste entry.value
  write_entries buf (ste + ste_size) entries

-- `narrow` into an on-disk integer of `2 ^ bits` values.
unfoldable pub narrow : ℕ → ℕ → Outcome ℕ
narrow bits value = if ltb value (2 ^ bits) then ok value else err format

unfoldable pub write_snod : Bytes → ℕ → List SnodEntry → Outcome (Bytes × ℕ)
unfolding narrow
write_snod buf snod_addr entries = do
  guard (leb (length entries) snod_max_entries) format
  buf ← fill_zero buf snod_addr snod_size
  buf ← put buf snod_addr snod_signature
  buf ← write_u8 buf (snod_addr + 4) 0x01
  buf ← write_u8 buf (snod_addr + 5) 0x00
  count ← narrow 16 (length entries)
  buf ← write_u16_le buf (snod_addr + 6) count
  buf ← write_entries buf (snod_addr + snod_prefix) entries
  ok (buf, snod_size)
