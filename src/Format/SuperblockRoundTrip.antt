-- ===== src/Format/SuperblockRoundTrip.antt =====
-- `write_signature` and `write_superblock` against `superblock::parse`.
use oxih.Base.{
  ℕ, ◌+◌, ◌-◌, ◌<◌, ◌≤◌, ◌≡◌, refl, ◌∙◌, [], ◌∷◌, some, none, arith, length, le→leb, replicate, inr,
}
use oxih.Bytes.{
  Bytes, le_bytes, put_ok, splice, length-splice, sub, eq_bytes_refl, Writes, put_all, put_then_lem,
  put_all_total, put_all-hit, length-put_all, put_all_outside, read_u64_le, read_le_field,
  index_field, hit,
}
use oxih.Outcome.{ok, ◌>>=◌, word}
use oxih.Superblock.{parse, parse_version, parse_v0, parse_old, hdf5_signature}
use oxih.Format.{write_signature, write_superblock, sym_leaf_k, group_internal_k, root_oh_addr}

abbrev superblock_writes : ℕ → ℕ → ℕ → Writes
superblock_writes btree_addr heap_addr eof_addr =
    (8, replicate 88 0)
    ∷ (8, 0 ∷ [])
    ∷ (9, 0 ∷ [])
    ∷ (10, 0 ∷ [])
    ∷ (11, 0 ∷ [])
    ∷ (12, 0 ∷ [])
    ∷ (13, 8 ∷ [])
    ∷ (14, 8 ∷ [])
    ∷ (15, 0 ∷ [])
    ∷ (16, le_bytes 2 sym_leaf_k)
    ∷ (18, le_bytes 2 group_internal_k)
    ∷ (20, le_bytes 4 0)
    ∷ (24, le_bytes 8 0)
    ∷ (32, le_bytes 8 (word - 1))
    ∷ (40, le_bytes 8 eof_addr)
    ∷ (48, le_bytes 8 (word - 1))
    ∷ (56, le_bytes 8 0)
    ∷ (64, le_bytes 8 root_oh_addr)
    ∷ (72, le_bytes 4 1)
    ∷ (76, le_bytes 4 0)
    ∷ (80, le_bytes 8 btree_addr)
    ∷ (88, le_bytes 8 heap_addr)
    ∷ []

write_superblock-put_all :
    (buf : Bytes) (btree_addr heap_addr eof_addr : ℕ)
    → write_superblock buf btree_addr heap_addr eof_addr
      ≡ (put_all 0 (superblock_writes btree_addr heap_addr eof_addr) buf >>= λ b. ok (b, 88))
unfolding write_superblock
write_superblock-put_all buf btree_addr heap_addr eof_addr =
    put_then_lem 0 (superblock_writes btree_addr heap_addr eof_addr) (λ b. ok (b, 88)) buf

-- `parse` on a version 0 superblock, from its fields.
parse_fields :
    (bytes : Bytes) (base root : ℕ)
    → 96 ≤ length bytes
    → length bytes < word
    → sub bytes 0 8 ≡ hdf5_signature
    → sub bytes 8 1 ≡ 0 ∷ []
    → sub bytes 13 1 ≡ 8 ∷ []
    → sub bytes 14 1 ≡ 8 ∷ []
    → sub bytes 24 8 ≡ le_bytes 8 base
    → sub bytes 64 8 ≡ le_bytes 8 root
    → base < word
    → root < word
    → parse bytes
      ≡ ok (record {
        version = 0;
        size_of_offsets = 8;
        size_of_lengths = 8;
        base_address = base;
        root_object_header_address = root;
        superblock_extension_address = none;
      })
unfolding parse parse_version parse_v0 parse_old
parse_fields bytes base root long small sig version soo sol base_is root_is hb hr =
    rw
      (
        le→leb 9 (length bytes) (omega arith),
        le→leb 8 (length bytes) (omega (arith, long)),
        sig,
        eq_bytes_refl hdf5_signature,
        index_field bytes 8 0 version,
      )
      (rw (
        le→leb 96 (length bytes) long,
        index_field bytes 13 8 soo,
        index_field bytes 14 8 sol,
        read_le_field 8 bytes 24 base small (omega arith) base_is hb,
        read_le_field 8 bytes 64 root small (omega arith) root_is hr,
      ))

-- What the two writers leave in the buffer, as the readers see it.
pub record IsPrefix (btree_addr heap_addr eof_addr : ℕ) (old bytes : Bytes) : Type 0 where
  pub parsed :
      parse bytes
      ≡ ok (record {
        version = 0;
        size_of_offsets = 8;
        size_of_lengths = 8;
        base_address = 0;
        root_object_header_address = root_oh_addr;
        superblock_extension_address = none;
      })
  pub root_btree : read_u64_le bytes 80 ≡ ok btree_addr
  pub root_heap : read_u64_le bytes 88 ≡ ok heap_addr
  pub eof : read_u64_le bytes 40 ≡ ok eof_addr
  pub same_length : length bytes ≡ length old
  pub untouched : (p n : ℕ) → 96 ≤ p → sub bytes p n ≡ sub old p n

module _ (btree_addr heap_addr eof_addr : ℕ) (old : Bytes) where
  abbrev ws : Writes
  ws = (0, hdf5_signature) ∷ superblock_writes btree_addr heap_addr eof_addr

  written-IsPrefix :
      {bytes : Bytes}
      → put_all 0 ws old ≡ ok bytes
      → 96 ≤ length old
      → length old < word
      → btree_addr < word
      → heap_addr < word
      → eof_addr < word
      → IsPrefix btree_addr heap_addr eof_addr old bytes
  unfolding sub
  written-IsPrefix {bytes} done long small hb hh he =
      let same = length-put_all 0 ws old done in
      let see : (p n : ℕ) (bs : Bytes) → hit ws p n ≡ some bs → sub bytes (0 + p) n ≡ bs =
        λ p n bs h. put_all-hit 0 ws old p n done h in
      let long' : 96 ≤ length bytes = omega arith in
      let small' : length bytes < word = omega arith in
      record {
        parsed =
            parse_fields bytes 0 root_oh_addr long' small' (see 0 8 _ refl) (see 8 1 _ refl)
              (see 13 1 _ refl) (see 14 1 _ refl) (see 24 8 _ refl) (see 64 8 _ refl) (omega arith)
              (omega arith);
        root_btree = read_le_field 8 bytes 80 btree_addr small' (omega arith) (see 80 8 _ refl) hb;
        root_heap = read_le_field 8 bytes 88 heap_addr small' (omega arith) (see 88 8 _ refl) hh;
        eof = read_le_field 8 bytes 40 eof_addr small' (omega arith) (see 40 8 _ refl) he;
        same_length = same;
        untouched = λ p n h. put_all_outside 0 96 ws old p n done (omega arith) (inr h);
      }

-- For addresses of 64 bits, the signature and superblock writers fill the first 96 bytes of any buffer
-- that has them and is shorter than the address range, and the
-- parser reads back the version, the widths and the root group's address, with no extension; the
-- addresses of the root group's B-tree and heap and of the file's end are in their fields.
pub parse-write_superblock :
    (btree_addr heap_addr eof_addr : ℕ) (buf : Bytes)
    → 96 ≤ length buf
    → length buf < word
    → btree_addr < word
    → heap_addr < word
    → eof_addr < word
    → (signed bytes : Bytes) × (write_signature buf ≡ ok (signed, 8))
      × (write_superblock signed btree_addr heap_addr eof_addr ≡ ok (bytes, 88))
      × IsPrefix btree_addr heap_addr eof_addr buf bytes
unfolding write_signature
parse-write_superblock btree_addr heap_addr eof_addr buf long small hb hh he =
    let first = splice buf 0 hdf5_signature in
    let signed = put_ok buf 0 hdf5_signature (omega arith) in
    let rest = superblock_writes btree_addr heap_addr eof_addr in
    let (bytes, wrote) =
      put_all_total 0 96 rest first (omega arith)
        (omega (arith, length-splice buf 0 hdf5_signature)) in
    let all : put_all 0 (ws btree_addr heap_addr eof_addr buf) buf ≡ ok bytes = rw signed wrote in
    (
      first,
      bytes,
      rw signed,
      write_superblock-put_all first btree_addr heap_addr eof_addr ∙ rw wrote,
      written-IsPrefix btree_addr heap_addr eof_addr buf all long small hb hh he,
    )
