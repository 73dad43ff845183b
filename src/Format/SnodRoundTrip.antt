-- ===== src/Format/SnodRoundTrip.antt =====
-- `write_snod` against `snod::parse`.
use oxih.Base.{
  ℕ, ◌+◌, ◌*◌, ◌-◌, ◌^◌, ◌<◌, ◌≤◌, ◌≡◌, refl, ◌∙◌, List, [], ◌∷◌, map, some, arith, length,
  replicate, ◌⊎◌, inl, inr, All, lt→ltb, le→leb,
}
use oxih.Bytes.{
  Bytes, le_bytes, sub, Writes, put_all, put_all_total, put_all-hit, hit, eq_bytes_refl,
  length-put_all, put_all_outside, read_le_field, index_field, splice, put_ok, sub-splice_inside,
  length-splice, sub-splice_before, sub-splice_after, sub-replicate,
}
use oxih.Outcome.{ok, ◌>>=◌, word, bind_assoc}
use oxih.Snod
use oxih.Snod.{snod_signature, SymTabEntry, parse_entries}
use oxih.Format.{SnodEntry, write_snod, write_entries, snod_size, snod_max_entries}
use oxih.Format.SnodAgree.{SameFrom, parse_entries_same}
use oxih.Format.SnodFields.{read_back, EntryFits}
use oxih.Format.SnodEntries.{Zeroed, write_entries_lem}

-- The header of a node, after the node has been zeroed.
abbrev header_writes : ℕ → Writes
header_writes count = (0, snod_signature) ∷ (4, 1 ∷ []) ∷ (5, 0 ∷ []) ∷ (6, le_bytes 2 count) ∷ []

splice_outside :
    (buf : Bytes) (addr p n : ℕ)
    → (p + n ≤ addr) ⊎ (addr + 328 ≤ p)
    → sub (splice buf addr (replicate 328 0)) p n ≡ sub buf p n
splice_outside buf addr p n (inl before) = sub-splice_before buf addr (replicate 328 0) p n before
splice_outside buf addr p n (inr after) =
    sub-splice_after buf addr (replicate 328 0) p n (omega arith)

write_snod-put_all :
    (buf : Bytes) (addr : ℕ) (entries : List SnodEntry)
    → length entries ≤ 8
    → addr + 328 ≤ length buf
    → write_snod buf addr entries ≡ (
        put_all addr (header_writes (length entries)) (splice buf addr (replicate 328 0)) >>= λ b.
        write_entries b (addr + 8) entries >>= λ c. ok (c, 328))
unfolding write_snod
write_snod-put_all buf addr entries few long =
    let e : addr + 0 ≡ addr = omega arith in
    let zeroed = put_ok buf addr (replicate 328 0) long in
    rw (le→leb (length entries) 8 few, zeroed, lt→ltb (length entries) (2 ^ 16) (omega arith))
      (simp (e, bind_assoc))

-- `snod::parse`, from the header and the entries.
parse_fields :
    (file : Bytes) (addr count : ℕ)
    → addr + 8 + count * 40 ≤ length file
    → length file < word
    → count ≤ 8
    → sub file addr 4 ≡ snod_signature
    → sub file (addr + 4) 1 ≡ 1 ∷ []
    → sub file (addr + 6) 2 ≡ le_bytes 2 count
    → Snod.parse file addr ≡ parse_entries file count (addr + 8)
unfolding Snod.parse
parse_fields file addr count long small few sig version count_is =
    rw
      (
        lt→ltb (addr + 8) word (omega arith),
        le→leb (addr + 8) (length file) (omega arith),
        le→leb (addr + 4) (length file) (omega (arith, long)),
        sig,
        eq_bytes_refl snod_signature,
        index_field file (addr + 4) 1 version,
      )
      (rw (
        read_le_field 2 file (addr + 6) count small (omega arith) count_is (omega arith),
        lt→ltb (count * 40) word (omega arith),
        lt→ltb (addr + 8 + count * 40) word (omega arith),
        le→leb (addr + 8 + count * 40) (length file) long,
      ))

-- What a node's writer leaves: every later buffer that keeps the node's bytes has its entries.
pub record WritesSnod (buf : Bytes) (addr : ℕ) (entries : List SnodEntry) (file : Bytes)
    : Type 0 where
  pub wrote : write_snod buf addr entries ≡ ok (file, snod_size)
  pub same_length : length file ≡ length buf
  pub outside : (p n : ℕ) → (p + n ≤ addr) ⊎ (addr + snod_size ≤ p) → sub file p n ≡ sub buf p n
  pub stays :
      (later : Bytes)
      → SameFrom later file addr 328
      → Snod.parse later addr ≡ ok (map read_back entries)

pub write_snod_lem :
    (buf : Bytes) (addr : ℕ) (entries : List SnodEntry)
    → length entries ≤ snod_max_entries
    → addr + snod_size ≤ length buf
    → length buf < word
    → All EntryFits entries
    → (file : Bytes) × WritesSnod buf addr entries file
unfolding sub
write_snod_lem buf addr entries few long small fits =
    let zeroed = splice buf addr (replicate 328 0) in
    let same_zeroed = length-splice buf addr (replicate 328 0) in
    let ws = header_writes (length entries) in
    let (mid, wrote) = put_all_total addr 8 ws zeroed (omega arith) (omega arith) in
    let same = length-put_all addr ws zeroed wrote in
    let zeros : Zeroed mid (addr + 8) (40 * length entries) = λ p lo hi.
      put_all_outside addr 8 ws zeroed p 4 wrote (omega arith) (inr lo)
      ∙ sub-splice_inside buf addr (replicate 328 0) p 4 long (omega arith) (omega arith)
      ∙ sub-replicate 328 (p - addr) 4 (omega arith) in
    let (file, body) =
      write_entries_lem entries mid (addr + 8) (omega arith) (omega arith) fits zeros in
    let see : (later : Bytes) (p n : ℕ) (bs : Bytes)
        → SameFrom later file addr 328
        → p + n ≤ 8
        → hit ws p n ≡ some bs
        → sub later (addr + p) n ≡ bs =
      λ later p n bs same_bytes k h.
        same_bytes.1 (addr + p) n (omega arith) (omega arith)
        ∙ body.outside (addr + p) n (inl (omega arith))
        ∙ put_all-hit addr ws zeroed p n wrote h in
    let at : addr + 0 ≡ addr = omega arith in
    (
      file,
      record {
        wrote = write_snod-put_all buf addr entries few long ∙ rw wrote (rw body.wrote);
        same_length = body.same_length ∙ same ∙ same_zeroed;
        outside = λ p n side.
            body.outside p n (omega arith)
            ∙ put_all_outside addr 8 ws zeroed p n wrote (omega arith) (omega arith)
            ∙ splice_outside buf addr p n side;
        stays = λ later kept.
            parse_fields later addr (length entries) (omega (arith, body.same_length, kept.0))
              (omega (arith, body.same_length, kept.0)) few
              (rw at at (see later 0 4 _ kept (omega arith) refl))
              (see later 4 1 _ kept (omega arith) refl) (see later 6 2 _ kept (omega arith) refl)
            ∙ parse_entries_same later file (length entries) (addr + 8)
                (kept.0, λ p n lo hi. kept.1 p n (omega arith) (omega arith))
            ∙ body.read;
      },
    )

-- In a buffer with room for it, shorter than the address range, a node of up to eight entries whose
-- values fit their fields is written, and parsed back to the same entries in order: an object entry
-- with its address, a group entry with the addresses of its B-tree and heap, a soft link with its
-- heap offset and the undefined address. Nothing outside the node's 328 bytes changes.
pub parse-write_snod :
    (buf : Bytes) (addr : ℕ) (entries : List SnodEntry)
    → length entries ≤ snod_max_entries
    → addr + snod_size ≤ length buf
    → length buf < word
    → All EntryFits entries
    → (file : Bytes) × (write_snod buf addr entries ≡ ok (file, snod_size))
      × (Snod.parse file addr ≡ ok (map read_back entries))
      × ((p n : ℕ) → (p + n ≤ addr) ⊎ (addr + snod_size ≤ p) → sub file p n ≡ sub buf p n)
parse-write_snod buf addr entries few long small fits =
    let (file, writes) = write_snod_lem buf addr entries few long small fits in
    (file, writes.wrote, writes.stays file (refl, λ p n lo hi. refl), writes.outside)
