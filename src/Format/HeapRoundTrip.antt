-- ===== src/Format/HeapRoundTrip.antt =====
-- `write_local_heap` against `heap::parse`.
use oxih.Base.{
  ℕ, ◌+◌, ◌<◌, ◌≤◌, ◌≡◌, refl, ◌∙◌, ap, [], ◌∷◌, some, arith, length, replicate, ◌⊎◌, lt→ltb,
  le→leb,
}
use oxih.Bytes.{
  Bytes, le_bytes, sub, eq_bytes_refl, Writes, put_all, put_then_lem, put_all_total, put_all-hit,
  length-put_all, put_all_outside, read_le_field, index_field, hit,
}
use oxih.Outcome.{ok, ◌>>=◌, word}
use oxih.LocalHeap
use oxih.LocalHeap.{heap_signature}
use oxih.Format.{write_local_heap}

abbrev heap_writes : ℕ → ℕ → ℕ → Writes
heap_writes data_addr data_size used_size =
    (0, replicate 32 0)
    ∷ (0, heap_signature)
    ∷ (4, 0 ∷ [])
    ∷ (8, le_bytes 8 data_size)
    ∷ (16, le_bytes 8 used_size)
    ∷ (24, le_bytes 8 data_addr)
    ∷ []

write_local_heap-put_all :
    (buf : Bytes) (base data_addr data_size used_size : ℕ)
    → write_local_heap buf base data_addr data_size used_size
      ≡ (put_all base (heap_writes data_addr data_size used_size) buf >>= λ b. ok (b, 32))
unfolding write_local_heap
write_local_heap-put_all buf base data_addr data_size used_size =
    let e : base + 0 ≡ base = omega arith in
    rw e (
      rw e at (
        put_then_lem {B = Bytes × ℕ} base (heap_writes data_addr data_size used_size)
          (λ b. ok (b, 32)) buf))

-- `heap::parse`, from the fields of the header.
parse_fields :
    (file : Bytes) (base data_addr data_size : ℕ)
    → base + 32 ≤ length file
    → length file < word
    → data_addr + data_size ≤ length file
    → sub file base 4 ≡ heap_signature
    → sub file (base + 4) 1 ≡ 0 ∷ []
    → sub file (base + 8) 8 ≡ le_bytes 8 data_size
    → sub file (base + 24) 8 ≡ le_bytes 8 data_addr
    → LocalHeap.parse file base ≡ ok (record { segment = sub file data_addr data_size })
unfolding LocalHeap.parse
parse_fields file base data_addr data_size long small fits sig version size_is addr_is =
    rw
      (
        lt→ltb (base + 32) word (omega arith),
        le→leb (base + 32) (length file) long,
        le→leb (base + 4) (length file) (omega (arith, long)),
        sig,
        eq_bytes_refl heap_signature,
        index_field file (base + 4) 0 version,
      )
      (rw (
        read_le_field 8 file (base + 8) data_size small (omega arith) size_is (omega arith),
        read_le_field 8 file (base + 24) data_addr small (omega arith) addr_is (omega arith),
        lt→ltb (data_addr + data_size) word (omega arith),
        le→leb (data_addr + data_size) (length file) fits,
      ))

-- In a buffer shorter than the address range, a heap header written at `base`, for a data segment inside the file and outside the header, is
-- parsed to that segment, and nothing outside the header changes.
pub parse-write_local_heap :
    (buf : Bytes) (base data_addr data_size used_size : ℕ)
    → base + 32 ≤ length buf
    → length buf < word
    → data_addr + data_size ≤ length buf
    → (data_addr + data_size ≤ base) ⊎ (base + 32 ≤ data_addr)
    → (file : Bytes) × (write_local_heap buf base data_addr data_size used_size ≡ ok (file, 32))
      × (LocalHeap.parse file base ≡ ok (record { segment = sub buf data_addr data_size }))
      × ((p n : ℕ) → (p + n ≤ base) ⊎ (base + 32 ≤ p) → sub file p n ≡ sub buf p n)
unfolding sub
parse-write_local_heap buf base data_addr data_size used_size long small fits apart =
    let ws = heap_writes data_addr data_size used_size in
    let (file, wrote) = put_all_total base 32 ws buf (omega arith) long in
    let same = length-put_all base ws buf wrote in
    let see : (p n : ℕ) (bs : Bytes) → hit ws p n ≡ some bs → sub file (base + p) n ≡ bs =
      λ p n bs h. put_all-hit base ws buf p n wrote h in
    let outside : (p n : ℕ) → (p + n ≤ base) ⊎ (base + 32 ≤ p) → sub file p n ≡ sub buf p n =
      λ p n side. put_all_outside base 32 ws buf p n wrote (omega arith) side in
    let at_base : base + 0 ≡ base = omega arith in
    let signed : sub file base 4 ≡ heap_signature = rw at_base at (see 0 4 _ refl) in
    let parsed =
      parse_fields file base data_addr data_size (omega arith) (omega arith) (omega arith) signed
        (see 4 1 _ refl) (see 8 8 _ refl) (see 24 8 _ refl) in
    (
      file,
      write_local_heap-put_all buf base data_addr data_size used_size ∙ rw wrote,
      parsed ∙ ap (λ (s : Bytes). ok (record { segment = s })) (outside data_addr data_size apart),
      outside,
    )
