-- ===== src/Tests/Format.antt =====
-- The parsers and writers of the fixed structures at small files.
use oxih.Base.{
  All, All-append, zero, suc, ℕ, ◌+◌, ◌^◌, ◌≡◌, ◌≢◌, refl, [], ◌∷◌, ◌++◌, none, arith, ◌<◌, ◌≤◌,
  replicate, List, map, ◌⊎◌, inr,
}
use oxih.Bytes.{eq_bytes, read_le, Bytes, IsByte, sub}
use oxih.Outcome.{ok, panic}
use oxih.Superblock
use oxih.Superblock.Bounds.{parse-InRange, InRange, parse-ne-panic}
use oxih.Format.{
  write_signature, write_superblock, write_local_heap, write_snod, snod_size, SnodEntry, SnodValue,
}
use oxih.Format.SuperblockRoundTrip.{parse-write_superblock, IsPrefix}
use oxih.Format.HeapRoundTrip.{parse-write_local_heap}
use oxih.Format.SnodRoundTrip.{parse-write_snod}
use oxih.Format.SnodFields.{read_back}
use oxih.LocalHeap
use oxih.Snod
use oxih.Cursor.{Cursor, read_uint_le, read_u16_le, read_u24_le, read_u32_le, read_u64_le}
use oxih.Cursor.Laws.{read_uint_le_field, read_uint_le_bounds, fixed_reads}

abbrev zeros : Bytes
zeros = replicate 400 0

superblock_example :
    (signed bytes : Bytes) × (write_signature zeros ≡ ok (signed, 8))
    × (write_superblock signed 136 680 2048 ≡ ok (bytes, 88))
    × IsPrefix 136 680 2048 zeros bytes
superblock_example =
    parse-write_superblock 136 680 2048 zeros (omega arith) (omega arith) (omega arith)
      (omega arith) (omega arith)

heap_example :
    (file : Bytes) × (write_local_heap zeros 16 48 24 8 ≡ ok (file, 32))
    × (LocalHeap.parse file 16 ≡ ok (record { segment = sub zeros 48 24 }))
    × ((p n : ℕ) → (p + n ≤ 16) ⊎ (48 ≤ p) → sub file p n ≡ sub zeros p n)
heap_example =
    parse-write_local_heap zeros 16 48 24 8 (omega arith) (omega arith) (omega arith)
      (inr (omega arith))

abbrev three_entries : List SnodEntry
three_entries =
    record { name_offset = 8; value = SnodValue.object 1024 }
    ∷ record { name_offset = 16; value = SnodValue.group 2048 136 680 }
    ∷ record { name_offset = 24; value = SnodValue.soft_link 32 }
    ∷ []

snod_example :
    (file : Bytes) × (write_snod zeros 40 three_entries ≡ ok (file, snod_size))
    × (Snod.parse file 40 ≡ ok (map read_back three_entries))
    × ((p n : ℕ) → (p + n ≤ 40) ⊎ (40 + snod_size ≤ p) → sub file p n ≡ sub zeros p n)
snod_example = parse-write_snod zeros 40 three_entries (omega arith) (omega arith) (omega arith) (
  (omega arith, omega arith),
  ((omega arith, (omega arith, omega arith, omega arith)), ((omega arith, omega arith), tt)),
)

-- The superblock of an empty version 0 file.
abbrev superblock_v0 : Bytes
superblock_v0 =
    0x89
    ∷ 0x48
    ∷ 0x44
    ∷ 0x46
    ∷ 0x0d
    ∷ 0x0a
    ∷ 0x1a
    ∷ 0x0a
    ∷ (replicate 5 0 ++ (8 ∷ 8 ∷ (replicate 49 0 ++ (96 ∷ replicate 31 0))))

abbrev parsed_v0 : Superblock.Superblock
parsed_v0 = record {
  version = 0;
  size_of_offsets = 8;
  size_of_lengths = 8;
  base_address = 0;
  root_object_header_address = 96;
  superblock_extension_address = none;
}

superblock_run : Superblock.parse superblock_v0 ≡ ok parsed_v0
unfolding Superblock.parse Superblock.parse_version Superblock.parse_v0 Superblock.parse_old sub
    eq_bytes read_le
superblock_run = refl

zeros-IsByte : (n : ℕ) → All IsByte (replicate n 0)
zeros-IsByte zero = tt
zeros-IsByte (suc n) = (omega arith, zeros-IsByte n)

superblock_v0-IsByte : All IsByte superblock_v0
superblock_v0-IsByte =
    let tail : All IsByte (96 ∷ replicate 31 0) = (omega arith, zeros-IsByte 31) in
    let widths : All IsByte (8 ∷ 8 ∷ (replicate 49 0 ++ (96 ∷ replicate 31 0))) = (
      omega arith,
      (
        omega arith,
        All-append IsByte (replicate 49 0) (96 ∷ replicate 31 0) (zeros-IsByte 49) tail,
      ),
    ) in
    (
      omega arith,
      (
        omega arith,
        (
          omega arith,
          (
            omega arith,
            (
              omega arith,
              (
                omega arith,
                (
                  omega arith,
                  (
                    omega arith,
                    All-append IsByte (replicate 5 0)
                        (8 ∷ 8 ∷ (replicate 49 0 ++ (96 ∷ replicate 31 0))) (zeros-IsByte 5) widths,
                  ),
                ),
              ),
            ),
          ),
        ),
      ),
    )

parsed_example : InRange superblock_v0 parsed_v0
parsed_example = parse-InRange superblock_v0 superblock_v0-IsByte superblock_run

no_panic_example : Superblock.parse superblock_v0 ≢ panic
no_panic_example = parse-ne-panic superblock_v0

abbrev cursor : Cursor
cursor = record { bytes = 7 ∷ 1 ∷ 2 ∷ 0 ∷ []; pos = 1 }

read_field_example : read_uint_le cursor 3 ≡ ok (513, record cursor { pos = 4 })
unfolding sub
read_field_example =
    read_uint_le_field cursor 3 513 (omega arith) (omega arith) (omega arith) refl (omega arith)

read_bounds_example :
    (513 < 256 ^ 3) × (3 ≤ 8) × (cursor.bytes ≡ cursor.bytes) × (4 ≡ 1 + 3) × (4 ≤ 4)
read_bounds_example =
    read_uint_le_bounds cursor (record cursor { pos = 4 }) 3 513
      (omega arith, (omega arith, (omega arith, (omega arith, tt)))) read_field_example

fixed_reads_example :
    (read_u16_le cursor ≡ read_uint_le cursor 2)
    × (read_u24_le cursor ≡ read_uint_le cursor 3)
    × (read_u32_le cursor ≡ read_uint_le cursor 4)
    × (read_u64_le cursor ≡ read_uint_le cursor 8)
fixed_reads_example = fixed_reads cursor
