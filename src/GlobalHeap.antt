-- ===== src/GlobalHeap.antt =====
-- Global heap collections: the parser of crates/oxih5-format/src/global_heap.rs and the writer of
-- crates/oxih5-format/src/global_heap_writer.rs.
pub mod Serialized
pub mod Collection
pub mod Rounds
pub mod Walk
pub mod RoundTrip
pub mod Packing
pub mod Groups
pub mod Lookup
pub mod Invariant
pub mod Spread
use oxih.Base.{
  ℕ, zero, suc, ◌+◌, ◌*◌, ◌/◌, ◌%◌, ◌-◌, List, [], ◌∷◌, ◌++◌, Option, none, some, true, false, not,
  ◌||◌, ◌&&◌, length, ltb, leb, ◌==◌, if◌then◌else◌, min, take, replicate, get_elem?,
}
use oxih.Bytes.{Bytes, get_range, eq_bytes, from_le, le_bytes}
use oxih.Outcome.{
  Outcome, ok, err, panic, guard, require, ok_or, checked_add, word, format, corrupted, ◌>>=◌, ◌>>◌,
}

abbrev pub collection_signature : Bytes
collection_signature = b'G' ∷ b'C' ∷ b'O' ∷ b'L' ∷ []

-- The map from indices to data, the last insertion first.
pub record GlobalHeap : Type 0 where
  pub objects : List (ℕ × Bytes)

-- What a round of the parser's loop leaves: the end, or the next place and the objects so far.
pub data Round : Type 0 where
  stop : Round
  advance : ℕ → List (ℕ × Bytes) → Round

abbrev pub align8 : ℕ → ℕ
align8 n = (n + 7) / 8 * 8

-- The object whose index is not 0, at `pos`.
unfoldable pub parse_object : Bytes → ℕ → ℕ → ℕ → ℕ → List (ℕ × Bytes) → Outcome Round
parse_object file base pos pos_end idx objects = do
  size_field ← ok_or (get_range file (pos + 8) 8) format
  let obj_size = from_le size_field
  data_end ← ok_or (checked_add pos_end obj_size) corrupted
  bytes ← ok_or (get_range file pos_end obj_size) format
  guard (leb base data_end) corrupted
  raised ← ok_or (checked_add (data_end - base) 7) corrupted
  next_pos ← ok_or (checked_add base (raised / 8 * 8)) corrupted
  ok (advance next_pos ((idx, bytes) ∷ objects))

-- The body of the loop behind `pos.checked_add(16)`.
unfoldable pub round_to : Bytes → ℕ → ℕ → ℕ → List (ℕ × Bytes) → Option ℕ → Outcome Round
round_to file base heap_end pos objects none = ok stop
round_to file base heap_end pos objects (some pos_end) =
    if ltb heap_end pos_end || leb (length file) pos then ok stop else (do
      idx_field ← ok_or (get_range file pos 2) format
      let idx = from_le idx_field
      if idx == 0 then ok stop else parse_object file base pos pos_end idx objects)

unfoldable pub parse_round : Bytes → ℕ → ℕ → ℕ → List (ℕ × Bytes) → Outcome Round
parse_round file base heap_end pos objects =
    round_to file base heap_end pos objects (checked_add pos 16)

unfoldable pub parse_objects : ℕ → Bytes → ℕ → ℕ → ℕ → List (ℕ × Bytes) → Outcome (List (ℕ × Bytes))
parse_objects zero file base heap_end pos objects = panic
parse_objects (suc fuel) file base heap_end pos objects = do
  round ← parse_round file base heap_end pos objects
  elim round [
    | stop ↦ ok objects
    | advance next_pos more ↦ parse_objects fuel file base heap_end next_pos more
  ]

-- A round goes 16 bytes ahead and starts inside the file, so the file's length and one are enough.
unfoldable pub parse : Bytes → ℕ → Outcome GlobalHeap
parse file base = do
  base4 ← ok_or (checked_add base 4) corrupted
  sig ← ok_or (get_range file base 4) format
  guard (eq_bytes sig collection_signature) format
  version ← ok_or (get_elem? file base4) format
  guard (version == 1) format
  base8 ← ok_or (checked_add base 8) corrupted
  base16 ← ok_or (checked_add base 16) corrupted
  size_field ← ok_or (get_range file base8 8) format
  heap_end ← ok_or (checked_add base (from_le size_field)) corrupted
  objects ← parse_objects (suc (length file)) file base heap_end base16 []
  ok (record { objects = objects })

abbrev pub find_object : ℕ → List (ℕ × Bytes) → Option Bytes
find_object index [] = none
find_object index ((key, bytes) ∷ objects) =
    if key == index then some bytes else find_object index objects

unfoldable pub object : GlobalHeap → ℕ → Outcome Bytes
object heap index = ok_or (find_object index (heap.objects)) format

-- The writer.
abbrev pub h5hg_minsize : ℕ
h5hg_minsize = 4096

abbrev pub h5hg_maxsize : ℕ
h5hg_maxsize = 65536

abbrev pub max_objects_per_collection : ℕ
max_objects_per_collection = 65535

abbrev pub saturating_add : ℕ → ℕ → ℕ
saturating_add a b = min (a + b) (word - 1)

abbrev pub align8_usize : ℕ → ℕ
align8_usize n = saturating_add n 7 / 8 * 8

-- The fold over the objects, from the bytes counted so far.
unfoldable pub content_from : ℕ → List Bytes → ℕ
content_from used [] = used
content_from used (obj ∷ objects) =
    content_from (saturating_add used (align8_usize (saturating_add 16 (length obj)))) objects

-- `while size < content_end { size <<= 1 }`: four doublings lead from the least size to the greatest.
unfoldable pub doubled : ℕ → ℕ → ℕ → ℕ
doubled zero size content_end = size
doubled (suc fuel) size content_end =
    let rest = doubled fuel (size * 2) content_end in if ltb size content_end then rest else size

unfoldable pub collection_size : ℕ → ℕ
collection_size content_end =
    if leb content_end h5hg_maxsize
    then doubled 4 h5hg_minsize content_end
    else align8_usize content_end

-- `out.resize(n, 0)`
abbrev pub resize : Bytes → ℕ → Bytes
resize out n = take n out ++ replicate (n - length out) 0

-- An object's header and data, and the padding behind them.
unfoldable pub push_object : Bytes → ℕ → Bytes → Bytes
push_object out i obj =
    let idx = min (i % 65536 + 1) 65535 in
    let out =
      out
      ++ (le_bytes 2 idx
          ++ (le_bytes 2 1 ++ (replicate 4 0 ++ (le_bytes 8 (length obj) ++ obj)))) in
    if length out % 8 == 0 then out else resize out (length out + (8 - length out % 8))

unfoldable pub push_objects : Bytes → ℕ → List Bytes → Bytes
push_objects out i [] = out
push_objects out i (obj ∷ objects) = push_objects (push_object out i obj) (i + 1) objects

unfoldable pub serialize_collection : List Bytes → Outcome Bytes
serialize_collection objects = do
  let content_end = content_from 16 objects
  let declared = collection_size content_end
  let out = collection_signature ++ (1 ∷ (replicate 3 0 ++ le_bytes 8 declared))
  let out = push_objects out 0 objects
  require (length out == content_end)
  let leftover = declared - content_end
  let out =
      (if leb 16 leftover
        then out ++ (le_bytes 2 0 ++ (le_bytes 2 0 ++ (replicate 4 0 ++ le_bytes 8 leftover)))
        else out)
  ok (resize out declared)
