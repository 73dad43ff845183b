-- ===== src/GlobalHeap/Packing.antt =====
-- `GlobalHeapWriter::build_collections` of crates/oxih5-format/src/global_heap_writer.rs.
use oxih.Base.{
  ℕ, ◌+◌, ◌%◌, ◌^◌, List, [], ◌∷◌, ◌++◌, Bool, not, ◌||◌, ◌&&◌, length, ltb, leb, ◌==◌,
  if◌then◌else◌,
}
use oxih.Bytes.{Bytes}
use oxih.Outcome.{Outcome, ok, ◌>>=◌}
use oxih.GlobalHeap.{
  h5hg_maxsize, max_objects_per_collection, saturating_add, align8_usize, serialize_collection,
}

-- The ordinal of a collection, and the index of an object in it, from 1.
pub record HeapObjectLocation : Type 0 where
  pub collection : ℕ
  pub index : ℕ

-- The collections that are done, and the one that is being filled, with the bytes that it takes.
pub record Packing : Type 0 where
  pub collections : List Bytes
  pub locations : List HeapObjectLocation
  pub current : List Bytes
  pub content_used : ℕ

abbrev pub is_over : ℕ → List Bytes → ℕ → Bool
is_over content_used current need =
    not (length current == 0)
    && (ltb h5hg_maxsize (saturating_add content_used need)
        || leb max_objects_per_collection (length current))

-- The collection is closed.
unfoldable pub flush : Packing → Outcome Packing
flush p = do
  bytes ← serialize_collection (p.current)
  ok (record p { collections = p.collections ++ (bytes ∷ []); current = []; content_used = 16 })

-- The object goes into the current collection.
unfoldable pub place : Packing → Bytes → ℕ → Packing
place p obj need = record p {
  locations =
      p.locations
      ++ (record {
        collection = length (p.collections) % 2 ^ 32;
        index = (length (p.current) + 1) % 2 ^ 32;
      }
          ∷ []);
  current = p.current ++ (obj ∷ []);
  content_used = saturating_add (p.content_used) need;
}

unfoldable pub pack_object : Packing → Bytes → Outcome Packing
pack_object p obj = do
  let need = align8_usize (saturating_add 16 (length obj))
  p ← (if is_over (p.content_used) (p.current) need then flush p else ok p)
  ok (place p obj need)

unfoldable pub pack_objects : Packing → List Bytes → Outcome Packing
pack_objects p [] = ok p
pack_objects p (obj ∷ objects) = do p ← pack_object p obj; pack_objects p objects

unfoldable pub build_collections : List Bytes → Outcome (List Bytes × List HeapObjectLocation)
build_collections objects = do
  p ←
      pack_objects (record { collections = []; locations = []; current = []; content_used = 16 })
        objects
  if length (p.current) == 0
      then ok (p.collections, p.locations)
      else (do p ← flush p; ok (p.collections, p.locations))
