-- ===== src/Tests/Heaps.antt =====
-- A global heap collection of two objects, in a file behind eight other bytes.
use oxih.Base.{ℕ, suc, ◌+◌, ◌≡◌, refl, [], ◌∷◌, ◌++◌, List, arith, replicate, get_elem?}
use oxih.Bytes.{Bytes}
use oxih.Outcome.{ok, err, ok_or, format}
use oxih.GlobalHeap.{GlobalHeap, parse, object, serialize_collection, collection_size, doubled}
use oxih.GlobalHeap.RoundTrip.{parse-serialize_collection}

abbrev two_objects : List Bytes
two_objects = (1 ∷ 2 ∷ 3 ∷ []) ∷ (4 ∷ []) ∷ []

size_run : collection_size (16 + 48) ≡ 4096
unfolding collection_size doubled
size_run = refl

collection_example :
    (out : Bytes) × (heap : GlobalHeap) × (serialize_collection two_objects ≡ ok out)
    × (parse (replicate 8 0 ++ (out ++ [])) 8 ≡ ok heap)
    × ((k : ℕ) → object heap (suc k) ≡ ok_or (get_elem? two_objects k) format)
    × (object heap 0 ≡ err format)
collection_example =
    parse-serialize_collection two_objects (replicate 8 0) [] (omega arith) (omega arith)
      (omega (arith, size_run))
