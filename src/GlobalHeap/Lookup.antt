-- ===== src/GlobalHeap/Lookup.antt =====
-- The objects that `build_collections` of crates/oxih5-format/src/global_heap_writer.rs spreads, looked
-- up by their locations in the collections' bytes.
use oxih.Base.{
  ℕ, zero, suc, ◌+◌, ◌-◌, ◌≤◌, ◌<◌, ◌≡◌, refl, List, [], ◌∷◌, Option, some, arith, length,
  get_elem?, Option-cases, inl, inr, All, ◌⊎◌, append-nil, ap, sym, ◌∙◌, subst,
}
use oxih.Bytes.{Bytes}
use oxih.Outcome.{ok, word, ok_or, format}
use oxih.GlobalHeap.{
  GlobalHeap, parse, object, serialize_collection, h5hg_maxsize, max_objects_per_collection,
}
use oxih.GlobalHeap.Serialized.{total, collection_size-room}
use oxih.GlobalHeap.RoundTrip.{parse-serialize_collection}
use oxih.GlobalHeap.Packing.{HeapObjectLocation}
use oxih.GlobalHeap.Groups.{Serialized, Located}

-- A group that a collection can hold: not empty, with indices of 16 bits, and within the greatest size
-- but for one object that is alone; 64 bytes more are still in the address range.
abbrev pub IsGroup : List Bytes → Type 0
IsGroup g =
    (0 < length g)
    × (length g ≤ max_objects_per_collection)
    × ((length g ≡ 1) ⊎ (16 + total g ≤ h5hg_maxsize))
    × (64 + total g < word)

-- Each location names a collection whose bytes are parsed to a heap with the object at the location's
-- index.
abbrev pub Readable : List Bytes → List HeapObjectLocation → List Bytes → Type 0
Readable collections [] [] = Unit
Readable collections (at ∷ locations) (obj ∷ objects) =
    ((bytes : Bytes) × (heap : GlobalHeap) × (get_elem? collections (at.collection) ≡ some bytes)
      × (parse bytes 0 ≡ ok heap)
      × (object heap (at.index) ≡ ok obj))
    × Readable collections locations objects
Readable collections _ _ = ⊥

-- The collection of a group.
collection_of :
    (groups : List (List Bytes)) (collections : List Bytes) (c : ℕ) {g : List Bytes}
    → All IsGroup groups
    → Serialized groups collections
    → get_elem? groups c ≡ some g
    → (bytes : Bytes) × (get_elem? collections c ≡ some bytes)
      × (serialize_collection g ≡ ok bytes)
      × IsGroup g
collection_of [] collections c all s h = absurd (cc h)
collection_of (x ∷ groups) [] c all s h = absurd s
collection_of (x ∷ groups) (bytes ∷ collections) zero {g} (good, all) (s, rest) h =
    let same : x ≡ g = some_eq h in (bytes, refl, rw same at s, subst IsGroup same good)
  where
    some_eq : {a b : List Bytes} → some a ≡ some b → a ≡ b
    some_eq h = cc
collection_of (x ∷ groups) (bytes ∷ collections) (suc c) (good, all) (s, rest) h =
    collection_of groups collections c all rest h

-- A group's bytes, alone, are parsed to its objects.
parse_group :
    (g : List Bytes) (bytes : Bytes) (index : ℕ) (obj : Bytes)
    → IsGroup g
    → serialize_collection g ≡ ok bytes
    → 0 < index
    → get_elem? g (index - 1) ≡ some obj
    → (heap : GlobalHeap) × (parse bytes 0 ≡ ok heap) × (object heap index ≡ ok obj)
parse_group g bytes index obj (some_object, few, low, small) s pos at =
    let (out, heap, runs, parsed, each, past) =
      parse-serialize_collection g [] [] few (omega (arith, small))
        (omega (arith, small, collection_size-room (16 + total g))) in
    let same : out ≡ bytes = bytes_eq (sym runs ∙ s) in
    let here : suc (index - 1) ≡ index = omega (arith, pos) in
    (
      heap,
      subst (λ (b : Bytes). parse b 0 ≡ ok heap) (append-nil out ∙ same) parsed,
      subst (λ i. object heap i ≡ ok obj) here
          (each (index - 1) ∙ ap (λ (o : Option Bytes). ok_or o format) at),
    )
  where
    bytes_eq : {a b : Bytes} → ok a ≡ ok b → a ≡ b
    bytes_eq h = cc

pub Located-Readable :
    (groups : List (List Bytes)) (collections : List Bytes) (locations : List HeapObjectLocation)
    (objects : List Bytes)
    → All IsGroup groups
    → Serialized groups collections
    → Located groups locations objects
    → Readable collections locations objects
Located-Readable groups collections [] [] all s h = tt
Located-Readable groups collections [] (obj ∷ objects) all s h = absurd h
Located-Readable groups collections (at ∷ locations) [] all s h = absurd h
Located-Readable groups collections (at ∷ locations) (obj ∷ objects) all s ((pos, stands), rest) =
    elim (Option-cases (get_elem? groups (at.collection))) [
      | inl past ↦ absurd (cc (rw past at stands))
      | inr (g, found) ↦
          let (bytes, there, runs, good) =
            collection_of groups collections (at.collection) all s found in
          let (heap, parsed, same) =
            parse_group g bytes (at.index) obj good runs pos (rw found at stands) in
          (
            (bytes, heap, there, parsed, same),
            Located-Readable groups collections locations objects all s rest,
          )
    ]
