-- ===== src/GlobalHeap/Invariant.antt =====
-- The invariant of `build_collections` of crates/oxih5-format/src/global_heap_writer.rs, and that each
-- of its steps preserves it.
use oxih.Base.{
  ap, ◌+◌, ◌%◌, ◌^◌, ◌-◌, ◌≤◌, ◌<◌, ◌≡◌, refl, List, [], ◌∷◌, ◌++◌, some, arith, length,
  length-append, get_elem?, Bool-cases, inl, inr, append-nil, append_assoc, All, All-append, ℕ, ◌⊎◌,
  false,
}
use oxih.Bytes.{Bytes}
use oxih.Outcome.{ok, word}
use oxih.GlobalHeap.{align8, align8_usize, saturating_add}
use oxih.GlobalHeap.Serialized.{total}
use oxih.GlobalHeap.Collection.{serialize_collection_lem}
use oxih.GlobalHeap.Lookup.{IsGroup}
use oxih.GlobalHeap.Packing.{Packing, is_over, flush, place, pack_object, pack_objects}
use oxih.GlobalHeap.Groups.{
  total-prefix, Serialized, Located, new-Extends, grown-Extends, Located-Extends, Located-append,
  Serialized-append, length-Serialized, total-append, get_elem?-append_last,
}

-- A packing of the objects that were seen.
pub record IsPacking (p : Packing) (groups : List (List Bytes)) (seen : List Bytes) : Type 0 where
  pub serialized : Serialized groups (p.collections)
  pub located : Located (groups ++ (p.current ∷ [])) (p.locations) seen
  used : p.content_used ≡ 16 + total (p.current)
  few : length (p.current) ≤ 65535
  pub grouped : All IsGroup groups
  within : (length (p.current) ≤ 1) ⊎ (16 + total (p.current) ≤ 65536)
  count : length groups + length (p.current) ≤ length seen
  room : total (p.current) ≤ total seen

place-IsPacking :
    (p : Packing) (groups : List (List Bytes)) (seen : List Bytes) (obj : Bytes)
    → IsPacking p groups seen
    → length (p.current) < 65535
    → (length (p.current) ≡ 0) ⊎ (p.content_used + (16 + align8 (length obj)) ≤ 65536)
    → length seen + 1 < 2 ^ 32
    → 64 + total (seen ++ (obj ∷ [])) < word
    → IsPacking (place p obj (16 + align8 (length obj))) groups (seen ++ (obj ∷ []))
unfolding place
place-IsPacking p groups seen obj is open_end has_room short small =
    let grown = groups ++ ((p.current ++ (obj ∷ [])) ∷ []) in
    let last : get_elem? grown (length groups) ≡ some (p.current ++ (obj ∷ [])) =
      get_elem?-append_last groups _ in
    let ordinal : length (p.collections) % 2 ^ 32 ≡ length groups =
      omega (arith, length-Serialized groups (p.collections) (is.serialized), is.count) in
    let index : (length (p.current) + 1) % 2 ^ 32 ≡ length (p.current) + 1 = omega arith in
    let place_in : length (p.current) + 1 - 1 ≡ length (p.current) = omega arith in
    record {
      serialized = is.serialized;
      located =
          Located-append grown (p.locations) seen _ obj
            (Located-Extends _ grown (p.locations) seen (grown-Extends groups (p.current) obj)
              (is.located))
            (
              omega (arith, index),
              rw (ordinal, last, index, place_in) (get_elem?-append_last (p.current) obj),
            );
      used = omega (arith, is.used, total-append (p.current) obj, total-append seen obj, is.room);
      few = omega (arith, length-append (p.current) (obj ∷ []));
      grouped = is.grouped;
      within = omega (
        arith,
        has_room,
        is.used,
        length-append (p.current) (obj ∷ []),
        total-append (p.current) obj,
      );
      count =
          omega
            (arith, is.count, length-append (p.current) (obj ∷ []), length-append seen (obj ∷ []));
      room = omega (arith, is.room, total-append (p.current) obj, total-append seen obj);
    }

pub flush-IsPacking :
    (p : Packing) (groups : List (List Bytes)) (seen : List Bytes)
    → IsPacking p groups seen
    → 0 < length (p.current)
    → 64 + total seen < word
    → (next : Packing) × (flush p ≡ ok next)
      × IsPacking next (groups ++ (p.current ∷ [])) seen
      × (next.current ≡ [])
unfolding flush
flush-IsPacking p groups seen is some_objects small =
    let (bytes, runs, shape) =
      serialize_collection_lem (p.current) (is.few) (omega (arith, is.room)) in
    (
      record p { collections = p.collections ++ (bytes ∷ []); current = []; content_used = 16 },
      rw runs refl,
      record {
        serialized =
            Serialized-append groups (p.collections) (p.current) bytes (is.serialized) runs;
        located =
            Located-Extends _ _ (p.locations) seen (new-Extends (groups ++ (p.current ∷ [])) [])
              (is.located);
        used = refl;
        few = omega arith;
        grouped = All-append IsGroup groups (p.current ∷ []) (is.grouped) (
          (some_objects, is.few, omega (arith, some_objects, is.within), omega (arith, is.room)),
          tt,
        );
        within = inl (omega arith);
        count = omega (arith, is.count, length-append groups (p.current ∷ []));
        room = omega arith;
      },
      refl,
    )

pack_object-IsPacking :
    (p : Packing) (groups : List (List Bytes)) (seen : List Bytes) (obj : Bytes)
    → IsPacking p groups seen
    → length seen + 1 < 2 ^ 32
    → 64 + total (seen ++ (obj ∷ [])) < word
    → (next : Packing) × (after : List (List Bytes)) × (pack_object p obj ≡ ok next)
      × IsPacking next after (seen ++ (obj ∷ []))
unfolding pack_object
pack_object-IsPacking p groups seen obj is short small =
    let need : align8_usize (saturating_add 16 (length obj)) ≡ 16 + align8 (length obj) =
      omega (arith, total-append seen obj) in
    elim (Bool-cases (is_over (p.content_used) (p.current) (16 + align8 (length obj)))) [
      | inl over ↦
          let (mid, runs, then, empty) =
            flush-IsPacking p groups seen is (ground (arith, over))
              (omega (arith, total-append seen obj)) in
          (
            place mid obj (16 + align8 (length obj)),
            groups ++ (p.current ∷ []),
            rw (need, over, runs) refl,
            place-IsPacking mid (groups ++ (p.current ∷ [])) seen obj then
                (omega (arith, ap length empty)) (inl (ap length empty)) short small,
          )
      | inr fits ↦ (
        place p obj (16 + align8 (length obj)),
        groups,
        rw (need, fits) refl,
        place-IsPacking p groups seen obj is (ground (arith, fits))
            (below (p.content_used) (p.current) (align8 (length obj))
              (omega (arith, is.used, is.room, total-append seen obj)) fits)
            short small,
      )
    ]
  where
    below :
        (used : ℕ) (current : List Bytes) (size : ℕ)
        → used + (16 + size) < word
        → is_over used current (16 + size) ≡ false
        → (length current ≡ 0) ⊎ (used + (16 + size) ≤ 65536)
    below used current size small h = ground arith

pub pack_objects-IsPacking :
    (p : Packing) (groups : List (List Bytes)) (seen objects : List Bytes)
    → IsPacking p groups seen
    → length (seen ++ objects) < 2 ^ 32
    → 64 + total (seen ++ objects) < word
    → (next : Packing) × (after : List (List Bytes)) × (pack_objects p objects ≡ ok next)
      × IsPacking next after (seen ++ objects)
unfolding pack_objects
pack_objects-IsPacking p groups seen [] is short small = (p, groups, refl, rw (append-nil seen) is)
pack_objects-IsPacking p groups seen (obj ∷ objects) is short small =
    let regroup = append_assoc seen (obj ∷ []) objects in
    let first = total-prefix (seen ++ (obj ∷ [])) objects in
    let (mid, between, runs, then) =
      pack_object-IsPacking p groups seen obj is (omega (arith, length-append seen (obj ∷ objects)))
        (omega (arith, first, ap total regroup)) in
    let (next, after, rest, done) =
      pack_objects-IsPacking mid between (seen ++ (obj ∷ [])) objects then (rw regroup short)
        (rw regroup small) in
    (next, after, rw runs rest, rw regroup at done)

pub start-IsPacking :
    IsPacking (record { collections = []; locations = []; current = []; content_used = 16 }) [] []
start-IsPacking = record {
  serialized = tt;
  located = tt;
  used = refl;
  few = omega arith;
  grouped = tt;
  within = inl (omega arith);
  count = omega arith;
  room = omega arith;
}
