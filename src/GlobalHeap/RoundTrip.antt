-- ===== src/GlobalHeap/RoundTrip.antt =====
-- A serialized collection is parsed back, wherever it stands in a file.
use oxih.Base.{
  ℕ, suc, ◌+◌, ◌≤◌, ◌<◌, ◌≡◌, refl, sym, ◌∙◌, ap, List, [], ◌∷◌, ◌++◌, Option, some, arith, length,
  length-append, append_assoc, get_elem?, lt→ltb, inl, inr, replicate,
}
use oxih.Bytes.{
  Bytes, sub, get_range_ok, from_le, le_bytes, from_le-le_bytes, get_elem?-sub, eq_bytes_refl,
}
use oxih.Outcome.{word, ok, err, ok_or, format}
use oxih.GlobalHeap.{
  GlobalHeap, parse, object, serialize_collection, collection_size, collection_signature,
  parse_round, stop,
}
use oxih.GlobalHeap.Serialized.{entries, total, length-entries}
use oxih.GlobalHeap.Collection.{header, IsCollection, serialize_collection_lem}
use oxih.GlobalHeap.Rounds.{sub_at}
use oxih.GlobalHeap.Walk.{
  numbered, RunAt, parse_objects_lem, parse_round_full, parse_round_free, find-numbered,
  find-numbered_before, length-le-total,
}

module _ {objects : List Bytes} {declared : ℕ} {out : Bytes} (before after : Bytes)
    (c : IsCollection objects declared out) (few : length objects ≤ 65535)
    (small : length before + declared + length after + 16 < word) where
  abbrev file : Bytes
  file = before ++ (out ++ after)

  shape : file ≡ before ++ (header declared ++ (entries 0 objects ++ (c.tail ++ after)))
  shape =
      ap (λ (x : Bytes). before ++ x)
        (ap (λ (x : Bytes). x ++ after) (c.shape)
          ∙ append_assoc (header declared) (entries 0 objects ++ c.tail) after
          ∙ ap (λ (x : Bytes). header declared ++ x)
              (append_assoc (entries 0 objects) (c.tail) after))

  file_size : length file ≡ length before + declared + length after
  file_size = omega (arith, length-append before (out ++ after), length-append out after, c.size)

  signature_field : sub file (length before) 4 ≡ collection_signature
  signature_field = sub_at before collection_signature _ shape refl refl

  version_field : get_elem? file (length before + 4) ≡ some 1
  version_field = get_elem?-sub file (length before + 4) (
      sub_at (before ++ collection_signature) (1 ∷ []) _
        (shape ∙ sym (append_assoc before collection_signature _))
        (omega (arith, length-append before collection_signature)) refl)

  abbrev lead : Bytes
  lead = collection_signature ++ (1 ∷ replicate 3 0)

  declared_field : sub file (length before + 8) 8 ≡ le_bytes 8 declared
  declared_field =
      sub_at (before ++ lead) (le_bytes 8 declared) _ (shape ∙ sym (append_assoc before lead _))
        (omega (arith, length-append before lead)) refl

  run :
      RunAt file
        (length before)
        (length before + declared)
        (length before + 16)
        0
        objects
        (before ++ header declared)
        (c.tail ++ after)
  run = record {
    shape = shape ∙ sym (append_assoc before (header declared) _);
    place = omega (arith, length-append before (header declared));
    small = omega (arith, file_size);
    few = omega arith;
    inside = omega (arith, c.room);
    end_inside = omega (arith, file_size);
    behind = omega arith;
    aligned = omega arith;
  }

  tail_inside :
      (more : Bytes) → c.tail ≡ 0 ∷ 0 ∷ more → length before + 16 + total objects + 2 ≤ length file
  tail_inside more free = omega (
    arith,
    file_size,
    c.size,
    ap length (c.shape),
    length-append (header declared) (entries 0 objects ++ c.tail),
    length-append (entries 0 objects) (c.tail),
    length-entries 0 objects,
    ap length free,
  )

  free_field :
      (more : Bytes)
      → c.tail ≡ 0 ∷ 0 ∷ more
      → sub file (length before + 16 + total objects) 2 ≡ 0 ∷ 0 ∷ []
  free_field more free =
      let front = before ++ header declared in
      sub_at (front ++ entries 0 objects) (0 ∷ 0 ∷ []) (more ++ after)
        (shape
          ∙ sym (append_assoc before (header declared) (entries 0 objects ++ (c.tail ++ after)))
          ∙ sym (append_assoc front (entries 0 objects) (c.tail ++ after))
          ∙ ap (λ (x : Bytes). (front ++ entries 0 objects) ++ (x ++ after)) free)
        (omega (
          arith,
          length-append front (entries 0 objects),
          length-append before (header declared),
          length-entries 0 objects,
        ))
        refl

  stops :
      (found : List (ℕ × Bytes))
      → parse_round file
          (length before)
          (length before + declared)
          (length before + 16 + total objects)
          found
        ≡ ok stop
  stops found = elim (c.ends) [
    | inl full ↦ parse_round_full file _ _ _ found (omega (arith, c.room)) (omega arith)
    | inr (more, free) ↦
        parse_round_free file _ _ _ found (omega (arith, c.room)) (tail_inside more free)
          (free_field more free)
  ]

  parse-IsCollection : parse file (length before) ≡ ok (record { objects = numbered 0 objects [] })
  unfolding parse
  parse-IsCollection =
      let value : from_le (le_bytes 8 declared) ≡ declared =
        from_le-le_bytes 8 declared (omega arith) in
      rw
        (
          lt→ltb (length before + 4) word (omega arith),
          get_range_ok file (length before) 4 (omega (arith, file_size, c.room)),
          signature_field,
          eq_bytes_refl collection_signature,
          version_field,
          lt→ltb (length before + 8) word (omega arith),
          lt→ltb (length before + 16) word (omega arith),
          get_range_ok file (length before + 8) 8 (omega (arith, file_size, c.room)),
          declared_field,
          value,
          lt→ltb (length before + declared) word (omega arith),
          parse_objects_lem (suc (length file)) (length before + 16) _ 0 objects
              (before ++ header declared) [] run
              (omega (arith, length-le-total objects, file_size, c.room)) refl stops,
        )
        refl

lookups :
    (objects : List Bytes) (k : ℕ)
    → object (record { objects = numbered 0 objects [] }) (suc k)
      ≡ ok_or (get_elem? objects k) format
unfolding object
lookups objects k =
    let same : suc k ≡ 0 + 1 + k = omega arith in
    ap (λ (o : Option Bytes). ok_or o format)
      (rw same (find-numbered k 0 objects [] (λ key h. refl)))

lookup_free :
    (objects : List Bytes) → object (record { objects = numbered 0 objects [] }) 0 ≡ err format
unfolding object
lookup_free objects =
    ap (λ (o : Option Bytes). ok_or o format) (find-numbered_before 0 0 objects [] (omega arith))

-- Up to 65535 objects, whose entries stay 32 bytes below the address range, are serialized into one
-- collection, and the collection is parsed back from any file that it stands in and that stays 16
-- bytes below the address range: the object with index `k + 1` is the `k`-th object, counted from 0,
-- and no other index is found.
pub parse-serialize_collection :
    (objects : List Bytes) (before after : Bytes)
    → length objects ≤ 65535
    → 32 + total objects < word
    → length before + collection_size (16 + total objects) + length after + 16 < word
    → (out : Bytes) × (heap : GlobalHeap) × (serialize_collection objects ≡ ok out)
      × (parse (before ++ (out ++ after)) (length before) ≡ ok heap)
      × ((k : ℕ) → object heap (suc k) ≡ ok_or (get_elem? objects k) format)
      × (object heap 0 ≡ err format)
parse-serialize_collection objects before after few fits small =
    let (out, runs, is) = serialize_collection_lem objects few fits in
    (
      out,
      record { objects = numbered 0 objects [] },
      runs,
      parse-IsCollection before after is few small,
      lookups objects,
      lookup_free objects,
    )
