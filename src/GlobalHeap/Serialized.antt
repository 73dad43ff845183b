-- ===== src/GlobalHeap/Serialized.antt =====
-- The layout of a serialized collection.
use oxih.Base.{
  ℕ, ◌+◌, ◌%◌, ◌-◌, ◌≤◌, ◌<◌, ◌≡◌, refl, List, [], ◌∷◌, ◌++◌, arith, length, replicate,
  length-append, length-replicate, ◌==◌, Bool-cases, inl, inr, min, append-nil, sym, take_all, ◌∙◌,
  append_assoc,
}
use oxih.Bytes.{Bytes, le_bytes}
use oxih.Outcome.{word}
use oxih.GlobalHeap.{
  align8, push_object, push_objects, content_from, align8_usize, saturating_add, collection_size,
  resize, doubled,
}

-- An object with its header and padding.
abbrev pub entry : ℕ → Bytes → Bytes
entry idx obj =
    le_bytes 2 idx
    ++ (le_bytes 2 1
        ++ (replicate 4 0
            ++ (le_bytes 8 (length obj)
                ++ (obj ++ replicate (align8 (length obj) - length obj) 0))))

-- The objects from index `i + 1` on.
abbrev pub entries : ℕ → List Bytes → Bytes
entries i [] = []
entries i (obj ∷ objects) = entry (i + 1) obj ++ entries (i + 1) objects

-- The bytes that they take.
abbrev pub total : List Bytes → ℕ
total [] = 0
total (obj ∷ objects) = 16 + align8 (length obj) + total objects

pub length-entry : (idx : ℕ) (obj : Bytes) → length (entry idx obj) ≡ 16 + align8 (length obj)
length-entry idx obj = omega (
  arith,
  length-append obj (replicate (align8 (length obj) - length obj) 0),
  length-replicate {A = ℕ} (align8 (length obj) - length obj) 0,
)

pub length-entries : (i : ℕ) (objects : List Bytes) → length (entries i objects) ≡ total objects
length-entries i [] = refl
length-entries i (obj ∷ objects) = omega (
  arith,
  length-append (entry (i + 1) obj) (entries (i + 1) objects),
  length-entry (i + 1) obj,
  length-entries (i + 1) objects,
)

pub total-aligned : (objects : List Bytes) → total objects % 8 ≡ 0
total-aligned [] = refl
total-aligned (obj ∷ objects) = omega (arith, total-aligned objects)

pub content_from_lem :
    (used : ℕ) (objects : List Bytes)
    → used + total objects < word
    → content_from used objects ≡ used + total objects
unfolding content_from
content_from_lem used [] h = omega arith
content_from_lem used (obj ∷ objects) h =
    let here : saturating_add used (align8_usize (saturating_add 16 (length obj)))
        ≡ used + (16 + align8 (length obj)) =
      omega arith in
    rw here
      (omega (arith, content_from_lem (used + (16 + align8 (length obj))) objects (omega arith)))

-- The object's header and data, before the padding.
abbrev unpadded : ℕ → Bytes → Bytes
unpadded idx obj =
    le_bytes 2 idx ++ (le_bytes 2 1 ++ (replicate 4 0 ++ (le_bytes 8 (length obj) ++ obj)))

pub resize_more :
    (out : Bytes) (n : ℕ) → length out ≤ n → resize out n ≡ out ++ replicate (n - length out) 0
resize_more out n h = rw (take_all n out h) refl

push_object_lem :
    (out : Bytes) (i : ℕ) (obj : Bytes)
    → length out % 8 ≡ 0
    → i < 65535
    → push_object out i obj ≡ out ++ entry (i + 1) obj
unfolding push_object
push_object_lem out i obj whole few =
    let idx : min (i % 65536 + 1) 65535 ≡ i + 1 = omega arith in
    let size : length (out ++ unpadded (i + 1) obj) ≡ length out + (16 + length obj) =
      omega (arith, length-append out (unpadded (i + 1) obj)) in
    rw idx (elim (Bool-cases (length (out ++ unpadded (i + 1) obj) % 8 == 0)) [
      | inl aligned ↦
          let none_left : align8 (length obj) - length obj ≡ 0 =
            ground (arith, aligned, size, whole) in
          rw (aligned, none_left, append-nil obj) refl
      | inr short ↦
          let pad : length (out ++ unpadded (i + 1) obj)
                + (8 - length (out ++ unpadded (i + 1) obj) % 8)
                - length (out ++ unpadded (i + 1) obj)
              ≡ align8 (length obj) - length obj =
            ground (arith, short, size, whole) in
          rw short (
            resize_more (out ++ unpadded (i + 1) obj) _ (omega arith)
            ∙ rw pad (
                append_assoc out (unpadded (i + 1) obj)
                  (replicate (align8 (length obj) - length obj) 0)))
    ])

pub push_objects_lem :
    (out : Bytes) (i : ℕ) (objects : List Bytes)
    → length out % 8 ≡ 0
    → i + length objects ≤ 65535
    → push_objects out i objects ≡ out ++ entries i objects
unfolding push_objects
push_objects_lem out i [] whole few = sym (append-nil out)
push_objects_lem out i (obj ∷ objects) whole few =
    let size = length-append out (entry (i + 1) obj) in
    rw (push_object_lem out i obj whole (omega arith)) (
      push_objects_lem (out ++ entry (i + 1) obj) (i + 1) objects
        (omega (arith, size, length-entry (i + 1) obj)) (omega arith)
      ∙ append_assoc out (entry (i + 1) obj) (entries (i + 1) objects))

pub collection_size-le : (n : ℕ) → n + 7 < word → n ≤ collection_size n
unfolding collection_size doubled
collection_size-le n h = ground arith

pub collection_size-lt : (n : ℕ) → n + 7 < word → collection_size n < word
unfolding collection_size doubled
collection_size-lt n h = ground arith

pub collection_size-room : (n : ℕ) → n + 31 < word → collection_size n + 16 < word
unfolding collection_size doubled
collection_size-room n h = ground arith
