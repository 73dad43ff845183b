-- ===== src/GlobalHeap/Collection.antt =====
-- What `serialize_collection` gives: a header, the objects, and the free space.
use oxih.Base.{
  ℕ, ◌+◌, ◌-◌, ◌≤◌, ◌<◌, ◌≡◌, refl, ◌∙◌, List, ◌∷◌, ◌++◌, arith, length, replicate, length-append,
  length-replicate, ◌==◌, Bool-cases, inl, inr, append_assoc, Bool, true, false, ==_iff, ap, leb,
  if◌then◌else◌, ◌⊎◌,
}
use oxih.Bytes.{Bytes, le_bytes}
use oxih.Outcome.{word, ok}
use oxih.GlobalHeap.{collection_signature, collection_size, serialize_collection, resize}
use oxih.GlobalHeap.Serialized.{
  entries, total, length-entries, content_from_lem, push_objects_lem, collection_size-le,
  resize_more,
}

abbrev pub header : ℕ → Bytes
header declared = collection_signature ++ (1 ∷ (replicate 3 0 ++ le_bytes 8 declared))

abbrev free_space : ℕ → Bytes
free_space leftover = le_bytes 2 0 ++ (le_bytes 2 0 ++ (replicate 4 0 ++ le_bytes 8 leftover))

-- A collection of a size: what is behind the objects starts with index 0, or has no room for an
-- object's header.
pub record IsCollection (objects : List Bytes) (declared : ℕ) (out : Bytes) : Type 0 where
  pub tail : Bytes
  pub size : length out ≡ declared
  pub room : 16 + total objects ≤ declared
  pub shape : out ≡ header declared ++ (entries 0 objects ++ tail)
  pub ends : (declared < 32 + total objects) ⊎ ((more : Bytes) × (tail ≡ 0 ∷ 0 ∷ more))

abbrev filled : List Bytes → ℕ → Bytes
filled objects declared = header declared ++ entries 0 objects

length-filled :
    (objects : List Bytes) (declared : ℕ) → length (filled objects declared) ≡ 16 + total objects
length-filled objects declared =
    omega (arith, length-append (header declared) (entries 0 objects), length-entries 0 objects)

with_free_space :
    (objects : List Bytes) (declared : ℕ)
    → 16 + total objects ≤ declared
    → 16 ≤ declared - (16 + total objects)
    → IsCollection objects declared
        (resize (filled objects declared ++ free_space (declared - (16 + total objects))) declared)
with_free_space objects declared room free =
    let body = filled objects declared in
    let space = free_space (declared - (16 + total objects)) in
    let long = length-append body space in
    let used = length-filled objects declared in
    let zeros : Bytes = replicate (declared - length (body ++ space)) 0 in
    let grown = resize_more (body ++ space) declared (omega arith) in
    record {
      tail = space ++ zeros;
      size = omega (
        arith,
        ap length grown,
        length-append (body ++ space) zeros,
        length-replicate {A = ℕ} (declared - length (body ++ space)) 0,
      );
      room = room;
      shape =
          grown
          ∙ append_assoc body space zeros
          ∙ append_assoc (header declared) (entries 0 objects) (space ++ zeros);
      ends = inr (_, refl);
    }

without_free_space :
    (objects : List Bytes) (declared : ℕ)
    → 16 + total objects ≤ declared
    → declared - (16 + total objects) < 16
    → IsCollection objects declared (resize (filled objects declared) declared)
without_free_space objects declared room full =
    let body = filled objects declared in
    let used = length-filled objects declared in
    let zeros : Bytes = replicate (declared - length body) 0 in
    let grown = resize_more body declared (omega arith) in
    record {
      tail = zeros;
      size = omega (
        arith,
        ap length grown,
        length-append body zeros,
        length-replicate {A = ℕ} (declared - length body) 0,
      );
      room = room;
      shape = grown ∙ append_assoc (header declared) (entries 0 objects) zeros;
      ends = inl (omega arith);
    }

abbrev finished : List Bytes → ℕ → Bool → Bytes
finished objects declared free =
    resize
      (if free
        then filled objects declared ++ free_space (declared - (16 + total objects))
        else filled objects declared)
      declared

serialize_collection_run :
    (objects : List Bytes)
    → length objects ≤ 65535
    → 32 + total objects < word
    → serialize_collection objects
      ≡ ok (
          finished objects
            (collection_size (16 + total objects))
            (leb 16 (collection_size (16 + total objects) - (16 + total objects))))
unfolding serialize_collection
serialize_collection_run objects few small =
    let content = content_from_lem 16 objects (omega arith) in
    let declared = collection_size (16 + total objects) in
    let body = push_objects_lem (header declared) 0 objects refl (omega arith) in
    let whole : (length (filled objects declared) == (16 + total objects)) ≡ true =
      (==_iff _ _).1 (length-filled objects declared) in
    rw (content, body, whole) refl

-- The objects fit in one collection: their indices in 16 bits, their bytes in the address range.
pub serialize_collection_lem :
    (objects : List Bytes)
    → length objects ≤ 65535
    → 32 + total objects < word
    → (out : Bytes) × (serialize_collection objects ≡ ok out)
      × IsCollection objects (collection_size (16 + total objects)) out
serialize_collection_lem objects few small =
    let declared = collection_size (16 + total objects) in
    let room = collection_size-le (16 + total objects) (omega arith) in
    let run = serialize_collection_run objects few small in
    elim (Bool-cases (leb 16 (declared - (16 + total objects)))) [
      | inl free ↦ (
        finished objects declared true,
        run ∙ ap (λ b. ok (finished objects declared b)) free,
        with_free_space objects declared room (ground arith),
      )
      | inr full ↦ (
        finished objects declared false,
        run ∙ ap (λ b. ok (finished objects declared b)) full,
        without_free_space objects declared room (ground arith),
      )
    ]
