-- ===== src/GlobalHeap/Rounds.antt =====
-- The parser's loop over the objects of a collection.
use oxih.Base.{
  ◌||◌, ℕ, ◌+◌, ◌*◌, ◌/◌, ◌%◌, ◌-◌, ◌≤◌, ◌<◌, ◌≡◌, refl, sym, ◌∙◌, ap, List, ◌∷◌, ◌++◌, arith,
  length, replicate, length-append, ◌==◌, append_assoc, take-append, drop-append, lt→ltb, le→leb,
  leb, ltb, false,
}
use oxih.Bytes.{Bytes, le_bytes, from_le-le_bytes, sub, get_range_ok, from_le}
use oxih.Outcome.{word, ok}
use oxih.GlobalHeap.{align8, parse_object, parse_round, advance, round_to}
use oxih.GlobalHeap.Serialized.{entry}

pub sub_at :
    {file : Bytes} (a b c : Bytes) {p n : ℕ}
    → file ≡ a ++ (b ++ c)
    → p ≡ length a
    → n ≡ length b
    → sub file p n ≡ b
unfolding sub
sub_at a b c shape at_p at_n = rw (shape, at_p, at_n, drop-append a (b ++ c)) (take-append b c)

-- A file with an object's entry at `pos`, in a collection from `base`, whose end is in the file.
pub record EntryAt (file : Bytes) (base heap_end pos idx : ℕ) (obj front rest : Bytes)
    : Type 0 where
  pub shape : file ≡ front ++ (entry idx obj ++ rest)
  pub place : pos ≡ length front
  pub small : length file + 16 < word
  pub index_fits : idx < 65536
  pub index_pos : 0 < idx
  pub inside : pos + (16 + align8 (length obj)) ≤ heap_end
  pub end_inside : heap_end ≤ length file
  pub behind : base ≤ pos
  pub aligned : (pos - base) % 8 ≡ 0

abbrev lead : ℕ → Bytes
lead idx = le_bytes 2 idx ++ (le_bytes 2 1 ++ replicate 4 0)

abbrev padding : Bytes → Bytes
padding obj = replicate (align8 (length obj) - length obj) 0

module _ {file : Bytes} {base heap_end pos idx : ℕ} {obj front rest : Bytes}
    (here : EntryAt file base heap_end pos idx obj front rest) where
  index_field : sub file pos 2 ≡ le_bytes 2 idx
  index_field = sub_at front (le_bytes 2 idx) _ (here.shape) (here.place) refl

  size_field : sub file (pos + 8) 8 ≡ le_bytes 8 (length obj)
  size_field =
      sub_at (front ++ lead idx) (le_bytes 8 (length obj)) (obj ++ padding obj ++ rest)
        (here.shape
          ∙ sym (
              append_assoc front (lead idx)
                (le_bytes 8 (length obj) ++ (obj ++ padding obj ++ rest))))
        (omega (arith, here.place, length-append front (lead idx))) refl

  object_field : sub file (pos + 16) (length obj) ≡ obj
  object_field =
      sub_at (front ++ (lead idx ++ le_bytes 8 (length obj))) obj (padding obj ++ rest)
        (here.shape
          ∙ ap (λ (x : Bytes). front ++ (lead idx ++ le_bytes 8 (length obj) ++ x))
              (append_assoc obj (padding obj) rest)
          ∙ sym (
              append_assoc front (lead idx ++ le_bytes 8 (length obj))
                (obj ++ (padding obj ++ rest))))
        (omega (arith, here.place, length-append front (lead idx ++ le_bytes 8 (length obj)))) refl

  parse_object_lem :
      (objects : List (ℕ × Bytes))
      → parse_object file base pos (pos + 16) idx objects
        ≡ ok (advance (pos + (16 + align8 (length obj))) ((idx, obj) ∷ objects))
  unfolding parse_object
  parse_object_lem objects =
      let size : from_le (le_bytes 8 (length obj)) ≡ length obj =
        from_le-le_bytes 8 (length obj) (omega (arith, here.inside, here.end_inside, here.small)) in
      let next : base + (pos + 16 + length obj - base + 7) / 8 * 8
          ≡ pos + (16 + align8 (length obj)) =
        omega (arith, here.behind, here.aligned) in
      rw
        (
          get_range_ok file (pos + 8) 8 (omega (arith, here.inside, here.end_inside)),
          size_field,
          size,
          lt→ltb (pos + 16 + length obj) word
              (omega (arith, here.inside, here.end_inside, here.small)),
          get_range_ok file (pos + 16) (length obj) (omega (arith, here.inside, here.end_inside)),
          object_field,
          le→leb base (pos + 16 + length obj) (omega (arith, here.behind)),
          lt→ltb (pos + 16 + length obj - base + 7) word
              (omega (arith, here.inside, here.end_inside, here.small)),
          next,
          lt→ltb (pos + (16 + align8 (length obj))) word
              (omega (arith, here.inside, here.end_inside, here.small)),
        )
        refl

  pub parse_round_lem :
      (objects : List (ℕ × Bytes))
      → parse_round file base heap_end pos objects
        ≡ ok (advance (pos + (16 + align8 (length obj))) ((idx, obj) ∷ objects))
  unfolding parse_round round_to
  parse_round_lem objects =
      let value : from_le (le_bytes 2 idx) ≡ idx =
        from_le-le_bytes 2 idx (omega (arith, here.index_fits)) in
      let goes_on : (ltb heap_end (pos + 16) || leb (length file) pos) ≡ false =
        ground (arith, here.inside, here.end_inside) in
      let object_here : (idx == 0) ≡ false = ground (arith, here.index_pos) in
      rw
        (
          lt→ltb (pos + 16) word (omega (arith, here.inside, here.end_inside, here.small)),
          goes_on,
          get_range_ok file pos 2 (omega (arith, here.inside, here.end_inside)),
          index_field,
          value,
          object_here,
        )
        (parse_object_lem objects)
