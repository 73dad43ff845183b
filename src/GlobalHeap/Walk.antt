-- ===== src/GlobalHeap/Walk.antt =====
-- The loop over a run of objects, and lookups in what it gathers.
use oxih.Base.{
  ℕ, zero, suc, ◌+◌, ◌%◌, ◌-◌, ◌≤◌, ◌<◌, ◌≡◌, refl, sym, ◌∙◌, ap, List, [], ◌∷◌, ◌++◌, none, arith,
  length, length-append, append_assoc, get_elem?, lt→ltb, leb, ltb, ◌||◌, eq_refl, Bool-cases, inl,
  inr,
}
use oxih.Bytes.{Bytes, sub, get_range_ok}
use oxih.Outcome.{word, ok}
use oxih.GlobalHeap.{align8, parse_round, round_to, parse_objects, stop, find_object}
use oxih.GlobalHeap.Serialized.{entry, entries, total, length-entry}
use oxih.GlobalHeap.Rounds.{EntryAt, parse_round_lem}

-- The objects with their indices, behind those that were there.
abbrev pub numbered : ℕ → List Bytes → List (ℕ × Bytes) → List (ℕ × Bytes)
numbered i [] acc = acc
numbered i (obj ∷ objects) acc = numbered (i + 1) objects ((i + 1, obj) ∷ acc)

pub length-le-total : (objects : List Bytes) → length objects ≤ total objects
length-le-total [] = omega arith
length-le-total (obj ∷ objects) = omega (arith, length-le-total objects)

-- A run of objects from `pos` on, in a collection whose end is in the file.
pub record RunAt (file : Bytes) (base heap_end pos i : ℕ) (objects : List Bytes)
    (front rest : Bytes) : Type 0 where
  pub shape : file ≡ front ++ (entries i objects ++ rest)
  pub place : pos ≡ length front
  pub small : length file + 16 < word
  pub few : i + length objects ≤ 65535
  pub inside : pos + total objects ≤ heap_end
  pub end_inside : heap_end ≤ length file
  pub behind : base ≤ pos
  pub aligned : (pos - base) % 8 ≡ 0

first-EntryAt :
    {file : Bytes} {base heap_end pos i : ℕ} {obj : Bytes} {objects : List Bytes}
    {front rest : Bytes}
    → RunAt file base heap_end pos i (obj ∷ objects) front rest
    → EntryAt file base heap_end pos (i + 1) obj front (entries (i + 1) objects ++ rest)
first-EntryAt {i = i} {obj} {objects} {front} {rest} run = record {
  shape =
      run.shape
      ∙ ap (λ (x : Bytes). front ++ x)
          (append_assoc (entry (i + 1) obj) (entries (i + 1) objects) rest);
  place = run.place;
  small = run.small;
  index_fits = omega (arith, run.few);
  index_pos = omega arith;
  inside = omega (arith, run.inside);
  end_inside = run.end_inside;
  behind = run.behind;
  aligned = run.aligned;
}

rest-RunAt :
    {file : Bytes} {base heap_end pos i : ℕ} {obj : Bytes} {objects : List Bytes}
    {front rest : Bytes}
    → RunAt file base heap_end pos i (obj ∷ objects) front rest
    → RunAt file base heap_end
        (pos + (16 + align8 (length obj)))
        (i + 1)
        objects
        (front ++ entry (i + 1) obj)
        rest
rest-RunAt {i = i} {obj} {objects} {front} {rest} run =
    let size = length-append front (entry (i + 1) obj) in
    let here = first-EntryAt run in
    record {
      shape =
          here.shape
          ∙ sym (append_assoc front (entry (i + 1) obj) (entries (i + 1) objects ++ rest));
      place = omega (arith, run.place, size, length-entry (i + 1) obj);
      small = run.small;
      few = omega (arith, run.few);
      inside = omega (arith, run.inside);
      end_inside = run.end_inside;
      behind = omega (arith, run.behind);
      aligned = omega (arith, run.aligned, run.behind);
    }

pub parse_objects_lem :
    {file : Bytes} {base heap_end : ℕ} {rest : Bytes} (fuel pos stop_at i : ℕ)
    (objects : List Bytes) (front : Bytes) (acc : List (ℕ × Bytes))
    → RunAt file base heap_end pos i objects front rest
    → length objects < fuel
    → pos + total objects ≡ stop_at
    → ((found : List (ℕ × Bytes)) → parse_round file base heap_end stop_at found ≡ ok stop)
    → parse_objects fuel file base heap_end pos acc ≡ ok (numbered i objects acc)
unfolding parse_objects
parse_objects_lem zero pos stop_at i objects front acc run enough at_end stops =
    absurd (omega arith)
parse_objects_lem (suc fuel) pos stop_at i [] front acc run enough at_end stops =
    let same : pos ≡ stop_at = omega arith in rw (same, stops acc) refl
parse_objects_lem (suc fuel) pos stop_at i (obj ∷ objects) front acc run enough at_end stops =
    rw (parse_round_lem (first-EntryAt run) acc) (
      parse_objects_lem fuel (pos + (16 + align8 (length obj))) stop_at (i + 1) objects
        (front ++ entry (i + 1) obj) ((i + 1, obj) ∷ acc) (rest-RunAt run) (omega arith)
        (omega arith) stops)

-- What ends the loop: no room for an object's header, or index 0.
pub parse_round_full :
    (file : Bytes) (base heap_end pos : ℕ) (found : List (ℕ × Bytes))
    → pos + 16 < word
    → heap_end < pos + 16
    → parse_round file base heap_end pos found ≡ ok stop
unfolding parse_round round_to
parse_round_full file base heap_end pos found small full =
    rw (lt→ltb (pos + 16) word small, lt→ltb heap_end (pos + 16) full) refl

pub parse_round_free :
    (file : Bytes) (base heap_end pos : ℕ) (found : List (ℕ × Bytes))
    → pos + 16 < word
    → pos + 2 ≤ length file
    → sub file pos 2 ≡ 0 ∷ 0 ∷ []
    → parse_round file base heap_end pos found ≡ ok stop
unfolding parse_round round_to
parse_round_free file base heap_end pos found small inside free =
    elim (Bool-cases (ltb heap_end (pos + 16) || leb (length file) pos)) [
      | inl full ↦ rw (lt→ltb (pos + 16) word small, full) refl
      | inr open_end ↦
          rw (lt→ltb (pos + 16) word small, open_end, get_range_ok file pos 2 inside, free) refl
    ]

-- Lookups.
pub find-numbered_before :
    (key i : ℕ) (objects : List Bytes) (acc : List (ℕ × Bytes))
    → key ≤ i
    → find_object key (numbered i objects acc) ≡ find_object key acc
find-numbered_before key i [] acc h = refl
find-numbered_before key i (obj ∷ objects) acc h =
    find-numbered_before key (i + 1) objects ((i + 1, obj) ∷ acc) (omega arith) ∙ ground arith

pub find-numbered :
    (k i : ℕ) (objects : List Bytes) (acc : List (ℕ × Bytes))
    → ((key : ℕ) → i < key → find_object key acc ≡ none)
    → find_object (i + 1 + k) (numbered i objects acc) ≡ get_elem? objects k
find-numbered k i [] acc h = h (i + 1 + k) (omega arith)
find-numbered zero i (obj ∷ objects) acc h =
    let same : i + 1 + 0 ≡ i + 1 = omega arith in
    rw same (
      find-numbered_before (i + 1) (i + 1) objects ((i + 1, obj) ∷ acc) (omega arith)
      ∙ rw (eq_refl (i + 1)) refl)
find-numbered (suc k) i (obj ∷ objects) acc h =
    let same : i + 1 + suc k ≡ i + 1 + 1 + k = omega arith in
    rw same (
      find-numbered k (i + 1) objects ((i + 1, obj) ∷ acc)
        (λ key later. ground (arith, h key (omega arith))))
