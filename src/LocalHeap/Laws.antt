-- ===== src/LocalHeap/Laws.antt =====
-- `heap::parse` and `name_at`, on any input.
use oxih.Base.{
  leb, ℕ, zero, suc, ◌+◌, ◌<◌, ◌≤◌, ◌≡◌, ◌≢◌, refl, ◌∙◌, ap, [], ◌∷◌, ◌++◌, some, arith, length,
  take, drop, All, ltb, Bool-cases, inl, inr, true, Option-cases, length-drop, get_elem?,
  drop-append, take-append, length-append, lt→ltb, sym, le→leb,
}
use oxih.Bytes.{Bytes, sub, index-ne-panic, read_le-ne-panic, length-sub, index_range_ok}
use oxih.Outcome.{ok, panic, word}
use oxih.Utf8.{is_utf8}
use oxih.LocalHeap.{LocalHeap, parse, name_at, nul_position}

-- No address makes the parser panic, in a file whose length fits a `usize`.
pub parse_returns :
    (file : Bytes) (heap_address : ℕ) → length file < word → parse file heap_address ≢ panic
unfolding parse
parse_returns file heap_address h = ground (
  arith,
  index-ne-panic file (heap_address + 4),
  read_le-ne-panic 8 file (heap_address + 8),
  read_le-ne-panic 8 file (heap_address + 24),
)

abbrev NoNul : Bytes → Type 0
NoNul = All (λ b. b ≢ 0)

nul_position_inv :
    (bs : Bytes) (i : ℕ) → nul_position bs ≡ some i → NoNul (take i bs) × (get_elem? bs i ≡ some 0)
unfolding nul_position
nul_position_inv [] i h = absurd (cc h)
nul_position_inv (b ∷ bs) zero h = ground arith
nul_position_inv (b ∷ bs) (suc i) h = ground (arith, nul_position_inv bs i)

nul_position-lt : (bs : Bytes) (i : ℕ) → nul_position bs ≡ some i → i < length bs
unfolding nul_position
nul_position-lt [] i h = absurd (cc h)
nul_position-lt (b ∷ bs) zero h = omega arith
nul_position-lt (b ∷ bs) (suc i) h = ground (arith, nul_position-lt bs i)

get_elem?-drop : (m n : ℕ) (bs : Bytes) → get_elem? (drop m bs) n ≡ get_elem? bs (m + n)
get_elem?-drop zero n bs = ap (get_elem? bs) (omega arith)
get_elem?-drop (suc m) n [] = refl
get_elem?-drop (suc m) n (b ∷ bs) =
    get_elem?-drop m n bs
    ∙ ap (get_elem? (b ∷ bs)) (let e : suc (m + n) ≡ suc m + n = omega arith in e)

ok_eq : {a b : Bytes} → ok a ≡ ok b → a ≡ b
ok_eq h = cc

-- The name in front of a NUL lies inside the segment.
name-fits :
    (segment : Bytes) (offset i : ℕ)
    → nul_position (drop offset segment) ≡ some i
    → offset + i ≤ length segment
name-fits segment offset i nul =
    omega (arith, nul_position-lt (drop offset segment) i nul, length-drop offset segment)

name_part :
    (segment : Bytes) (offset i : ℕ) (name : Bytes)
    → nul_position (drop offset segment) ≡ some i
    → is_utf8 (sub segment offset i) ≡ true
    → sub segment offset i ≡ name
    → (is_utf8 name ≡ true)
      × NoNul name
      × (sub segment offset (length name) ≡ name)
      × (get_elem? segment (offset + length name) ≡ some 0)
name_part segment offset i name nul good e =
    let inside = name-fits segment offset i nul in
    let len : length name ≡ i = ap length (sym e) ∙ length-sub segment offset i inside in
    let (clear, stop) = nul_position_inv (drop offset segment) i nul in
    (
      rw (← e) good,
      rw (← e) (unfold sub in clear),
      rw len e,
      rw len (sym (get_elem?-drop offset i segment) ∙ stop),
    )

-- What `name_at` returns is UTF-8 text without a NUL that stands at the offset, with a NUL behind it.
pub name_at_inv :
    (heap : LocalHeap) (offset : ℕ) (name : Bytes)
    → name_at heap offset ≡ ok name
    → (is_utf8 name ≡ true)
      × NoNul name
      × (sub heap.segment offset (length name) ≡ name)
      × (get_elem? heap.segment (offset + length name) ≡ some 0)
unfolding name_at
name_at_inv heap offset name h = elim (Bool-cases (ltb offset (length heap.segment))) [
  | inr past ↦ absurd (cc (rw past at h))
  | inl inside ↦
      let begins : leb offset (length heap.segment) ≡ true = ground (arith, inside) in
      elim (Option-cases (nul_position (drop offset heap.segment))) [
        | inl open_end ↦ absurd (cc (rw (inside, begins, open_end) at h))
        | inr (i, nul) ↦
            let room =
              index_range_ok (heap.segment) offset i (name-fits (heap.segment) offset i nul) in
            elim (Bool-cases (is_utf8 (sub heap.segment offset i))) [
              | inr bad ↦ absurd (cc (rw (inside, begins, nul, room, bad) at h))
              | inl good ↦
                  name_part heap.segment offset i name nul good
                    (ok_eq (rw (inside, begins, nul, room, good) at h))
            ]
      ]
]

nul_position_found :
    (name rest : Bytes) → NoNul name → nul_position (name ++ (0 ∷ rest)) ≡ some (length name)
unfolding nul_position
nul_position_found [] rest h = refl
nul_position_found (b ∷ name) rest h = ground (arith, nul_position_found name rest h.1, h.0)

-- A UTF-8 name without a NUL, and with one behind it, is read back from where it stands.
pub name_at_found :
    (before name rest : Bytes)
    → NoNul name
    → is_utf8 name ≡ true
    → name_at (record { segment = before ++ (name ++ (0 ∷ rest)) }) (length before) ≡ ok name
unfolding name_at sub
name_at_found before name rest h u =
    let behind = drop-append before (name ++ (0 ∷ rest)) in
    let nul = nul_position_found name rest h in
    let inside : length before < length (before ++ (name ++ (0 ∷ rest))) =
      omega (arith, length-append before (name ++ (0 ∷ rest)), length-append name (0 ∷ rest)) in
    let begins : leb (length before) (length (before ++ (name ++ (0 ∷ rest)))) ≡ true =
      ground (arith, inside) in
    let fits : length before + length name ≤ length (before ++ (name ++ (0 ∷ rest))) =
      omega (arith, length-append before (name ++ (0 ∷ rest)), length-append name (0 ∷ rest)) in
    rw (lt→ltb _ _ inside, begins)
      (rw behind (rw nul (rw (le→leb _ _ fits) (rw (take-append name (0 ∷ rest), u)))))
