-- ===== src/Geometry/Copy.antt =====
-- What the element loops leave in their output.
use oxih.Base.{
  ℕ, zero, suc, ◌+◌, ◌*◌, ◌-◌, ◌≤◌, ◌<◌, ◌≡◌, refl, sym, ◌∙◌, ap, [], ◌∷◌, none, some, Option,
  arith, length, lt→ltb, le→leb, ◌≢◌, ◌⊎◌, inl, subst, inr,
}
use oxih.Bytes.{
  Bytes, sub, splice, put_ok, length-splice, sub-splice_before, sub-splice_after, sub-splice_inside,
  length-sub,
}
use oxih.Outcome.{Outcome, ok, word}
use oxih.Geometry.{copy_elem, copy_or_skip, copy_loop}

-- Element `i` of a buffer.
abbrev pub elem_at : Bytes → ℕ → ℕ → Bytes
elem_at bytes elem_size i = sub bytes (i * elem_size) elem_size

next_elem : (i j n : ℕ) → i < j → i * n + n ≤ j * n
next_elem i j n h = grind arith

elem-splice_other :
    (out bs : Bytes) (elem_size d i : ℕ)
    → length bs ≡ elem_size
    → i ≢ d
    → elem_at (splice out (d * elem_size) bs) elem_size i ≡ elem_at out elem_size i
elem-splice_other out bs elem_size d i len apart = elim (sides i d apart) [
  | inl before ↦
      sub-splice_before out (d * elem_size) bs (i * elem_size) elem_size
        (next_elem i d elem_size before)
  | inr after ↦
      let far = next_elem d i elem_size after in
      sub-splice_after out (d * elem_size) bs (i * elem_size) elem_size (omega (arith, far, len))
]
  where
    sides : (i d : ℕ) → i ≢ d → (i < d) ⊎ (d < i)
    sides i d h = omega arith

sub_whole : (bs : Bytes) (n : ℕ) → length bs ≡ n → sub bs 0 n ≡ bs
unfolding sub
sub_whole [] zero h = refl
sub_whole [] (suc n) h = absurd (omega arith)
sub_whole (x ∷ bs) zero h = absurd (omega arith)
sub_whole (x ∷ bs) (suc n) h = ap (◌∷◌ x) (sub_whole bs n (omega arith))

elem-splice :
    (out bs : Bytes) (elem_size d : ℕ)
    → length bs ≡ elem_size
    → d * elem_size + elem_size ≤ length out
    → elem_at (splice out (d * elem_size) bs) elem_size d ≡ bs
elem-splice out bs elem_size d len fits =
    let here : d * elem_size - d * elem_size ≡ 0 = omega arith in
    sub-splice_inside out (d * elem_size) bs (d * elem_size) elem_size (omega (arith, len))
      (omega arith) (omega (arith, len))
    ∙ rw here (sub_whole bs elem_size len)

copy_elem_lem :
    (source : Bytes) (elem_size s d : ℕ) (out : Bytes)
    → s * elem_size + elem_size ≤ length source
    → d * elem_size + elem_size ≤ length out
    → length source < word
    → length out < word
    → copy_elem source elem_size s d out
      ≡ ok (splice out (d * elem_size) (elem_at source elem_size s))
unfolding copy_elem
copy_elem_lem source elem_size s d out from to small_source small_out =
    rw
      (
        lt→ltb (s * elem_size) word (omega arith),
        lt→ltb (d * elem_size) word (omega arith),
        lt→ltb (s * elem_size + elem_size) word (omega arith),
        le→leb _ _ from,
        lt→ltb (d * elem_size + elem_size) word (omega arith),
        le→leb _ _ to,
      )
      (put_ok out (d * elem_size) (elem_at source elem_size s)
        (omega (arith, length-sub source (s * elem_size) elem_size from)))

-- A move of the loop is in range, and brings the element that is wanted at its destination.
abbrev pub Brings : Bytes → ℕ → ℕ → (ℕ → Bytes) → Option (ℕ × ℕ) → Type 0
Brings source elem_size n_out want none = Unit
Brings source elem_size n_out want (some (s, d)) =
    (s * elem_size + elem_size ≤ length source)
    × (d * elem_size + elem_size ≤ n_out)
    × (elem_at source elem_size s ≡ want d)

pub record Copied (elem_size : ℕ) (want : ℕ → Bytes) (moves : ℕ → Option (ℕ × ℕ)) (flat n : ℕ)
    (before after : Bytes) : Type 0 where
  pub same_length : length after ≡ length before
  pub hits :
      (f s d : ℕ)
      → flat ≤ f
      → f < flat + n
      → moves f ≡ some (s, d)
      → elem_at after elem_size d ≡ want d
  pub keeps : (d : ℕ) → elem_at before elem_size d ≡ want d → elem_at after elem_size d ≡ want d
  pub frame :
      (d : ℕ)
      → ((f s : ℕ) → flat ≤ f → f < flat + n → moves f ≢ some (s, d))
      → elem_at after elem_size d ≡ elem_at before elem_size d

module _ (source : Bytes) (elem_size : ℕ) (want : ℕ → Bytes)
    (small_source : length source < word) where
  -- One iteration.
  copy_or_skip_lem :
      (move : Option (ℕ × ℕ)) (out : Bytes)
      → length out < word
      → Brings source elem_size (length out) want move
      → (after : Bytes) × (copy_or_skip source elem_size move out ≡ ok after)
        × (length after ≡ length out)
        × ((s d : ℕ) → move ≡ some (s, d) → elem_at after elem_size d ≡ want d)
        × ((d : ℕ) → elem_at out elem_size d ≡ want d → elem_at after elem_size d ≡ want d)
        × ((d : ℕ)
            → ((s : ℕ) → move ≢ some (s, d))
            → elem_at after elem_size d ≡ elem_at out elem_size d)
  unfolding copy_or_skip
  copy_or_skip_lem none out small brings = (out, refl, refl, λ s d e. cc e, λ d e. e, λ d e. refl)
  copy_or_skip_lem (some (s, d)) out small (from, to, same) =
      let elem = elem_at source elem_size s in
      let len = length-sub source (s * elem_size) elem_size from in
      let here = elem-splice out elem elem_size d len to ∙ same in
      (
        splice out (d * elem_size) elem,
        copy_elem_lem source elem_size s d out from to small_source small,
        length-splice out (d * elem_size) elem,
        λ t i e.
            let at : d ≡ i = cc e in
            subst (λ i. elem_at (splice out (d * elem_size) elem) elem_size i ≡ want i) at here,
        λ i e. elim (same_or_not i d) [
          | inl at ↦
              subst (λ i. elem_at (splice out (d * elem_size) elem) elem_size i ≡ want i) (sym at)
                here
          | inr apart ↦ elem-splice_other out elem elem_size d i len apart ∙ e
        ],
        λ i off. elem-splice_other out elem elem_size d i len (λ at. off s (rw at refl)),
      )
    where
      same_or_not : (i d : ℕ) → (i ≡ d) ⊎ (i ≢ d)
      same_or_not i d = omega arith

  module _ (places : ℕ → Outcome (Option (ℕ × ℕ))) (moves : ℕ → Option (ℕ × ℕ)) where
    -- The loop, where its body finds the places `moves`.
    pub copy_loop_lem :
        (n flat : ℕ) (out : Bytes)
        → length out < word
        → ((f : ℕ) → flat ≤ f → f < flat + n → places f ≡ ok (moves f))
        → ((f : ℕ) → flat ≤ f → f < flat + n → Brings source elem_size (length out) want (moves f))
        → (after : Bytes) × (copy_loop places source elem_size n flat out ≡ ok after)
          × Copied elem_size want moves flat n out after
    unfolding copy_loop
    copy_loop_lem zero flat out small finds brings = (
      out,
      refl,
      record {
        same_length = refl;
        hits = λ f s d lo hi. absurd (omega (arith, lo, hi));
        keeps = λ d e. e;
        frame = λ d off. refl;
      },
    )
    copy_loop_lem (suc n) flat out small finds brings =
        let (mid, ran, len, hit, keep, still) =
          copy_or_skip_lem (moves flat) out small (brings flat (omega arith) (omega arith)) in
        let (after, rest, done) =
          copy_loop_lem n (flat + 1) mid (omega (arith, len))
            (λ f lo hi. finds f (omega arith) (omega arith))
            (λ f lo hi.
              subst (λ l. Brings source elem_size l want (moves f)) (sym len)
                (brings f (omega arith) (omega arith))) in
        (
          after,
          rw (finds flat (omega arith) (omega arith), ran) rest,
          record {
            same_length = done.same_length ∙ len;
            hits = λ f s d lo hi e. elim (now_or_later f flat lo) [
              | inl at ↦ done.keeps d (hit s d (ap moves (sym at) ∙ e))
              | inr later ↦ done.hits f s d later (omega arith) e
            ];
            keeps = λ d e. done.keeps d (keep d e);
            frame = λ d off.
                done.frame d (λ f s lo hi. off f s (omega arith) (omega arith))
                ∙ still d (λ s. off flat s (omega arith) (omega arith));
          },
        )
      where
        now_or_later : (f flat : ℕ) → flat ≤ f → (f ≡ flat) ⊎ (flat + 1 ≤ f)
        now_or_later f flat h = omega arith
