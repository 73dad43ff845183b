-- ===== src/Bytes/Put.antt =====
-- `buf[o .. o + bs.len()].copy_from_slice(bs)`, and what a read of the written buffer sees.
use oxih.Base.{
  ℕ, zero, suc, ◌+◌, ◌-◌, ◌≤◌, ◌≡◌, refl, ap, ◌∙◌, [], ◌∷◌, arith, length, take, drop, leb, le→leb,
  if◌then◌else◌, replicate,
}
use oxih.Bytes.Le.{Bytes}
use oxih.Bytes.Slice.{sub}
use oxih.Outcome.{Outcome, ok, panic}

-- The buffer with `bs` written from place `o` on; what passes its end is dropped.
unfoldable pub splice : Bytes → ℕ → Bytes → Bytes
splice [] o bs = []
splice (x ∷ xs) (suc o) bs = x ∷ splice xs o bs
splice (x ∷ xs) zero [] = x ∷ xs
splice (x ∷ xs) zero (b ∷ bs) = b ∷ splice xs zero bs

-- A write out of bounds panics.
abbrev pub put : Bytes → ℕ → Bytes → Outcome Bytes
put buf o bs = if leb (o + length bs) (length buf) then ok (splice buf o bs) else panic

pub length-splice : (buf : Bytes) (o : ℕ) (bs : Bytes) → length (splice buf o bs) ≡ length buf
unfolding splice
length-splice [] o bs = refl
length-splice (x ∷ xs) (suc o) bs = ap suc (length-splice xs o bs)
length-splice (x ∷ xs) zero [] = refl
length-splice (x ∷ xs) zero (b ∷ bs) = ap suc (length-splice xs zero bs)

splice_nil : (buf : Bytes) (o : ℕ) → splice buf o [] ≡ buf
unfolding splice
splice_nil [] o = refl
splice_nil (x ∷ xs) (suc o) = ap (◌∷◌ x) (splice_nil xs o)
splice_nil (x ∷ xs) zero = refl

pub put_ok :
    (buf : Bytes) (o : ℕ) (bs : Bytes)
    → o + length bs ≤ length buf
    → put buf o bs ≡ ok (splice buf o bs)
put_ok buf o bs h = rw (le→leb (o + length bs) (length buf) h)

pub sub-splice_before :
    (buf : Bytes) (o : ℕ) (bs : Bytes) (p n : ℕ)
    → p + n ≤ o
    → sub (splice buf o bs) p n ≡ sub buf p n
unfolding splice sub
sub-splice_before [] o bs p n h = refl
sub-splice_before (x ∷ xs) zero bs zero zero h = refl
sub-splice_before (x ∷ xs) zero bs zero (suc n) h = absurd (omega arith)
sub-splice_before (x ∷ xs) zero bs (suc p) n h = absurd (omega arith)
sub-splice_before (x ∷ xs) (suc o) bs zero zero h = refl
sub-splice_before (x ∷ xs) (suc o) bs zero (suc n) h =
    ap (◌∷◌ x) (sub-splice_before xs o bs zero n (omega arith))
sub-splice_before (x ∷ xs) (suc o) bs (suc p) n h = sub-splice_before xs o bs p n (omega arith)

drop-splice_after :
    (buf : Bytes) (o : ℕ) (bs : Bytes) (p : ℕ)
    → o + length bs ≤ p
    → drop p (splice buf o bs) ≡ drop p buf
unfolding splice
drop-splice_after [] o bs p h = refl
drop-splice_after (x ∷ xs) zero [] p h = refl
drop-splice_after (x ∷ xs) zero (b ∷ bs) zero h = absurd (omega arith)
drop-splice_after (x ∷ xs) zero (b ∷ bs) (suc p) h = drop-splice_after xs zero bs p (omega arith)
drop-splice_after (x ∷ xs) (suc o) bs zero h = absurd (omega arith)
drop-splice_after (x ∷ xs) (suc o) bs (suc p) h = drop-splice_after xs o bs p (omega arith)

pub sub-splice_after :
    (buf : Bytes) (o : ℕ) (bs : Bytes) (p n : ℕ)
    → o + length bs ≤ p
    → sub (splice buf o bs) p n ≡ sub buf p n
unfolding sub
sub-splice_after buf o bs p n h = ap (take n) (drop-splice_after buf o bs p h)

take-splice :
    (buf bs : Bytes) (q n : ℕ)
    → length bs ≤ length buf
    → q + n ≤ length bs
    → take n (drop q (splice buf zero bs)) ≡ take n (drop q bs)
unfolding splice
take-splice [] [] q n h k = refl
take-splice [] (b ∷ bs) q n h k = absurd (omega arith)
take-splice (x ∷ xs) [] zero zero h k = refl
take-splice (x ∷ xs) [] (suc q) n h k = absurd (omega arith)
take-splice (x ∷ xs) [] zero (suc n) h k = absurd (omega arith)
take-splice (x ∷ xs) (b ∷ bs) zero zero h k = refl
take-splice (x ∷ xs) (b ∷ bs) zero (suc n) h k =
    ap (◌∷◌ b) (take-splice xs bs zero n (omega arith) (omega arith))
take-splice (x ∷ xs) (b ∷ bs) (suc q) n h k = take-splice xs bs q n (omega arith) (omega arith)

-- A read inside the written range sees the written bytes.
pub sub-splice_inside :
    (buf : Bytes) (o : ℕ) (bs : Bytes) (p n : ℕ)
    → o + length bs ≤ length buf
    → o ≤ p
    → p + n ≤ o + length bs
    → sub (splice buf o bs) p n ≡ sub bs (p - o) n
unfolding splice sub
sub-splice_inside [] zero [] p n h k m = ap (λ j. take n (drop {A = ℕ} j [])) (omega arith)
sub-splice_inside [] zero (b ∷ bs) p n h k m = absurd (omega arith)
sub-splice_inside [] (suc o) bs p n h k m = absurd (omega arith)
sub-splice_inside (x ∷ xs) zero bs p n h k m =
    take-splice (x ∷ xs) bs p n (omega arith) (omega arith)
    ∙ ap (λ j. take n (drop j bs)) (omega arith)
sub-splice_inside (x ∷ xs) (suc o) bs zero n h k m = absurd (omega arith)
sub-splice_inside (x ∷ xs) (suc o) bs (suc p) n h k m =
    sub-splice_inside xs o bs p n (omega arith) (omega arith) (omega arith)
    ∙ ap (λ j. take n (drop j bs)) (omega arith)

-- `buf[o .. o + n].fill(0)`
abbrev pub fill_zero : Bytes → ℕ → ℕ → Outcome Bytes
fill_zero buf o n = put buf o (replicate n 0)
