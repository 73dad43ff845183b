-- ===== src/Hyperslab/Validation.antt =====
-- What `validate` is for: behind it, no test of a coordinate divides by a zero stride.
use oxih.Base.{
  ℕ, ◌≡◌, ◌≢◌, refl, List, [], ◌∷◌, true, false, not, ◌&&◌, ltb, ◌==◌, arith, All, Bool,
}
use oxih.Outcome.{ok, panic, format, guard, >>=-eq-ok}
use oxih.Hyperslab.{DimSelection, contains, validate}

passed : (b : Bool) → guard b format ≡ ok tt → b ≡ true
passed true h = refl
passed false h = absurd (cc h)

contains-ne-panic :
    (sel : DimSelection) (coord : ℕ)
    → not (ltb 0 (sel.count) && ltb 0 (sel.block) && sel.stride == 0) ≡ true
    → contains sel coord ≢ panic
unfolding contains
contains-ne-panic sel coord h = ground (arith, h)

-- For every selection that `validate` accepts, no coordinate makes `contains` panic in any dimension.
pub validate-contains :
    (dims : List DimSelection)
    → validate dims ≡ ok tt
    → All (λ sel. (coord : ℕ) → contains sel coord ≢ panic) dims
unfolding validate
validate-contains [] h = tt
validate-contains (sel ∷ dims) h =
    let check = not (ltb 0 (sel.count) && ltb 0 (sel.block) && sel.stride == 0) in
    let (done, fine, rest) = >>=-eq-ok (guard check format) _ h in
    (λ coord. contains-ne-panic sel coord (passed check fine), validate-contains dims rest)
