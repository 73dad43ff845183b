-- ===== src/Bytes/Slice.antt =====
-- Sub-slices. `sub bs p n` is `bs[p .. p + n]` where that lies inside `bs`.
use oxih.Base.{
  ℕ, zero, suc, ◌+◌, ◌<◌, ◌≤◌, ◌≡◌, refl, [], ◌∷◌, Option, none, some, arith, length, take, drop,
  leb, le→leb, if◌then◌else◌, length-take, length-drop, get_elem?, All, All-take, All-drop, ◌==◌,
  ◌&&◌, ◌↔◌, Bool, true, false, ◌≢◌, replicate, ap,
}
use oxih.Bytes.Le.{Bytes, IsByte}
use oxih.Outcome.{Outcome, unwrap, panic, ok}

unfoldable pub sub : Bytes → ℕ → ℕ → Bytes
sub bs p n = take n (drop p bs)

-- `bs.get(p .. p + n)`
abbrev pub get_range : Bytes → ℕ → ℕ → Option Bytes
get_range bs p n = if leb (p + n) (length bs) then some (sub bs p n) else none

-- `&bs[p .. p + n]`
abbrev pub index_range : Bytes → ℕ → ℕ → Outcome Bytes
index_range bs p n = unwrap (get_range bs p n)

-- `&bs[p ..]`
abbrev pub index_from : Bytes → ℕ → Outcome Bytes
index_from bs p = if leb p (length bs) then ok (drop p bs) else panic

-- `bs[p]`
abbrev pub index : Bytes → ℕ → Outcome ℕ
index bs p = unwrap (get_elem? bs p)

pub length-sub : (bs : Bytes) (p n : ℕ) → p + n ≤ length bs → length (sub bs p n) ≡ n
unfolding sub
length-sub bs p n h = omega (arith, length-take n (drop p bs), length-drop p bs)

pub sub-IsByte : (bs : Bytes) (p n : ℕ) → All IsByte bs → All IsByte (sub bs p n)
unfolding sub
sub-IsByte bs p n h = All-take IsByte n (drop p bs) (All-drop IsByte p bs h)

pub get_range_ok : (bs : Bytes) (p n : ℕ) → p + n ≤ length bs → get_range bs p n ≡ some (sub bs p n)
get_range_ok bs p n h = rw (le→leb (p + n) (length bs) h)

pub index_range_ok :
    (bs : Bytes) (p n : ℕ) → p + n ≤ length bs → index_range bs p n ≡ ok (sub bs p n)
index_range_ok bs p n h = rw (le→leb (p + n) (length bs) h) refl

pub index_lt : (bs : Bytes) (p : ℕ) → p < length bs → (b : ℕ) × (get_elem? bs p ≡ some b)
index_lt [] p h = absurd (omega arith)
index_lt (x ∷ bs) zero h = (x, refl)
index_lt (x ∷ bs) (suc p) h = index_lt bs p (omega arith)

-- A byte is a sub-slice of length one.
pub get_elem?-sub : (bs : Bytes) (p : ℕ) {b : ℕ} → sub bs p 1 ≡ b ∷ [] → get_elem? bs p ≡ some b
unfolding sub
get_elem?-sub [] zero h = cc
get_elem?-sub [] (suc p) h = cc
get_elem?-sub (x ∷ bs) zero h = cc
get_elem?-sub (x ∷ bs) (suc p) h = get_elem?-sub bs p h

-- Equality of byte slices.
unfoldable pub eq_bytes : Bytes → Bytes → Bool
eq_bytes [] [] = true
eq_bytes (x ∷ xs) (y ∷ ys) = x == y && eq_bytes xs ys
eq_bytes _ _ = false

pub eq_bytes_iff : (a b : Bytes) → (eq_bytes a b ≡ true) ↔ (a ≡ b)
unfolding eq_bytes
eq_bytes_iff (x ∷ a) (y ∷ b) = ground (arith, eq_bytes_iff a b)
eq_bytes_iff _ _ = ground arith

pub eq_bytes_refl : (a : Bytes) → eq_bytes a a ≡ true
eq_bytes_refl a = (eq_bytes_iff a a).1 refl

pub index-ne-panic : (bs : Bytes) (p : ℕ) → p < length bs → index bs p ≢ panic
index-ne-panic bs p h = let (b, e) = index_lt bs p h in rw e (λ q. cc)

some_eq : {a b : ℕ} → some a ≡ some b → a ≡ b
some_eq h = cc

pub get_elem?-IsByte :
    (bs : Bytes) (p : ℕ) {b : ℕ} → All IsByte bs → get_elem? bs p ≡ some b → IsByte b
get_elem?-IsByte [] p h e = cc
get_elem?-IsByte (x ∷ bs) zero h e = omega (arith, h.0, some_eq e)
get_elem?-IsByte (x ∷ bs) (suc p) h e = get_elem?-IsByte bs p h.1 e

-- Zeros are read as zeros.
pub sub-replicate : (m q n : ℕ) → q + n ≤ m → sub (replicate m 0) q n ≡ replicate n 0
unfolding sub
sub-replicate zero zero zero h = refl
sub-replicate zero zero (suc n) h = absurd (omega arith)
sub-replicate zero (suc q) n h = absurd (omega arith)
sub-replicate (suc m) zero zero h = refl
sub-replicate (suc m) zero (suc n) h = ap (◌∷◌ 0) (sub-replicate m zero n (omega arith))
sub-replicate (suc m) (suc q) n h = sub-replicate m q n (omega arith)
