-- ===== src/Bytes/Le.antt =====
-- Little-endian integers of `n` bytes.
use oxih.Base.{
  ℕ, zero, suc, ◌+◌, ◌*◌, ◌/◌, ◌%◌, ◌^◌, ◌<◌, ◌≡◌, refl, ap, List, [], ◌∷◌, arith, length, All, ◌≤◌,
}
use native.Mathlib.Nat.{pow-suc}

abbrev pub Bytes : Type 0
Bytes = List ℕ

abbrev pub IsByte : ℕ → Type 0
IsByte b = b < 256

-- `v.to_le_bytes()` of an `n`-byte integer.
abbrev pub le_bytes : ℕ → ℕ → Bytes
le_bytes zero v = []
le_bytes (suc n) v = (v % 256) ∷ le_bytes n (v / 256)

-- `from_le_bytes`
abbrev pub from_le : Bytes → ℕ
from_le [] = 0
from_le (b ∷ bs) = b + 256 * from_le bs

pub length-le_bytes : (n v : ℕ) → length (le_bytes n v) ≡ n
length-le_bytes zero v = refl
length-le_bytes (suc n) v = ap suc (length-le_bytes n (v / 256))

pub le_bytes-IsByte : (n v : ℕ) → All IsByte (le_bytes n v)
le_bytes-IsByte zero v = tt
le_bytes-IsByte (suc n) v = (omega arith, le_bytes-IsByte n (v / 256))

pub from_le-le_bytes : (n v : ℕ) → v < 256 ^ n → from_le (le_bytes n v) ≡ v
from_le-le_bytes zero v h = omega arith
from_le-le_bytes (suc n) v h =
    omega (arith, from_le-le_bytes n (v / 256) (omega (arith, pow-suc 256 n)))

pub le_bytes-from_le : (bs : Bytes) → All IsByte bs → le_bytes (length bs) (from_le bs) ≡ bs
le_bytes-from_le [] h = refl
le_bytes-from_le (b ∷ bs) (hb, hs) =
    cc (low, ap (le_bytes (length bs)) high, le_bytes-from_le bs hs)
  where
    low : (b + 256 * from_le bs) % 256 ≡ b
    low = omega arith

    high : (b + 256 * from_le bs) / 256 ≡ from_le bs
    high = omega arith

pub from_le-lt : (bs : Bytes) → All IsByte bs → from_le bs < 256 ^ length bs
from_le-lt [] h = omega arith
from_le-lt (b ∷ bs) (hb, hs) = omega (arith, from_le-lt bs hs, pow-suc 256 (length bs))

pub from_le-lt_le : (n : ℕ) (bs : Bytes) → length bs ≤ n → All IsByte bs → from_le bs < 256 ^ n
from_le-lt_le zero [] k h = omega arith
from_le-lt_le zero (b ∷ bs) k h = absurd (omega arith)
from_le-lt_le (suc n) [] k h = omega (arith, from_le-lt_le n [] (omega arith) tt, pow-suc 256 n)
from_le-lt_le (suc n) (b ∷ bs) k (hb, hs) =
    omega (arith, from_le-lt_le n bs (omega arith) hs, pow-suc 256 n)
