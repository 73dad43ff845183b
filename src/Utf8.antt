-- ===== src/Utf8.antt =====
-- `std::str::from_utf8`, as the parsers of names use it: the byte sequences of Unicode's table of
-- well-formed UTF-8. A `&str` is its list of bytes.
use oxih.Base.{
  ℕ, zero, suc, ◌<◌, ◌≡◌, refl, [], ◌∷◌, Bool, true, false, ◌&&◌, Option, none, some, arith, ltb,
  leb, ◌==◌, if◌then◌else◌, All,
}
use oxih.Bytes.{Bytes}

abbrev within : ℕ → ℕ → ℕ → Bool
within lo hi b = leb lo b && leb b hi

-- How many bytes follow a lead byte, and the range of the first of them.
utf8_lead : ℕ → Option (ℕ × ℕ × ℕ)
utf8_lead a =
    if ltb a 0x80
    then some (0, 0x80, 0xbf)
    else if within 0xc2 0xdf a
    then some (1, 0x80, 0xbf)
    else if a == 0xe0
    then some (2, 0xa0, 0xbf)
    else if a == 0xed
    then some (2, 0x80, 0x9f)
    else if within 0xe1 0xef a
    then some (2, 0x80, 0xbf)
    else if a == 0xf0
    then some (3, 0x90, 0xbf)
    else if within 0xf1 0xf3 a
    then some (3, 0x80, 0xbf)
    else if a == 0xf4
    then some (3, 0x80, 0x8f)
    else none

-- `k` more bytes of a character are due, the next one from `lo` to `hi`.
utf8_from : ℕ → ℕ → ℕ → Bytes → Bool
utf8_from zero lo hi [] = true
utf8_from (suc k) lo hi [] = false
utf8_from zero lo hi (a ∷ r) = elim (utf8_lead a) [
  | none ↦ false
  | some (k, l, h) ↦ utf8_from k l h r
]
utf8_from (suc k) lo hi (a ∷ r) = within lo hi a && utf8_from k 0x80 0xbf r

unfoldable pub is_utf8 : Bytes → Bool
unfolding utf8_from utf8_lead
is_utf8 = utf8_from 0 0x80 0xbf

pub is_utf8_ascii : (bs : Bytes) → All (λ b. b < 128) bs → is_utf8 bs ≡ true
unfolding is_utf8
is_utf8_ascii [] h = refl
is_utf8_ascii (b ∷ bs) (hb, hs) = ground (arith, is_utf8_ascii bs hs)
