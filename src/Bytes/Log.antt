-- ===== src/Bytes/Log.antt =====
-- A structure is written field by field. `put_all base ws buf` makes the writes `ws` in turn, each
-- at its place behind `base`; `hit` and `misses` say, from the places alone, what a read sees.
use oxih.Base.{
  ℕ, ◌+◌, ◌-◌, ◌≤◌, ◌≡◌, refl, ◌∙◌, List, [], ◌∷◌, ◌⊎◌, inl, inr, Bool, true, false, ◌&&◌, ◌||◌,
  Option, none, some, arith, length, leb, leb→le, if◌then◌else◌, Bool-cases, All,
}
use oxih.Bytes.Le.{Bytes}
use oxih.Bytes.Slice.{sub}
use oxih.Bytes.Put.{
  put, put_ok, splice, length-splice, sub-splice_before, sub-splice_after, sub-splice_inside,
}
use oxih.Outcome.{Outcome, ok, ◌>>=◌}

abbrev pub Writes : Type 0
Writes = List (ℕ × Bytes)

abbrev pub put_all : ℕ → Writes → Bytes → Outcome Bytes
put_all base [] buf = ok buf
put_all base ((o, bs) ∷ ws) buf = put buf (base + o) bs >>= put_all base ws

-- The same with what follows the writes, as a `do` block has it.
abbrev pub put_then {ℓ} : {B : Type ℓ} → ℕ → Writes → (Bytes → Outcome B) → Bytes → Outcome B
put_then base [] k buf = k buf
put_then base ((o, bs) ∷ ws) k buf = put buf (base + o) bs >>= put_then base ws k

pub put_then_lem {ℓ} :
    {B : Type ℓ} (base : ℕ) (ws : Writes) (k : Bytes → Outcome B) (buf : Bytes)
    → put_then base ws k buf ≡ (put_all base ws buf >>= k)
put_then_lem base [] k buf = refl
put_then_lem base ((o, bs) ∷ ws) k buf =
    elim (Bool-cases (leb (base + o + length bs) (length buf))) [
      | inl e ↦ rw e (put_then_lem base ws k (splice buf (base + o) bs))
      | inr e ↦ rw e
    ]

abbrev apart : ℕ → Bytes → ℕ → ℕ → Bool
apart o bs p n = leb (p + n) o || leb (o + length bs) p

-- No write touches the read of `n` bytes at `p`.
abbrev pub misses : Writes → ℕ → ℕ → Bool
misses [] p n = true
misses ((o, bs) ∷ ws) p n = apart o bs p n && misses ws p n

-- What the read sees, where one write covers it and no later one touches it.
abbrev pub hit : Writes → ℕ → ℕ → Option Bytes
hit [] p n = none
hit ((o, bs) ∷ ws) p n =
    if misses ws p n && leb o p && leb (p + n) (o + length bs)
    then some (sub bs (p - o) n)
    else hit ws p n

-- Every write lies in the first `size` bytes behind the base.
abbrev pub Within : ℕ → Writes → Type 0
Within size ws = All (λ w. w.0 + length w.1 ≤ size) ws

put-eq-ok :
    (buf : Bytes) (o : ℕ) (bs : Bytes) (ws : Writes) (base : ℕ) {buf' : Bytes}
    → (put buf o bs >>= put_all base ws) ≡ ok buf'
    → (o + length bs ≤ length buf) × (put_all base ws (splice buf o bs) ≡ ok buf')
put-eq-ok buf o bs ws base h = elim (Bool-cases (leb (o + length bs) (length buf))) [
  | inl fits ↦ (leb→le _ _ fits, rw fits at h)
  | inr out ↦ absurd (cc (rw out at h))
]

pub length-put_all :
    (base : ℕ) (ws : Writes) (buf : Bytes) {buf' : Bytes}
    → put_all base ws buf ≡ ok buf'
    → length buf' ≡ length buf
length-put_all base [] buf h = cc
length-put_all base ((o, bs) ∷ ws) buf h =
    let (fits, rest) = put-eq-ok buf (base + o) bs ws base h in
    length-put_all base ws (splice buf (base + o) bs) rest ∙ length-splice buf (base + o) bs

pub put_all_total :
    (base size : ℕ) (ws : Writes) (buf : Bytes)
    → Within size ws
    → base + size ≤ length buf
    → (buf' : Bytes) × (put_all base ws buf ≡ ok buf')
put_all_total base size [] buf w h = (buf, refl)
put_all_total base size ((o, bs) ∷ ws) buf w h =
    let (buf', e) =
      put_all_total base size ws (splice buf (base + o) bs) w.1
        (omega (arith, length-splice buf (base + o) bs)) in
    (buf', rw (put_ok buf (base + o) bs (omega arith)) e)

sub-splice_off :
    (buf : Bytes) (base o : ℕ) (bs : Bytes) (p n : ℕ)
    → apart o bs p n ≡ true
    → sub (splice buf (base + o) bs) (base + p) n ≡ sub buf (base + p) n
sub-splice_off buf base o bs p n h = elim (Bool-cases (leb (p + n) o)) [
  | inl e ↦ sub-splice_before buf (base + o) bs (base + p) n (omega (arith, leb→le _ _ e))
  | inr e ↦
      sub-splice_after buf (base + o) bs (base + p) n
        (omega (arith, leb→le (o + length bs) p (rw e at h)))
]

&&-eq-true : (a b : Bool) → (a && b) ≡ true → (a ≡ true) × (b ≡ true)
&&-eq-true true b h = (refl, h)
&&-eq-true false b h = absurd (cc h)

pub put_all-misses :
    (base : ℕ) (ws : Writes) (buf : Bytes) {buf' : Bytes} (p n : ℕ)
    → put_all base ws buf ≡ ok buf'
    → misses ws p n ≡ true
    → sub buf' (base + p) n ≡ sub buf (base + p) n
put_all-misses base [] buf p n h m = cc
put_all-misses base ((o, bs) ∷ ws) buf p n h m =
    let (fits, rest) = put-eq-ok buf (base + o) bs ws base h in
    let (a, b) = &&-eq-true (apart o bs p n) (misses ws p n) m in
    put_all-misses base ws (splice buf (base + o) bs) p n rest b
    ∙ sub-splice_off buf base o bs p n a

some_eq : {a b : Bytes} → some a ≡ some b → a ≡ b
some_eq h = cc

-- A read that `hit` resolves sees exactly those bytes.
pub put_all-hit :
    (base : ℕ) (ws : Writes) (buf : Bytes) {buf' : Bytes} (p n : ℕ) {bs : Bytes}
    → put_all base ws buf ≡ ok buf'
    → hit ws p n ≡ some bs
    → sub buf' (base + p) n ≡ bs
put_all-hit base [] buf p n h m = absurd (cc m)
put_all-hit base ((o, bs) ∷ ws) buf p n h m =
    let (fits, rest) = put-eq-ok buf (base + o) bs ws base h in
    elim (Bool-cases (misses ws p n && leb o p && leb (p + n) (o + length bs))) [
      | inl e ↦
          let (ab, c) = &&-eq-true (misses ws p n && leb o p) (leb (p + n) (o + length bs)) e in
          let (a, b) = &&-eq-true (misses ws p n) (leb o p) ab in
          let lo = leb→le o p b in
          let hi = leb→le (p + n) (o + length bs) c in
          put_all-misses base ws (splice buf (base + o) bs) p n rest a
          ∙ sub-splice_inside buf (base + o) bs (base + p) n fits (omega arith) (omega arith)
          ∙ (let q : base + p - (base + o) ≡ p - o = omega arith in rw q (some_eq (rw e at m)))
      | inr e ↦ put_all-hit base ws (splice buf (base + o) bs) p n rest (rw e at m)
    ]

-- Nothing outside the structure changes.
pub put_all_outside :
    (base size : ℕ) (ws : Writes) (buf : Bytes) {buf' : Bytes} (p n : ℕ)
    → put_all base ws buf ≡ ok buf'
    → Within size ws
    → (p + n ≤ base) ⊎ (base + size ≤ p)
    → sub buf' p n ≡ sub buf p n
put_all_outside base size [] buf p n h w side = cc
put_all_outside base size ((o, bs) ∷ ws) buf p n h w side =
    let (fits, rest) = put-eq-ok buf (base + o) bs ws base h in
    put_all_outside base size ws (splice buf (base + o) bs) p n rest w.1 side ∙ elim side [
      | inl before ↦ sub-splice_before buf (base + o) bs p n (omega arith)
      | inr after ↦ sub-splice_after buf (base + o) bs p n (omega arith)
    ]
