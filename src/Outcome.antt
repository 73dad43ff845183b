-- ===== src/Outcome.antt =====
-- Results of the fallible code: `OxiH5Error` (crates/oxih5-core/src/lib.rs) without its message
-- texts, and `Outcome`, which adds a panic to Rust's `Result`: an index or slice out of range, or an
-- arithmetic overflow.
use oxih.Base.{
  ℕ, ◌+◌, ◌*◌, ◌^◌, ◌≡◌, refl, ◌≢◌, Bool, true, false, Option, none, some, ltb, leb, ◌-◌,
  if◌then◌else◌, ◌⊎◌, inl, inr, ap,
}

pub data Error : Type 0 where
  io bad_signature not_found type_mismatch data_truncated : Error
  not_implemented format unsupported_filter corrupted : Error
  unsupported_superblock unsupported_header unsupported_datatype unsupported_layout : ℕ → Error

pub data Outcome {ℓ} (A : Type ℓ) : Type ℓ where
  ok : A → Outcome A
  err : Error → Outcome A
  panic : Outcome A

-- Sequencing: what stops a chain is passed on.
infixl 5 ◌>>=◌ ◌>>◌
abbrev pub ◌>>=◌ {ℓ₁ ℓ₂} : {A : Type ℓ₁} {C : Type ℓ₂} → Outcome A → (A → Outcome C) → Outcome C
panic >>= next = panic
err cause >>= next = err cause
ok value >>= next = next value

abbrev pub ◌>>◌ {ℓ₂} : {C : Type ℓ₂} → Outcome (Unit {0}) → Outcome C → Outcome C
first >> second = first >>= (λ done. second)

-- `if !cond { return Err(e) }`
abbrev pub guard : Bool → Error → Outcome (Unit {0})
guard true e = ok tt
guard false e = err e

-- `assert!`-like: what the code relies on and does not check.
abbrev pub require : Bool → Outcome (Unit {0})
require true = ok tt
require false = panic

-- `o.ok_or_else(|| e)`
abbrev pub ok_or {ℓ} : {A : Type ℓ} → Option A → Error → Outcome A
ok_or none e = err e
ok_or (some a) e = ok a

-- A panic where the code unwraps or indexes.
abbrev pub unwrap {ℓ} : {A : Type ℓ} → Option A → Outcome A
unwrap none = panic
unwrap (some a) = ok a

abbrev pub map_ok {ℓ κ} : {A : Type ℓ} {B : Type κ} → (A → B) → Outcome A → Outcome B
map_ok f m = m >>= λ a. ok (f a)

-- `usize` and `u64` have 64 bits.
abbrev pub word : ℕ
word = 2 ^ 64

abbrev pub checked_add : ℕ → ℕ → Option ℕ
checked_add a b = if ltb (a + b) word then some (a + b) else none

abbrev pub checked_mul : ℕ → ℕ → Option ℕ
checked_mul a b = if ltb (a * b) word then some (a * b) else none

-- Unchecked `a + b` and `a * b`: an overflow panics.
abbrev pub add_usize : ℕ → ℕ → Outcome ℕ
add_usize a b = unwrap (checked_add a b)

abbrev pub mul_usize : ℕ → ℕ → Outcome ℕ
mul_usize a b = unwrap (checked_mul a b)

-- Unchecked `a - b`: an underflow panics.
abbrev pub sub_usize : ℕ → ℕ → Outcome ℕ
sub_usize a b = if leb b a then ok (a - b) else panic

-- A chain that succeeds went through a success of its first part.
pub >>=-eq-ok {ℓ₁ ℓ₂} :
    {A : Type ℓ₁} {C : Type ℓ₂} (first : Outcome A) (next : A → Outcome C) {result : C}
    → (first >>= next) ≡ ok result
    → (value : A) × (first ≡ ok value) × (next value ≡ ok result)
>>=-eq-ok panic next stopped = cc
>>=-eq-ok (err cause) next stopped = cc
>>=-eq-ok (ok value) next rest = (value, refl, rest)

-- A chain panics only where a part of it does.
pub >>=-ne-panic {ℓ κ} :
    {A : Type ℓ} {B : Type κ} (m : Outcome A) (f : A → Outcome B)
    → m ≢ panic
    → ((a : A) → m ≡ ok a → f a ≢ panic)
    → (m >>= f) ≢ panic
>>=-ne-panic (ok a) f h k = k a refl
>>=-ne-panic (err e) f h k = λ p. cc
>>=-ne-panic panic f h k = absurd (h refl)

pub bind_ok {ℓ} : {A : Type ℓ} (m : Outcome A) → (m >>= λ a. ok a) ≡ m
bind_ok (ok a) = refl
bind_ok (err e) = refl
bind_ok panic = refl

pub bind_assoc {ℓ κ μ} :
    {A : Type ℓ} {B : Type κ} {C : Type μ} (m : Outcome A) (f : A → Outcome B) (g : B → Outcome C)
    → ((m >>= f) >>= g) ≡ (m >>= λ a. f a >>= g)
bind_assoc (ok a) f g = refl
bind_assoc (err e) f g = refl
bind_assoc panic f g = refl

pub Outcome-cases {ℓ} :
    {A : Type ℓ} (m : Outcome A)
    → ((a : A) × (m ≡ ok a)) ⊎ ((e : Error) × (m ≡ err e)) ⊎ (m ≡ panic)
Outcome-cases (ok a) = inl (a, refl)
Outcome-cases (err e) = inr (inl (e, refl))
Outcome-cases panic = inr (inr refl)

pub ok_eq {ℓ} : {A : Type ℓ} {a b : A} → ok a ≡ ok b → a ≡ b
ok_eq h = cc

pub unwrap_eq {ℓ} : {A : Type ℓ} (o : Option A) {a : A} → unwrap o ≡ ok a → o ≡ some a
unwrap_eq none h = cc
unwrap_eq (some b) h = ap some (ok_eq h)
