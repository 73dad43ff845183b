-- ===== src/Filters/Pipeline/Laws.antt =====
-- Masked filters.
use oxih.Base.{
  ℕ, ◌+◌, ◌≤◌, ◌≡◌, refl, [], ◌∷◌, List, Option, length, true, arith, ◌/◌, ◌%◌, ◌^◌, false, ltb,
  lt→ltb, if◌then◌else◌, ◌==◌, Bool-cases, inl, inr,
}
use native.Mathlib.Nat.{zero-div}
use oxih.Bytes.{Bytes}
use oxih.Filters.Pipeline.{apply_one_inverse, undo_from, apply_pipeline_sized, is_masked}
use oxih.Outcome.{Outcome, ok, err, ◌>>=◌}
use oxih.Filters.Codecs.{Codecs, FilterInfo}

-- The filters of a list whose bit the mask does not have: the bit of the filter at place `i` of the
-- whole list is the one of weight `2 ^ i`, and `i` is `idx` for the first one here.
abbrev pub kept : ℕ → ℕ → List FilterInfo → List FilterInfo
kept idx mask [] = []
kept idx mask (filter ∷ filters) =
    if mask / 2 ^ idx % 2 == 1
    then kept (idx + 1) mask filters
    else filter ∷ kept (idx + 1) mask filters

pub unmasked : (idx : ℕ) → is_masked 0 idx ≡ false
unmasked idx = rw (zero-div (2 ^ idx)) (ground arith)

-- Without a mask, the place at which a list of filters stands does not matter.
undo_from_anywhere :
    (codecs : Codecs) (filters : List FilterInfo) (i j elem_size : ℕ) (expected : Option ℕ)
    (raw : Bytes)
    → undo_from codecs filters i 0 elem_size expected raw
      ≡ undo_from codecs filters j 0 elem_size expected raw
unfolding undo_from
undo_from_anywhere codecs [] i j elem_size expected raw = refl
undo_from_anywhere codecs (f ∷ filters) i j elem_size expected raw =
    rw
      (
        undo_from_anywhere codecs filters (i + 1) (j + 1) elem_size expected raw,
        unmasked i,
        unmasked j,
      )
      refl

undo_from-kept :
    (codecs : Codecs) (filters : List FilterInfo) (idx mask elem_size : ℕ) (expected : Option ℕ)
    (raw : Bytes)
    → idx + length filters ≤ 32
    → undo_from codecs filters idx mask elem_size expected raw
      ≡ undo_from codecs (kept idx mask filters) 0 0 elem_size expected raw
unfolding undo_from
undo_from-kept codecs [] idx mask elem_size expected raw h = refl
undo_from-kept codecs (f ∷ filters) idx mask elem_size expected raw h =
    let early : ltb idx 32 ≡ true = lt→ltb idx 32 (omega arith) in
    let rest = undo_from-kept codecs filters (idx + 1) mask elem_size expected raw (omega arith) in
    elim (Bool-cases (mask / 2 ^ idx % 2 == 1)) [
      | inl out ↦ rw (early, out, rest) (bind_ok _)
      | inr in_use ↦
          rw
            (
              early,
              in_use,
              rest,
              undo_from_anywhere codecs (kept (idx + 1) mask filters) 0 1 elem_size expected raw,
            )
            refl
    ]
  where
    bind_ok : (m : Outcome Bytes) → (m >>= λ b. ok b) ≡ m
    bind_ok (ok b) = refl
    bind_ok (err e) = refl
    bind_ok Outcome.panic = refl

-- Of at most 32 filters, under any mask, those are undone whose bit the mask does not have, where the
-- filter at place `i` of the list has the bit of weight `2 ^ i`: the result is that of the list of
-- these filters without a mask.
pub apply_pipeline_masked :
    (codecs : Codecs) (raw : Bytes) (filters : List FilterInfo) (mask elem_size : ℕ)
    (expected : Option ℕ)
    → length filters ≤ 32
    → apply_pipeline_sized codecs raw filters mask elem_size expected
      ≡ apply_pipeline_sized codecs raw (kept 0 mask filters) 0 elem_size expected
unfolding apply_pipeline_sized
apply_pipeline_masked codecs raw filters mask elem_size expected few =
    undo_from-kept codecs filters 0 mask elem_size expected raw (omega (arith, few))

-- A filter after the first 32 cannot be masked.
pub undo_from_late :
    (codecs : Codecs) (f : FilterInfo) (filters : List FilterInfo) (idx mask elem_size : ℕ)
    (expected : Option ℕ) (raw : Bytes)
    → 32 ≤ idx
    → undo_from codecs (f ∷ filters) idx mask elem_size expected raw ≡ (
        undo_from codecs filters (idx + 1) mask elem_size expected raw >>= λ bytes.
        apply_one_inverse codecs bytes f elem_size expected)
unfolding undo_from
undo_from_late codecs f filters idx mask elem_size expected raw h =
    let late : ltb idx 32 ≡ false = ground arith in rw late refl
