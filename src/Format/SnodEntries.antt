-- ===== src/Format/SnodEntries.antt =====
-- The entries of a symbol table node: what `write_entries` leaves in a zeroed node, `parse_entries`
-- reads back.
use oxih.Base.{
  ℕ, ◌+◌, ◌*◌, ◌<◌, ◌≤◌, ◌≡◌, refl, sym, ◌∙◌, List, [], ◌∷◌, map, some, arith, length, replicate,
  ◌⊎◌, inl, inr, All,
}
use oxih.Bytes.{
  Bytes, le_bytes, sub, put_all, put_all_total, put_all-hit, put_all-misses, length-put_all,
  put_all_outside, hit, put, Within,
}
use oxih.Outcome.{ok, ◌>>=◌, word, bind_ok, bind_assoc}
use oxih.Snod.{parse_entries}
use oxih.Format.{SnodValue, SnodEntry, object, group, soft_link, write_value, write_entries}
use oxih.Format.SnodFields.{
  read_back, EntryFits, value_writes, entry_writes, Shows, Agree, Shows-Agree, parse_entry-Shows,
}

write_value-put_all :
    (buf : Bytes) (ste : ℕ) (value : SnodValue)
    → write_value buf ste value ≡ put_all ste (value_writes value) buf
unfolding write_value
write_value-put_all buf ste (object a) = sym (bind_ok (put buf (ste + 8) (le_bytes 8 a)))
write_value-put_all buf ste (group a b c) = simp bind_ok
write_value-put_all buf ste (soft_link a) = simp bind_ok

write_entries-cons :
    (buf : Bytes) (ste : ℕ) (entry : SnodEntry) (entries : List SnodEntry)
    → write_entries buf ste (entry ∷ entries)
      ≡ (put_all ste (entry_writes entry) buf >>= λ b. write_entries b (ste + 40) entries)
unfolding write_entries
write_entries-cons buf ste entry entries =
    let e : ste + 0 ≡ ste = omega arith in simp (write_value-put_all, e, bind_assoc)

-- The 4-byte fields of a range hold zeros.
abbrev pub Zeroed : Bytes → ℕ → ℕ → Type 0
Zeroed buf ste size = (p : ℕ) → ste ≤ p → p + 4 ≤ ste + size → sub buf p 4 ≡ replicate 4 0

entry-Within : (entry : SnodEntry) → Within 40 (entry_writes entry)
entry-Within entry = value_case entry.value
  where
    value_case : (value : SnodValue) → (8 ≤ 40) × Within 40 (value_writes value)
    value_case (object a) = omega arith
    value_case (group a b c) = omega arith
    value_case (soft_link a) = omega arith

module _ (buf file : Bytes) (ste name : ℕ) (zeros : sub buf (ste + 16) 4 ≡ replicate 4 0) where
  name_see :
      (value : SnodValue)
      (done : put_all ste ((0, le_bytes 8 name) ∷ value_writes value) buf ≡ ok file)
      → hit ((0, le_bytes 8 name) ∷ value_writes value) 0 8 ≡ some (le_bytes 8 name)
      → sub file ste 8 ≡ le_bytes 8 name
  name_see value done h =
      let e : ste + 0 ≡ ste = omega arith in
      rw e at (put_all-hit ste ((0, le_bytes 8 name) ∷ value_writes value) buf 0 8 done h)

  value-Shows :
      (value : SnodValue)
      → put_all ste ((0, le_bytes 8 name) ∷ value_writes value) buf ≡ ok file
      → Shows file ste (record { name_offset = name; value = value })
  unfolding sub
  value-Shows (object a) done =
      let ws = (0, le_bytes 8 name) ∷ value_writes (object a) in
      record {
        name_is = name_see (object a) done refl;
        address_is = put_all-hit ste ws buf 8 8 done refl;
        type_is = put_all-misses ste ws buf 16 4 done refl ∙ zeros;
        scratch_is = tt;
      }
  value-Shows (group a b c) done =
      let ws = (0, le_bytes 8 name) ∷ value_writes (group a b c) in
      record {
        name_is = name_see (group a b c) done refl;
        address_is = put_all-hit ste ws buf 8 8 done refl;
        type_is = put_all-hit ste ws buf 16 4 done refl;
        scratch_is = (put_all-hit ste ws buf 24 8 done refl, put_all-hit ste ws buf 32 8 done refl);
      }
  value-Shows (soft_link a) done =
      let ws = (0, le_bytes 8 name) ∷ value_writes (soft_link a) in
      record {
        name_is = name_see (soft_link a) done refl;
        address_is = put_all-hit ste ws buf 8 8 done refl;
        type_is = put_all-hit ste ws buf 16 4 done refl;
        scratch_is = put_all-hit ste ws buf 24 4 done refl;
      }

pub record WritesEntries (buf : Bytes) (ste : ℕ) (entries : List SnodEntry) (file : Bytes)
    : Type 0 where
  pub wrote : write_entries buf ste entries ≡ ok file
  pub same_length : length file ≡ length buf
  pub outside :
      (p n : ℕ) → (p + n ≤ ste) ⊎ (ste + 40 * length entries ≤ p) → sub file p n ≡ sub buf p n
  pub read : parse_entries file (length entries) ste ≡ ok (map read_back entries)

-- The loop writes every entry that fits, reads back what it wrote, and touches nothing else.
pub write_entries_lem :
    (entries : List SnodEntry) (buf : Bytes) (ste : ℕ)
    → ste + 40 * length entries ≤ length buf
    → length buf < word
    → All EntryFits entries
    → Zeroed buf ste (40 * length entries)
    → (file : Bytes) × WritesEntries buf ste entries file
unfolding write_entries parse_entries
write_entries_lem [] buf ste long small fits zeros =
    (buf, record { wrote = refl; same_length = refl; outside = λ p n side. refl; read = refl })
write_entries_lem (entry ∷ entries) buf ste long small (fit, fits) zeros =
    let ws = entry_writes entry in
    let (mid, wrote) = put_all_total ste 40 ws buf (entry-Within entry) (omega arith) in
    let same = length-put_all ste ws buf wrote in
    let kept : (p n : ℕ) → (p + n ≤ ste) ⊎ (ste + 40 ≤ p) → sub mid p n ≡ sub buf p n =
      λ p n side. put_all_outside ste 40 ws buf p n wrote (entry-Within entry) side in
    let (file, later) =
      write_entries_lem entries mid (ste + 40) (omega arith) (omega arith) fits
        (λ p lo hi. kept p 4 (inr lo) ∙ zeros p (omega arith) (omega arith)) in
    let shown =
      value-Shows buf mid ste entry.name_offset (zeros (ste + 16) (omega arith) (omega arith))
        entry.value wrote in
    let kept_entry : Agree file mid ste = λ p n lo hi. later.outside p n (inl hi) in
    let parsed =
      parse_entry-Shows file ste entry (omega (arith, later.same_length))
        (omega (arith, later.same_length)) fit (Shows-Agree file mid ste entry kept_entry shown) in
    (
      file,
      record {
        wrote = write_entries-cons buf ste entry entries ∙ rw wrote later.wrote;
        same_length = later.same_length ∙ same;
        outside = λ p n side. later.outside p n (omega arith) ∙ kept p n (omega arith);
        read = rw (parsed, later.read);
      },
    )
