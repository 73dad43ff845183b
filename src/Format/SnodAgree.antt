-- ===== src/Format/SnodAgree.antt =====
-- Two buffers with the same bytes at a symbol table node's entries have the same entries.
use oxih.Base.{ℕ, zero, suc, ◌+◌, ◌*◌, ◌≤◌, ◌≡◌, refl, ap, arith, length}
use mathlib.Core.Path.{fun_ext}
use oxih.Bytes.{Bytes, sub, read_le}
use oxih.Outcome.{Outcome, ok, ◌>>=◌}
use oxih.Snod.{SymTabCache, SymTabEntry, parse_cache, parse_entry, parse_entries}

abbrev pub SameFrom : Bytes → Bytes → ℕ → ℕ → Type 0
SameFrom later file lo size =
    (length later ≡ length file)
    × ((p n : ℕ) → lo ≤ p → p + n ≤ lo + size → sub later p n ≡ sub file p n)

read_le_same :
    (later file : Bytes) (n p : ℕ)
    → length later ≡ length file
    → sub later p n ≡ sub file p n
    → read_le n later p ≡ read_le n file p
unfolding read_le
read_le_same later file n p len bytes = rw (len, bytes) refl

parse_cache_same :
    (later file : Bytes) (e cache_type : ℕ)
    → SameFrom later file e 40
    → parse_cache later e cache_type ≡ parse_cache file e cache_type
unfolding parse_cache
parse_cache_same later file e cache_type (len, same) =
    rw
      (
        read_le_same later file 8 (e + 24) len (same (e + 24) 8 (omega arith) (omega arith)),
        read_le_same later file 8 (e + 32) len (same (e + 32) 8 (omega arith) (omega arith)),
        read_le_same later file 4 (e + 24) len (same (e + 24) 4 (omega arith) (omega arith)),
      )
      refl

parse_entry_same :
    (later file : Bytes) (e : ℕ)
    → SameFrom later file e 40
    → parse_entry later e ≡ parse_entry file e
unfolding parse_entry
parse_entry_same later file e (len, same) =
    let caches : (λ t. parse_cache later e t) ≡ (λ t. parse_cache file e t) =
      fun_ext (λ t. parse_cache_same later file e t (len, same)) in
    rw
      (
        read_le_same later file 8 e len (same e 8 (omega arith) (omega arith)),
        read_le_same later file 8 (e + 8) len (same (e + 8) 8 (omega arith) (omega arith)),
        read_le_same later file 4 (e + 16) len (same (e + 16) 4 (omega arith) (omega arith)),
      )
      (ap (with_caches (read_le 8 file e) (read_le 8 file (e + 8)) (read_le 4 file (e + 16)))
        caches)
  where
    with_caches :
        Outcome ℕ → Outcome ℕ → Outcome ℕ → (ℕ → Outcome SymTabCache) → Outcome SymTabEntry
    with_caches names headers types caches = do
      name_offset ← names
      object_header_address ← headers
      cache_type ← types
      cache ← caches cache_type
      ok (record {
        name_offset = name_offset;
        object_header_address = object_header_address;
        cache = cache;
      })

pub parse_entries_same :
    (later file : Bytes) (n e : ℕ)
    → SameFrom later file e (40 * n)
    → parse_entries later n e ≡ parse_entries file n e
unfolding parse_entries
parse_entries_same later file zero e same = refl
parse_entries_same later file (suc n) e (len, same) =
    rw
      (
        parse_entry_same later file e (len, λ p k lo hi. same p k lo (omega arith)),
        parse_entries_same later file n (e + 40)
            (len, λ p k lo hi. same p k (omega arith) (omega arith)),
      )
      refl
