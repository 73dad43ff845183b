-- ===== src/Format/SnodFields.antt =====
-- The fields of a symbol table entry, and what `parse_entry` reads of them.
use oxih.Base.{ℕ, ◌+◌, ◌-◌, ◌^◌, ◌<◌, ◌≤◌, ◌≡◌, refl, ◌∙◌, [], ◌∷◌, arith, length}
use oxih.Bytes.{Bytes, le_bytes, sub, Writes, read_le_field}
use oxih.Outcome.{ok, word}
use oxih.Snod.{SymTabCache, SymTabEntry, parse_entry, parse_cache}
use oxih.Format.{SnodValue, SnodEntry, object, group, soft_link}

-- The entry that the parser should see.
abbrev pub cache_of : SnodValue → SymTabCache
cache_of (object oh_addr) = SymTabCache.uncached
cache_of (group oh_addr btree_addr heap_addr) = SymTabCache.group btree_addr heap_addr
cache_of (soft_link link_value_offset) = SymTabCache.soft_link link_value_offset

abbrev pub address_of : SnodValue → ℕ
address_of (object oh_addr) = oh_addr
address_of (group oh_addr btree_addr heap_addr) = oh_addr
address_of (soft_link link_value_offset) = word - 1

abbrev pub read_back : SnodEntry → SymTabEntry
read_back entry = record {
  name_offset = entry.name_offset;
  object_header_address = address_of entry.value;
  cache = cache_of entry.value;
}

-- The values fit their fields.
abbrev pub ValueFits : SnodValue → Type 0
ValueFits (object oh_addr) = oh_addr < word
ValueFits (group oh_addr btree_addr heap_addr) =
    (oh_addr < word) × (btree_addr < word) × (heap_addr < word)
ValueFits (soft_link link_value_offset) = link_value_offset < 2 ^ 32

abbrev pub EntryFits : SnodEntry → Type 0
EntryFits entry = (entry.name_offset < word) × ValueFits entry.value

abbrev type_of : SnodValue → ℕ
type_of (object oh_addr) = 0
type_of (group oh_addr btree_addr heap_addr) = 1
type_of (soft_link link_value_offset) = 2

abbrev pub value_writes : SnodValue → Writes
value_writes (object oh_addr) = (8, le_bytes 8 oh_addr) ∷ []
value_writes (group oh_addr btree_addr heap_addr) =
    (8, le_bytes 8 oh_addr)
    ∷ (16, le_bytes 4 1)
    ∷ (20, le_bytes 4 0)
    ∷ (24, le_bytes 8 btree_addr)
    ∷ (32, le_bytes 8 heap_addr)
    ∷ []
value_writes (soft_link link_value_offset) =
    (8, le_bytes 8 (word - 1))
    ∷ (16, le_bytes 4 2)
    ∷ (20, le_bytes 4 0)
    ∷ (24, le_bytes 4 link_value_offset)
    ∷ []

abbrev pub entry_writes : SnodEntry → Writes
entry_writes entry = (0, le_bytes 8 entry.name_offset) ∷ value_writes entry.value

-- The fields of an entry at `ste`.
abbrev ScratchShows : Bytes → ℕ → SnodValue → Type 0
ScratchShows file ste (object oh_addr) = Unit
ScratchShows file ste (group oh_addr btree_addr heap_addr) =
    (sub file (ste + 24) 8 ≡ le_bytes 8 btree_addr) × (sub file (ste + 32) 8 ≡ le_bytes 8 heap_addr)
ScratchShows file ste (soft_link link_value_offset) =
    sub file (ste + 24) 4 ≡ le_bytes 4 link_value_offset

pub record Shows (file : Bytes) (ste : ℕ) (entry : SnodEntry) : Type 0 where
  pub name_is : sub file ste 8 ≡ le_bytes 8 entry.name_offset
  pub address_is : sub file (ste + 8) 8 ≡ le_bytes 8 (address_of entry.value)
  pub type_is : sub file (ste + 16) 4 ≡ le_bytes 4 (type_of entry.value)
  pub scratch_is : ScratchShows file ste entry.value

-- The two buffers hold the same bytes at the entry.
abbrev pub Agree : Bytes → Bytes → ℕ → Type 0
Agree file old ste = (p n : ℕ) → ste ≤ p → p + n ≤ ste + 40 → sub file p n ≡ sub old p n

Scratch-Agree :
    (file old : Bytes) (ste : ℕ) (value : SnodValue)
    → Agree file old ste
    → ScratchShows old ste value
    → ScratchShows file ste value
Scratch-Agree file old ste (object a) same s = tt
Scratch-Agree file old ste (group a b c) same s = (
  same (ste + 24) 8 (omega arith) (omega arith) ∙ s.0,
  same (ste + 32) 8 (omega arith) (omega arith) ∙ s.1,
)
Scratch-Agree file old ste (soft_link a) same s = same (ste + 24) 4 (omega arith) (omega arith) ∙ s

pub Shows-Agree :
    (file old : Bytes) (ste : ℕ) (entry : SnodEntry)
    → Agree file old ste
    → Shows old ste entry
    → Shows file ste entry
Shows-Agree file old ste entry same s = record {
  name_is = same ste 8 (omega arith) (omega arith) ∙ s.name_is;
  address_is = same (ste + 8) 8 (omega arith) (omega arith) ∙ s.address_is;
  type_is = same (ste + 16) 4 (omega arith) (omega arith) ∙ s.type_is;
  scratch_is = Scratch-Agree file old ste entry.value same s.scratch_is;
}

type_of-lt : (value : SnodValue) → type_of value < 256 ^ 4
type_of-lt (object a) = omega arith
type_of-lt (group a b c) = omega arith
type_of-lt (soft_link a) = omega arith

address_of-lt : (value : SnodValue) → ValueFits value → address_of value < word
address_of-lt (object a) f = f
address_of-lt (group a b c) f = f.0
address_of-lt (soft_link a) f = omega arith

parse_cache-shows :
    (file : Bytes) (ste : ℕ) (value : SnodValue)
    → ste + 40 ≤ length file
    → length file < word
    → ValueFits value
    → ScratchShows file ste value
    → parse_cache file ste (type_of value) ≡ ok (cache_of value)
unfolding parse_cache
parse_cache-shows file ste (object a) long small f s = refl
parse_cache-shows file ste (group a b c) long small f s = rw (
  read_le_field 8 file (ste + 24) b small (omega arith) s.0 f.1,
  read_le_field 8 file (ste + 32) c small (omega arith) s.1 f.2,
)
parse_cache-shows file ste (soft_link a) long small f s =
    rw (read_le_field 4 file (ste + 24) a small (omega arith) s (omega arith))

pub parse_entry-Shows :
    (file : Bytes) (ste : ℕ) (entry : SnodEntry)
    → ste + 40 ≤ length file
    → length file < word
    → EntryFits entry
    → Shows file ste entry
    → parse_entry file ste ≡ ok (read_back entry)
unfolding parse_entry
parse_entry-Shows file ste entry long small f s =
    rw
      (
        read_le_field 8 file ste entry.name_offset small (omega arith) s.name_is f.0,
        read_le_field 8 file (ste + 8) (address_of entry.value) small (omega arith) s.address_is
            (address_of-lt entry.value f.1),
        read_le_field 4 file (ste + 16) (type_of entry.value) small (omega arith) s.type_is
            (type_of-lt entry.value),
      )
      (rw (parse_cache-shows file ste entry.value long small f.1 s.scratch_is))
