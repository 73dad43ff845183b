-- ===== src/Snod.antt =====
-- Symbol table nodes, crates/oxih5-format/src/snod.rs.
use oxih.Base.{
  ℕ, zero, suc, ◌+◌, ◌-◌, List, [], ◌∷◌, Option, none, some, Bool, true, false, not, ◌&&◌, length,
  leb, ◌==◌, if◌then◌else◌,
}
use oxih.Bytes.{Bytes, index_range, index, eq_bytes, read_u64_le, read_u32_le, read_u16_le}
use oxih.Outcome.{
  Outcome, ok, guard, ok_or, checked_add, checked_mul, ◌>>=◌, ◌>>◌, format, corrupted, word,
}

pub data SymTabCache : Type 0 where
  uncached : SymTabCache
  group : ℕ → ℕ → SymTabCache
  soft_link : ℕ → SymTabCache
  unknown : ℕ → SymTabCache

pub record SymTabEntry : Type 0 where
  pub name_offset : ℕ
  pub object_header_address : ℕ
  pub cache : SymTabCache

unfoldable pub link_value_of : SymTabCache → Option ℕ
link_value_of (soft_link link_value_offset) = some link_value_offset
link_value_of _ = none

unfoldable pub soft_link_value_offset : SymTabEntry → Option ℕ
unfolding link_value_of
soft_link_value_offset entry = link_value_of entry.cache

unfoldable pub is_soft_link : SymTabCache → Bool
is_soft_link (soft_link _) = true
is_soft_link _ = false

unfoldable pub has_object_header : SymTabEntry → Bool
unfolding is_soft_link
has_object_header entry =
    not (entry.object_header_address == (word - 1)) && not (is_soft_link entry.cache)

abbrev pub snod_signature : Bytes
snod_signature = b'S' ∷ b'N' ∷ b'O' ∷ b'D' ∷ []

abbrev pub ste_size : ℕ
ste_size = 40

-- The match on the cache type of the entry at `e`.
unfoldable pub parse_cache : Bytes → ℕ → ℕ → Outcome SymTabCache
parse_cache file e cache_type =
    if cache_type == 0
    then ok uncached
    else if cache_type == 1
    then (do
      btree_address ← read_u64_le file (e + 24)
      heap_address ← read_u64_le file (e + 32)
      ok (group btree_address heap_address))
    else if cache_type == 2
    then (do link_value_offset ← read_u32_le file (e + 24); ok (soft_link link_value_offset))
    else ok (unknown cache_type)

unfoldable pub parse_entry : Bytes → ℕ → Outcome SymTabEntry
parse_entry file e = do
  name_offset ← read_u64_le file e
  object_header_address ← read_u64_le file (e + 8)
  cache_type ← read_u32_le file (e + 16)
  cache ← parse_cache file e cache_type
  ok (record {
    name_offset = name_offset;
    object_header_address = object_header_address;
    cache = cache;
  })

-- The loop over the `n` entries from `e` on.
unfoldable pub parse_entries : Bytes → ℕ → ℕ → Outcome (List SymTabEntry)
parse_entries file zero e = ok []
parse_entries file (suc n) e = do
  entry ← parse_entry file e
  entries ← parse_entries file n (e + ste_size)
  ok (entry ∷ entries)

unfoldable pub parse : Bytes → ℕ → Outcome (List SymTabEntry)
parse file snod_address = do
  off8 ← ok_or (checked_add snod_address 8) corrupted
  guard (leb off8 (length file)) format
  signature ← index_range file snod_address 4
  guard (eq_bytes signature snod_signature) format
  version ← index file (snod_address + 4)
  guard (version == 1) format
  num_symbols ← read_u16_le file (snod_address + 6)
  entries_size ← ok_or (checked_mul num_symbols ste_size) corrupted
  required_end ← ok_or (checked_add off8 entries_size) corrupted
  guard (leb required_end (length file)) format
  parse_entries file num_symbols off8
