-- ===== src/Group.antt =====
-- Old-style groups, crates/oxih5-format/src/group.rs: a B-tree over symbol table nodes, and a
-- local heap with the names.
pub mod Listing
pub mod Laws
use oxih.Base.{
  ℕ, ◌+◌, ◌-◌, ◌≡◌, List, [], ◌∷◌, ◌++◌, Option, none, some, true, false, not, length, ◌==◌,
  if◌then◌else◌,
}
use oxih.Bytes.{Bytes, eq_bytes}
use oxih.Outcome.{Outcome, ok, err, panic, ◌>>=◌, ◌>>◌, format, not_found, not_implemented, word}
use oxih.LocalHeap
use oxih.LocalHeap.{LocalHeap}
use oxih.Snod
use oxih.Snod.{SymTabCache, SymTabEntry}
use oxih.GroupBtree

pub data SymTabLink : Type 0 where
  hard : ℕ → SymTabLink
  soft : Bytes → SymTabLink

-- The match on the cache of an entry.
unfoldable pub cache_to_link : SymTabCache → ℕ → LocalHeap → Outcome SymTabLink
cache_to_link (SymTabCache.soft_link link_value_offset) address local_heap = do
  target ← LocalHeap.name_at local_heap link_value_offset
  ok (soft target)
cache_to_link _ address local_heap = if address == (word - 1) then err format else ok (hard address)

unfoldable pub entry_to_link : SymTabEntry → LocalHeap → Outcome SymTabLink
unfolding cache_to_link
entry_to_link entry local_heap = cache_to_link entry.cache entry.object_header_address local_heap

-- `for leaf_addr in &tree.leaf_addresses { for entry in snod::parse(..)? { .. } }`: the loop of the
-- three walks, over what each does with an entry. `Step` ends it early with a value.
pub data Step (A B : Type 0) : Type 0 where
  next : A → Step A B
  done : B → Step A B

unfoldable pub walk_entries :
    {A B : Type 0}
    → (A → SymTabEntry → Outcome (Step A B))
    → A
    → List SymTabEntry
    → Outcome (Step A B)
walk_entries body acc [] = ok (next acc)
walk_entries body acc (entry ∷ entries) = do
  step ← body acc entry
  elim step [ next acc' ↦ walk_entries body acc' entries | done r ↦ ok (done r) ]

unfoldable pub walk_leaves :
    {A B : Type 0}
    → (A → SymTabEntry → Outcome (Step A B))
    → Bytes
    → A
    → List ℕ
    → Outcome (Step A B)
unfolding walk_entries
walk_leaves body file acc [] = ok (next acc)
walk_leaves body file acc (leaf ∷ leaves) = do
  entries ← Snod.parse file leaf
  step ← walk_entries body acc entries
  elim step [ next acc' ↦ walk_leaves body file acc' leaves | done r ↦ ok (done r) ]

-- The loop body of `list_datasets`.
unfoldable pub push_name :
    LocalHeap → List Bytes → SymTabEntry → Outcome (Step (List Bytes) (List Bytes))
push_name local_heap names entry = do
  name ← LocalHeap.name_at local_heap entry.name_offset
  ok (next (if eq_bytes name [] then names else names ++ (name ∷ [])))

-- What a walk that never ends early has gathered.
abbrev gathered : {A : Type 0} → Step A A → A
gathered (next a) = a
gathered (done a) = a

unfoldable pub list_datasets : Bytes → ℕ → ℕ → Outcome (List Bytes)
unfolding walk_leaves push_name
list_datasets file btree_address heap_address = do
  local_heap ← LocalHeap.parse file heap_address
  leaves ← GroupBtree.parse file btree_address
  step ← walk_leaves (push_name local_heap) file [] leaves
  ok (gathered step)

-- `trim_start_matches('/')`
unfoldable pub trim_slashes : Bytes → Bytes
trim_slashes [] = []
trim_slashes (b ∷ bs) = let rest = trim_slashes bs in if b == b'/' then rest else b ∷ bs

-- The loop body of `find_entry`.
unfoldable pub match_entry :
    LocalHeap → Bytes → Unit {0} → SymTabEntry → Outcome (Step (Unit {0}) SymTabLink)
match_entry local_heap target acc entry = do
  entry_name ← LocalHeap.name_at local_heap entry.name_offset
  if eq_bytes entry_name target
      then (do link ← entry_to_link entry local_heap; ok (done link))
      else ok (next acc)

abbrev found : Step (Unit {0}) SymTabLink → Outcome SymTabLink
found (next _) = err not_found
found (done link) = ok link

unfoldable pub find_entry : Bytes → ℕ → ℕ → Bytes → Outcome SymTabLink
unfolding walk_leaves match_entry trim_slashes
find_entry file btree_address heap_address name = do
  local_heap ← LocalHeap.parse file heap_address
  leaves ← GroupBtree.parse file btree_address
  step ← walk_leaves (match_entry local_heap (trim_slashes name)) file tt leaves
  found step

-- The loop body of `list_entries`: an entry whose link cannot be decoded is left out. A panic is
-- no `Err`, and is passed on.
abbrev keep_link :
    List (Bytes × SymTabLink)
    → Bytes
    → Outcome SymTabLink
    → Outcome (Step (List (Bytes × SymTabLink)) (List (Bytes × SymTabLink)))
keep_link out name (ok link) = ok (next (out ++ ((name, link) ∷ [])))
keep_link out name (err e) = ok (next out)
keep_link out name panic = panic

unfoldable pub push_entry :
    LocalHeap
    → List (Bytes × SymTabLink)
    → SymTabEntry
    → Outcome (Step (List (Bytes × SymTabLink)) (List (Bytes × SymTabLink)))
push_entry local_heap out entry = do
  name ← LocalHeap.name_at local_heap entry.name_offset
  if eq_bytes name [] then ok (next out) else keep_link out name (entry_to_link entry local_heap)

unfoldable pub list_entries : Bytes → ℕ → ℕ → Outcome (List (Bytes × SymTabLink))
unfolding walk_leaves push_entry
list_entries file btree_address heap_address = do
  local_heap ← LocalHeap.parse file heap_address
  leaves ← GroupBtree.parse file btree_address
  step ← walk_leaves (push_entry local_heap) file [] leaves
  ok (gathered step)

abbrev hard_only : SymTabLink → Outcome ℕ
hard_only (hard address) = ok address
hard_only (soft target) = err not_implemented

unfoldable pub find_dataset : Bytes → ℕ → ℕ → Bytes → Outcome ℕ
find_dataset file btree_address heap_address name = do
  link ← find_entry file btree_address heap_address name
  hard_only link
