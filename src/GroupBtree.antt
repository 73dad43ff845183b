-- ===== src/GroupBtree.antt =====
-- Version-1 B-trees of groups, crates/oxih5-format/src/btree.rs.
pub mod Laws
use oxih.Base.{
  ℕ, zero, suc, ◌+◌, ◌-◌, ◌*◌, ◌≡◌, List, [], ◌∷◌, ◌++◌, true, false, not, length, ltb, leb, ◌==◌,
  if◌then◌else◌,
}
use oxih.Bytes.{Bytes, index_range, index, eq_bytes, read_u64_le, read_u16_le}
use oxih.Outcome.{Outcome, ok, err, guard, add_usize, ◌>>=◌, ◌>>◌, format, word}

abbrev pub undefined_addr : ℕ
undefined_addr = word - 1

abbrev pub tree_signature : Bytes
tree_signature = b'T' ∷ b'R' ∷ b'E' ∷ b'E' ∷ []

-- What one child adds: a leaf node's child is a SNOD address, an internal node's is descended.
unfoldable pub collect_child : (ℕ → Outcome (List ℕ)) → ℕ → ℕ → Outcome (List ℕ)
collect_child descend level child_addr =
    if level == 0
    then ok (if child_addr == undefined_addr then [] else child_addr ∷ [])
    else descend child_addr

-- The loop over the `n` children whose fields stand at `at`, 16 bytes apart.
unfoldable pub collect_children : (ℕ → Outcome (List ℕ)) → Bytes → ℕ → ℕ → ℕ → Outcome (List ℕ)
collect_children descend file level zero at = ok []
collect_children descend file level (suc n) at = do
  guard (leb (at + 8) (length file)) format
  child_addr ← read_u64_le file at
  found ← collect_child descend level child_addr
  others ← collect_children descend file level n (at + 16)
  ok (found ++ others)

-- The body of `collect_leaves` at a defined address.
unfoldable pub collect_node : (ℕ → Outcome (List ℕ)) → Bytes → ℕ → Outcome (List ℕ)
collect_node descend file off = do
  header_end ← add_usize off 24
  guard (leb header_end (length file)) format
  signature ← index_range file off 4
  guard (eq_bytes signature tree_signature) format
  node_type ← index file (off + 4)
  guard (node_type == 0) format
  level ← index file (off + 5)
  entries_used ← read_u16_le file (off + 6)
  collect_children descend file level entries_used (off + 24 + 8)

-- The first argument is 65 less the depth: past depth 64 the walk is refused.
unfoldable pub collect_leaves : ℕ → Bytes → ℕ → Outcome (List ℕ)
collect_leaves zero file node_address = err format
collect_leaves (suc more) file node_address =
    if node_address == undefined_addr
    then ok []
    else collect_node (collect_leaves more file) file node_address

-- The leaf addresses of the tree.
unfoldable pub parse : Bytes → ℕ → Outcome (List ℕ)
parse file btree_address = collect_leaves 65 file btree_address
