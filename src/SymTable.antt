-- ===== src/SymTable.antt =====
-- The writer's symbol table of a group, crates/oxih5/src/write/btree_v1.rs: how many B-tree nodes
-- each level has, where they stand, and the nodes. The entries of a group go into leaves of eight.
pub mod Plan
pub mod Chunks
pub mod Level
pub mod Forest
pub mod OneLevel
pub mod Levels
pub mod Leaves
pub mod RoundTrip
pub mod Node
use oxih.Base.{
  ℕ, zero, suc, ◌+◌, ◌-◌, ◌*◌, ◌/◌, ◌%◌, ◌^◌, List, [], ◌∷◌, ◌++◌, Bool, true, false, not, ◌&&◌,
  ◌==◌, length, ltb, leb, max, take, drop, if◌then◌else◌,
}
use oxih.Bytes.{Bytes, put, fill_zero}
use oxih.Outcome.{Outcome, ok, err, guard, format, mul_usize, add_usize, ◌>>=◌, ◌>>◌, word}
use oxih.GroupBtree.{undefined_addr, tree_signature}
use oxih.Format.{
  SnodEntry, narrow, write_snod, write_u8, write_u16_le, write_u64_le, snod_max_entries, snod_size,
  group_internal_k,
}

abbrev pub group_node_max_children : ℕ
group_node_max_children = 2 * group_internal_k

abbrev pub node_prefix : ℕ
node_prefix = 24

abbrev pub key_size : ℕ
key_size = 8

abbrev pub child_size : ℕ
child_size = 8

abbrev pub group_node_size : ℕ
group_node_size = node_prefix + key_size + group_node_max_children * (child_size + key_size)

abbrev pub max_levels : ℕ
max_levels = 8

abbrev pub max_group_links : ℕ
max_group_links = 2 ^ 24

-- `n.div_ceil(size)` of a size that is not 0.
abbrev pub div_up : ℕ → ℕ → ℕ
div_up n size = if n % size == 0 then n / size else n / size + 1

-- The loop that adds levels on top of a level of `nodes`, with room for so many.
unfoldable pub more_levels : ℕ → ℕ → Outcome (List ℕ)
more_levels zero nodes = if leb nodes 1 then ok [] else err format
more_levels (suc room) nodes = if leb nodes 1 then ok [] else (do
  levels ← more_levels room (div_up nodes group_node_max_children)
  ok (div_up nodes group_node_max_children ∷ levels))

unfoldable pub plan_levels : ℕ → Outcome (List ℕ)
plan_levels n_snods = do
  let nodes = div_up (max n_snods 1) group_node_max_children
  levels ← more_levels (max_levels - 1) nodes
  ok (nodes ∷ levels)

pub record SymTable : Type 0 where
  pub n_links : ℕ
  pub n_snods : ℕ
  pub levels : List ℕ
  pub level_addr : List ℕ
  pub root_addr : ℕ
  pub snod_base : ℕ

abbrev pub zeros_for : List ℕ → List ℕ
zeros_for [] = []
zeros_for (count ∷ levels) = 0 ∷ zeros_for levels

unfoldable pub plan : ℕ → Outcome SymTable
plan n_links = do
  guard (leb n_links max_group_links) format
  let n_snods = max (div_up n_links snod_max_entries) 1
  levels ← plan_levels n_snods
  ok (record {
    n_links = n_links;
    n_snods = n_snods;
    levels = levels;
    level_addr = zeros_for levels;
    root_addr = 0;
    snod_base = 0;
  })

-- `levels.iter().sum()`
abbrev pub sum_of : List ℕ → ℕ
sum_of [] = 0
sum_of (count ∷ levels) = count + sum_of levels

unfoldable pub btree_bytes : SymTable → Outcome ℕ
btree_bytes t = mul_usize (sum_of (t.levels)) group_node_size

unfoldable pub snod_bytes : SymTable → Outcome ℕ
snod_bytes t = mul_usize (t.n_snods) snod_size

-- The addresses of the levels, from `addr` on.
unfoldable pub level_addrs : ℕ → List ℕ → Outcome (List ℕ)
level_addrs addr [] = ok []
level_addrs addr (count ∷ levels) = do
  size ← mul_usize count group_node_size
  next ← add_usize addr size
  addrs ← level_addrs next levels
  ok (addr ∷ addrs)

-- `addrs.last().copied().unwrap_or(default)`
abbrev pub last_or : ℕ → List ℕ → ℕ
last_or default [] = default
last_or default (addr ∷ addrs) = last_or addr addrs

unfoldable pub assign : SymTable → ℕ → ℕ → Outcome SymTable
assign t btree_base snod_base = do
  addrs ← level_addrs btree_base (t.levels)
  ok (record t { level_addr = addrs; root_addr = last_or btree_base addrs; snod_base = snod_base })

-- `list.chunks(size)`, on fuel of the list's length.
unfoldable pub chunks_from {ℓ} : {A : Type ℓ} → ℕ → ℕ → List A → List (List A)
chunks_from zero size list = []
chunks_from (suc fuel) size [] = []
chunks_from (suc fuel) size (x ∷ list) =
    take size (x ∷ list) ∷ chunks_from fuel size (drop size (x ∷ list))

abbrev pub chunks {ℓ} : {A : Type ℓ} → ℕ → List A → List (List A)
chunks size list = chunks_from (length list) size list

-- The loop over a node's children, from the slot of the first on.
unfoldable pub write_children : Bytes → ℕ → List ℕ → List ℕ → Outcome Bytes
write_children buf slot [] keys = ok buf
write_children buf slot (child ∷ children) [] = ok buf
write_children buf slot (child ∷ children) (key ∷ keys) = do
  buf ← write_u64_le buf slot child
  buf ← write_u64_le buf (slot + child_size) key
  write_children buf (slot + (child_size + key_size)) children keys

unfoldable pub write_node : Bytes → ℕ → ℕ → ℕ → ℕ → List ℕ → List ℕ → Outcome (Bytes × ℕ)
write_node buf addr level left_sibling right_sibling children keys = do
  guard (leb (length children) group_node_max_children && length children == length keys) format
  buf ← fill_zero buf addr group_node_size
  buf ← put buf addr tree_signature
  buf ← write_u8 buf (addr + 4) 0x00
  level ← narrow 8 level
  buf ← write_u8 buf (addr + 5) level
  count ← narrow 16 (length children)
  buf ← write_u16_le buf (addr + 6) count
  buf ← write_u64_le buf (addr + 8) left_sibling
  buf ← write_u64_le buf (addr + 16) right_sibling
  buf ← write_u64_le buf (addr + node_prefix) 0
  buf ← write_children buf (addr + node_prefix + key_size) children keys
  ok (buf, group_node_size)

-- `keys.last().copied().unwrap_or(0)`
abbrev pub closing_key : List ℕ → ℕ
closing_key keys = last_or 0 keys

abbrev pub left_of : ℕ → ℕ → ℕ
left_of i addr = if i == 0 then undefined_addr else addr - group_node_size

abbrev pub right_of : ℕ → ℕ → ℕ → ℕ
right_of i n_nodes addr = if i + 1 == n_nodes then undefined_addr else addr + group_node_size

-- What a loop leaves: the buffer, the bytes written so far, and the children of the next level.
pub record Written : Type 0 where
  pub buf : Bytes
  pub wrote : ℕ
  pub next_addrs : List ℕ
  pub next_keys : List ℕ

-- The nodes of one level, from the `i`-th on.
unfoldable pub write_nodes : ℕ → ℕ → ℕ → ℕ → List (List ℕ) → List (List ℕ) → Bytes → Outcome Written
write_nodes level base n_nodes i [] key_chunks buf =
    ok (record { buf = buf; wrote = 0; next_addrs = []; next_keys = [] })
write_nodes level base n_nodes i (addrs ∷ addr_chunks) [] buf =
    ok (record { buf = buf; wrote = 0; next_addrs = []; next_keys = [] })
write_nodes level base n_nodes i (addrs ∷ addr_chunks) (keys ∷ key_chunks) buf = do
  let addr = base + i * group_node_size
  (buf, n) ← write_node buf addr level (left_of i addr) (right_of i n_nodes addr) addrs keys
  rest ← write_nodes level base n_nodes (i + 1) addr_chunks key_chunks buf
  ok (record rest {
    wrote = n + rest.wrote;
    next_addrs = addr ∷ rest.next_addrs;
    next_keys = closing_key keys ∷ rest.next_keys;
  })

-- The levels from `level` on, whose addresses are given.
unfoldable pub write_levels : ℕ → List ℕ → List ℕ → List ℕ → Bytes → Outcome (Bytes × ℕ)
write_levels level [] child_addrs child_keys buf = ok (buf, 0)
write_levels level (base ∷ bases) child_addrs child_keys buf = do
  done ←
      write_nodes level base (div_up (length child_addrs) group_node_max_children) 0
        (chunks group_node_max_children child_addrs) (chunks group_node_max_children child_keys) buf
  (buf, wrote) ← write_levels (level + 1) bases (done.next_addrs) (done.next_keys) (done.buf)
  ok (buf, done.wrote + wrote)

-- The name that closes a leaf.
abbrev pub closing_name : List SnodEntry → ℕ
closing_name [] = 0
closing_name (entry ∷ []) = entry.name_offset
closing_name (entry ∷ next ∷ entries) = closing_name (next ∷ entries)

-- The leaves, from the `i`-th on.
unfoldable pub write_snods : ℕ → ℕ → List (List SnodEntry) → Bytes → Outcome Written
write_snods base i [] buf = ok (record { buf = buf; wrote = 0; next_addrs = []; next_keys = [] })
write_snods base i (chunk ∷ leaves) buf = do
  let addr = base + i * snod_size
  (buf, n) ← write_snod buf addr chunk
  rest ← write_snods base (i + 1) leaves buf
  ok (record rest {
    wrote = n + rest.wrote;
    next_addrs = addr ∷ rest.next_addrs;
    next_keys = closing_name chunk ∷ rest.next_keys;
  })

-- An empty group has one empty leaf.
abbrev pub leaves_of : List SnodEntry → List (List SnodEntry)
leaves_of [] = [] ∷ []
leaves_of (entry ∷ entries) = chunks snod_max_entries (entry ∷ entries)

unfoldable pub write : SymTable → Bytes → List SnodEntry → Outcome (Bytes × ℕ)
write t buf entries = do
  guard (length entries == t.n_links) format
  done ← write_snods (t.snod_base) 0 (leaves_of entries) buf
  (buf, wrote) ← write_levels 0 (t.level_addr) (done.next_addrs) (done.next_keys) (done.buf)
  ok (buf, done.wrote + wrote)
