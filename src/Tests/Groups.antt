-- ===== src/Tests/Groups.antt =====
-- An old-style group of one dataset: heap, B-tree and symbol table node in one file.
use oxih.Base.{
  ℕ, ◌+◌, ◌≡◌, ◌≢◌, refl, [], ◌∷◌, ◌++◌, none, some, true, arith, replicate, All, get_elem?, ◌-◌,
}
use oxih.Bytes.{Bytes, le_bytes, sub, eq_bytes, read_le}
use oxih.Outcome.{ok, err, panic, word, not_found}
use oxih.LocalHeap
use oxih.LocalHeap.{name_at, nul_position, LocalHeap, heap_signature}
use oxih.LocalHeap.Laws.{parse_returns, name_at_inv, name_at_found}
use oxih.Utf8.{is_utf8}
use oxih.Snod
use oxih.Snod.{snod_signature, parse_entries, parse_entry, parse_cache}
use oxih.GroupBtree
use oxih.GroupBtree.{tree_signature, collect_leaves, collect_node, collect_children, collect_child}
use oxih.GroupBtree.Laws.{TreeAt, parse-TreeAt, parse_overflow}
use oxih.Group.{
  SymTabLink, list_entries, find_entry, walk_leaves, walk_entries, push_entry, entry_to_link,
  cache_to_link, trim_slashes,
}
use oxih.Group.Listing.{lookup}
use oxih.Group.Laws.{find_entry-list_entries}

-- A heap at 0 with its segment at 32, which holds the name "a" at 8.
abbrev heap_part : Bytes
heap_part =
    heap_signature
    ++ (replicate 4 0
        ++ (le_bytes 8 16
            ++ (le_bytes 8 1 ++ (le_bytes 8 32 ++ (replicate 8 0 ++ (b'a' ∷ replicate 7 0))))))

-- A leaf node at 48 with one child, the symbol table node at 96.
abbrev tree_part : Bytes
tree_part = tree_signature ++ (0 ∷ 0 ∷ 1 ∷ 0 ∷ (replicate 24 0 ++ (le_bytes 8 96 ++ replicate 8 0)))

abbrev snod_part : Bytes
snod_part =
    snod_signature ++ (1 ∷ 0 ∷ 1 ∷ 0 ∷ (le_bytes 8 8 ++ (le_bytes 8 1024 ++ replicate 24 0)))

abbrev file : Bytes
file = heap_part ++ (tree_part ++ snod_part)

listed : list_entries file 48 0 ≡ ok ((b'a' ∷ [], SymTabLink.hard 1024) ∷ [])
unfolding list_entries LocalHeap.parse GroupBtree.parse collect_leaves collect_node collect_children
    collect_child walk_leaves walk_entries push_entry entry_to_link cache_to_link Snod.parse
    parse_entries parse_entry parse_cache name_at nul_position is_utf8 sub eq_bytes read_le
listed = refl

find_example :
    ((link : SymTabLink)
      → find_entry file 48 0 (b'/' ∷ b'a' ∷ []) ≡ ok link
      → lookup (b'a' ∷ []) ((b'a' ∷ [], SymTabLink.hard 1024) ∷ []) ≡ some link)
    × (find_entry file 48 0 (b'/' ∷ b'a' ∷ []) ≡ err not_found
        → lookup (b'a' ∷ []) ((b'a' ∷ [], SymTabLink.hard 1024) ∷ []) ≡ none)
unfolding trim_slashes
find_example = find_entry-list_entries file 48 0 (b'/' ∷ b'a' ∷ []) _ listed (λ e. cc e)

tree : TreeAt file 65 48 (96 ∷ [])
unfolding sub
tree =
    TreeAt.bottom {children = 96 ∷ []}
      (record {
        defined = λ e. absurd (omega (arith, e));
        fits = omega arith;
        signed = refl;
        of_group = refl;
        level_is = refl;
        count_is = refl;
        few = omega arith;
        children_are = (omega arith, omega arith, refl, tt);
      })
      refl

tree_example : GroupBtree.parse file 48 ≡ ok (96 ∷ [])
tree_example = parse-TreeAt file 48 (96 ∷ []) (omega arith) tree

overflow_example : GroupBtree.parse file (word - 2) ≡ panic
overflow_example = parse_overflow file (word - 2) (omega arith) (omega arith)

heap_returns_example : LocalHeap.parse file 0 ≢ panic
heap_returns_example = parse_returns file 0 (omega arith)

utf8_name : is_utf8 (b'a' ∷ []) ≡ true
unfolding is_utf8
utf8_name = refl

name_found_example :
    name_at (record { segment = replicate 8 0 ++ ((b'a' ∷ []) ++ (0 ∷ [])) }) 8 ≡ ok (b'a' ∷ [])
name_found_example =
    name_at_found (replicate 8 0) (b'a' ∷ []) [] ((λ e. absurd (omega (arith, e))), tt) utf8_name

name_some_example :
    (is_utf8 (b'a' ∷ []) ≡ true)
    × All (λ (b : ℕ). b ≢ 0) (b'a' ∷ [])
    × (sub (replicate {A = ℕ} 8 0 ++ ((b'a' ∷ []) ++ (0 ∷ []))) 8 1 ≡ b'a' ∷ [])
    × (get_elem? {A = ℕ} (replicate 8 0 ++ ((b'a' ∷ []) ++ (0 ∷ []))) (8 + 1) ≡ some 0)
name_some_example =
    name_at_inv (record { segment = replicate 8 0 ++ ((b'a' ∷ []) ++ (0 ∷ [])) }) 8 (b'a' ∷ [])
      name_found_example
