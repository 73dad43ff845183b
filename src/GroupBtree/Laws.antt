-- ===== src/GroupBtree/Laws.antt =====
-- The walk over a group's B-tree against the tree that the file holds.
use oxih.Base.{
  ℕ, suc, ◌+◌, ◌^◌, ◌<◌, ◌≤◌, ◌≡◌, ◌≢◌, refl, sym, ◌∙◌, ap, List, [], ◌∷◌, ◌++◌, arith, length,
  lt→ltb, le→ltb, le→leb, ◌==◌, if◌then◌else◌, false,
}
use oxih.Bytes.{Bytes, le_bytes, sub, eq_bytes_refl, read_le_field, index_field}
use oxih.Outcome.{Outcome, ok, panic, word}
use oxih.GroupBtree.{
  undefined_addr, tree_signature, collect_child, collect_children, collect_node, collect_leaves,
  parse,
}

-- The child fields at `at`, 16 bytes apart, hold these addresses.
abbrev pub ChildrenAt : Bytes → ℕ → List ℕ → Type 0
ChildrenAt file at [] = Unit
ChildrenAt file at (child ∷ children) =
    (at + 8 ≤ length file)
    × (child < word)
    × (sub file at 8 ≡ le_bytes 8 child)
    × ChildrenAt file (at + 16) children

-- A group node of a level, with its children, stands at `off`.
pub record NodeAt (file : Bytes) (off level : ℕ) (children : List ℕ) : Type 0 where
  pub defined : off ≢ undefined_addr
  pub fits : off + 24 ≤ length file
  pub signed : sub file off 4 ≡ tree_signature
  pub of_group : sub file (off + 4) 1 ≡ 0 ∷ []
  pub level_is : sub file (off + 5) 1 ≡ level ∷ []
  pub count_is : sub file (off + 6) 2 ≡ le_bytes 2 (length children)
  pub few : length children < 2 ^ 16
  pub children_are : ChildrenAt file (off + 24 + 8) children

-- The addresses that are not the undefined one.
abbrev pub present : List ℕ → List ℕ
present [] = []
present (a ∷ more) = (if a == undefined_addr then [] else a ∷ []) ++ present more

-- The file holds a tree of at most `height` levels at an address, with these leaf addresses from
-- left to right.
mutual
  pub data TreeAt (file : Bytes) : ℕ → ℕ → List ℕ → Type 0 where
    absent :
        {height address : ℕ} {leaves : List ℕ}
        → address ≡ undefined_addr
        → leaves ≡ []
        → TreeAt file (suc height) address leaves
    bottom :
        {height address : ℕ} {leaves children : List ℕ}
        → NodeAt file address 0 children
        → leaves ≡ present children
        → TreeAt file (suc height) address leaves
    inner :
        {height address level : ℕ} {leaves children : List ℕ}
        → NodeAt file address (suc level) children
        → ForestAt file height children leaves
        → TreeAt file (suc height) address leaves

  pub data ForestAt (file : Bytes) : ℕ → List ℕ → List ℕ → Type 0 where
    nil : {height : ℕ} {leaves : List ℕ} → leaves ≡ [] → ForestAt file height [] leaves
    cons :
        {height child : ℕ} {children found others leaves : List ℕ}
        → TreeAt file height child found
        → ForestAt file height children others
        → leaves ≡ found ++ others
        → ForestAt file height (child ∷ children) leaves

ne→==_false : (a b : ℕ) → a ≢ b → (a == b) ≡ false
ne→==_false a b h = ground arith

suc-ne-zero : (n : ℕ) → (suc n == 0) ≡ false
suc-ne-zero n = ground arith

collect_node-NodeAt :
    (descend : ℕ → Outcome (List ℕ)) (file : Bytes) (off level : ℕ) (children : List ℕ)
    → length file < word
    → NodeAt file off level children
    → collect_node descend file off
      ≡ collect_children descend file level (length children) (off + 24 + 8)
unfolding collect_node
collect_node-NodeAt descend file off level children small node =
    rw
      (
        lt→ltb (off + 24) word (omega (arith, node.fits)),
        le→leb (off + 24) (length file) node.fits,
        le→leb (off + 4) (length file) (omega (arith, node.fits)),
        node.signed,
        eq_bytes_refl tree_signature,
        index_field file (off + 4) 0 node.of_group,
      )
      (rw (
        index_field file (off + 5) level node.level_is,
        read_le_field 2 file (off + 6) (length children) small (omega (arith, node.fits))
            node.count_is (omega (arith, node.few)),
      ))

collect_children_bottom :
    (descend : ℕ → Outcome (List ℕ)) (file : Bytes) (children : List ℕ) (at : ℕ)
    → length file < word
    → ChildrenAt file at children
    → collect_children descend file 0 (length children) at ≡ ok (present children)
unfolding collect_children collect_child
collect_children_bottom descend file [] at small h = refl
collect_children_bottom descend file (child ∷ children) at small (fits, b, field, rest) = rw (
  le→leb (at + 8) (length file) fits,
  read_le_field 8 file at child small fits field b,
  collect_children_bottom descend file children (at + 16) small rest,
)

collect_children_step :
    (descend : ℕ → Outcome (List ℕ)) (file : Bytes) (level child : ℕ) (children : List ℕ) (at : ℕ)
    {found others : List ℕ}
    → length file < word
    → at + 8 ≤ length file
    → child < word
    → sub file at 8 ≡ le_bytes 8 child
    → descend child ≡ ok found
    → collect_children descend file (suc level) (length children) (at + 16) ≡ ok others
    → collect_children descend file (suc level) (length (child ∷ children)) at
      ≡ ok (found ++ others)
unfolding collect_children collect_child
collect_children_step descend file level child children at small fits b field here later =
    rw (le→leb (at + 8) (length file) fits, read_le_field 8 file at child small fits field b)
      (rw (suc-ne-zero level) (rw (here, later)))

mutual
  unfolding collect_leaves collect_children

  collect_leaves-TreeAt :
      (file : Bytes) {height address : ℕ} {leaves : List ℕ}
      → length file < word
      → TreeAt file height address leaves
      → collect_leaves height file address ≡ ok leaves
  collect_leaves-TreeAt file small (absent a e) = rw (a, e)
  collect_leaves-TreeAt file small (bottom {height} {address} {leaves} {children} node e) =
      rw (ne→==_false address undefined_addr node.defined) (
        collect_node-NodeAt (collect_leaves height file) file address 0 children small node
        ∙ collect_children_bottom (collect_leaves height file) file children (address + 24 + 8)
            small node.children_are
        ∙ ap ok (sym e))
  collect_leaves-TreeAt file small
        (inner {height} {address} {level} {leaves} {children} node forest) =
      rw (ne→==_false address undefined_addr node.defined) (
        collect_node-NodeAt (collect_leaves height file) file address (suc level) children small
          node
        ∙ collect_children-ForestAt file level (address + 24 + 8) small node.children_are forest)

  collect_children-ForestAt :
      (file : Bytes) (level : ℕ) {height : ℕ} {children leaves : List ℕ} (at : ℕ)
      → length file < word
      → ChildrenAt file at children
      → ForestAt file height children leaves
      → collect_children (collect_leaves height file) file (suc level) (length children) at
        ≡ ok leaves
  collect_children-ForestAt file level at small h (nil e) = ap ok (sym e)
  collect_children-ForestAt file level at small (fits, b, field, rest)
        (cons {height} {child} {children} {found} {others} tree forest e) =
      collect_children_step (collect_leaves height file) file level child children at small fits b
        field (collect_leaves-TreeAt file small tree)
        (collect_children-ForestAt file level (at + 16) small rest forest)
      ∙ ap ok (sym e)

-- In a file shorter than the address range, the walk returns the leaves of the tree that the file
-- holds, from left to right, for a tree of at most 65 levels.
pub parse-TreeAt :
    (file : Bytes) (address : ℕ) (leaves : List ℕ)
    → length file < word
    → TreeAt file 65 address leaves
    → parse file address ≡ ok leaves
unfolding parse
parse-TreeAt file address leaves small tree = collect_leaves-TreeAt file small tree

-- `off + 24` overflows for an address in the last 23 of the 64-bit range below the undefined
-- one, whatever the file holds.
pub parse_overflow :
    (file : Bytes) (address : ℕ)
    → word ≤ address + 24
    → address < undefined_addr
    → parse file address ≡ panic
unfolding parse collect_leaves collect_node
parse_overflow file address high defined =
    rw (ne→==_false address undefined_addr (λ e. omega arith), le→ltb (address + 24) word high)
