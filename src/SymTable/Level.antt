-- ===== src/SymTable/Level.antt =====
-- One level of the B-tree: its nodes stand in the file, and make a forest of what they are given.
use oxih.Base.{
  ℕ, suc, ◌+◌, ◌*◌, ◌<◌, ◌≤◌, ◌≡◌, refl, ◌∙◌, ap, List, [], ◌∷◌, arith, length, ◌⊎◌, inl, inr, All,
}
use oxih.Bytes.{Bytes, sub}
use oxih.Outcome.{ok, word}
use oxih.GroupBtree.Laws.{NodeAt}
use oxih.SymTable.{Written, write_nodes, left_of, right_of, closing_key}
use oxih.SymTable.Node.{Addresses, ChildrenAt-Agree, write_node_lem}

NodeAt-Agree :
    (file mid : Bytes) (addr level : ℕ) (children : List ℕ)
    → length file ≡ length mid
    → addr + 544 ≤ length mid
    → length children ≤ 32
    → ((p n : ℕ) → addr ≤ p → p + n ≤ addr + 544 → sub file p n ≡ sub mid p n)
    → NodeAt mid addr level children
    → NodeAt file addr level children
NodeAt-Agree file mid addr level children same long short agree node = record {
  defined = node.defined;
  fits = omega (arith, same, node.fits);
  signed = agree addr 4 (omega arith) (omega arith) ∙ node.signed;
  of_group = agree (addr + 4) 1 (omega arith) (omega arith) ∙ node.of_group;
  level_is = agree (addr + 5) 1 (omega arith) (omega arith) ∙ node.level_is;
  count_is = agree (addr + 6) 2 (omega arith) (omega arith) ∙ node.count_is;
  few = node.few;
  children_are =
      ChildrenAt-Agree file mid (addr + 24 + 8) children same
        (λ p n lo hi. agree p n (omega arith) (omega arith)) (node.children_are);
}

-- Pieces of a level's children with as many keys.
abbrev pub Paired : List (List ℕ) → List (List ℕ) → Type 0
Paired [] [] = Unit
Paired (addrs ∷ addr_chunks) (keys ∷ key_chunks) =
    (length addrs ≡ length keys)
    × (length addrs ≤ 32)
    × Addresses addrs
    × Paired addr_chunks key_chunks
Paired _ _ = ⊥

-- At each address a node over the piece of that place.
abbrev pub NodesAt : Bytes → ℕ → List ℕ → List (List ℕ) → Type 0
NodesAt file level [] [] = Unit
NodesAt file level (addr ∷ addrs) (children ∷ pieces) =
    NodeAt file addr level children
    × (length children ≤ 32)
    × (addr + 544 ≤ length file)
    × NodesAt file level addrs pieces
NodesAt file level _ _ = ⊥

pub NodesAt-Agree :
    (file mid : Bytes) (level lo hi : ℕ) (addrs : List ℕ) (pieces : List (List ℕ))
    → length file ≡ length mid
    → ((p n : ℕ) → lo ≤ p → p + n ≤ hi → sub file p n ≡ sub mid p n)
    → All (λ a. (lo ≤ a) × (a + 544 ≤ hi)) addrs
    → NodesAt mid level addrs pieces
    → NodesAt file level addrs pieces
NodesAt-Agree file mid level lo hi [] [] same agree all h = tt
NodesAt-Agree file mid level lo hi [] (c ∷ pieces) same agree all h = absurd h
NodesAt-Agree file mid level lo hi (a ∷ addrs) [] same agree all h = absurd h
NodesAt-Agree file mid level lo hi (a ∷ addrs) (c ∷ pieces) same agree ((low, high), all)
      (node, few, fits, nodes) =
    (
      NodeAt-Agree file mid a level c same fits few
          (λ p n x y. agree p n (omega arith) (omega arith)) node,
      few,
      omega (arith, fits, same),
      NodesAt-Agree file mid level lo hi addrs pieces same agree all nodes,
    )

pub record WritesNodes (level base n_nodes i : ℕ) (addr_chunks key_chunks : List (List ℕ))
    (buf : Bytes) (done : Written) : Type 0 where
  pub ran : write_nodes level base n_nodes i addr_chunks key_chunks buf ≡ ok done
  pub same_length : length (done.buf) ≡ length buf
  pub counted : done.wrote ≡ length addr_chunks * 544
  pub outside :
      (p n : ℕ)
      → (p + n ≤ base + i * 544) ⊎ (base + (i + length addr_chunks) * 544 ≤ p)
      → sub (done.buf) p n ≡ sub buf p n
  pub nodes : NodesAt (done.buf) level (done.next_addrs) addr_chunks
  pub placed :
      All
        (λ a. (base + i * 544 ≤ a) × (a + 544 ≤ base + (i + length addr_chunks) * 544))
        (done.next_addrs)
  pub first :
      (length addr_chunks ≡ 0) ⊎ ((more : List ℕ) × (done.next_addrs ≡ (base + i * 544) ∷ more))
  pub n_addrs : length (done.next_addrs) ≡ length addr_chunks
  pub n_keys : length (done.next_keys) ≡ length addr_chunks

pub widen :
    (lo mid hi top : ℕ) (addrs : List ℕ)
    → lo ≤ mid
    → hi ≡ top
    → All (λ a. (mid ≤ a) × (a + 544 ≤ hi)) addrs
    → All (λ a. (lo ≤ a) × (a + 544 ≤ top)) addrs
widen lo mid hi top [] h k all = tt
widen lo mid hi top (a ∷ addrs) h k ((x, y), all) =
    ((omega arith, omega arith), widen lo mid hi top addrs h k all)

pub write_nodes_lem :
    (level base n_nodes i : ℕ) (addr_chunks key_chunks : List (List ℕ)) (buf : Bytes)
    → level < 256
    → Paired addr_chunks key_chunks
    → base + (i + length addr_chunks) * 544 ≤ length buf
    → length buf < word
    → (done : Written) × WritesNodes level base n_nodes i addr_chunks key_chunks buf done
unfolding write_nodes
write_nodes_lem level base n_nodes i [] [] buf low pairs long small = (
  record { buf = buf; wrote = 0; next_addrs = []; next_keys = [] },
  record {
    ran = refl;
    same_length = refl;
    counted = omega arith;
    outside = λ p n side. refl;
    nodes = tt;
    placed = tt;
    first = inl refl;
    n_addrs = refl;
    n_keys = refl;
  },
)
write_nodes_lem level base n_nodes i [] (k ∷ key_chunks) buf low pairs long small = absurd pairs
write_nodes_lem level base n_nodes i (a ∷ addr_chunks) [] buf low pairs long small = absurd pairs
write_nodes_lem level base n_nodes i (a ∷ addr_chunks) (k ∷ key_chunks) buf low
      (same, few, addresses, pairs) long small =
    let addr = base + i * 544 in
    let (mid, one) =
      write_node_lem buf addr level (left_of i addr) (right_of i n_nodes addr) a k same few low
        (omega arith) small addresses in
    let (rest, later) =
      write_nodes_lem level base n_nodes (i + 1) addr_chunks key_chunks mid low pairs
        (omega (arith, one.same_length)) (omega (arith, one.same_length)) in
    let last : base + (i + 1 + length addr_chunks) * 544
        ≡ base + (i + length (a ∷ addr_chunks)) * 544 =
      omega arith in
    (
      record rest {
        wrote = 544 + rest.wrote;
        next_addrs = addr ∷ rest.next_addrs;
        next_keys = closing_key k ∷ rest.next_keys;
      },
      record {
        ran = rw (one.wrote) (rw (later.ran) refl);
        same_length = later.same_length ∙ one.same_length;
        counted = omega (arith, later.counted);
        outside = λ p n side. later.outside p n (omega arith) ∙ one.outside p n (omega arith);
        nodes = (
          NodeAt-Agree (rest.buf) mid addr level a (later.same_length)
              (omega (arith, one.same_length)) few
              (λ p n x y. later.outside p n (inl (omega arith))) (one.node),
          few,
          omega (arith, later.same_length, one.same_length),
          later.nodes,
        );
        placed = (
          (omega arith, omega arith),
          widen (base + i * 544) (base + (i + 1) * 544) (base + (i + 1 + length addr_chunks) * 544)
              (base + (i + length (a ∷ addr_chunks)) * 544) (rest.next_addrs) (omega arith) last
              (later.placed),
        );
        first = inr (rest.next_addrs, refl);
        n_addrs = ap suc (later.n_addrs);
        n_keys = ap suc (later.n_keys);
      },
    )
