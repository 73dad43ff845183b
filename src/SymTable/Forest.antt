-- ===== src/SymTable/Forest.antt =====
-- The nodes of a level make a forest of what they stand on.
use oxih.Base.{
  ℕ, zero, suc, ◌≡◌, refl, sym, ◌∙◌, ap, List, [], ◌∷◌, ◌++◌, append_assoc, if◌then◌else◌, ◌==◌,
  subst,
}
use oxih.Bytes.{Bytes}
use oxih.GroupBtree.{undefined_addr}
use oxih.GroupBtree.Laws.{TreeAt, ForestAt, present}
use oxih.SymTable.Chunks.{concat}
use oxih.SymTable.Level.{NodesAt}

-- A forest of a level's children is split where the level's nodes split them.
ForestAt-append :
    (file : Bytes) (height : ℕ) (xs ys : List ℕ) {leaves : List ℕ}
    → ForestAt file height (xs ++ ys) leaves
    → (low : List ℕ) × (high : List ℕ) × ForestAt file height xs low
      × ForestAt file height ys high
      × (leaves ≡ low ++ high)
ForestAt-append file height [] ys {leaves} forest = ([], leaves, ForestAt.nil refl, forest, refl)
ForestAt-append file height (x ∷ xs) ys {leaves} (ForestAt.cons {found = found} tree forest e) =
    let (low, high, one, two, split) = ForestAt-append file height xs ys forest in
    (
      found ++ low,
      high,
      ForestAt.cons tree one refl,
      two,
      e ∙ ap (λ o. found ++ o) split ∙ sym (append_assoc found low high),
    )

-- Nodes over the pieces of a forest make a forest that is one level higher.
NodesAt-ForestAt :
    (file : Bytes) (height level : ℕ) (addrs : List ℕ) (pieces : List (List ℕ)) {leaves : List ℕ}
    → NodesAt file (suc level) addrs pieces
    → ForestAt file height (concat pieces) leaves
    → ForestAt file (suc height) addrs leaves
NodesAt-ForestAt file height level [] [] nodes (ForestAt.nil e) = ForestAt.nil e
NodesAt-ForestAt file height level [] (c ∷ pieces) nodes forest = absurd nodes
NodesAt-ForestAt file height level (a ∷ addrs) [] nodes forest = absurd nodes
NodesAt-ForestAt file height level (a ∷ addrs) (c ∷ pieces) (node, few, fits, nodes) forest =
    let (low, high, one, two, split) = ForestAt-append file height c (concat pieces) forest in
    ForestAt.cons (TreeAt.inner node one)
      (NodesAt-ForestAt file height level addrs pieces nodes two) split

present-append : (xs ys : List ℕ) → present (xs ++ ys) ≡ present xs ++ present ys
present-append [] ys = refl
present-append (x ∷ xs) ys =
    ap (λ r. (if x == undefined_addr then [] else x ∷ []) ++ r) (present-append xs ys)
    ∙ sym (append_assoc (if x == undefined_addr then [] else x ∷ []) (present xs) (present ys))

-- Nodes of the lowest level make a forest of the leaves.
NodesAt-leaves :
    (file : Bytes) (height : ℕ) (addrs : List ℕ) (pieces : List (List ℕ))
    → NodesAt file 0 addrs pieces
    → ForestAt file (suc height) addrs (present (concat pieces))
NodesAt-leaves file height [] [] nodes = ForestAt.nil refl
NodesAt-leaves file height [] (c ∷ pieces) nodes = absurd nodes
NodesAt-leaves file height (a ∷ addrs) [] nodes = absurd nodes
NodesAt-leaves file height (a ∷ addrs) (c ∷ pieces) (node, few, fits, nodes) =
    ForestAt.cons (TreeAt.bottom node refl) (NodesAt-leaves file height addrs pieces nodes)
      (present-append c (concat pieces))

-- What the children of a level stand for: leaf addresses below the lowest level, a forest elsewhere.
abbrev pub Stands : Bytes → ℕ → ℕ → List ℕ → List ℕ → Type 0
Stands file zero height children leaves = leaves ≡ present children
Stands file (suc level) height children leaves = ForestAt file height children leaves

pub NodesAt-Stands :
    (file : Bytes) (level height : ℕ) (addrs : List ℕ) (pieces : List (List ℕ)) (leaves : List ℕ)
    → NodesAt file level addrs pieces
    → Stands file level height (concat pieces) leaves
    → ForestAt file (suc height) addrs leaves
NodesAt-Stands file zero height addrs pieces leaves nodes e =
    subst (ForestAt file (suc height) addrs) (sym e) (NodesAt-leaves file height addrs pieces nodes)
NodesAt-Stands file (suc level) height addrs pieces leaves nodes forest =
    NodesAt-ForestAt file height level addrs pieces nodes forest
