-- ===== src/SymTable/Levels.antt =====
-- The levels of the B-tree, written from the lowest to the root.
use oxih.Base.{
  ℕ, suc, ◌+◌, ◌*◌, ◌<◌, ◌≤◌, ◌≡◌, refl, sym, ◌∙◌, ap, List, [], ◌∷◌, ◌++◌, arith, length, ◌⊎◌, inl,
  inr, append-nil, All, subst,
}
use oxih.Bytes.{Bytes, sub}
use oxih.Outcome.{ok, word}
use oxih.GroupBtree.Laws.{TreeAt, ForestAt}
use oxih.SymTable.{Written, write_levels, div_up, sum_of, last_or, chunks}
use oxih.SymTable.Plan.{IsPyramid, div_up_bounds}
use oxih.SymTable.Node.{Addresses}
use oxih.SymTable.Chunks.{concat}
use oxih.SymTable.Forest.{Stands, NodesAt-Stands}
use oxih.SymTable.Level.{NodesAt-Agree, WritesNodes, widen}
use oxih.SymTable.OneLevel.{level_lem}

-- The addresses of the levels, from `base` on.
abbrev pub addrs_of : ℕ → List ℕ → List ℕ
addrs_of base [] = []
addrs_of base (count ∷ levels) = base ∷ addrs_of (base + count * 544) levels

in_range :
    (base top : ℕ) (addrs : List ℕ)
    → top < word
    → All (λ a. (base ≤ a) × (a + 544 ≤ top)) addrs
    → Addresses addrs
in_range base top [] h all = tt
in_range base top (a ∷ addrs) h ((x, y), all) = (omega arith, in_range base top addrs h all)

pub record WritesLevels (level base : ℕ) (levels child_addrs child_keys : List ℕ) (buf file : Bytes)
    : Type 0 where
  pub ran :
      write_levels level (addrs_of base levels) child_addrs child_keys buf
      ≡ ok (file, sum_of levels * 544)
  pub same_length : length file ≡ length buf
  pub outside :
      (p n : ℕ) → (p + n ≤ base) ⊎ (base + sum_of levels * 544 ≤ p) → sub file p n ≡ sub buf p n

no_more : (more : List ℕ) → length more ≤ 0 → more ≡ []
no_more [] h = refl
no_more (x ∷ more) h = absurd (omega arith)

only_tree :
    (file : Bytes) (height first : ℕ) {leaves : List ℕ}
    → ForestAt file height (first ∷ []) leaves
    → TreeAt file height first leaves
only_tree file height first (ForestAt.cons {found = found} tree (ForestAt.nil e) f) =
    subst (TreeAt file height first) (sym (f ∙ ap (λ o. found ++ o) e ∙ append-nil found)) tree

starts :
    (done : Written) (base : ℕ) {n : ℕ}
    → (n ≡ 0) ⊎ ((more : List ℕ) × (done.next_addrs ≡ (base + 0 * 544) ∷ more))
    → 0 < n
    → (more : List ℕ) × (done.next_addrs ≡ base ∷ more)
starts done base (inl none) some_nodes = absurd (omega arith)
starts done base (inr (more, e)) some_nodes =
    let at : base + 0 * 544 ≡ base = omega arith in (more, e ∙ ap (λ a. a ∷ more) at)

abbrev Roots : Bytes → ℕ → ℕ → List ℕ → (ℕ → List ℕ → Type 0) → Type 0
Roots file extra root children On =
    (height : ℕ) (leaves : List ℕ) → On height leaves → TreeAt file (height + extra) root leaves

-- A level below levels that make a tree of its nodes.
join_level :
    (level base count root : ℕ) (levels child_addrs child_keys : List ℕ) (buf : Bytes)
    (done : Written) (file : Bytes)
    → WritesNodes level base
        (div_up (length child_addrs) 32)
        0
        (chunks 32 child_addrs)
        (chunks 32 child_keys)
        buf
        done
    → length (chunks 32 child_addrs) ≡ count
    → concat (chunks 32 child_addrs) ≡ child_addrs
    → WritesLevels
        (suc level)
        (base + count * 544)
        levels
        (done.next_addrs)
        (done.next_keys)
        (done.buf)
        file
    → Roots file
        (length levels)
        root
        (done.next_addrs)
        (λ height leaves. ForestAt file height (done.next_addrs) leaves)
    → WritesLevels level base (count ∷ levels) child_addrs child_keys buf file
      × Roots file
          (suc (length levels))
          root
          child_addrs
          (λ height leaves. Stands file level height child_addrs leaves)
unfolding write_levels
join_level level base count root levels child_addrs child_keys buf done file writes counted whole
      above tree =
    let base' = base + count * 544 in
    let placed =
      widen base (base + 0 * 544) (base + (0 + length (chunks 32 child_addrs)) * 544) base'
        (done.next_addrs) (omega arith) (omega (arith, counted)) (writes.placed) in
    let plus : level + 1 ≡ suc level = omega arith in
    (
      record {
        ran = rw (writes.ran) (
            rw (plus, above.ran) (ap (λ k. ok (file, k)) (omega (arith, writes.counted, counted))));
        same_length = above.same_length ∙ writes.same_length;
        outside = λ p k side.
            above.outside p k (omega arith) ∙ writes.outside p k (omega (arith, counted));
      },
      λ height leaves on.
          let nodes =
            NodesAt-Agree file (done.buf) level base base' (done.next_addrs) (chunks 32 child_addrs)
              (above.same_length) (λ p k lo hi. above.outside p k (inl hi)) placed (writes.nodes) in
          let next =
            NodesAt-Stands file level height (done.next_addrs) (chunks 32 child_addrs) leaves nodes
              (subst (λ c. Stands file level height c leaves) (sym whole) on) in
          let top : suc height + length levels ≡ height + suc (length levels) = omega arith in
          subst (λ h. TreeAt file h root leaves) top (tree (suc height) leaves next),
    )

-- The levels on top of a level whose addresses are known.
abbrev OnTop : ℕ → List ℕ → Type 0
OnTop level levels =
    (base first : ℕ) (child_addrs child_keys more : List ℕ) (buf : Bytes)
    → child_addrs ≡ first ∷ more
    → suc level + length levels ≤ 256
    → length child_addrs ≡ length child_keys
    → Addresses child_addrs
    → IsPyramid (length child_addrs) levels
    → base + sum_of levels * 544 ≤ length buf
    → length buf < word
    → (file : Bytes) × WritesLevels (suc level) base levels child_addrs child_keys buf file
      × Roots file (length levels) (last_or first (addrs_of base levels)) child_addrs
          (λ height leaves. ForestAt file height child_addrs leaves)

-- A level with those on top of it.
join_rest :
    (level base count : ℕ) (levels child_addrs child_keys : List ℕ) (buf : Bytes)
    → OnTop level levels
    → suc level + length levels ≤ 256
    → 0 < length child_addrs
    → length child_addrs ≡ length child_keys
    → Addresses child_addrs
    → count ≡ div_up (length child_addrs) 32
    → IsPyramid count levels
    → base + (count + sum_of levels) * 544 ≤ length buf
    → length buf < word
    → (file : Bytes) × WritesLevels level base (count ∷ levels) child_addrs child_keys buf file
      × Roots file
          (suc (length levels))
          (last_or base (addrs_of (base + count * 544) levels))
          child_addrs
          (λ height leaves. Stands file level height child_addrs leaves)
join_rest level base count levels child_addrs child_keys buf upper low some_nodes same all count_is
      pyramid long small =
    let (done, writes, n, whole) =
      level_lem level base child_addrs child_keys buf (omega (arith, low)) same all
        (omega (arith, count_is, long)) small in
    let base' = base + count * 544 in
    let (enough, tight) = div_up_bounds (length child_addrs) 32 (omega arith) in
    let counted : length (chunks 32 child_addrs) ≡ count = n ∙ sym count_is in
    let (more, next_is) =
      starts done base (writes.first) (omega (arith, counted, count_is, enough, some_nodes)) in
    let placed =
      widen base (base + 0 * 544) (base + (0 + length (chunks 32 child_addrs)) * 544) base'
        (done.next_addrs) (omega arith) (omega (arith, counted)) (writes.placed) in
    let (file, above, tree) =
      upper base' base (done.next_addrs) (done.next_keys) more (done.buf) next_is
        (omega (arith, low)) (writes.n_addrs ∙ sym (writes.n_keys))
        (in_range base base' (done.next_addrs) (omega (arith, long, small)) placed)
        (subst (λ m. IsPyramid m levels) (sym (writes.n_addrs ∙ counted)) pyramid)
        (omega (arith, long, writes.same_length)) (omega (arith, small, writes.same_length)) in
    let (written, roots) =
      join_level level base count (last_or base (addrs_of base' levels)) levels child_addrs
        child_keys buf done file writes counted whole above tree in
    (file, written, roots)

upper_levels : (level : ℕ) (levels : List ℕ) → OnTop level levels
unfolding write_levels
upper_levels level [] base first child_addrs child_keys more buf is low same all pyramid long
      small =
    let alone : more ≡ [] = no_more more (omega (arith, pyramid, ap (λ c. length c) is)) in
    (
      buf,
      record {
        ran = ap (λ n. ok (buf, n)) (omega arith);
        same_length = refl;
        outside = λ p n side. refl;
      },
      λ height leaves forest.
          let top : height ≡ height + 0 = omega arith in
          subst (λ h. TreeAt buf h first leaves) top
            (only_tree buf height first
              (subst (λ c. ForestAt buf height c leaves) (is ∙ ap (λ m. first ∷ m) alone) forest)),
    )
upper_levels level (count ∷ levels) base first child_addrs child_keys more buf is low same all
      (many, count_is, pyramid) long small =
    join_rest (suc level) base count levels child_addrs child_keys buf
      (upper_levels (suc level) levels) (omega (arith, low)) (omega (arith, many)) same all count_is
      pyramid long small

-- A level and those on top of it.
pub all_levels :
    (level base count : ℕ) (levels child_addrs child_keys : List ℕ) (buf : Bytes)
    → suc level + length levels ≤ 256
    → 0 < length child_addrs
    → length child_addrs ≡ length child_keys
    → Addresses child_addrs
    → count ≡ div_up (length child_addrs) 32
    → IsPyramid count levels
    → base + (count + sum_of levels) * 544 ≤ length buf
    → length buf < word
    → (file : Bytes) × WritesLevels level base (count ∷ levels) child_addrs child_keys buf file
      × Roots file
          (suc (length levels))
          (last_or base (addrs_of (base + count * 544) levels))
          child_addrs
          (λ height leaves. Stands file level height child_addrs leaves)
all_levels level base count levels child_addrs child_keys buf =
    join_rest level base count levels child_addrs child_keys buf (upper_levels level levels)
