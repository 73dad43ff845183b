-- ===== src/SymTable/RoundTrip.antt =====
-- A group's symbol table against the reader of groups.
use oxih.Base.{
  ℕ, suc, ◌+◌, ◌*◌, ◌-◌, ◌<◌, ◌≤◌, ◌≡◌, refl, sym, ◌∙◌, ap, List, [], ◌∷◌, map, arith, length, ◌⊎◌,
  All, max, lt→ltb, eq_refl, ◌==◌, false, subst,
}
use oxih.Bytes.{Bytes, sub}
use oxih.Outcome.{ok, word}
use oxih.GroupBtree
use oxih.GroupBtree.{undefined_addr}
use oxih.GroupBtree.Laws.{TreeAt, present, parse-TreeAt}
use oxih.Format.{SnodEntry}
use oxih.Format.SnodFields.{read_back, EntryFits}
use oxih.SymTable.{
  SymTable, Written, plan, assign, level_addrs, last_or, sum_of, write, write_snods, write_levels,
  leaves_of, div_up,
}
use oxih.SymTable.Plan.{IsPyramid, plan-IsPlan}
use oxih.SymTable.Node.{Addresses}
use oxih.SymTable.Levels.{addrs_of, all_levels}
use oxih.SymTable.Leaves.{entries_at, Keeps, write_snods_lem, leaves_of_lem}

level_addrs_lem :
    (base : ℕ) (levels : List ℕ)
    → base + sum_of levels * 544 < word
    → level_addrs base levels ≡ ok (addrs_of base levels)
unfolding level_addrs
level_addrs_lem base [] h = refl
level_addrs_lem base (count ∷ levels) h =
    rw
      (
        lt→ltb (count * 544) word (omega arith),
        lt→ltb (base + count * 544) word (omega arith),
        level_addrs_lem (base + count * 544) levels (omega arith),
      )
      refl

-- Addresses of leaves inside the buffer are defined ones.
defined_addrs :
    (top : ℕ) (addrs : List ℕ)
    → top < word
    → All (λ a. a + 328 ≤ top) addrs
    → Addresses addrs × (present addrs ≡ addrs)
defined_addrs top [] h all = (tt, refl)
defined_addrs top (a ∷ addrs) h (x, all) =
    let (small, same) = defined_addrs top addrs h all in
    let known : (a == undefined_addr) ≡ false = ground arith in
    ((omega arith, small), rw known (ap (◌∷◌ a) same))

-- The table with its addresses.
abbrev placed_at : SymTable → ℕ → ℕ → SymTable
placed_at t btree_base snod_base = record t {
  level_addr = addrs_of btree_base (t.levels);
  root_addr = last_or btree_base (addrs_of btree_base (t.levels));
  snod_base = snod_base;
}

assign_lem :
    (t : SymTable) (btree_base snod_base : ℕ)
    → btree_base + sum_of (t.levels) * 544 < word
    → assign t btree_base snod_base ≡ ok (placed_at t btree_base snod_base)
unfolding assign
assign_lem t btree_base snod_base h = rw (level_addrs_lem btree_base (t.levels) h) refl

-- What the symbol table's writer leaves, at its two ranges.
pub record Wrote (t : SymTable) (buf : Bytes) (entries : List SnodEntry)
    (btree_base btree_size snod_base snod_size : ℕ) (file : Bytes) : Type 0 where
  pub ran : write t buf entries ≡ ok (file, snod_size + btree_size)
  pub same_length : length file ≡ length buf
  pub leaf_addrs : List ℕ
  pub tree : GroupBtree.parse file (t.root_addr) ≡ ok leaf_addrs
  pub read : entries_at file leaf_addrs ≡ ok (map read_back entries)
  pub outside :
      (p n : ℕ)
      → (p + n ≤ btree_base) ⊎ (btree_base + btree_size ≤ p)
      → (p + n ≤ snod_base) ⊎ (snod_base + snod_size ≤ p)
      → sub file p n ≡ sub buf p n

run_lem :
    (t : SymTable) (buf : Bytes) (entries : List SnodEntry) {done : Written} {file : Bytes} {n : ℕ}
    → t.n_links ≡ length entries
    → write_snods (t.snod_base) 0 (leaves_of entries) buf ≡ ok done
    → write_levels 0 (t.level_addr) (done.next_addrs) (done.next_keys) (done.buf) ≡ ok (file, n)
    → write t buf entries ≡ ok (file, done.wrote + n)
unfolding write
run_lem t buf entries links low high = rw (links, eq_refl (length entries), low, high) refl

write_lem :
    (t : SymTable) (buf : Bytes) (entries : List SnodEntry) (btree_base snod_base bottom : ℕ)
    (upper : List ℕ)
    → t.n_links ≡ length entries
    → t.n_snods ≡ max (div_up (length entries) 8) 1
    → t.levels ≡ bottom ∷ upper
    → bottom ≡ div_up (t.n_snods) 32
    → IsPyramid bottom upper
    → length upper ≤ 7
    → btree_base + (bottom + sum_of upper) * 544 ≤ length buf
    → snod_base + t.n_snods * 328 ≤ length buf
    → (btree_base + (bottom + sum_of upper) * 544 ≤ snod_base)
      ⊎ (snod_base + t.n_snods * 328 ≤ btree_base)
    → length buf < word
    → All EntryFits entries
    → (file : Bytes) × Wrote
        (placed_at t btree_base snod_base)
        buf
        entries
        btree_base
        ((bottom + sum_of upper) * 544)
        snod_base
        (t.n_snods * 328)
        file
write_lem t buf entries btree_base snod_base bottom upper links leaves levels_are bottom_is pyramid
      few btree_fits snod_fits apart small fit =
    let (all_of_them, count, pieces) = leaves_of_lem entries fit in
    let leaf_count : length (leaves_of entries) ≡ t.n_snods = count ∙ sym leaves in
    let (done, low) =
      write_snods_lem snod_base 0 (leaves_of entries) buf pieces (omega (arith, leaf_count))
        small in
    let children : length (done.next_addrs) ≡ t.n_snods = low.n_addrs ∙ leaf_count in
    let (addresses, defined) =
      defined_addrs (snod_base + (0 + length (leaves_of entries)) * 328) (done.next_addrs)
        (omega (arith, leaf_count)) (low.placed) in
    let (file, high, roots) =
      all_levels 0 btree_base bottom upper (done.next_addrs) (done.next_keys) (done.buf)
        (omega arith) (omega (arith, children, leaves)) (low.n_addrs ∙ sym (low.n_keys)) addresses
        (bottom_is ∙ ap (λ n. div_up n 32) (sym children)) pyramid (omega (arith, low.same_length))
        (omega (arith, low.same_length)) in
    let kept : Keeps file (done.buf) (snod_base + 0 * 328)
        (snod_base + (0 + length (leaves_of entries)) * 328) =
      (
        high.same_length,
        λ p n lo hi. high.outside p n (omega (arith, apart, leaf_count, lo, hi)),
      ) in
    let top : 64 - length upper + suc (length upper) ≡ 65 = omega arith in
    let root = last_or btree_base (addrs_of (btree_base + bottom * 544) upper) in
    (
      file,
      record {
        ran =
            run_lem (placed_at t btree_base snod_base) buf entries links (low.ran) (
              ap (λ a. write_levels 0 a (done.next_addrs) (done.next_keys) (done.buf))
                (ap (addrs_of btree_base) levels_are)
              ∙ high.ran)
            ∙ ap (λ n. ok (file, n + (bottom + sum_of upper) * 544))
                (low.counted ∙ ap (λ n. n * 328) leaf_count);
        same_length = high.same_length ∙ low.same_length;
        leaf_addrs = done.next_addrs;
        tree =
            ap (λ levels. GroupBtree.parse file (last_or btree_base (addrs_of btree_base levels)))
              levels_are
            ∙ parse-TreeAt file root (done.next_addrs)
                (omega (arith, high.same_length, low.same_length))
                (subst (λ h. TreeAt file h root (done.next_addrs)) top
                  (roots (64 - length upper) (done.next_addrs) (sym defined)));
        read = low.stays file kept ∙ ap (λ e. ok (map read_back e)) all_of_them;
        outside = λ p n side other.
            high.outside p n side ∙ low.outside p n (omega (arith, other, leaf_count));
      },
    )

-- For a group whose links the writer has planned, in a buffer shorter than the address range with room
-- for its B-tree nodes and, apart from them, for its leaves, and entries whose values fit their fields:
-- the writer places and writes the nodes, returns their bytes, and touches nothing else; the reader
-- walks from the root to the leaves' addresses, and the leaves hold all the entries in order.
pub parse-write :
    (buf : Bytes) (entries : List SnodEntry) (btree_base snod_base : ℕ) (planned : SymTable)
    → plan (length entries) ≡ ok planned
    → btree_base + sum_of (planned.levels) * 544 ≤ length buf
    → snod_base + planned.n_snods * 328 ≤ length buf
    → (btree_base + sum_of (planned.levels) * 544 ≤ snod_base)
      ⊎ (snod_base + planned.n_snods * 328 ≤ btree_base)
    → length buf < word
    → All EntryFits entries
    → (t : SymTable) × (file : Bytes) × (assign planned btree_base snod_base ≡ ok t)
      × Wrote t buf entries btree_base
          (sum_of (planned.levels) * 544)
          snod_base
          (planned.n_snods * 328)
          file
parse-write buf entries btree_base snod_base planned did btree_fits snod_fits apart small fit =
    let plan = plan-IsPlan (length entries) planned did in
    let total : sum_of (planned.levels) ≡ plan.bottom + sum_of (plan.upper) =
      ap sum_of (plan.levels_are) in
    let few : length (planned.levels) ≡ suc (length (plan.upper)) =
      ap (λ l. length l) (plan.levels_are) in
    let (file, wrote) =
      write_lem planned buf entries btree_base snod_base (plan.bottom) (plan.upper) (plan.links)
        (plan.leaves) (plan.levels_are) (plan.bottom_is) (plan.pyramid)
        (omega (arith, few, plan.few)) (omega (arith, btree_fits, total)) snod_fits
        (subst
          (λ n.
            (btree_base + n * 544 ≤ snod_base) ⊎ (snod_base + planned.n_snods * 328 ≤ btree_base))
          total apart)
        small fit in
    (
      placed_at planned btree_base snod_base,
      file,
      assign_lem planned btree_base snod_base (omega (arith, btree_fits, small)),
      subst
          (λ n.
            Wrote (placed_at planned btree_base snod_base) buf entries btree_base (n * 544)
              snod_base (planned.n_snods * 328) file)
          (sym total) wrote,
    )
