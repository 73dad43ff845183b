-- ===== src/SymTable/Node.antt =====
-- `write_node` against the group's B-tree walk.
use oxih.Base.{
  ℕ, ◌+◌, ◌*◌, ◌-◌, ◌^◌, ◌<◌, ◌≤◌, ◌≡◌, refl, sym, ◌∙◌, List, [], ◌∷◌, some, arith, length,
  replicate, ◌⊎◌, inl, inr, All, lt→ltb, le→leb, eq_refl, subst,
}
use oxih.Bytes.{
  Bytes, le_bytes, sub, Writes, put_all, put_all_total, put_all-hit, hit, length-put_all,
  put_all_outside, splice, put_ok, sub-splice_inside, length-splice, sub-splice_before,
  sub-splice_after, length-le_bytes,
}
use oxih.Outcome.{ok, word, ◌>>=◌, bind_assoc}
use oxih.GroupBtree.{tree_signature}
use oxih.GroupBtree.Laws.{NodeAt, ChildrenAt}
use oxih.Format.{narrow}
use oxih.SymTable.{write_children, write_node, group_node_size}

-- The children's slots hold the children, and nothing else changes.
pub record WritesChildren (buf : Bytes) (slot : ℕ) (children keys : List ℕ) (file : Bytes)
    : Type 0 where
  pub wrote : write_children buf slot children keys ≡ ok file
  pub same_length : length file ≡ length buf
  pub outside :
      (p n : ℕ) → (p + n ≤ slot) ⊎ (slot + 16 * length children ≤ p) → sub file p n ≡ sub buf p n
  pub read : ChildrenAt file slot children

abbrev pub Addresses : List ℕ → Type 0
Addresses children = All (λ c. c < word) children

pub ChildrenAt-Agree :
    (file mid : Bytes) (slot : ℕ) (children : List ℕ)
    → length file ≡ length mid
    → ((p n : ℕ) → slot ≤ p → p + n ≤ slot + 16 * length children → sub file p n ≡ sub mid p n)
    → ChildrenAt mid slot children
    → ChildrenAt file slot children
ChildrenAt-Agree file mid slot [] same agree h = tt
ChildrenAt-Agree file mid slot (c ∷ children) same agree (fits, small, field, rest) = (
  omega (arith, fits, same),
  small,
  agree slot 8 (omega arith) (omega arith) ∙ field,
  ChildrenAt-Agree file mid (slot + 16) children same
      (λ p n lo hi. agree p n (omega arith) (omega arith)) rest,
)

sub_here :
    (buf : Bytes) (slot c : ℕ)
    → slot + 8 ≤ length buf
    → sub (splice buf slot (le_bytes 8 c)) slot 8 ≡ le_bytes 8 c
unfolding sub
sub_here buf slot c h =
    let len = length-le_bytes 8 c in
    let start : slot - slot ≡ 0 = omega arith in
    sub-splice_inside buf slot (le_bytes 8 c) slot 8 (omega (arith, len)) (omega arith)
      (omega (arith, len))
    ∙ rw start refl

pub write_children_lem :
    (buf : Bytes) (slot : ℕ) (children keys : List ℕ)
    → length children ≡ length keys
    → slot + 16 * length children ≤ length buf
    → Addresses children
    → (file : Bytes) × WritesChildren buf slot children keys file
unfolding write_children
write_children_lem buf slot [] keys same long small =
    (buf, record { wrote = refl; same_length = refl; outside = λ p n side. refl; read = tt })
write_children_lem buf slot (c ∷ children) [] same long small = absurd (omega (arith, same))
write_children_lem buf slot (c ∷ children) (key ∷ keys) same long (here, small) =
    let one = splice buf slot (le_bytes 8 c) in
    let two = splice one (slot + 8) (le_bytes 8 key) in
    let c_len = length-le_bytes 8 c in
    let k_len = length-le_bytes 8 key in
    let one_len = length-splice buf slot (le_bytes 8 c) in
    let two_len = length-splice one (slot + 8) (le_bytes 8 key) in
    let kept : (p n : ℕ) → (p + n ≤ slot) ⊎ (slot + 16 ≤ p) → sub two p n ≡ sub buf p n =
      λ p n side. elim side [
        | inl before ↦
            sub-splice_before one (slot + 8) (le_bytes 8 key) p n (omega arith)
            ∙ sub-splice_before buf slot (le_bytes 8 c) p n before
        | inr after ↦
            sub-splice_after one (slot + 8) (le_bytes 8 key) p n (omega (arith, k_len))
            ∙ sub-splice_after buf slot (le_bytes 8 c) p n (omega (arith, c_len))
      ] in
    let (file, rest) =
      write_children_lem two (slot + 16) children keys (omega (arith, same))
        (omega (arith, two_len, one_len)) small in
    let field : sub file slot 8 ≡ le_bytes 8 c =
      rest.outside slot 8 (inl (omega arith))
      ∙ sub-splice_before one (slot + 8) (le_bytes 8 key) slot 8 (omega arith)
      ∙ sub_here buf slot c (omega arith) in
    (
      file,
      record {
        wrote = rw (put_ok buf slot (le_bytes 8 c) (omega (arith, c_len))) (
            rw (put_ok one (slot + 8) (le_bytes 8 key) (omega (arith, k_len, one_len)))
              (rest.wrote));
        same_length = rest.same_length ∙ two_len ∙ one_len;
        outside = λ p n side. rest.outside p n (omega arith) ∙ kept p n (omega arith);
        read = (omega (arith, rest.same_length, two_len, one_len), here, field, rest.read);
      },
    )

-- The header of a node, after the node has been zeroed.
abbrev header_writes : ℕ → ℕ → ℕ → ℕ → Writes
header_writes level count left right =
    (0, tree_signature)
    ∷ (4, 0 ∷ [])
    ∷ (5, level ∷ [])
    ∷ (6, le_bytes 2 count)
    ∷ (8, le_bytes 8 left)
    ∷ (16, le_bytes 8 right)
    ∷ (24, le_bytes 8 0)
    ∷ []

write_node-put_all :
    (buf : Bytes) (addr level left right : ℕ) (children keys : List ℕ)
    → length children ≡ length keys
    → length children ≤ 32
    → level < 256
    → addr + 544 ≤ length buf
    → write_node buf addr level left right children keys ≡ (
        put_all addr
          (header_writes level (length children) left right)
          (splice buf addr (replicate 544 0))
        >>= λ b. write_children b (addr + 32) children keys >>= λ c. ok (c, 544))
unfolding write_node narrow
write_node-put_all buf addr level left right children keys same few low long =
    let e : addr + 0 ≡ addr = omega arith in
    let slot : addr + 24 + 8 ≡ addr + 32 = omega arith in
    let zeroed = put_ok buf addr (replicate 544 0) long in
    rw
      (
        sym same,
        le→leb (length children) 32 few,
        eq_refl (length children),
        zeroed,
        lt→ltb level (2 ^ 8) low,
        lt→ltb (length children) (2 ^ 16) (omega (arith, few)),
        slot,
      )
      (simp (e, bind_assoc))

-- What a node's writer leaves: a node that the walk takes, and the rest of the buffer as it was.
pub record WritesNode (buf : Bytes) (addr level left right : ℕ) (children keys : List ℕ)
    (file : Bytes) : Type 0 where
  pub wrote : write_node buf addr level left right children keys ≡ ok (file, group_node_size)
  pub same_length : length file ≡ length buf
  pub outside : (p n : ℕ) → (p + n ≤ addr) ⊎ (addr + 544 ≤ p) → sub file p n ≡ sub buf p n
  pub node : NodeAt file addr level children

pub write_node_lem :
    (buf : Bytes) (addr level left right : ℕ) (children keys : List ℕ)
    → length children ≡ length keys
    → length children ≤ 32
    → level < 256
    → addr + 544 ≤ length buf
    → length buf < word
    → Addresses children
    → (file : Bytes) × WritesNode buf addr level left right children keys file
unfolding sub
write_node_lem buf addr level left right children keys same few low long small addresses =
    let zeroed = splice buf addr (replicate 544 0) in
    let same_zeroed = length-splice buf addr (replicate 544 0) in
    let ws = header_writes level (length children) left right in
    let (mid, wrote) = put_all_total addr 32 ws zeroed (omega arith) (omega (arith, same_zeroed)) in
    let mid_len = length-put_all addr ws zeroed wrote in
    let (file, body) =
      write_children_lem mid (addr + 32) children keys same (omega (arith, mid_len, same_zeroed))
        addresses in
    let file_len = body.same_length in
    let see : (p n : ℕ) (bs : Bytes)
        → p + n ≤ 32
        → hit ws p n ≡ some bs
        → sub file (addr + p) n ≡ bs =
      λ p n bs k h.
        body.outside (addr + p) n (inl (omega arith)) ∙ put_all-hit addr ws zeroed p n wrote h in
    let start : addr + 0 ≡ addr = omega arith in
    let slot : addr + 32 ≡ addr + 24 + 8 = omega arith in
    (
      file,
      record {
        wrote =
            write_node-put_all buf addr level left right children keys same few low long
            ∙ rw wrote (rw (body.wrote) refl);
        same_length = file_len ∙ mid_len ∙ same_zeroed;
        outside = λ p n side.
            body.outside p n (omega arith)
            ∙ put_all_outside addr 32 ws zeroed p n wrote (omega arith) (omega arith)
            ∙ elim side [
              | inl before ↦ sub-splice_before buf addr (replicate 544 0) p n before
              | inr after ↦ sub-splice_after buf addr (replicate 544 0) p n (omega arith)
            ];
        node = record {
          defined = λ e. omega (arith, long, small, e);
          fits = omega (arith, file_len, mid_len, same_zeroed);
          signed = rw start at (see 0 4 tree_signature (omega arith) refl);
          of_group = see 4 1 (0 ∷ []) (omega arith) refl;
          level_is = see 5 1 (level ∷ []) (omega arith) refl;
          count_is = see 6 2 (le_bytes 2 (length children)) (omega arith) refl;
          few = omega (arith, few);
          children_are = subst (λ o. ChildrenAt file o children) slot (body.read);
        };
      },
    )
