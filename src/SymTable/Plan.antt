-- ===== src/SymTable/Plan.antt =====
-- The plan of a group's B-tree: the levels, each of which can hold the nodes of the one below.
use oxih.Base.{
  ℕ, zero, suc, ◌+◌, ◌*◌, ◌/◌, ◌%◌, ◌^◌, ◌≤◌, ◌<◌, ◌≡◌, ◌≢◌, refl, sym, ◌∙◌, ap, List, [], ◌∷◌,
  arith, length, le→leb, lt→leb, ◌==◌, max, false, inl, inr, ◌⊎◌, subst,
}
use native.Mathlib.Nat.{pow-suc}
use oxih.Outcome.{ok, err, format, ◌>>=◌, ok_eq}
use oxih.SymTable.{SymTable, div_up, more_levels, plan_levels, plan, zeros_for}

pub div_up_bounds : (n k : ℕ) → 0 < k → (n ≤ div_up n k * k) × (div_up n k * k < n + k)
div_up_bounds n k h = elim (zero_or_not (n % k)) [
  | inl z ↦ rw z (let (q, r) = quotients n k h in (omega (arith, q, z), omega (arith, q, z)))
  | inr more ↦
      let some_rest : (n % k == 0) ≡ false = ground arith in
      let (q, r) = quotients n k h in
      let next = succ (n / k) k in
      rw some_rest (omega (arith, q, r, next), omega (arith, q, r, next, more))
]
  where
    zero_or_not : (a : ℕ) → (a ≡ 0) ⊎ (a ≢ 0)
    zero_or_not a = omega arith

    quotients : (e k : ℕ) → 0 < k → (e / k * k + e % k ≡ e) × (e % k < k)
    quotients e k h = (grind arith, grind arith)

    succ : (a k : ℕ) → (a + 1) * k ≡ a * k + k
    succ a k = grind arith

-- Every level but the last is followed by one of a node for each 32 of its nodes, or fewer for the
-- last of them; the last has one node.
abbrev pub IsPyramid : ℕ → List ℕ → Type 0
IsPyramid nodes [] = nodes ≤ 1
IsPyramid nodes (next ∷ levels) = (1 < nodes) × (next ≡ div_up nodes 32) × IsPyramid next levels

more_levels_lem :
    (room nodes : ℕ)
    → nodes ≤ 32 ^ room
    → (levels : List ℕ) × (more_levels room nodes ≡ ok levels)
      × (length levels ≤ room)
      × IsPyramid nodes levels
unfolding more_levels
more_levels_lem zero nodes h =
    let one : nodes ≤ 1 = omega arith in ([], rw (le→leb nodes 1 one) refl, omega arith, one)
more_levels_lem (suc room) nodes h = elim (le_or_lt nodes 1) [
  | inl one ↦ ([], rw (le→leb nodes 1 one) refl, omega arith, one)
  | inr many ↦
      let (enough, tight) = div_up_bounds nodes 32 (omega arith) in
      let (levels, ran, few, pyramid) =
        more_levels_lem room (div_up nodes 32) (omega (arith, tight, h, pow-suc 32 room)) in
      (
        div_up nodes 32 ∷ levels,
        rw (lt→leb nodes 1 many, ran) refl,
        omega (arith, few),
        (many, refl, pyramid),
      )
]
  where
    le_or_lt : (a b : ℕ) → (a ≤ b) ⊎ (b < a)
    le_or_lt a b = omega arith

plan_levels_lem :
    (n_snods : ℕ)
    → 0 < n_snods
    → n_snods ≤ 2 ^ 22
    → (levels : List ℕ) × (plan_levels n_snods ≡ ok (div_up n_snods 32 ∷ levels))
      × (length levels ≤ 7)
      × IsPyramid (div_up n_snods 32) levels
unfolding plan_levels
plan_levels_lem n_snods pos h =
    let (enough, tight) = div_up_bounds n_snods 32 (omega arith) in
    let some_leaf : max n_snods 1 ≡ n_snods = omega arith in
    let (levels, ran, few, pyramid) =
      more_levels_lem 7 (div_up n_snods 32) (omega (arith, tight)) in
    (
      levels,
      ap (λ n. more_levels 7 (div_up n 32) >>= λ rest. ok (div_up n 32 ∷ rest)) some_leaf
          ∙ ap (λ m. m >>= λ rest. ok (div_up n_snods 32 ∷ rest)) ran,
      few,
      pyramid,
    )

-- Eight entries to a leaf, and at least one leaf; at most eight levels, from one that holds the leaves
-- to a single root.
pub record IsPlan (n_links : ℕ) (t : SymTable) : Type 0 where
  pub links : t.n_links ≡ n_links
  pub leaves : t.n_snods ≡ max (div_up n_links 8) 1
  pub few : length (t.levels) ≤ 8
  pub bottom : ℕ
  pub upper : List ℕ
  pub levels_are : t.levels ≡ bottom ∷ upper
  pub bottom_is : bottom ≡ div_up (t.n_snods) 32
  pub pyramid : IsPyramid bottom upper

-- Every group of up to 2^24 links is planned, without running out of levels.
pub plan_lem :
    (n_links : ℕ) → n_links ≤ 2 ^ 24 → (t : SymTable) × (plan n_links ≡ ok t) × IsPlan n_links t
unfolding plan
plan_lem n_links h =
    let n_snods = max (div_up n_links 8) 1 in
    let (enough, tight) = div_up_bounds n_links 8 (omega arith) in
    let (levels, ran, few, pyramid) =
      plan_levels_lem n_snods (omega arith) (omega (arith, tight)) in
    (
      record {
        n_links = n_links;
        n_snods = n_snods;
        levels = div_up n_snods 32 ∷ levels;
        level_addr = zeros_for (div_up n_snods 32 ∷ levels);
        root_addr = 0;
        snod_base = 0;
      },
      rw (le→leb n_links (2 ^ 24) h, ran) refl,
      record {
        links = refl;
        leaves = refl;
        few = omega (arith, few);
        bottom = div_up n_snods 32;
        upper = levels;
        levels_are = refl;
        bottom_is = refl;
        pyramid = pyramid;
      },
    )

-- More links are refused.
pub plan_refuses : (n_links : ℕ) → 2 ^ 24 < n_links → plan n_links ≡ err format
unfolding plan
plan_refuses n_links h = rw (lt→leb n_links (2 ^ 24) h) refl

pub plan-IsPlan : (n_links : ℕ) (t : SymTable) → plan n_links ≡ ok t → IsPlan n_links t
plan-IsPlan n_links t ran = elim (le_or_lt n_links (2 ^ 24)) [
  | inl few ↦
      let (planned, did, is_plan) = plan_lem n_links few in
      subst (IsPlan n_links) (ok_eq (sym did ∙ ran)) is_plan
  | inr many ↦ absurd (cc (sym (plan_refuses n_links many) ∙ ran))
]
  where
    le_or_lt : (a b : ℕ) → (a ≤ b) ⊎ (b < a)
    le_or_lt a b = omega arith
