-- ===== src/Filters/Shuffle/Copy.antt =====
-- The two copying loops of `shuffle` and `unshuffle`: each byte is moved to its place.
use oxih.Base.{
  ℕ, zero, suc, ◌+◌, ◌<◌, ◌≤◌, ◌≡◌, ◌≢◌, refl, sym, ◌∙◌, ap, [], ◌∷◌, some, arith, length,
  get_elem?, set, length-set, lt→ltb, ◌==◌, Bool-cases, inl, inr,
}
use oxih.Bytes.{Bytes, index_lt}
use oxih.Outcome.{ok}
use oxih.Filters.Shuffle.{move_byte, copy_elems, copy_bytes}

get_elem?-set_self : (xs : Bytes) (i v : ℕ) → i < length xs → get_elem? (set xs i v) i ≡ some v
get_elem?-set_self [] i v h = absurd (omega arith)
get_elem?-set_self (x ∷ xs) zero v h = refl
get_elem?-set_self (x ∷ xs) (suc i) v h = get_elem?-set_self xs i v (omega arith)

get_elem?-set_ne : (xs : Bytes) (i j v : ℕ) → i ≢ j → get_elem? (set xs i v) j ≡ get_elem? xs j
get_elem?-set_ne [] i j v h = refl
get_elem?-set_ne (x ∷ xs) zero zero v h = absurd (h refl)
get_elem?-set_ne (x ∷ xs) zero (suc j) v h = refl
get_elem?-set_ne (x ∷ xs) (suc i) zero v h = refl
get_elem?-set_ne (x ∷ xs) (suc i) (suc j) v h = get_elem?-set_ne xs i j v (λ e. h (ap suc e))

-- The inner loop, over places that do not repeat: it moves its bytes and keeps the others.
pub record CopiesElems (to from : ℕ → ℕ) (bytes : Bytes) (i left : ℕ) (out : Bytes) : Type 0 where
  pub result : Bytes
  pub runs : copy_elems to from bytes i left out ≡ ok result
  pub same_length : length result ≡ length out
  pub moved : (e : ℕ) → i ≤ e → e < i + left → get_elem? result (to e) ≡ get_elem? bytes (from e)
  pub kept :
      (p : ℕ) → ((e : ℕ) → i ≤ e → e < i + left → to e ≢ p) → get_elem? result p ≡ get_elem? out p

copy_elems_lem :
    (to from : ℕ → ℕ) (bytes : Bytes) (i left : ℕ) (out : Bytes)
    → ((e : ℕ) → i ≤ e → e < i + left → (to e < length out) × (from e < length bytes))
    → ((d e : ℕ) → i ≤ d → d < e → e < i + left → to e ≢ to d)
    → CopiesElems to from bytes i left out
unfolding copy_elems move_byte
copy_elems_lem to from bytes i zero out inside apart = record {
  result = out;
  runs = refl;
  same_length = refl;
  moved = λ e lo hi. absurd (omega arith);
  kept = λ p h. refl;
}
copy_elems_lem to from bytes i (suc left) out inside apart =
    let (to_in, from_in) = inside i (omega arith) (omega arith) in
    let (b, at) = index_lt bytes (from i) from_in in
    let next = set out (to i) b in
    let same = length-set out (to i) b in
    let later =
      copy_elems_lem to from bytes (i + 1) left next
        (λ e lo hi. let (x, y) = inside e (omega arith) (omega arith) in (omega arith, y))
        (λ d e lo mid hi. apart d e (omega arith) mid (omega arith)) in
    record {
      result = later.result;
      runs = rw (at, lt→ltb (to i) (length out) to_in) later.runs;
      same_length = later.same_length ∙ same;
      moved = λ e lo hi. moved_at e lo hi b at to_in later;
      kept = λ p h.
          later.kept p (λ e lo hi. h e (omega arith) (omega arith))
          ∙ get_elem?-set_ne out (to i) p b (h i (omega arith) (omega arith));
    }
  where
    moved_at :
        (e : ℕ)
        → i ≤ e
        → e < i + suc left
        → (b : ℕ) → get_elem? bytes (from i) ≡ some b
        → to i < length out
        → (later : CopiesElems to from bytes (i + 1) left (set out (to i) b))
        → get_elem? later.result (to e) ≡ get_elem? bytes (from e)
    moved_at e lo hi b at to_in later = elim (Bool-cases (e == i)) [
      | inl same ↦
          let is : e ≡ i = ground arith in
          rw is (
            later.kept (to i) (λ d a z. apart i d (omega arith) (omega arith) (omega arith))
            ∙ get_elem?-set_self out (to i) b to_in
            ∙ sym at)
      | inr other ↦ later.moved e (ground arith) (omega arith)
    ]

-- The two loops, over places that do not repeat.
pub record CopiesBytes (to from : ℕ → ℕ → ℕ) (bytes : Bytes) (n b left : ℕ) (out : Bytes)
    : Type 0 where
  pub result : Bytes
  pub runs : copy_bytes to from bytes n b left out ≡ ok result
  pub same_length : length result ≡ length out
  pub moved :
      (d e : ℕ)
      → b ≤ d
      → d < b + left
      → e < n
      → get_elem? result (to d e) ≡ get_elem? bytes (from d e)
  pub kept :
      (p : ℕ)
      → ((d e : ℕ) → b ≤ d → d < b + left → e < n → to d e ≢ p)
      → get_elem? result p ≡ get_elem? out p

pub copy_bytes_lem :
    (to from : ℕ → ℕ → ℕ) (bytes : Bytes) (n b left : ℕ) (out : Bytes)
    → ((d e : ℕ) → b ≤ d → d < b + left → e < n → (to d e < length out) × (from d e < length bytes))
    → ((d e d' e' : ℕ)
        → d < b + left
        → d' < b + left
        → e < n
        → e' < n
        → to d e ≡ to d' e'
        → (d ≡ d') × (e ≡ e'))
    → CopiesBytes to from bytes n b left out
unfolding copy_bytes
copy_bytes_lem to from bytes n b zero out inside apart = record {
  result = out;
  runs = refl;
  same_length = refl;
  moved = λ d e lo hi k. absurd (omega arith);
  kept = λ p h. refl;
}
copy_bytes_lem to from bytes n b (suc left) out inside apart =
    let row =
      copy_elems_lem (to b) (from b) bytes 0 n out
        (λ e lo hi. inside b e (omega arith) (omega arith) (omega arith))
        (λ d e lo mid hi same.
          let (x, y) = apart b e b d (omega arith) (omega arith) (omega arith) (omega arith) same in
          absurd (omega arith)) in
    let same = row.same_length in
    let later =
      copy_bytes_lem to from bytes n (b + 1) left row.result
        (λ d e lo hi k. let (x, y) = inside d e (omega arith) (omega arith) k in (omega arith, y))
        (λ d e d' e' k k' l l' q. apart d e d' e' (omega arith) (omega arith) l l' q) in
    record {
      result = later.result;
      runs = rw row.runs later.runs;
      same_length = later.same_length ∙ same;
      moved = λ d e lo hi k. elim (Bool-cases (d == b)) [
        | inl here ↦
            let is : d ≡ b = ground arith in
            rw is (
              later.kept (to b e) (λ d' e' a z w q.
                let (x, y) = apart d' e' b e (omega arith) (omega arith) w k q in
                absurd (omega arith))
              ∙ row.moved e (omega arith) (omega arith))
        | inr other ↦ later.moved d e (ground arith) (omega arith) k
      ];
      kept = λ p h.
          later.kept p (λ d e lo hi k. h d e (omega arith) (omega arith) k)
          ∙ row.kept p (λ e lo hi. h b e (omega arith) (omega arith) (omega arith));
    }
