-- ===== src/SymTable/Leaves.antt =====
-- The leaves of a group's symbol table, and the entries that they hold.
use oxih.Base.{
  ℕ, suc, ◌+◌, ◌*◌, ◌<◌, ◌≤◌, ◌≡◌, refl, sym, ◌∙◌, ap, List, [], ◌∷◌, ◌++◌, map, arith, length, ◌⊎◌,
  inl, All, max,
}
use oxih.Bytes.{Bytes, sub}
use oxih.Outcome.{Outcome, ok, word, ◌>>=◌}
use oxih.Snod
use oxih.Snod.{SymTabEntry}
use oxih.Format.{SnodEntry}
use oxih.Format.SnodFields.{read_back, EntryFits}
use oxih.Format.SnodRoundTrip.{write_snod_lem}
use oxih.SymTable.{Written, write_snods, closing_name, leaves_of, div_up}
use oxih.SymTable.Chunks.{concat, concat-chunks_from, length-chunks_from, chunks_from-All}
use oxih.SymTable.Plan.{div_up_bounds}

-- The entries of the leaves at these addresses, in order.
unfoldable pub entries_at : Bytes → List ℕ → Outcome (List SymTabEntry)
entries_at file [] = ok []
entries_at file (addr ∷ addrs) = do
  entries ← Snod.parse file addr
  others ← entries_at file addrs
  ok (entries ++ others)

map-append : {A B : Type 0} (f : A → B) (xs ys : List A) → map f (xs ++ ys) ≡ map f xs ++ map f ys
map-append f [] ys = refl
map-append f (x ∷ xs) ys = ap (◌∷◌ (f x)) (map-append f xs ys)

-- A buffer with the same bytes in the leaves' range.
abbrev pub Keeps : Bytes → Bytes → ℕ → ℕ → Type 0
Keeps later file lo hi =
    (length later ≡ length file) × ((p n : ℕ) → lo ≤ p → p + n ≤ hi → sub later p n ≡ sub file p n)

pub record WritesLeaves (base i : ℕ) (leaves : List (List SnodEntry)) (buf : Bytes) (done : Written)
    : Type 0 where
  pub ran : write_snods base i leaves buf ≡ ok done
  pub same_length : length (done.buf) ≡ length buf
  pub counted : done.wrote ≡ length leaves * 328
  pub outside :
      (p n : ℕ)
      → (p + n ≤ base + i * 328) ⊎ (base + (i + length leaves) * 328 ≤ p)
      → sub (done.buf) p n ≡ sub buf p n
  pub stays :
      (later : Bytes)
      → Keeps later (done.buf) (base + i * 328) (base + (i + length leaves) * 328)
      → entries_at later (done.next_addrs) ≡ ok (map read_back (concat leaves))
  pub placed : All (λ a. a + 328 ≤ base + (i + length leaves) * 328) (done.next_addrs)
  pub n_addrs : length (done.next_addrs) ≡ length leaves
  pub n_keys : length (done.next_keys) ≡ length leaves

raise :
    (low top : ℕ) (addrs : List ℕ)
    → low ≡ top
    → All (λ a. a + 328 ≤ low) addrs
    → All (λ a. a + 328 ≤ top) addrs
raise low top [] h all = tt
raise low top (a ∷ addrs) h (x, all) = (omega arith, raise low top addrs h all)

pub write_snods_lem :
    (base i : ℕ) (leaves : List (List SnodEntry)) (buf : Bytes)
    → All (λ leaf. (length leaf ≤ 8) × All EntryFits leaf) leaves
    → base + (i + length leaves) * 328 ≤ length buf
    → length buf < word
    → (done : Written) × WritesLeaves base i leaves buf done
unfolding write_snods entries_at
write_snods_lem base i [] buf fit long small = (
  record { buf = buf; wrote = 0; next_addrs = []; next_keys = [] },
  record {
    ran = refl;
    same_length = refl;
    counted = omega arith;
    outside = λ p n side. refl;
    stays = λ later kept. refl;
    placed = tt;
    n_addrs = refl;
    n_keys = refl;
  },
)
write_snods_lem base i (leaf ∷ leaves) buf ((short, fits), fit) long small =
    let addr = base + i * 328 in
    let (mid, one) = write_snod_lem buf addr leaf short (omega arith) small fits in
    let (rest, later) =
      write_snods_lem base (i + 1) leaves mid fit (omega (arith, one.same_length))
        (omega (arith, one.same_length)) in
    let last : base + (i + 1 + length leaves) * 328 ≡ base + (i + length (leaf ∷ leaves)) * 328 =
      omega arith in
    (
      record rest {
        wrote = 328 + rest.wrote;
        next_addrs = addr ∷ rest.next_addrs;
        next_keys = closing_name leaf ∷ rest.next_keys;
      },
      record {
        ran = rw (one.wrote) (rw (later.ran) refl);
        same_length = later.same_length ∙ one.same_length;
        counted = omega (arith, later.counted);
        outside = λ p n side. later.outside p n (omega arith) ∙ one.outside p n (omega arith);
        stays = λ final kept.
            let here = one.stays final (
              kept.0 ∙ later.same_length,
              λ p n lo hi.
                  kept.1 p n (omega arith) (omega arith) ∙ later.outside p n (inl (omega arith)),
            ) in
            let others =
              later.stays final (kept.0, λ p n lo hi. kept.1 p n (omega arith) (omega arith)) in
            rw (here, others) (ap ok (sym (map-append read_back leaf (concat leaves))));
        placed = (
          omega arith,
          raise (base + (i + 1 + length leaves) * 328) (base + (i + length (leaf ∷ leaves)) * 328)
              (rest.next_addrs) last (later.placed),
        );
        n_addrs = ap suc (later.n_addrs);
        n_keys = ap suc (later.n_keys);
      },
    )

-- The leaves hold all the entries, eight or fewer each.
pub leaves_of_lem :
    (entries : List SnodEntry)
    → All EntryFits entries
    → (concat (leaves_of entries) ≡ entries)
      × (length (leaves_of entries) ≡ max (div_up (length entries) 8) 1)
      × All (λ leaf. (length leaf ≤ 8) × All EntryFits leaf) (leaves_of entries)
leaves_of_lem [] fit = (refl, omega arith, ((omega arith, tt), tt))
leaves_of_lem (entry ∷ entries) fit =
    let n = length (entry ∷ entries) in
    let (enough, tight) = div_up_bounds n 8 (omega arith) in
    (
      concat-chunks_from n 8 (entry ∷ entries) (omega arith) (omega arith),
      length-chunks_from n 8 (entry ∷ entries) (omega arith) (omega arith)
          ∙ (omega (arith, enough)),
      chunks_from-All EntryFits n 8 (entry ∷ entries) fit,
    )
