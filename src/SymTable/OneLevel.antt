-- ===== src/SymTable/OneLevel.antt =====
-- One level of nodes over any number of children.
use oxih.Base.{
  ℕ, zero, suc, ◌+◌, ◌*◌, ◌<◌, ◌≤◌, ◌≡◌, List, [], ◌∷◌, arith, length, drop, length-take,
  length-drop, All-take, All-drop, subst,
}
use oxih.Bytes.{Bytes}
use oxih.Outcome.{word}
use oxih.SymTable.{Written, div_up, chunks_from, chunks}
use oxih.SymTable.Node.{Addresses}
use oxih.SymTable.Chunks.{concat, concat-chunks_from, length-chunks_from}
use oxih.SymTable.Level.{Paired, WritesNodes, write_nodes_lem}

chunks_from-Paired :
    (fuel : ℕ) (addrs keys : List ℕ)
    → length addrs ≡ length keys
    → Addresses addrs
    → Paired (chunks_from fuel 32 addrs) (chunks_from fuel 32 keys)
unfolding chunks_from
chunks_from-Paired zero addrs keys same all = tt
chunks_from-Paired (suc fuel) [] [] same all = tt
chunks_from-Paired (suc fuel) [] (k ∷ keys) same all = absurd (omega (arith, same))
chunks_from-Paired (suc fuel) (a ∷ addrs) [] same all = absurd (omega (arith, same))
chunks_from-Paired (suc fuel) (a ∷ addrs) (k ∷ keys) same all = (
  omega (arith, same, length-take 32 (a ∷ addrs), length-take 32 (k ∷ keys)),
  omega (arith, length-take 32 (a ∷ addrs)),
  All-take (λ c. c < word) 32 (a ∷ addrs) all,
  chunks_from-Paired fuel (drop 32 (a ∷ addrs)) (drop 32 (k ∷ keys))
      (omega (arith, same, length-drop 32 (a ∷ addrs), length-drop 32 (k ∷ keys)))
      (All-drop (λ c. c < word) 32 (a ∷ addrs) all),
)

-- One level over some children.
pub level_lem :
    (level base : ℕ) (child_addrs child_keys : List ℕ) (buf : Bytes)
    → level < 256
    → length child_addrs ≡ length child_keys
    → Addresses child_addrs
    → base + div_up (length child_addrs) 32 * 544 ≤ length buf
    → length buf < word
    → (done : Written) × WritesNodes level base
        (div_up (length child_addrs) 32)
        0
        (chunks 32 child_addrs)
        (chunks 32 child_keys)
        buf
        done
      × (length (chunks 32 child_addrs) ≡ div_up (length child_addrs) 32)
      × (concat (chunks 32 child_addrs) ≡ child_addrs)
level_lem level base child_addrs child_keys buf low same all long small =
    let count =
      length-chunks_from (length child_addrs) 32 child_addrs (omega arith) (omega arith) in
    let pairs : Paired (chunks 32 child_addrs) (chunks 32 child_keys) =
      subst
        (λ n.
          Paired (chunks_from (length child_addrs) 32 child_addrs) (chunks_from n 32 child_keys))
        same (chunks_from-Paired (length child_addrs) child_addrs child_keys same all) in
    let (done, writes) =
      write_nodes_lem level base (div_up (length child_addrs) 32) 0 (chunks 32 child_addrs)
        (chunks 32 child_keys) buf low pairs (omega (arith, count)) small in
    (
      done,
      writes,
      count,
      concat-chunks_from (length child_addrs) 32 child_addrs (omega arith) (omega arith),
    )
