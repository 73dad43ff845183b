-- ===== src/GlobalHeap/Groups.antt =====
-- Objects spread over groups, and where each one stands.
use oxih.Base.{
  ℕ, zero, suc, ◌+◌, ◌-◌, ◌≤◌, ◌<◌, ◌≡◌, refl, List, [], ◌∷◌, ◌++◌, Option, none, some, arith,
  length, get_elem?, Option-cases, inl, inr,
}
use oxih.Bytes.{Bytes}
use oxih.Outcome.{ok}
use oxih.GlobalHeap.{align8, serialize_collection}
use oxih.GlobalHeap.Serialized.{total}
use oxih.GlobalHeap.Packing.{HeapObjectLocation}

-- Each collection is the serialized group.
abbrev pub Serialized : List (List Bytes) → List Bytes → Type 0
Serialized [] [] = Unit
Serialized (g ∷ groups) (bytes ∷ collections) =
    (serialize_collection g ≡ ok bytes) × Serialized groups collections
Serialized _ _ = ⊥

abbrev pub in_group : Option (List Bytes) → ℕ → Option Bytes
in_group none i = none
in_group (some g) i = get_elem? g i

-- Each location is where its object stands: a group, and a place in it counted from 1.
abbrev pub Located : List (List Bytes) → List HeapObjectLocation → List Bytes → Type 0
Located groups [] [] = Unit
Located groups (at ∷ locations) (obj ∷ objects) =
    ((0 < at.index) × (in_group (get_elem? groups (at.collection)) (at.index - 1) ≡ some obj))
    × Located groups locations objects
Located groups _ _ = ⊥

abbrev pub Extends : List (List Bytes) → List (List Bytes) → Type 0
Extends groups more =
    (c i : ℕ) (obj : Bytes)
    → in_group (get_elem? groups c) i ≡ some obj
    → in_group (get_elem? more c) i ≡ some obj

module _ {ℓ} {A : Type ℓ} where
  pub get_elem?-append_left :
      (xs ys : List A) (i : ℕ) {a : A} → get_elem? xs i ≡ some a → get_elem? (xs ++ ys) i ≡ some a
  get_elem?-append_left [] ys i h = cc
  get_elem?-append_left (x ∷ xs) ys zero h = h
  get_elem?-append_left (x ∷ xs) ys (suc i) h = get_elem?-append_left xs ys i h

  pub get_elem?-append_last :
      (xs : List A) (a : A) → get_elem? (xs ++ (a ∷ [])) (length xs) ≡ some a
  get_elem?-append_last [] a = refl
  get_elem?-append_last (x ∷ xs) a = get_elem?-append_last xs a

pub new-Extends :
    (groups : List (List Bytes)) (g : List Bytes) → Extends groups (groups ++ (g ∷ []))
new-Extends groups g c i obj h = elim (Option-cases (get_elem? groups c)) [
  | inl past ↦ absurd (cc (rw past at h))
  | inr (found, at) ↦ rw (get_elem?-append_left groups (g ∷ []) c at) (rw at at h)
]

pub grown-Extends :
    (groups : List (List Bytes)) (g : List Bytes) (obj : Bytes)
    → Extends (groups ++ (g ∷ [])) (groups ++ ((g ++ (obj ∷ [])) ∷ []))
grown-Extends [] g obj zero i o h = get_elem?-append_left g (obj ∷ []) i h
grown-Extends [] g obj (suc c) i o h = cc
grown-Extends (x ∷ groups) g obj zero i o h = h
grown-Extends (x ∷ groups) g obj (suc c) i o h = grown-Extends groups g obj c i o h

pub idle-Extends : (groups : List (List Bytes)) → Extends (groups ++ ([] ∷ [])) groups
idle-Extends [] zero i o h = cc
idle-Extends [] (suc c) i o h = cc
idle-Extends (x ∷ groups) zero i o h = h
idle-Extends (x ∷ groups) (suc c) i o h = idle-Extends groups c i o h

pub Located-Extends :
    (groups more : List (List Bytes)) (locations : List HeapObjectLocation) (objects : List Bytes)
    → Extends groups more
    → Located groups locations objects
    → Located more locations objects
Located-Extends groups more [] [] e h = tt
Located-Extends groups more [] (obj ∷ objects) e h = absurd h
Located-Extends groups more (at ∷ locations) [] e h = absurd h
Located-Extends groups more (at ∷ locations) (obj ∷ objects) e (h, hs) = (
  (h.0, e (at.collection) (at.index - 1) obj h.1),
  Located-Extends groups more locations objects e hs,
)

pub Located-append :
    (groups : List (List Bytes)) (locations : List HeapObjectLocation) (objects : List Bytes)
    (at : HeapObjectLocation) (obj : Bytes)
    → Located groups locations objects
    → (0 < at.index) × (in_group (get_elem? groups (at.collection)) (at.index - 1) ≡ some obj)
    → Located groups (locations ++ (at ∷ [])) (objects ++ (obj ∷ []))
Located-append groups [] [] at obj h k = (k, tt)
Located-append groups [] (o ∷ objects) at obj h k = absurd h
Located-append groups (l ∷ locations) [] at obj h k = absurd h
Located-append groups (l ∷ locations) (o ∷ objects) at obj (h, hs) k =
    (h, Located-append groups locations objects at obj hs k)

pub Serialized-append :
    (groups : List (List Bytes)) (collections : List Bytes) (g : List Bytes) (bytes : Bytes)
    → Serialized groups collections
    → serialize_collection g ≡ ok bytes
    → Serialized (groups ++ (g ∷ [])) (collections ++ (bytes ∷ []))
Serialized-append [] [] g bytes h k = (k, tt)
Serialized-append [] (c ∷ collections) g bytes h k = absurd h
Serialized-append (x ∷ groups) [] g bytes h k = absurd h
Serialized-append (x ∷ groups) (c ∷ collections) g bytes (h, hs) k =
    (h, Serialized-append groups collections g bytes hs k)

pub length-Serialized :
    (groups : List (List Bytes)) (collections : List Bytes)
    → Serialized groups collections
    → length collections ≡ length groups
length-Serialized [] [] h = refl
length-Serialized [] (c ∷ collections) h = absurd h
length-Serialized (x ∷ groups) [] h = absurd h
length-Serialized (x ∷ groups) (c ∷ collections) (h, hs) =
    omega (arith, length-Serialized groups collections hs)

pub total-append :
    (objects : List Bytes) (obj : Bytes)
    → total (objects ++ (obj ∷ [])) ≡ total objects + (16 + align8 (length obj))
total-append [] obj = omega arith
total-append (o ∷ objects) obj = omega (arith, total-append objects obj)

pub total-prefix : (xs ys : List Bytes) → total xs ≤ total (xs ++ ys)
total-prefix [] ys = omega arith
total-prefix (x ∷ xs) ys = omega (arith, total-prefix xs ys)
