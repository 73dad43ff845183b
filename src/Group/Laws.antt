-- ===== src/Group/Laws.antt =====
-- The walks over an old-style group agree with one another: what `find_entry` returns is what
-- `list_entries` lists under that name.
use oxih.Base.{
  ℕ, ◌≡◌, ◌≢◌, refl, sym, ◌∙◌, ap, List, [], ◌∷◌, ◌++◌, none, some, append-nil, append_assoc, inl,
  inr,
}
use oxih.Bytes.{Bytes}
use oxih.Outcome.{Error, Outcome, ok, err, panic, ◌>>=◌, not_found, >>=-eq-ok, Outcome-cases}
use oxih.LocalHeap
use oxih.LocalHeap.{LocalHeap}
use oxih.Snod
use oxih.Snod.{SymTabEntry}
use oxih.GroupBtree
use oxih.Group.{
  SymTabLink, Step, next, done, walk_entries, walk_leaves, match_entry, push_entry, list_entries,
  find_entry, trim_slashes, found, gathered,
}
use oxih.Group.Listing.{
  Listing, lookup, ok_eq, entry_out, listing, listing_step, walk_push, search_listing, Answers,
  match_entry-ne-not_found,
}

-- All entries of the leaves, in order.
read_leaves : Bytes → List ℕ → Outcome (List SymTabEntry)
read_leaves file [] = ok []
read_leaves file (leaf ∷ leaves) = do
  here ← Snod.parse file leaf
  later ← read_leaves file leaves
  ok (here ++ later)

walk_entries-append :
    {A B : Type 0} (body : A → SymTabEntry → Outcome (Step A B)) (acc : A)
    (xs ys : List SymTabEntry)
    → walk_entries body acc (xs ++ ys) ≡ (
        walk_entries body acc xs >>= λ s. elim s [
          | next acc' ↦ walk_entries body acc' ys
          | done r ↦ ok (done r)
        ])
unfolding walk_entries
walk_entries-append body acc [] ys = refl
walk_entries-append body acc (x ∷ xs) ys = elim (Outcome-cases (body acc x)) [
  | inl (next acc', e) ↦ rw e (walk_entries-append body acc' xs ys)
  | inl (done r, e) ↦ rw e
  | inr (inl (x', e)) ↦ rw e
  | inr (inr e) ↦ rw e
]

walk_leaves-cons :
    {A B : Type 0} (body : A → SymTabEntry → Outcome (Step A B)) (file : Bytes) (acc : A) (leaf : ℕ)
    (leaves : List ℕ) (here later : List SymTabEntry)
    → Snod.parse file leaf ≡ ok here
    → ((acc' : A) → walk_leaves body file acc' leaves ≡ walk_entries body acc' later)
    → walk_leaves body file acc (leaf ∷ leaves) ≡ walk_entries body acc (here ++ later)
unfolding walk_leaves
walk_leaves-cons body file acc leaf leaves here later one ih =
    rw (one, walk_entries-append body acc here later)
      (elim (Outcome-cases (walk_entries body acc here)) [
        | inl (next acc', e) ↦ rw e (ih acc')
        | inl (done r, e) ↦ rw e
        | inr (inl (x, e)) ↦ rw e
        | inr (inr e) ↦ rw e
      ])

-- Where every leaf can be parsed, the walk is the walk over all entries.
walk_leaves-read :
    {A B : Type 0} (body : A → SymTabEntry → Outcome (Step A B)) (file : Bytes) (acc : A)
    (leaves : List ℕ) (entries : List SymTabEntry)
    → read_leaves file leaves ≡ ok entries
    → walk_leaves body file acc leaves ≡ walk_entries body acc entries
unfolding read_leaves
walk_leaves-read body file acc [] entries h =
    rw (← ok_eq h) (unfold walk_leaves walk_entries in refl)
walk_leaves-read body file acc (leaf ∷ leaves) entries h =
    let (here, one, rest) = >>=-eq-ok (Snod.parse file leaf) _ h in
    let (later, others, whole) = >>=-eq-ok (read_leaves file leaves) _ rest in
    walk_leaves-cons body file acc leaf leaves here later one
      (λ acc'. walk_leaves-read body file acc' leaves later others)
    ∙ ap (walk_entries body acc) (ok_eq whole)

listing-append :
    (heap : LocalHeap) (xs ys : List SymTabEntry) (a b : Listing)
    → listing heap xs ≡ ok a
    → listing heap ys ≡ ok b
    → listing heap (xs ++ ys) ≡ ok (a ++ b)
unfolding listing
listing-append heap [] ys a b h k = rw (← ok_eq h) k
listing-append heap (x ∷ xs) ys a b h k =
    let (here, one, rest) = >>=-eq-ok (entry_out heap x) _ h in
    let (later, others, whole) = >>=-eq-ok (listing heap xs) _ rest in
    listing_step heap x (xs ++ ys) here (later ++ b) one
      (listing-append heap xs ys later b others k)
    ∙ ap ok (sym (append_assoc here later b) ∙ ap (λ (l : Listing). l ++ b) (ok_eq whole))

-- A listing that succeeds has read every leaf.
Reads : LocalHeap → Bytes → List ℕ → Listing → Step Listing Listing → Type 0
Reads heap file leaves acc s =
    (entries : List SymTabEntry) × (out : Listing) × (read_leaves file leaves ≡ ok entries)
    × (listing heap entries ≡ ok out)
    × (s ≡ next (acc ++ out))

list-Reads-cons :
    (heap : LocalHeap) (file : Bytes) (leaf : ℕ) (leaves : List ℕ) (acc : Listing)
    (here : List SymTabEntry) (x : Listing) (s : Step Listing Listing)
    → Snod.parse file leaf ≡ ok here
    → listing heap here ≡ ok x
    → Reads heap file leaves (acc ++ x) s
    → Reads heap file (leaf ∷ leaves) acc s
unfolding Reads read_leaves
list-Reads-cons heap file leaf leaves acc here x s one listed (entries, out, read, outs, is) = (
  here ++ entries,
  x ++ out,
  rw (one, read),
  listing-append heap here entries x out listed outs,
  is ∙ ap (λ (l : Listing). next l) (append_assoc acc x out),
)

list-Reads :
    (heap : LocalHeap) (file : Bytes) (leaves : List ℕ) (acc : Listing) (s : Step Listing Listing)
    → walk_leaves (push_entry heap) file acc leaves ≡ ok s
    → Reads heap file leaves acc s
unfolding walk_leaves
list-Reads heap file [] acc s h =
    unfold Reads read_leaves listing in ([], [], refl, refl, rw append-nil (sym (ok_eq h)))
list-Reads heap file (leaf ∷ leaves) acc s h =
    let (here, one, rest) = >>=-eq-ok (Snod.parse file leaf) _ h in
    let rest' = rw (walk_push heap here acc) at rest in
    elim (Outcome-cases (listing heap here)) [
      | inl (x, e) ↦
          list-Reads-cons heap file leaf leaves acc here x s one e
            (list-Reads heap file leaves (acc ++ x) s (rw e at rest'))
      | inr (inl (x, e)) ↦ absurd (cc (rw e at rest'))
      | inr (inr e) ↦ absurd (cc (rw e at rest'))
    ]

find_entry_steps :
    (file : Bytes) (btree_address heap_address : ℕ) (name : Bytes) (heap : LocalHeap)
    (leaves : List ℕ) (entries : List SymTabEntry)
    → LocalHeap.parse file heap_address ≡ ok heap
    → GroupBtree.parse file btree_address ≡ ok leaves
    → read_leaves file leaves ≡ ok entries
    → find_entry file btree_address heap_address name
      ≡ (walk_entries (match_entry heap (trim_slashes name)) tt entries >>= found)
unfolding find_entry
find_entry_steps file btree_address heap_address name heap leaves entries a b c =
    rw (a, b, walk_leaves-read (match_entry heap (trim_slashes name)) file tt leaves entries c)

err_eq :
    {x y : Error}
    → ◌≡◌ {A = Outcome SymTabLink} (err x) (err y)
    → ◌≡◌ {A = Outcome (Step (Unit {0}) SymTabLink)} (err x) (err y)
err_eq e = cc

Answers-found :
    (target : Bytes) (out : Listing) (r : Outcome (Step (Unit {0}) SymTabLink))
    → r ≢ err not_found
    → Answers target out r
    → ((link : SymTabLink) → (r >>= found) ≡ ok link → lookup target out ≡ some link)
      × ((r >>= found) ≡ err not_found → lookup target out ≡ none)
Answers-found target out (ok (next u)) ne (a, b) = (λ link e. absurd (cc e), λ e. b refl)
Answers-found target out (ok (done l)) ne (a, b) =
    (λ link e. a link (ap (λ x. ok (done x)) (ok_eq e)), λ e. absurd (cc e))
Answers-found target out (err x) ne (a, b) = (λ link e. absurd (cc e), λ e. absurd (ne (err_eq e)))
Answers-found target out panic ne (a, b) = (λ link e. absurd (cc e), λ e. absurd (cc e))

-- Where the whole group can be listed, and the name without its leading slashes is not empty: the
-- link that `find_entry` returns is the first that `list_entries` lists under the name, and a name
-- that it reports as not found is not listed.
pub find_entry-list_entries :
    (file : Bytes) (btree_address heap_address : ℕ) (name : Bytes)
    (entries : List (Bytes × SymTabLink))
    → list_entries file btree_address heap_address ≡ ok entries
    → trim_slashes name ≢ []
    → ((link : SymTabLink)
        → find_entry file btree_address heap_address name ≡ ok link
        → lookup (trim_slashes name) entries ≡ some link)
      × (find_entry file btree_address heap_address name ≡ err not_found
          → lookup (trim_slashes name) entries ≡ none)
unfolding list_entries
find_entry-list_entries file btree_address heap_address name entries h ne =
    let (heap, a, h1) = >>=-eq-ok (LocalHeap.parse file heap_address) _ h in
    let (leaves, b, h2) = >>=-eq-ok (GroupBtree.parse file btree_address) _ h1 in
    let (s, walked, h3) = >>=-eq-ok (walk_leaves (push_entry heap) file [] leaves) _ h2 in
    unfold Reads in
    let (all, out, read, listed, is) = list-Reads heap file leaves [] s walked in
    let search = search_listing heap (trim_slashes name) all out ne listed in
    let steps = find_entry_steps file btree_address heap_address name heap leaves all a b read in
    let result : out ≡ entries = sym (ap gathered is) ∙ ok_eq h3 in
    rw (← result) (
      rw steps (
        Answers-found (trim_slashes name) out _
          (match_entry-ne-not_found heap (trim_slashes name) all) search))
