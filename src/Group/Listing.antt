-- ===== src/Group/Listing.antt =====
-- One entry of a group and a list of entries: the search by name against the listing.
use oxih.Base.{
  ℕ, ◌≡◌, ◌≢◌, refl, sym, ◌∙◌, ap, List, [], ◌∷◌, ◌++◌, Option, none, some, arith, append-nil,
  append_assoc, Bool-cases, inl, inr, false, if◌then◌else◌, ◌⊎◌,
}
use oxih.Bytes.{Bytes, eq_bytes, eq_bytes_iff, eq_bytes_refl}
use oxih.Outcome.{Outcome, ok, err, panic, ◌>>=◌, not_found, >>=-eq-ok, bind_assoc, Outcome-cases}
use oxih.LocalHeap
use oxih.LocalHeap.{LocalHeap}
use oxih.Snod.{SymTabEntry}
use oxih.Group.{
  SymTabLink, entry_to_link, Step, next, done, walk_entries, match_entry, push_entry, cache_to_link,
  SymTabCache,
}

abbrev pub Listing : Type 0
Listing = List (Bytes × SymTabLink)

-- The first link listed under a name.
abbrev pub lookup : Bytes → Listing → Option SymTabLink
lookup name [] = none
lookup name ((key, link) ∷ entries) = if eq_bytes key name then some link else lookup name entries

lookup-append :
    (name : Bytes) (xs ys : Listing) (link : SymTabLink)
    → lookup name xs ≡ some link
    → lookup name (xs ++ ys) ≡ some link
lookup-append name [] ys link h = absurd (cc h)
lookup-append name ((key, l) ∷ xs) ys link h = ground (arith, lookup-append name xs ys link)

-- What one entry adds to the listing.
abbrev kept : Bytes → Outcome SymTabLink → Outcome Listing
kept name (ok link) = ok ((name, link) ∷ [])
kept name (err e) = ok []
kept name panic = panic

unfoldable pub entry_out : LocalHeap → SymTabEntry → Outcome Listing
entry_out heap entry = do
  name ← LocalHeap.name_at heap entry.name_offset
  if eq_bytes name [] then ok [] else kept name (entry_to_link entry heap)

unfoldable pub listing : LocalHeap → List SymTabEntry → Outcome Listing
listing heap [] = ok []
listing heap (entry ∷ entries) = do
  here ← entry_out heap entry
  later ← listing heap entries
  ok (here ++ later)

pub listing_step :
    (heap : LocalHeap) (x : SymTabEntry) (xs : List SymTabEntry) (here later : Listing)
    → entry_out heap x ≡ ok here
    → listing heap xs ≡ ok later
    → listing heap (x ∷ xs) ≡ ok (here ++ later)
unfolding listing
listing_step heap x xs here later one others = rw (one, others)

push_entry_lem :
    (heap : LocalHeap) (acc : Listing) (entry : SymTabEntry)
    → push_entry heap acc entry ≡ (entry_out heap entry >>= λ x. ok (next (acc ++ x)))
unfolding push_entry entry_out
push_entry_lem heap acc entry = ground (arith, append-nil acc)

pub walk_push :
    (heap : LocalHeap) (entries : List SymTabEntry) (acc : Listing)
    → walk_entries (push_entry heap) acc entries
      ≡ (listing heap entries >>= λ x. ok (next (acc ++ x)))
unfolding walk_entries listing
walk_push heap [] acc = rw append-nil
walk_push heap (entry ∷ entries) acc =
    rw (push_entry_lem heap acc entry) (elim (Outcome-cases (entry_out heap entry)) [
      | inl (x, e) ↦ rw e (walk_push heap entries (acc ++ x) ∙ simp (append_assoc, bind_assoc))
      | inr (inl (x, e)) ↦ rw e
      | inr (inr e) ↦ rw e
    ])

pub ok_eq {ℓ} : {A : Type ℓ} {a b : A} → ok a ≡ ok b → a ≡ b
ok_eq h = cc

done_eq : {a b : SymTabLink} → ◌≡◌ {A = Step (Unit {0}) SymTabLink} (done a) (done b) → a ≡ b
done_eq h = cc

-- One entry, searched and listed.
abbrev SearchesAs : LocalHeap → Bytes → SymTabEntry → Listing → Type 0
SearchesAs heap target entry here =
    ((link : SymTabLink) × (match_entry heap target tt entry ≡ ok (done link))
      × (here ≡ (target, link) ∷ []))
    ⊎ ((match_entry heap target tt entry ≡ ok (next tt)) × (lookup target here ≡ none))
    ⊎ ((r : Step (Unit {0}) SymTabLink) → match_entry heap target tt entry ≢ ok r)

search_named :
    (heap : LocalHeap) (target : Bytes) (entry : SymTabEntry) (here : Listing)
    → target ≢ []
    → LocalHeap.name_at heap entry.name_offset ≡ ok target
    → entry_out heap entry ≡ ok here
    → SearchesAs heap target entry here
unfolding entry_out match_entry
search_named heap target entry here ne named h =
    let full : eq_bytes target [] ≡ false = unfold eq_bytes in ground arith in
    elim (Outcome-cases (entry_to_link entry heap)) [
      | inl (link, e) ↦
          inl (link, rw (named, eq_bytes_refl target, e), sym (ok_eq (rw (named, full, e) at h)))
      | inr (inl (x, e)) ↦ inr (inr (λ r q. cc (rw (named, eq_bytes_refl target, e) at q)))
      | inr (inr e) ↦ absurd (cc (rw (named, full, e) at h))
    ]

search_other :
    (heap : LocalHeap) (target name : Bytes) (entry : SymTabEntry) (here : Listing)
    → eq_bytes name target ≡ false
    → LocalHeap.name_at heap entry.name_offset ≡ ok name
    → entry_out heap entry ≡ ok here
    → SearchesAs heap target entry here
unfolding entry_out match_entry
search_other heap target name entry here other named h = inr (inl (rw (named, other), unlisted))
  where
    unlisted : lookup target here ≡ none
    unlisted = ground arith

search_entry :
    (heap : LocalHeap) (target : Bytes) (entry : SymTabEntry) (here : Listing)
    → target ≢ []
    → entry_out heap entry ≡ ok here
    → SearchesAs heap target entry here
unfolding entry_out
search_entry heap target entry here ne h =
    elim (Outcome-cases (LocalHeap.name_at heap entry.name_offset)) [
      | inl (name, e) ↦ elim (Bool-cases (eq_bytes name target)) [
        | inl same ↦
            search_named heap target entry here ne (e ∙ ap ok ((eq_bytes_iff name target).0 same)) h
        | inr other ↦ search_other heap target name entry here other e h
      ]
      | inr (inl (x, e)) ↦ absurd (cc (rw (e, entry_out) at h))
      | inr (inr e) ↦ absurd (cc (rw (e, entry_out) at h))
    ]

lookup-append_none :
    (name : Bytes) (xs ys : Listing)
    → lookup name xs ≡ none
    → lookup name (xs ++ ys) ≡ lookup name ys
lookup-append_none name [] ys h = refl
lookup-append_none name ((key, l) ∷ xs) ys h = ground (arith, lookup-append_none name xs ys)

stops :
    {A B : Type 0} (m : Outcome A) (f : A → Outcome B) {b : B}
    → ((r : A) → m ≢ ok r)
    → (m >>= f) ≡ ok b
    → ⊥
stops m f never e = let (r, is, after) = >>=-eq-ok m f e in never r is

-- What a search answers, against a listing.
abbrev pub Answers : Bytes → Listing → Outcome (Step (Unit {0}) SymTabLink) → Type 0
Answers target out r =
    ((link : SymTabLink) → r ≡ ok (done link) → lookup target out ≡ some link)
    × (r ≡ ok (next tt) → lookup target out ≡ none)

-- The search over a list of entries, against their listing.
pub search_listing :
    (heap : LocalHeap) (target : Bytes) (entries : List SymTabEntry) (out : Listing)
    → target ≢ []
    → listing heap entries ≡ ok out
    → Answers target out (walk_entries (match_entry heap target) tt entries)
unfolding walk_entries listing
search_listing heap target [] out ne h = (λ link e. absurd (cc e), λ e. ground arith)
search_listing heap target (entry ∷ entries) out ne h =
    let (here, one, rest) = >>=-eq-ok (entry_out heap entry) _ h in
    let (later, others, whole) = >>=-eq-ok (listing heap entries) _ rest in
    let ih = search_listing heap target entries later ne others in
    rw (← ok_eq whole) (elim (search_entry heap target entry here ne one) [
      | inl (link, met, is) ↦ (
        λ l e. rw is (rw (eq_bytes_refl target) (ap some (done_eq (ok_eq (rw met at e))))),
        λ e. absurd (cc (rw met at e)),
      )
      | inr (inl (on, fresh)) ↦ (
        λ l e. lookup-append_none target here later fresh ∙ ih.0 l (rw on at e),
        λ e. lookup-append_none target here later fresh ∙ ih.1 (rw on at e),
      )
      | inr (inr never) ↦ (
        λ l e. absurd (stops (match_entry heap target tt entry) _ never e),
        λ e. absurd (stops (match_entry heap target tt entry) _ never e),
      )
    ])

name_at-ne-not_found :
    (heap : LocalHeap) (offset : ℕ) → LocalHeap.name_at heap offset ≢ err not_found
unfolding LocalHeap.name_at
name_at-ne-not_found heap offset = ground arith

cache_to_link-ne-not_found :
    (cache : SymTabCache) (address : ℕ) (heap : LocalHeap)
    → cache_to_link cache address heap ≢ err not_found
unfolding cache_to_link
cache_to_link-ne-not_found (SymTabCache.soft_link offset) address heap =
    ground (arith, name_at-ne-not_found heap offset)
cache_to_link-ne-not_found _ address heap = ground arith

pub match_entry-ne-not_found :
    (heap : LocalHeap) (target : Bytes) (entries : List SymTabEntry)
    → walk_entries (match_entry heap target) tt entries ≢ err not_found
unfolding walk_entries match_entry entry_to_link
match_entry-ne-not_found heap target [] = λ e. cc
match_entry-ne-not_found heap target (entry ∷ entries) = ground (
  arith,
  name_at-ne-not_found heap entry.name_offset,
  cache_to_link-ne-not_found entry.cache entry.object_header_address heap,
  match_entry-ne-not_found heap target entries,
)
