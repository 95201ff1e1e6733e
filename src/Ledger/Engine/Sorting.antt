-- ===== src/Ledger/Engine/Sorting.antt =====
-- An engine that meets the description: it filters, sorts by insertion and cuts off at the limit.
pub mod Laws
use dewey.Prelude.{
  ℕ, zero, suc, ◌≤◌, ◌<◌, ◌≡◌, refl, ap, ◌∙◌, sym, ◌⊎◌, inl, inr, Bool, true, false, ◌&&◌, ◌||◌,
  not, some, List, [], ◌∷◌, All, Pairwise, Distinct, contains, length, keep, take, arith,
  if◌then◌else◌, ◌==◌, Bool-cases, ==_iff, length-take-le,
}
use dewey.Core.Types.{TaskEntry}
use dewey.Ledger.{find, ids}
use dewey.Ledger.Engine.{Query, Engine, IsOrder, IsCandidate, IsSql}

insert : (TaskEntry → TaskEntry → Bool) → TaskEntry → List TaskEntry → List TaskEntry
insert before t [] = t ∷ []
insert before t (x ∷ xs) = if before t x then t ∷ x ∷ xs else x ∷ insert before t xs

sort : (TaskEntry → TaskEntry → Bool) → List TaskEntry → List TaskEntry
sort before [] = []
sort before (x ∷ xs) = insert before x (sort before xs)

abbrev other_id : ℕ → TaskEntry → Bool
other_id i t = not (i == t.id)

-- Ids are keys: a second row under an id that is taken is none.
keyed : List TaskEntry → List TaskEntry
keyed [] = []
keyed (t ∷ ts) = t ∷ keep (other_id t.id) (keyed ts)

abbrev candidate : (TaskEntry → Bool) → Query → TaskEntry → Bool
candidate locked q t = q.matches t && not (q.skip_locked && locked t)

unfoldable pub sorting : (TaskEntry → Bool) → Engine
unfolding sort insert keyed
sorting locked = record {
  select = λ q ts. take q.limit (sort q.before (keep (candidate locked q) (keyed ts)));
  locked = locked;
}

module _ (P : TaskEntry → Type 0) (before : TaskEntry → TaskEntry → Bool) where
  All-insert : (t : TaskEntry) (xs : List TaskEntry) → P t → All P xs → All P (insert before t xs)
  unfolding insert
  All-insert t [] h hs = (h, tt)
  All-insert t (x ∷ xs) h hs = ground (arith, All-insert t xs h hs.1)

  All-sort : (xs : List TaskEntry) → All P xs → All P (sort before xs)
  unfolding sort
  All-sort [] h = tt
  All-sort (x ∷ xs) h = All-insert x (sort before xs) h.0 (All-sort xs h.1)

module _ (P : TaskEntry → Type 0) where
  All-take : (n : ℕ) (xs : List TaskEntry) → All P xs → All P (take n xs)
  All-take zero xs h = tt
  All-take (suc n) [] h = tt
  All-take (suc n) (x ∷ xs) h = (h.0, All-take n xs h.1)

  -- What a filter lets through passes its test.
  All-keep_test :
      (Q : TaskEntry → Type 0) (p : TaskEntry → Bool)
      → ((t : TaskEntry) → Q t → p t ≡ true → P t)
      → (xs : List TaskEntry) → All Q xs
      → All P (keep p xs)
  All-keep_test Q p f [] h = tt
  All-keep_test Q p f (x ∷ xs) h = ground (arith, f x, All-keep_test Q p f xs h.1)

contains-insert :
    (before : TaskEntry → TaskEntry → Bool) (i : ℕ) (t : TaskEntry) (xs : List TaskEntry)
    → contains i (ids (insert before t xs)) ≡ ((i == t.id) || contains i (ids xs))
unfolding insert
contains-insert before i t [] = refl
contains-insert before i t (x ∷ xs) = ground (arith, contains-insert before i t xs)

contains-sort :
    (before : TaskEntry → TaskEntry → Bool) (i : ℕ) (xs : List TaskEntry)
    → contains i (ids (sort before xs)) ≡ contains i (ids xs)
unfolding sort
contains-sort before i [] = refl
contains-sort before i (x ∷ xs) =
    contains-insert before i x (sort before xs)
    ∙ ap (λ b. (i == x.id) || b) (contains-sort before i xs)

Distinct-insert :
    (before : TaskEntry → TaskEntry → Bool) (t : TaskEntry) (xs : List TaskEntry)
    → contains t.id (ids xs) ≡ false
    → Distinct (ids xs)
    → Distinct (ids (insert before t xs))
unfolding insert
Distinct-insert before t [] n d = (refl, tt)
Distinct-insert before t (x ∷ xs) n d =
    ground (arith, Distinct-insert before t xs, contains-insert before x.id t xs)

Distinct-sort :
    (before : TaskEntry → TaskEntry → Bool) (xs : List TaskEntry)
    → Distinct (ids xs)
    → Distinct (ids (sort before xs))
unfolding sort
Distinct-sort before [] d = tt
Distinct-sort before (x ∷ xs) d =
    Distinct-insert before x (sort before xs) (contains-sort before x.id xs ∙ d.0)
      (Distinct-sort before xs d.1)

contains-keep :
    (i : ℕ) (p : TaskEntry → Bool) (xs : List TaskEntry)
    → contains i (ids xs) ≡ false
    → contains i (ids (keep p xs)) ≡ false
contains-keep i p [] h = refl
contains-keep i p (x ∷ xs) h = ground (arith, contains-keep i p xs)

Distinct-keep :
    (p : TaskEntry → Bool) (xs : List TaskEntry) → Distinct (ids xs) → Distinct (ids (keep p xs))
Distinct-keep p [] d = tt
Distinct-keep p (x ∷ xs) d = ground (arith, Distinct-keep p xs d.1, contains-keep x.id p xs d.0)

contains-take :
    (i n : ℕ) (xs : List TaskEntry)
    → contains i (ids xs) ≡ false
    → contains i (ids (take n xs)) ≡ false
contains-take i zero xs h = refl
contains-take i (suc n) [] h = refl
contains-take i (suc n) (x ∷ xs) h = ground (arith, contains-take i n xs)

Distinct-take : (n : ℕ) (xs : List TaskEntry) → Distinct (ids xs) → Distinct (ids (take n xs))
Distinct-take zero xs d = tt
Distinct-take (suc n) [] d = tt
Distinct-take (suc n) (x ∷ xs) d = (contains-take x.id n xs d.0, Distinct-take n xs d.1)

contains-keep_other :
    (i : ℕ) (xs : List TaskEntry) → contains i (ids (keep (other_id i) xs)) ≡ false
contains-keep_other i [] = refl
contains-keep_other i (x ∷ xs) = ground (arith, contains-keep_other i xs)

Distinct-keyed : (ts : List TaskEntry) → Distinct (ids (keyed ts))
unfolding keyed
Distinct-keyed [] = tt
Distinct-keyed (t ∷ ts) = (
  contains-keep_other t.id (keyed ts),
  Distinct-keep (other_id t.id) (keyed ts) (Distinct-keyed ts),
)

-- Each row of `keyed ts` is the one that its id finds.
found-keyed : (ts : List TaskEntry) → All (λ t. find t.id ts ≡ some t) (keyed ts)
unfolding keyed find
found-keyed [] = tt
found-keyed (x ∷ ts) = (
  ground arith,
  All-keep_test (λ t. find t.id (x ∷ ts) ≡ some t) (λ t. find t.id ts ≡ some t) (other_id x.id)
      (λ t e p. ground arith) (keyed ts) (found-keyed ts),
)
