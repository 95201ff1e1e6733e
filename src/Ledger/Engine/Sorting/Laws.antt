-- ===== src/Ledger/Engine/Sorting/Laws.antt =====
-- The sorting engine is an SQL engine.
use dewey.Prelude.{
  ℕ, zero, suc, ◌<◌, ◌≡◌, refl, ap, ◌∙◌, sym, inl, inr, Bool, true, false, some, List, [], ◌∷◌, All,
  Pairwise, contains, length, keep, take, arith, ◌==◌, Bool-cases, ==_iff, length-take-le, subst,
  All-mono,
}
use dewey.Core.Types.{TaskEntry}
use dewey.Ledger.{find, ids}
use dewey.Ledger.Engine.{Query, IsOrder, IsCandidate, IsSql}
use dewey.Ledger.Engine.Sorting.{
  insert, sort, keyed, sorting, candidate, other_id, All-insert, All-sort, All-take, All-keep_test,
  contains-sort, Distinct-sort, Distinct-keep, Distinct-take, Distinct-keyed, found-keyed,
}

-- What holds of all rows of a list holds of the row that stands there under its id.
at_id :
    (P : TaskEntry → Type 0) (ys : List TaskEntry) (t : TaskEntry)
    → All P ys
    → All (λ s. t.id ≡ s.id → s ≡ t) ys
    → contains t.id (ids ys) ≡ true
    → P t
at_id P [] t a u m = cc
at_id P (y ∷ ys) t a u m = elim (Bool-cases (t.id == y.id)) [
  | inl p ↦ subst P (u.0 ((==_iff t.id y.id).0 p)) a.0
  | inr p ↦ at_id P ys t a.1 u.1 (rw p at m)
]

module _ (before : TaskEntry → TaskEntry → Bool) (o : IsOrder before) where
  All-before :
      (t x : TaskEntry) (xs : List TaskEntry)
      → before t x ≡ true
      → All (λ y. before x y ≡ true) xs
      → All (λ y. before t y ≡ true) xs
  All-before t x xs h hs =
      All-mono (λ y. before t y ≡ true) (λ y. before x y ≡ true) (λ y k. o.trans t x y h k) xs hs

  Pairwise-insert :
      (t : TaskEntry) (xs : List TaskEntry)
      → Pairwise (λ a b. before a b ≡ true) xs
      → Pairwise (λ a b. before a b ≡ true) (insert before t xs)
  unfolding insert
  Pairwise-insert t [] h = (tt, tt)
  Pairwise-insert t (x ∷ xs) h = elim (Bool-cases (before t x)) [
    | inl p ↦ rw p ((p, All-before t x xs p h.0), h)
    | inr p ↦ rw p (
      All-insert (λ y. before x y ≡ true) before t xs (ground (arith, o.total t x)) h.0,
      Pairwise-insert t xs h.1,
    )
  ]

  Pairwise-sort : (xs : List TaskEntry) → Pairwise (λ a b. before a b ≡ true) (sort before xs)
  unfolding sort
  Pairwise-sort [] = tt
  Pairwise-sort (x ∷ xs) = Pairwise-insert x (sort before xs) (Pairwise-sort xs)

  -- A row behind the cut comes after all that stand before it.
  All-before_cut :
      (n : ℕ) (xs : List TaskEntry) (t : TaskEntry)
      → Pairwise (λ a b. before a b ≡ true) xs
      → All (λ s. t.id ≡ s.id → s ≡ t) xs
      → contains t.id (ids xs) ≡ true
      → contains t.id (ids (take n xs)) ≡ false
      → All (λ s. before s t ≡ true) (take n xs)
  All-before_cut zero xs t h u m c = tt
  All-before_cut (suc n) [] t h u m c = tt
  All-before_cut (suc n) (x ∷ xs) t h u m c = elim (Bool-cases (t.id == x.id)) [
    | inl p ↦ ground arith
    | inr p ↦ (
      at_id (λ y. before x y ≡ true) xs t h.0 u.1 (rw p at m),
      All-before_cut n xs t h.1 u.1 (rw p at m) (rw p at c),
    )
  ]

Pairwise-take :
    (R : TaskEntry → TaskEntry → Type 0) (n : ℕ) (xs : List TaskEntry)
    → Pairwise R xs
    → Pairwise R (take n xs)
Pairwise-take R zero xs h = tt
Pairwise-take R (suc n) [] h = tt
Pairwise-take R (suc n) (x ∷ xs) h = (All-take (R x) n xs h.0, Pairwise-take R n xs h.1)

take_short : (n : ℕ) (xs : List TaskEntry) → length (take n xs) < n → take n xs ≡ xs
take_short zero xs h = elim h [ ]
take_short (suc n) [] h = refl
take_short (suc n) (x ∷ xs) h = ap (λ t. x ∷ t) (take_short n xs (omega arith))

contains-keep_test :
    (p : TaskEntry → Bool) (t : TaskEntry) (xs : List TaskEntry)
    → All (λ s. t.id ≡ s.id → s ≡ t) xs
    → p t ≡ true
    → contains t.id (ids xs) ≡ true
    → contains t.id (ids (keep p xs)) ≡ true
contains-keep_test p t [] u h m = m
contains-keep_test p t (x ∷ xs) u h m = elim (Bool-cases (t.id == x.id)) [
  | inl e ↦
      let px : p x ≡ true = subst (λ z. p z ≡ true) (sym (u.0 ((==_iff t.id x.id).0 e))) h in
      rw px (rw e)
  | inr e ↦ ground (arith, contains-keep_test p t xs u.1 h (rw e at m))
]

contains-keep_ne :
    (i k : ℕ) (xs : List TaskEntry)
    → (i == k) ≡ false
    → contains i (ids xs) ≡ true
    → contains i (ids (keep (other_id k) xs)) ≡ true
contains-keep_ne i k [] n m = m
contains-keep_ne i k (x ∷ xs) n m = ground (arith, contains-keep_ne i k xs n)

contains-keyed :
    (i : ℕ) (ts : List TaskEntry) (t : TaskEntry)
    → find i ts ≡ some t
    → contains i (ids (keyed ts)) ≡ true
unfolding find keyed
contains-keyed i [] t h = cc
contains-keyed i (x ∷ ts) t h = elim (Bool-cases (i == x.id)) [
  | inl e ↦ rw e
  | inr e ↦ ground (arith, contains-keyed i ts t, contains-keep_ne i x.id (keyed ts) e)
]

-- The rows of `keyed ts` under the id of a row that is found are that row.
same_row :
    (ts xs : List TaskEntry) (t : TaskEntry)
    → find t.id ts ≡ some t
    → All (λ s. find s.id ts ≡ some s) xs
    → All (λ s. t.id ≡ s.id → s ≡ t) xs
same_row ts xs t h a =
    All-mono (λ s. t.id ≡ s.id → s ≡ t) (λ s. find s.id ts ≡ some s)
      (λ s f e. cc (f, h, ap (λ k. find k ts) e)) xs a

module _ (locked : TaskEntry → Bool) (q : Query) (ts : List TaskEntry) where
  abbrev kept : List TaskEntry
  kept = keep (candidate locked q) (keyed ts)

  kept_found : All (λ t. (find t.id ts ≡ some t) × (q.matches t ≡ true)) kept
  kept_found =
      All-keep_test (λ t. (find t.id ts ≡ some t) × (q.matches t ≡ true))
        (λ t. find t.id ts ≡ some t) (candidate locked q) (λ t f p. (f, ground arith)) (keyed ts)
        (found-keyed ts)

  sorted_found : All (λ t. (find t.id ts ≡ some t) × (q.matches t ≡ true)) (sort q.before kept)
  sorted_found = All-sort _ q.before kept kept_found

  candidate_kept :
      (t : TaskEntry)
      → IsCandidate (sorting locked) q ts t
      → contains t.id (ids (sort q.before kept)) ≡ true
  unfolding sorting
  candidate_kept t c =
      contains-sort q.before t.id kept
      ∙ contains-keep_test (candidate locked q) t (keyed ts)
          (same_row ts (keyed ts) t c.present (found-keyed ts)) (ground (arith, c.matching, c.free))
          (contains-keyed t.id ts t c.present)

pub sorting-IsSql : (locked : TaskEntry → Bool) → IsSql (sorting locked)
unfolding sorting
sorting-IsSql locked = record {
  found = λ q ts. All-take _ q.limit _ (sorted_found locked q ts);
  distinct = λ q ts. Distinct-take q.limit _ (
      Distinct-sort q.before _ (Distinct-keep (candidate locked q) (keyed ts) (Distinct-keyed ts)));
  limited = λ q ts. length-take-le q.limit _;
  sorted = λ q ts o. Pairwise-take _ q.limit _ (Pairwise-sort q.before o (kept locked q ts));
  complete = λ q ts t c short.
      rw (take_short q.limit (sort q.before (kept locked q ts)) short)
        (candidate_kept locked q ts t c);
  first = λ q ts t o c out.
      All-before_cut q.before o q.limit (sort q.before (kept locked q ts)) t
        (Pairwise-sort q.before o (kept locked q ts))
        (same_row ts _ t c.present (All-mono _ _ (λ s p. p.0) _ (sorted_found locked q ts)))
        (candidate_kept locked q ts t c) out;
}
