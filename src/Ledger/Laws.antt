-- ===== src/Ledger/Laws.antt =====
-- What the statements do to a row that is looked up by its id.
use dewey.Prelude.{
  ℕ, ◌≡◌, refl, ap, Bool, true, some, List, [], ◌∷◌, ◌==◌, All, All-mono, contains, keep,
  map_option, arith, Bool-cases, ==_iff, inl, inr, sym, subst, ◌∙◌, if◌then◌else◌,
}
use dewey.Core.Types.{TaskEntry}
use dewey.Ledger.{find, update, rows, ids}

pub id-find : (i : ℕ) (ts : List TaskEntry) (t : TaskEntry) → find i ts ≡ some t → t.id ≡ i
unfolding find
id-find i [] t h = cc
id-find i (x ∷ ts) t h = ground (arith, id-find i ts t)

abbrev pub KeepsId : (TaskEntry → TaskEntry) → Type 0
KeepsId f = (t : TaskEntry) → (f t).id ≡ t.id

-- What `UPDATE` makes of one row.
abbrev pub set_if : (TaskEntry → Bool) → (TaskEntry → TaskEntry) → TaskEntry → TaskEntry
set_if p f t = if p t then f t else t

pub find-update :
    (p : TaskEntry → Bool) (f : TaskEntry → TaskEntry) (i : ℕ) (ts : List TaskEntry)
    → KeepsId f
    → find i (update p f ts) ≡ map_option (set_if p f) (find i ts)
unfolding find update
find-update p f i [] keeps = refl
find-update p f i (x ∷ ts) keeps = ground (arith, find-update p f i ts keeps, keeps x)

-- A row that is among those returned by a `SELECT` satisfies what all of them satisfy.
pub found_by_id :
    (P : TaskEntry → Type 0) (i : ℕ) (ts sel : List TaskEntry) (t : TaskEntry)
    → All (λ s. (find s.id ts ≡ some s) × P s) sel
    → find i ts ≡ some t
    → contains i (ids sel) ≡ true
    → P t
found_by_id P i ts [] t h e c = cc
found_by_id P i ts (s ∷ sel) t h e c = elim (Bool-cases (i == s.id)) [
  | inl same ↦
      let here : i ≡ s.id = (==_iff i s.id).0 same in
      let found : some s ≡ some t = sym h.0.0 ∙ (ap (λ k. find k ts) (sym here) ∙ e) in
      let row : s ≡ t = cc found in subst P row h.0.1
  | inr other ↦ found_by_id P i ts sel t h.1 e (rw other at c)
]

-- A row that is found and passes a test is among the rows that pass it.
pub contains-rows :
    (p : TaskEntry → Bool) (i : ℕ) (ts : List TaskEntry) (t : TaskEntry)
    → find i ts ≡ some t
    → p t ≡ true
    → contains i (ids (rows p ts)) ≡ true
unfolding find rows
contains-rows p i [] t h q = cc
contains-rows p i (x ∷ ts) t h q = elim (Bool-cases (x.id == i)) [
  | inl e ↦
      let h' : some x ≡ some t = rw e at h in
      let same : x ≡ t = cc h' in
      let px : p x ≡ true = subst (λ z. p z ≡ true) (sym same) q in rw px (ground arith)
  | inr e ↦ ground (arith, contains-rows p i ts t (rw e at h) q)
]

pub contains-ids_self : (ts : List TaskEntry) → All (λ t. contains t.id (ids ts) ≡ true) ts
contains-ids_self [] = tt
contains-ids_self (t ∷ ts) = (
  ground arith,
  All-mono _ (λ s. contains s.id (ids ts) ≡ true) (λ s h. ground arith) ts (contains-ids_self ts),
)

-- A filter on ids that all of them pass changes nothing.
pub keep-ids-All :
    (p : ℕ → Bool) (ts : List TaskEntry) → All (λ t. p t.id ≡ true) ts → keep p (ids ts) ≡ ids ts
keep-ids-All p [] h = refl
keep-ids-All p (t ∷ ts) h = ground (arith, keep-ids-All p ts h.1)

-- An id among those returned is that of a row of the table with all that the rows returned have.
pub row_of_id :
    (P : TaskEntry → Type 0) (i : ℕ) (ts sel : List TaskEntry)
    → All (λ s. (find s.id ts ≡ some s) × P s) sel
    → contains i (ids sel) ≡ true
    → (t : TaskEntry) × (find i ts ≡ some t) × P t
row_of_id P i ts [] h c = cc
row_of_id P i ts (s ∷ sel) h c = elim (Bool-cases (i == s.id)) [
  | inl e ↦ (s, ap (λ k. find k ts) ((==_iff i s.id).0 e) ∙ h.0.0, h.0.1)
  | inr e ↦ row_of_id P i ts sel h.1 (rw e at c)
]
