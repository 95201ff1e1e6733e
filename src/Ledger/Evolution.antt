-- ===== src/Ledger/Evolution.antt =====
-- How a table changes, row by row: each row found after a step stems from the row of that id
-- before it, and stands to it in a relation.
use dewey.Prelude.{
  ℕ, ◌≡◌, ap, ◌∙◌, ◌⊎◌, inl, inr, Bool, true, some, List, contains, map_option, Bool-cases,
  Option-cases,
}
use dewey.Core.States.{TaskStatus, can_transition_to}
use dewey.Core.Types.{TaskEntry}
use dewey.Ledger.{find, update, ids}
use dewey.Ledger.Laws.{KeepsId, set_if, find-update, id-find, found_by_id}
use dewey.Ledger.Engine.{Query, Engine, IsSql}

abbrev pub Evolves : (TaskEntry → TaskEntry → Type 0) → List TaskEntry → List TaskEntry → Type 0
Evolves R ts ts' =
    (i : ℕ) (t' : TaskEntry)
    → find i ts' ≡ some t'
    → (t : TaskEntry) × (find i ts ≡ some t) × R t t'

-- A property of every row that can be found.
abbrev pub Holds : (TaskEntry → Type 0) → List TaskEntry → Type 0
Holds P ts = (i : ℕ) (t : TaskEntry) → find i ts ≡ some t → P t

pub find-update_eq-some :
    (p : TaskEntry → Bool) (f : TaskEntry → TaskEntry) (i : ℕ) (ts : List TaskEntry)
    (t' : TaskEntry)
    → KeepsId f
    → find i (update p f ts) ≡ some t'
    → (t : TaskEntry) × (find i ts ≡ some t) × (t' ≡ set_if p f t)
find-update_eq-some p f i ts t' keeps h = elim (Option-cases (find i ts)) [
  | inl e ↦ cc (h, find-update p f i ts keeps, ap (map_option (set_if p f)) e)
  | inr (t, e) ↦ (t, e, cc (h, find-update p f i ts keeps, ap (map_option (set_if p f)) e))
]

pub find-update_of_some :
    (p : TaskEntry → Bool) (f : TaskEntry → TaskEntry) (i : ℕ) (ts : List TaskEntry) (t : TaskEntry)
    → KeepsId f
    → find i ts ≡ some t
    → find i (update p f ts) ≡ some (set_if p f t)
find-update_of_some p f i ts t keeps e = find-update p f i ts keeps ∙ ap (map_option (set_if p f)) e

pub update-Evolves :
    (R : TaskEntry → TaskEntry → Type 0) (p : TaskEntry → Bool) (f : TaskEntry → TaskEntry)
    (ts : List TaskEntry)
    → KeepsId f
    → ((t : TaskEntry) → find t.id ts ≡ some t → R t t)
    → ((t : TaskEntry) → find t.id ts ≡ some t → p t ≡ true → R t (f t))
    → Evolves R ts (update p f ts)
update-Evolves R p f ts keeps stay go i t' h =
    let (t, e, q) = find-update_eq-some p f i ts t' keeps h in
    let e' : find t.id ts ≡ some t = ap (λ k. find k ts) (id-find i ts t e) ∙ e in
    elim (Bool-cases (p t)) [
      | inl yes_ ↦ (t, e, rw q (rw yes_ (go t e' yes_)))
      | inr no_ ↦ (t, e, rw q (rw no_ (stay t e')))
    ]

pub Evolves-refl :
    (R : TaskEntry → TaskEntry → Type 0) (ts : List TaskEntry)
    → ((t : TaskEntry) → R t t)
    → Evolves R ts ts
Evolves-refl R ts stay i t h = (t, h, stay t)

pub Evolves-trans :
    (R S T : TaskEntry → TaskEntry → Type 0) (ts us vs : List TaskEntry)
    → ((t u v : TaskEntry) → R t u → S u v → T t v)
    → Evolves R ts us
    → Evolves S us vs
    → Evolves T ts vs
Evolves-trans R S T ts us vs join h k i v e =
    let (u, eu, s) = k i v e in let (t, et, r) = h i u eu in (t, et, join t u v r s)

pub Evolves-mono :
    (R S : TaskEntry → TaskEntry → Type 0) (ts us : List TaskEntry)
    → ((t u : TaskEntry) → R t u → S t u)
    → Evolves R ts us
    → Evolves S ts us
Evolves-mono R S ts us f h i u e = let (t, et, r) = h i u e in (t, et, f t u r)

pub Evolves-Holds :
    (R : TaskEntry → TaskEntry → Type 0) (P : TaskEntry → Type 0) (ts us : List TaskEntry)
    → ((t u : TaskEntry) → R t u → P t → P u)
    → Evolves R ts us
    → Holds P ts
    → Holds P us
Evolves-Holds R P ts us f ev h i u e = let (t, et, r) = ev i u e in f t u r (h i t et)

-- The row that a `SELECT` returned under an id matches its `WHERE`.
pub selected_matches :
    (e : Engine) (q : Query) (i : ℕ) (ts : List TaskEntry) (t : TaskEntry)
    → IsSql e
    → find i ts ≡ some t
    → contains i (ids (e.select q ts)) ≡ true
    → q.matches t ≡ true
selected_matches e q i ts t sql h c =
    found_by_id (λ s. q.matches s ≡ true) i ts (e.select q ts) t (sql.found q ts) h c

-- The status stays, or takes one step that the state machine allows.
abbrev pub Follows : TaskStatus → TaskStatus → Type 0
Follows s s' = (s' ≡ s) ⊎ (can_transition_to s s' ≡ true)
