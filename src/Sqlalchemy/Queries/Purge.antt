-- ===== src/Sqlalchemy/Queries/Purge.antt =====
-- What `purge_completed` deletes, and what the counts add up to.
use dewey.Prelude.{
  ℕ, ◌≡◌, ◌<◌, ◌*◌, ◌⊎◌, ◌↔◌, eq_iff, and_left, and_right, true, ◌+◌, refl, ap, ◌∙◌, String, Bool,
  false, inl, inr, Option, none, some, Bool-cases, arith, List, [], ◌∷◌, length, contains, Distinct,
  ◌==◌, if◌then◌else◌,
}
use dewey.Core.States.{
  TaskStatus, pending, dispatching, processing, completed, failed, dead, expired,
}
use dewey.Core.Types.{TaskEntry}
use dewey.Ledger.{Db, find, count, delete, ids}
use dewey.Sqlalchemy.Queries.Stats.{get_stats-eq}
use dewey.Sqlalchemy.Queries.{has_status, of_type, day, get_stats, purge_where, purge_completed}
use dewey.Sqlalchemy.Sweep.{older_than}

pub total : List (TaskStatus × ℕ) → ℕ
total [] = 0
total (c ∷ cs) = c.1 + total cs

count_all :
    (ts : List TaskEntry)
    → count (has_status pending) ts
        + (count (has_status dispatching) ts
            + (count (has_status processing) ts
                + (count (has_status completed) ts
                    + (count (has_status failed) ts
                        + (count (has_status dead) ts + (count (has_status expired) ts + 0))))))
      ≡ length ts
unfolding count
count_all [] = refl
count_all (t ∷ ts) = ground (arith, count_all ts)

-- The counts by status add up to the number of rows: each row is counted once.
pub total-get_stats : (db : Db) → total (get_stats db) ≡ length db.tasks
unfolding total
total-get_stats db = ap total (get_stats-eq db) ∙ count_all db.tasks

find-absent : (i : ℕ) (ts : List TaskEntry) → contains i (ids ts) ≡ false → find i ts ≡ none
unfolding find
find-absent i [] h = refl
find-absent i (t ∷ ts) h = ground (arith, find-absent i ts)

contains-delete :
    (i : ℕ) (p : TaskEntry → Bool) (ts : List TaskEntry)
    → contains i (ids ts) ≡ false
    → contains i (ids (delete p ts)) ≡ false
unfolding delete
contains-delete i p [] h = refl
contains-delete i p (t ∷ ts) h = ground (arith, contains-delete i p ts)

pub Distinct-delete :
    (p : TaskEntry → Bool) (ts : List TaskEntry) → Distinct (ids ts) → Distinct (ids (delete p ts))
unfolding delete
Distinct-delete p [] d = tt
Distinct-delete p (t ∷ ts) d =
    ground (arith, contains-delete t.id p ts d.0, Distinct-delete p ts d.1)

abbrev pub filtered : (TaskEntry → Bool) → Option TaskEntry → Option TaskEntry
filtered p none = none
filtered p (some t) = if p t then none else some t

filtered_gone : (p : TaskEntry → Bool) (t : TaskEntry) → p t ≡ true → filtered p (some t) ≡ none
filtered_gone p t y = rw y refl

filtered_kept : (p : TaskEntry → Bool) (t : TaskEntry) → p t ≡ false → filtered p (some t) ≡ some t
filtered_kept p t n = rw n refl

pub find-delete :
    (i : ℕ) (p : TaskEntry → Bool) (ts : List TaskEntry)
    → Distinct (ids ts)
    → find i (delete p ts) ≡ filtered p (find i ts)
unfolding find delete
find-delete i p [] d = refl
find-delete i p (t ∷ ts) d = elim (Bool-cases (t.id == i)) [
  | inl e ↦
      let gone : find i (delete p ts) ≡ none =
        find-absent i (delete p ts) (contains-delete i p ts (ground (arith, d.0))) in
      ground (arith, gone)
  | inr e ↦ ground (arith, find-delete i p ts d.1)
]

pub count-delete :
    (p : TaskEntry → Bool) (ts : List TaskEntry) → count p ts + length (delete p ts) ≡ length ts
unfolding count delete
count-delete p [] = refl
count-delete p (t ∷ ts) = ground (arith, count-delete p ts)

-- The row that is found under an id after a purge.
pub find-purge_completed :
    (older_than_days : ℕ) (task_type : Option String) (now task_id : ℕ) (db : Db)
    → Distinct (ids db.tasks)
    → find task_id (purge_completed older_than_days task_type now db).1.tasks
      ≡ filtered (purge_where older_than_days task_type now) (find task_id db.tasks)
unfolding purge_completed
find-purge_completed older_than_days task_type now task_id db d =
    find-delete task_id (purge_where older_than_days task_type now) db.tasks d

-- Completed more than so many days ago.
abbrev pub WasBefore : ℕ → ℕ → Option ℕ → Type 0
WasBefore days now none = ⊥
WasBefore days now (some at) = at + days * 86_400_000_000 < now

-- No type asked for, or that of the row; the empty text asks for none.
abbrev pub IsAsked : Option String → String → Type 0
IsAsked none name = Unit
IsAsked (some task_type) name = (task_type ≡ "") ⊎ (task_type ≡ name)

-- What a purge is to remove.
abbrev pub IsOutdated : ℕ → Option String → ℕ → TaskEntry → Type 0
IsOutdated days task_type now t =
    (t.status ≡ completed) × WasBefore days now t.completed_at × IsAsked task_type t.task_type

is_completed : (t : TaskEntry) → (has_status completed t ≡ true) ↔ (t.status ≡ completed)
is_completed t = (λ h. ground (arith, h), λ h. rw h refl)

older_iff :
    (days now : ℕ) (o : Option ℕ) → (older_than (days * day) now o ≡ true) ↔ WasBefore days now o
older_iff days now none = (λ h. cc h, λ h. absurd h)
older_iff days now (some at) = (λ h. ground (arith, h), λ h. ground (arith, h))

IsAsked-iff :
    (task_type : Option String) (t : TaskEntry)
    → (of_type task_type t ≡ true) ↔ IsAsked task_type t.task_type
IsAsked-iff none t = (λ h. tt, λ h. refl)
IsAsked-iff (some task_type) t = (
  λ h. ground (arith, h, eq_iff task_type "", eq_iff task_type t.task_type),
  λ h. ground (arith, h, eq_iff task_type "", eq_iff task_type t.task_type),
)

purge_where_iff :
    (days : ℕ) (task_type : Option String) (now : ℕ) (t : TaskEntry)
    → (purge_where days task_type now t ≡ true) ↔ IsOutdated days task_type now t
purge_where_iff days task_type now t = (
  λ h. (
    (is_completed t).0 (and_left _ _ h),
    (older_iff days now t.completed_at).0 (and_left _ _ (and_right _ _ h)),
    (IsAsked-iff task_type t).0 (and_right _ _ (and_right _ _ h)),
  ),
  λ (c, o, a).
      let c' = (is_completed t).1 c in
      let o' = (older_iff days now t.completed_at).1 o in
      let a' = (IsAsked-iff task_type t).1 a in ground (arith, c', o', a'),
)

-- Of a row that was there, a purge leaves nothing exactly where the row is completed, since more
-- days than the threshold, and of the type that is asked for, if one is; else it leaves the row as it
-- was. The number reported is that of the rows removed. No two rows have the same id.
pub purge_completed-find :
    (older_than_days : ℕ) (task_type : Option String) (now task_id : ℕ) (db : Db) (t : TaskEntry)
    → Distinct (ids db.tasks)
    → find task_id db.tasks ≡ some t
    → let (removed, db') = purge_completed older_than_days task_type now db in
      ((find task_id db'.tasks ≡ none) ↔ IsOutdated older_than_days task_type now t)
      × ((find task_id db'.tasks ≡ none) ⊎ (find task_id db'.tasks ≡ some t))
      × (removed + length db'.tasks ≡ length db.tasks)
unfolding purge_completed
purge_completed-find older_than_days task_type now task_id db t d f =
    let p = purge_where older_than_days task_type now in
    let left : find task_id (delete p db.tasks) ≡ filtered p (some t) =
      find-purge_completed older_than_days task_type now task_id db d ∙ ap (filtered p) f in
    let iff = purge_where_iff older_than_days task_type now t in
    elim (Bool-cases (p t)) [
      | inl y ↦
          let gone : find task_id (delete p db.tasks) ≡ none = left ∙ filtered_gone p t y in
          ((λ h. iff.0 y, λ h. gone), inl gone, count-delete p db.tasks)
      | inr n ↦
          let stays : find task_id (delete p db.tasks) ≡ some t = left ∙ filtered_kept p t n in
          ((λ h. cc (h, stays), λ h. cc (n, iff.1 h)), inr stays, count-delete p db.tasks)
    ]
