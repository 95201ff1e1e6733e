-- ===== src/Django/System/Budget.antt =====
-- How often a row is started before an operator has to step in.
use dewey.Prelude.{
  ℕ, ◌+◌, ◌≤◌, ◌≡◌, refl, sym, ap, subst, ◌∙◌, Bool, true, false, ◌&&◌, Option, none, some, inl,
  inr, arith, leb, and_left, and_right, if◌then◌else◌, Distinct,
}
use dewey.Core.States.{is_status, in_statuses, can_transition_to, processing}
use dewey.Core.Types.{TaskEntry}
use dewey.Ledger.{Db, find, ids}
use dewey.Ledger.Evolution.{Holds}
use dewey.Sqlalchemy.Executor.{claimable_statuses}
use dewey.Sqlalchemy.System.Rows.{RowStep, is_sound, failure_cases}
use dewey.Django.System.{Turn, Runs, idle, then_}
use dewey.Django.System.Reached.{Turn-Changes, shared_sound}

-- A worker took the row between the two tables.
abbrev pub began : TaskEntry → TaskEntry → Bool
began t t' = in_statuses t.status claimable_statuses && is_status processing t'.status

abbrev one_if : Bool → ℕ
one_if b = if b then 1 else 0

abbrev pub began_of : Option TaskEntry → Option TaskEntry → ℕ
began_of (some t) (some t') = one_if (began t t')
began_of _ _ = 0

-- The row is there before and after, and its count of attempts has not gone down.
abbrev pub held : Option TaskEntry → Option TaskEntry → Bool
held (some t) (some t') = leb t.attempts t'.attempts
held _ _ = false

-- The number of times that the row was taken in a run.
unfoldable pub starts : (i : ℕ) {db db' : Db} → Runs db db' → ℕ
starts i idle = 0
starts i (then_ {mid = mid} {db' = db'} r s) =
    starts i r + began_of (find i mid.tasks) (find i db'.tasks)

-- No one deletes the row or puts its count of attempts back in a run.
unfoldable pub is_held : (i : ℕ) {db db' : Db} → Runs db db' → Bool
is_held i idle = true
is_held i (then_ {mid = mid} {db' = db'} r s) =
    is_held i r && held (find i mid.tasks) (find i db'.tasks)

pub RowStep-began :
    (t t' : TaskEntry)
    → RowStep t t'
    → leb t.attempts t'.attempts ≡ true
    → t'.attempts ≡ t.attempts + one_if (began t t')
unfolding can_transition_to
RowStep-began t t' (RowStep.untouched e) l = rw e (ground arith)
RowStep-began t t' (RowStep.expires now e h) l = rw e (ground arith)
RowStep-began t t' (RowStep.handed_over now e h) l = rw e (ground arith)
RowStep-began t t' (RowStep.given_back e h) l = rw e (ground arith)
RowStep-began t t' (RowStep.begun now e h) l = rw e (ground (arith, h))
RowStep-began t t' (RowStep.fails draw exc policy attempts max_attempts now backoff e h) l =
    elim (failure_cases draw exc policy attempts max_attempts now backoff t) [
      | inl f ↦ rw (e, f) (ground (arith, h))
      | inr (_, f) ↦ rw (e, f) (ground (arith, h))
    ]
RowStep-began t t' (RowStep.completes now e h) l = rw e (ground arith)
RowStep-began t t' (RowStep.requeued e h m) l = rw e (ground arith)
RowStep-began t t' (RowStep.abandoned e h) l = rw e (ground arith)
RowStep-began t t' (RowStep.resets e h) l = let l' = rw e at l in rw e (ground (arith, l'))
RowStep-began t t' (RowStep.killed e h) l = rw e (ground arith)

held_row :
    (o : Option TaskEntry) (t' : TaskEntry)
    → held o (some t') ≡ true
    → (t : TaskEntry) × (o ≡ some t) × (leb t.attempts t'.attempts ≡ true)
held_row none t' h = cc h
held_row (some t) t' h = (t, refl, h)

attempts-Turn :
    (i : ℕ) (db db' : Db) (t' : TaskEntry)
    → Turn db db'
    → Distinct (ids db.tasks)
    → held (find i db.tasks) (find i db'.tasks) ≡ true
    → find i db'.tasks ≡ some t'
    → (t : TaskEntry) × (find i db.tasks ≡ some t)
      × (t'.attempts ≡ t.attempts + began_of (find i db.tasks) (find i db'.tasks))
attempts-Turn i db db' t' s d h f =
    let (t, e, l) =
      held_row (find i db.tasks) t' (subst (λ o. held (find i db.tasks) o ≡ true) f h) in
    elim ((Turn-Changes db db' s d).0 i t' f) [
      | inl (u, g, step) ↦
          let found : some u ≡ some t = sym g ∙ e in
          let same : u ≡ t = cc found in
          let counted : began_of (find i db.tasks) (find i db'.tasks) ≡ one_if (began t t') =
            ap (λ o. began_of o (find i db'.tasks)) e ∙ ap (began_of (some t)) f in
          (
            t,
            e,
            RowStep-began t t' (subst (λ x. RowStep x t') same step) l
                ∙ ap (λ n. t.attempts + n) (sym counted),
          )
      | inr (free, _) ↦ cc (free, e)
    ]

-- Along a run of both packages in which no one deletes the row or puts its count of attempts back,
-- the count goes up by exactly the number of times that a worker took the row.
pub attempts_count :
    (i : ℕ) (db db' : Db) (r : Runs db db') (t' : TaskEntry)
    → Distinct (ids db.tasks)
    → Holds (λ t. is_sound t ≡ true) db.tasks
    → is_held i r ≡ true
    → find i db'.tasks ≡ some t'
    → (t : TaskEntry) × (find i db.tasks ≡ some t) × (t'.attempts ≡ t.attempts + starts i r)
unfolding starts is_held
attempts_count i db db' idle t' d sound h f = (t', f, ground arith)
attempts_count i db db' (then_ {mid = mid} r s) t' d sound h f =
    let (d', _) = shared_sound db mid r d sound in
    let (u, g, last) = attempts-Turn i mid db' t' s d' (and_right (is_held i r) _ h) f in
    let (t, e, before) = attempts_count i db mid r u d sound (and_left (is_held i r) _ h) g in
    (t, e, omega (arith, last, before))

in_budget_of : (t : TaskEntry) → is_sound t ≡ true → t.attempts ≤ t.max_attempts
in_budget_of t h = ground (arith, h)

-- Retries end: along any run of both packages, from a table of distinct ids and sound rows, in which
-- no one deletes the row or puts its count of attempts back, workers take the row at most as often as
-- its budget says, less the attempts that were used before.
pub starts_bounded :
    (i : ℕ) (db db' : Db) (r : Runs db db') (t' : TaskEntry)
    → Distinct (ids db.tasks)
    → Holds (λ t. is_sound t ≡ true) db.tasks
    → is_held i r ≡ true
    → find i db'.tasks ≡ some t'
    → (t : TaskEntry) × (find i db.tasks ≡ some t) × (t.attempts + starts i r ≤ t'.max_attempts)
starts_bounded i db db' r t' d sound h f =
    let (t, e, count) = attempts_count i db db' r t' d sound h f in
    let (_, sound') = shared_sound db db' r d sound in
    (t, e, let b = in_budget_of t' (sound' i t' f) in omega (arith, count, b))
