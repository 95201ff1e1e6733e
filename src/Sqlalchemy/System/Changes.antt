-- ===== src/Sqlalchemy/System/Changes.antt =====
-- What every transaction of the system does to the rows.
use dewey.Prelude.{
  ℕ, ◌≤◌, ◌<◌, ◌≡◌, refl, sym, ap, subst, ◌∙◌, ◌⊎◌, inl, inr, String, Bool, true, ◌&&◌, Option,
  none, some, List, [], ◌∷◌, ◌++◌, arith, Distinct, Bool-cases, Option-cases, ◌==◌, ltb, and_left,
  ok,
}
use dewey.Core.States.{TaskStatus, is_status, can_transition_to, pending}
use dewey.Policy.{TaskPolicy}
use dewey.Sqlalchemy.Executor.Create.{Request, create_task}
use dewey.Core.Types.{TaskEntry}
use dewey.Ledger.{Db, find, ids}
use dewey.Ledger.Evolution.{Evolves, update-Evolves}
use dewey.Sqlalchemy.Dispatch.{is_claimable, expire, hand_over, give_back, release}
use dewey.Sqlalchemy.Dispatch
use dewey.Sqlalchemy.Dispatch.Claim.{Sets, ClaimStep, claim-Evolves}
use dewey.Sqlalchemy.Dispatch.Release.{release-Evolves}
use dewey.Sqlalchemy.Executor.{phase3_failed, phase3_completed}
use dewey.Sqlalchemy.Executor.Steps.{StartStep, phase1-Evolves, finish-Evolves}
use dewey.Sqlalchemy.Sweep.Steps.{
  RecoverStep, sweep_failed-Evolves, sweep_stuck-Evolves, sweep_dispatching-Evolves,
  sweep_expired-Evolves,
}
use dewey.Sqlalchemy.Queries.{reset, retry_where, purge_where, purge_completed}
use dewey.Sqlalchemy.Queries.Actions.{
  may_reset, retry_task-Evolves, kill_task-Evolves, bulk_retry-Evolves,
}
use dewey.Sqlalchemy.Queries.Purge.{filtered, find-purge_completed}
use dewey.Sqlalchemy.System.{Step}
use dewey.Sqlalchemy.System.Rows.{RowStep}
use dewey.Sqlalchemy.System.Created.{find-append, create_task-eq-ok, create_or_get_task-eq-ok}

-- A row as a producer's call writes it.
abbrev pub is_new : TaskEntry → Bool
is_new t = is_status pending t.status && ((t.attempts == 0) && ltb 0 t.max_attempts)

-- Each row found after a transaction stems from the row of its id before, or is new.
abbrev pub Changes : List TaskEntry → List TaskEntry → Type 0
Changes ts ts' =
    (i : ℕ) (t' : TaskEntry)
    → find i ts' ≡ some t'
    → ((t : TaskEntry) × (find i ts ≡ some t) × RowStep t t')
      ⊎ ((find i ts ≡ none) × (is_new t' ≡ true))

of_Evolves :
    (R : TaskEntry → TaskEntry → Type 0) (ts ts' : List TaskEntry)
    → ((t t' : TaskEntry) → R t t' → RowStep t t')
    → Evolves R ts ts'
    → Changes ts ts'
of_Evolves R ts ts' f ev i t' h = let (t, e, r) = ev i t' h in inl (t, e, f t t' r)

of_Sets :
    (p : TaskEntry → Bool) (f : TaskEntry → TaskEntry) (ts ts' : List TaskEntry)
    → ((t t' : TaskEntry) → t' ≡ f t → p t ≡ true → RowStep t t')
    → Evolves (Sets p f) ts ts'
    → Changes ts ts'
of_Sets p f ts ts' set ev =
    of_Evolves (Sets p f) ts ts'
      (λ t t' s. elim s [ inl e ↦ RowStep.untouched e | inr (e, g) ↦ set t t' e g ]) ev

of_Recover :
    (p : TaskEntry → Bool) (back bury : TaskEntry → TaskEntry) (ts ts' : List TaskEntry)
    → ((t t' : TaskEntry) → t' ≡ back t → p t ≡ true → t.attempts < t.max_attempts → RowStep t t')
    → ((t t' : TaskEntry) → t' ≡ bury t → p t ≡ true → RowStep t t')
    → Evolves (RecoverStep p back bury) ts ts'
    → Changes ts ts'
of_Recover p back bury ts ts' retry give_up ev =
    of_Evolves (RecoverStep p back bury) ts ts'
      (λ t t' s. elim s [
        | RecoverStep.untouched e ↦ RowStep.untouched e
        | RecoverStep.retried e g l ↦ retry t t' e g l
        | RecoverStep.buried e g _ ↦ give_up t t' e g
      ])
      ev

from_claim :
    (b : Dispatch.Backend) (now : ℕ) (t t' : TaskEntry) → ClaimStep b now t t' → RowStep t t'
from_claim b now t t' (ClaimStep.untouched e) = RowStep.untouched e
from_claim b now t t' (ClaimStep.overdue e w _ _) = RowStep.expires now e (ground (arith, w))
from_claim b now t t' (ClaimStep.handed_over e c _ _) = RowStep.handed_over now e c

from_start : (now : ℕ) (t t' : TaskEntry) → StartStep now t t' → RowStep t t'
from_start now t t' (StartStep.untouched e) = RowStep.untouched e
from_start now t t' (StartStep.overdue e w _) = RowStep.expires now e (ground (arith, w))
from_start now t t' (StartStep.begun e c) = RowStep.begun now e c

created_Changes :
    (ts ts' : List TaskEntry) (t : TaskEntry)
    → ts' ≡ ts ++ t ∷ []
    → find t.id ts ≡ none
    → is_new t ≡ true
    → Changes ts ts'
created_Changes ts ts' t e free fresh i t' h = elim (Option-cases (find i ts)) [
  | inr (u, f) ↦ let g = rw (e, find-append i ts t, f) at h in inl (u, f, RowStep.untouched (cc g))
  | inl f ↦ elim (Bool-cases (t.id == i)) [
    | inl y ↦
        let g = rw (e, find-append i ts t, f, y) at h in
        let same : t ≡ t' = cc g in inr (f, subst (λ x. is_new x ≡ true) same fresh)
    | inr n ↦ absurd (let g = rw (e, find-append i ts t, f, n) at h in cc g)
  ]
]

made_new :
    (t : TaskEntry) → t.status ≡ pending → t.attempts ≡ 0 → 1 ≤ t.max_attempts → is_new t ≡ true
made_new t s a m = rw (s, a) (ground (arith, m))

unfiltered :
    (p : TaskEntry → Bool) (o : Option TaskEntry) (t : TaskEntry)
    → filtered p o ≡ some t
    → o ≡ some t
unfiltered p none t h = h
unfiltered p (some u) t h = elim (Bool-cases (p u)) [
  | inl y ↦ absurd (let g = rw y at h in cc g)
  | inr n ↦ rw n at h
]

created_rows :
    (db db' : Db) (resolve : String → TaskPolicy) (id now : ℕ) (r : Request) (t : TaskEntry)
    → create_task resolve id now r db ≡ ok (t, db')
    → 1 ≤ t.max_attempts
    → Changes db.tasks db'.tasks
created_rows db db' resolve id now r t h m =
    let (s, x, a, k, made, free, rows_) = create_task-eq-ok resolve id now r db db' t h in
    let own : t.id ≡ id = ap (λ (u : TaskEntry). u.id) made in
    let ready : is_new t ≡ true =
      made_new t (ap (λ (u : TaskEntry). u.status) made) (ap (λ (u : TaskEntry). u.attempts) made)
        m in
    created_Changes db.tasks db'.tasks t rows_ (rw own free) ready

may_reset_of :
    (status : TaskStatus) (t : TaskEntry)
    → is_status status t.status ≡ true
    → can_transition_to status pending ≡ true
    → may_reset t ≡ true
unfolding can_transition_to
may_reset_of status t h c = ground (arith, h, c)

purged_row :
    (older_than_days : ℕ) (task_type : Option String) (now : ℕ) (db : Db) (i : ℕ) (t : TaskEntry)
    → Distinct (ids db.tasks)
    → find i (purge_completed older_than_days task_type now db).1.tasks ≡ some t
    → find i db.tasks ≡ some t
purged_row older_than_days task_type now db i t d h =
    let same = find-purge_completed older_than_days task_type now i db d in
    unfiltered (purge_where older_than_days task_type now) (find i db.tasks) t (sym same ∙ h)

-- Every transaction leaves each row as it was, changes it by one step of a row, or adds it as new.
pub Step-Changes : (db db' : Db) → Step db db' → Changes db.tasks db'.tasks
unfolding phase3_failed phase3_completed can_transition_to
Step-Changes db db' (Step.create resolve id now r t h m) =
    created_rows db db' resolve id now r t h m
Step-Changes db db' (Step.create_or_get eq resolve id now r t h m) =
    elim (create_or_get_task-eq-ok eq resolve id now r db db' t h) [
      | inl h' ↦ created_rows db db' resolve id now r t h' m
      | inr e ↦ rw e (λ i u f. inl (u, f, RowStep.untouched refl))
    ]
Step-Changes db db' (Step.claims e b limit now sql h) =
    rw h (of_Evolves _ _ _ (from_claim b now) (claim-Evolves e b limit now sql db))
Step-Changes db db' (Step.releases task_ids h) =
    rw h (of_Sets _ _ _ _ (λ t t' e g. RowStep.given_back e g) (release-Evolves task_ids db))
Step-Changes db db' (Step.starts now task_id h) =
    rw h (of_Evolves _ _ _ (from_start now) (phase1-Evolves now task_id db))
Step-Changes db db' (Step.fails draw now task_id cached policy backoff exc h) = rw h (
    of_Sets _ _ _ _
      (λ t t' e g.
        RowStep.fails draw exc policy cached.attempts cached.max_attempts now backoff e g)
      (finish-Evolves task_id _ db (λ t. ground arith)))
Step-Changes db db' (Step.completes now task_id h) = rw h (
    of_Sets _ _ _ _ (λ t t' e g. RowStep.completes now e g)
      (finish-Evolves task_id _ db (λ t. refl)))
Step-Changes db db' (Step.sweeps_failed e limit now sql h) = rw h (
    of_Recover _ _ _ _ _ (λ t t' q g l. RowStep.requeued q (ground (arith, g)) l)
      (λ t t' q g. RowStep.killed q (ground (arith, g))) (sweep_failed-Evolves e sql limit now db))
Step-Changes db db' (Step.sweeps_expired e limit now sql h) = rw h (
    of_Sets _ _ _ _ (λ t t' q g. RowStep.expires now q (and_left _ _ g))
      (sweep_expired-Evolves e sql limit now db))
Step-Changes db db' (Step.sweeps_stuck e threshold limit now sql h) = rw h (
    of_Recover _ _ _ _ _ (λ t t' q g l. RowStep.requeued q (ground (arith, g)) l)
      (λ t t' q g. RowStep.killed q (ground (arith, g)))
      (sweep_stuck-Evolves e sql threshold limit now db))
Step-Changes db db' (Step.sweeps_dispatching e timeout limit now sql h) = rw h (
    of_Recover _ _ _ _ _ (λ t t' q g l. RowStep.given_back q (and_left _ _ g))
      (λ t t' q g. RowStep.abandoned q (and_left _ _ g))
      (sweep_dispatching-Evolves e sql timeout limit now db))
Step-Changes db db' (Step.retries task_id h) =
    rw h (of_Sets _ _ _ _ (λ t t' q g. RowStep.resets q g) (retry_task-Evolves task_id db))
Step-Changes db db' (Step.bulk_retries task_type status n h) =
    let (c, _, rows_) = bulk_retry-Evolves task_type status db db' n h in
    rw rows_ (
      of_Evolves RowStep _ _ (λ t t' s. s)
        (update-Evolves RowStep (retry_where task_type status) reset db.tasks (λ t. refl)
          (λ t f. RowStep.untouched refl)
          (λ t f g. RowStep.resets refl (may_reset_of status t (and_left _ _ g) c))))
Step-Changes db db' (Step.kills task_id h) =
    rw h (of_Sets _ _ _ _ (λ t t' q g. RowStep.killed q g) (kill_task-Evolves task_id db))
Step-Changes db db' (Step.purges older_than_days task_type now d h) = λ i t' f.
    inl (t', purged_row older_than_days task_type now db i t' d (rw h at f), RowStep.untouched refl)
