-- ===== src/Django/Executor/Processing.antt =====
-- Processing over the two ORMs.
use dewey.Prelude.{
  ℕ, ◌≡◌, refl, ap, ◌∙◌, String, Bool, true, false, inl, inr, Option, none, some, List, Distinct,
  arith, Bool-cases, Option-cases, ◌==◌,
}
use dewey.Core.States.{is_status, in_statuses, can_transition_to, processing}
use dewey.Core.States
use dewey.Core.Types.{TaskEntry}
use dewey.Core.Errors.{Raised}
use dewey.Core.Execution.{FailureOutcome, classify_failure}
use dewey.Policy.{TaskPolicy}
use dewey.Ledger.{Db, find, update, ids}
use dewey.Ledger.Laws.{id-find}
use dewey.Ledger.Keyed.{update-key}
use dewey.Sqlalchemy.Dispatch.{expire}
use dewey.Sqlalchemy.Executor
use dewey.Sqlalchemy.Executor.{
  claimable_statuses, start, Phase1, skipped, started, fail_with, complete, World, invoke,
}
use dewey.Django.Executor.{
  Column, write, save, expire_fields, start_fields, fail_fields, complete_fields, claim_object,
  phase1, finish_found, phase3_failed, phase3_completed, phase3, phases_2_3, process_task,
}

-- A partial save of the object read under an id writes what the flush of all that was assigned
-- does, if the named columns are those assigned and no other row has the id.
pub save-eq :
    (cols : List Column) (set : TaskEntry → TaskEntry) (task_id : ℕ) (db : Db) (t : TaskEntry)
    → Distinct (ids db.tasks)
    → find task_id db.tasks ≡ some t
    → (set t).id ≡ t.id
    → write cols (set t) t ≡ set t
    → save cols (set t) db ≡ Executor.save task_id set db
save-eq cols set task_id db t d h keeps e =
    let own : (set t).id ≡ task_id = keeps ∙ id-find task_id db.tasks t h in
    ap (λ k. record db { tasks = update (λ s. s.id == k) (write cols (set t)) db.tasks }) own
    ∙ ap (λ ts. record db { tasks = ts })
        (update-key task_id (write cols (set t)) set db.tasks t d h e)

claim_object-eq :
    (now task_id : ℕ) (db : Db) (t : TaskEntry)
    → Distinct (ids db.tasks)
    → find task_id db.tasks ≡ some t
    → claim_object now t db ≡ Executor.claim_row now task_id t db
unfolding claim_object Executor.claim_row write States.is_terminal can_transition_to
claim_object-eq now task_id db t d h =
    let late = save-eq expire_fields (expire now) task_id db t d h refl refl in
    let begun = save-eq start_fields (start now) task_id db t d h refl refl in
    ground (arith, late, begun)

pub phase1-eq :
    (now task_id : ℕ) (db : Db)
    → Distinct (ids db.tasks)
    → phase1 now task_id db ≡ Executor.phase1 now task_id db
unfolding phase1 Executor.phase1
phase1-eq now task_id db d = elim (Option-cases (find task_id db.tasks)) [
  | inl nowhere ↦ rw nowhere refl
  | inr (t, h) ↦ rw h (claim_object-eq now task_id db t d h)
]

finish-eq :
    (cols : List Column) (set : TaskEntry → TaskEntry) (task_id : ℕ) (db : Db)
    → Distinct (ids db.tasks)
    → ((t : TaskEntry) → (set t).id ≡ t.id)
    → ((t : TaskEntry) → write cols (set t) t ≡ set t)
    → finish_found cols set (find task_id db.tasks) db ≡ Executor.finish task_id set db
unfolding finish_found Executor.finish
finish-eq cols set task_id db d keeps e = elim (Option-cases (find task_id db.tasks)) [
  | inl nowhere ↦ rw nowhere refl
  | inr (t, h) ↦ rw h (elim (Bool-cases (is_status processing t.status)) [
    | inl p ↦ rw p (ap (λ r. (true, r)) (save-eq cols set task_id db t d h (keeps t) (e t)))
    | inr n ↦ rw n refl
  ])
]

write-fail_with :
    (o : FailureOutcome) (message : String) (t : TaskEntry)
    → write fail_fields (fail_with o message t) t ≡ fail_with o message t
unfolding write
write-fail_with o message t = ground arith

pub phase3_failed-eq :
    (draw : ℕ → ℕ) (now task_id : ℕ) (cached : TaskEntry) (policy : TaskPolicy)
    (backoff : Option (ℕ → ℕ)) (exc : Raised) (db : Db)
    → Distinct (ids db.tasks)
    → phase3_failed draw now task_id cached policy backoff exc db
      ≡ Executor.phase3_failed draw now task_id cached policy backoff exc db
unfolding phase3_failed Executor.phase3_failed
phase3_failed-eq draw now task_id cached policy backoff exc db d =
    let o = classify_failure draw exc policy cached.attempts cached.max_attempts now backoff in
    ap (λ (r : Bool × Db). (false, r.1))
      (finish-eq fail_fields (fail_with o exc.message) task_id db d (λ t. ground arith)
        (write-fail_with o exc.message))

pub phase3_completed-eq :
    (now task_id : ℕ) (db : Db)
    → Distinct (ids db.tasks)
    → phase3_completed now task_id db ≡ Executor.phase3_completed now task_id db
unfolding phase3_completed Executor.phase3_completed write
phase3_completed-eq now task_id db d =
    finish-eq complete_fields (complete now) task_id db d (λ t. refl) (λ t. refl)

module _ (w : World) (explicit : Option ℕ) (backoff : Option (ℕ → ℕ))
    (resolve : String → TaskPolicy) (now task_id : ℕ) where
  phase3-eq :
      (cached : TaskEntry) (o : Option Raised) (db : Db)
      → Distinct (ids db.tasks)
      → phase3 w backoff resolve task_id cached o db
        ≡ Executor.phase3 w explicit backoff resolve task_id cached o db
  unfolding phase3 Executor.phase3
  phase3-eq cached none db d = phase3_completed-eq w.now_after task_id db d
  phase3-eq cached (some exc) db d =
      phase3_failed-eq w.draw w.now_after task_id cached (resolve cached.task_type) backoff exc db d

  phases_2_3-eq :
      (claimed : Phase1) (db : Db)
      → Distinct (ids (w.meanwhile db).tasks)
      → phases_2_3 w explicit backoff resolve task_id claimed db
        ≡ Executor.phases_2_3 w explicit backoff resolve task_id claimed db
  unfolding phases_2_3 Executor.phases_2_3
  phases_2_3-eq skipped db d = refl
  phases_2_3-eq (started cached) db d = phase3-eq cached _ (w.meanwhile db) d

  -- `process_task` over Django reports and leaves what the one over SQLAlchemy does, whatever the
  -- handler does and whatever is committed while it runs, if no two rows have the same id at the
  -- two times that it reads the table: its partial saves name each column that it assigned.
  pub process_task-eq :
      (db : Db)
      → Distinct (ids db.tasks)
      → Distinct (ids (w.meanwhile (Executor.phase1 now task_id db).1).tasks)
      → process_task w explicit backoff resolve now task_id db
        ≡ Executor.process_task w explicit backoff resolve now task_id db
  unfolding process_task Executor.process_task
  process_task-eq db d d' =
      ap (λ (r : Phase1 × Db). phases_2_3 w explicit backoff resolve task_id r.0 r.1)
        (phase1-eq now task_id db d)
      ∙ phases_2_3-eq (Executor.phase1 now task_id db).0 (Executor.phase1 now task_id db).1 d'
