-- ===== src/Sqlalchemy/Executor/Runs.antt =====
-- What `process_task` reports and leaves behind, over all its phases.
use dewey.Prelude.{
  ℕ, ◌==◌, ◌≡◌, refl, ap, ◌∙◌, String, Bool, true, false, Option, none, some, ◌⊎◌, inl, inr,
}
use dewey.Core.States.{is_status, processing, completed, failed, dead}
use dewey.Core.Types.{TaskEntry}
use dewey.Core.Errors.{Raised}
use dewey.Core.Execution.{FailureOutcome, classify_failure}
use dewey.Core.Execution.Outcomes.{retry_at_iff}
use dewey.Policy.{TaskPolicy}
use dewey.Ledger.{Db, find, update}
use dewey.Sqlalchemy.Executor.{
  Phase1, skipped, started, phase1, fail_with, complete, World, invoke, phase3, process_task,
}
use dewey.Sqlalchemy.Executor.Phases.{finish_other, finish_processing, finish-true, find-save}

Phase1-cases : (p : Phase1) → (p ≡ skipped) ⊎ ((t : TaskEntry) × (p ≡ started t))
Phase1-cases skipped = inl refl
Phase1-cases (started t) = inr (t, refl)

-- A row whose handler raised: dead where there is no time for another attempt, else failed until then.
abbrev pub failing : Option ℕ → String → TaskEntry → TaskEntry
failing none message t = record t { status = dead; error = message }
failing (some at) message t = record t { status = failed; error = message; scheduled_for = some at }

fail_with-failing :
    (o : FailureOutcome) (message : String) (t : TaskEntry)
    → ((o.status ≡ dead) × (o.retry_at ≡ none))
      ⊎ ((o.status ≡ failed) × ((at : ℕ) × (o.retry_at ≡ some at)))
    → fail_with o message t ≡ failing o.retry_at message t
fail_with-failing o message t (inl (d, r)) = rw (d, r) refl
fail_with-failing o message t (inr (f, (at, r))) = rw (f, r) refl

module _ (w : World) (explicit : Option ℕ) (backoff : Option (ℕ → ℕ))
    (resolve : String → TaskPolicy) (now task_id : ℕ) (db : Db) where
  -- The table with the row of the task set.
  abbrev pub stored : Db → (TaskEntry → TaskEntry) → Db
  stored db' f = record db' { tasks = update (λ t. t.id == task_id) f db'.tasks }

  -- What the run leaves, once the row was started as `cached` and is still processing, as `t`, when
  -- the handler has ended.
  abbrev pub ended : TaskEntry → Db → Option Raised → Bool × Db
  ended cached db' none = (
    true,
    stored db' (λ t. record t { status = completed; error = ""; completed_at = some w.now_after }),
  )
  ended cached db' (some exc) =
      let o =
        classify_failure w.draw exc (resolve cached.task_type) cached.attempts cached.max_attempts
          w.now_after backoff in
      (false, stored db' (failing o.retry_at exc.message))

  -- A run that starts nothing reports no success, and never calls the handler: nothing that happens
  -- meanwhile is part of it.
  pub process_skipped :
      (phase1 now task_id db).0 ≡ skipped
      → process_task w explicit backoff resolve now task_id db ≡ (false, (phase1 now task_id db).1)
  unfolding process_task
  process_skipped h = rw h

  process_started :
      (cached : TaskEntry)
      → (phase1 now task_id db).0 ≡ started cached
      → process_task w explicit backoff resolve now task_id db
        ≡ phase3 w explicit backoff resolve task_id cached
            (invoke w explicit (resolve cached.task_type) cached)
            (w.meanwhile (phase1 now task_id db).1)
  unfolding process_task
  process_started cached h = rw h

  phase3-ended :
      (cached t : TaskEntry) (db' : Db) (o : Option Raised)
      → find task_id db'.tasks ≡ some t
      → is_status processing t.status ≡ true
      → phase3 w explicit backoff resolve task_id cached o db' ≡ ended cached db' o
  unfolding phase3
  phase3-ended cached t db' none f p = finish_processing task_id _ db' t f p
  phase3-ended cached t db' (some exc) f p =
      let o =
        classify_failure w.draw exc (resolve cached.task_type) cached.attempts cached.max_attempts
          w.now_after backoff in
      let each : (s : TaskEntry) → fail_with o exc.message s ≡ failing o.retry_at exc.message s =
        λ s. fail_with-failing o exc.message s (
          retry_at_iff w.draw exc (resolve cached.task_type) cached.attempts cached.max_attempts
            w.now_after backoff) in
      ap (λ (r : Bool × Db). (false, r.1)) (finish_processing task_id _ db' t f p)
      ∙ ap (λ g. (false, stored db' g)) (λ i s. each s i)

  -- A run that started the row and finds it still processing afterwards reports success if the handler
  -- returned, and stores the row as completed now, without an error; if the handler raised, it reports
  -- none, and stores the message with what `classify_failure` decides on the attempt that it started:
  -- failed until the time for another attempt, or dead where there is none. No other row changes.
  pub process_ended :
      (cached t : TaskEntry)
      → (phase1 now task_id db).0 ≡ started cached
      → find task_id (w.meanwhile (phase1 now task_id db).1).tasks ≡ some t
      → is_status processing t.status ≡ true
      → process_task w explicit backoff resolve now task_id db
        ≡ ended cached
            (w.meanwhile (phase1 now task_id db).1)
            (invoke w explicit (resolve cached.task_type) cached)
  process_ended cached t h f p =
      process_started cached h
      ∙ phase3-ended cached t (w.meanwhile (phase1 now task_id db).1)
          (invoke w explicit (resolve cached.task_type) cached) f p

  phase3_killed :
      (cached : TaskEntry) (db' : Db) (o : Option Raised)
      → ((t : TaskEntry) → find task_id db'.tasks ≡ some t → is_status processing t.status ≡ false)
      → phase3 w explicit backoff resolve task_id cached o db' ≡ (false, db')
  unfolding phase3
  phase3_killed cached db' none h = finish_other task_id _ db' h
  phase3_killed cached db' (some exc) h =
      ap (λ (r : Bool × Db). (false, r.1)) (finish_other task_id _ db' h)

  -- A row that was killed, swept or deleted while the handler ran stays as that left it, and the run
  -- reports no success, whether the handler returned or raised.
  pub process_killed :
      (cached : TaskEntry)
      → (phase1 now task_id db).0 ≡ started cached
      → ((t : TaskEntry)
          → find task_id (w.meanwhile (phase1 now task_id db).1).tasks ≡ some t
          → is_status processing t.status ≡ false)
      → process_task w explicit backoff resolve now task_id db
        ≡ (false, w.meanwhile (phase1 now task_id db).1)
  process_killed cached h k =
      process_started cached h
      ∙ phase3_killed cached (w.meanwhile (phase1 now task_id db).1)
          (invoke w explicit (resolve cached.task_type) cached) k

  phase3-true :
      (cached : TaskEntry) (db' : Db) (o : Option Raised)
      → (phase3 w explicit backoff resolve task_id cached o db').0 ≡ true
      → (o ≡ none)
        × (t : TaskEntry) × (find task_id db'.tasks ≡ some t)
        × (is_status processing t.status ≡ true)
        × (find task_id (phase3 w explicit backoff resolve task_id cached o db').1.tasks
            ≡ some (record t { status = completed; error = ""; completed_at = some w.now_after }))
  unfolding phase3
  phase3-true cached db' none h =
      let (t, f, p, kept) = finish-true task_id (complete w.now_after) db' h in
      (
        refl,
        t,
        f,
        p,
        ap (λ (r : Db). find task_id r.tasks) kept
            ∙ find-save task_id (complete w.now_after) db' t (λ x. refl) f,
      )
  phase3-true cached db' (some exc) h = cc

  -- A run reports success only if it started the row itself, the handler returned, and the row was
  -- still there and processing then; the row is then stored as completed at that time, without an
  -- error, and otherwise as it was.
  pub process_true :
      (process_task w explicit backoff resolve now task_id db).0 ≡ true
      → (cached t : TaskEntry) × ((phase1 now task_id db).0 ≡ started cached)
        × (invoke w explicit (resolve cached.task_type) cached ≡ none)
        × (find task_id (w.meanwhile (phase1 now task_id db).1).tasks ≡ some t)
        × (is_status processing t.status ≡ true)
        × (find task_id (process_task w explicit backoff resolve now task_id db).1.tasks
            ≡ some (record t { status = completed; error = ""; completed_at = some w.now_after }))
  process_true h = elim (Phase1-cases (phase1 now task_id db).0) [
    | inl none_ ↦ cc (h, ap (λ (r : Bool × Db). r.0) (process_skipped none_))
    | inr (cached, e) ↦
        let same = process_started cached e in
        let (returned, t, f, p, kept) =
          phase3-true cached (w.meanwhile (phase1 now task_id db).1)
            (invoke w explicit (resolve cached.task_type) cached) (rw same at h) in
        (cached, t, e, returned, f, p, ap (λ (r : Bool × Db). find task_id r.1.tasks) same ∙ kept)
  ]
