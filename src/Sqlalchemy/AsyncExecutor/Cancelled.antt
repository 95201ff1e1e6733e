-- ===== src/Sqlalchemy/AsyncExecutor/Cancelled.antt =====
-- A run of `process_task_async` that is cancelled.
use dewey.Prelude.{
  ℕ, ◌≤◌, ◌≡◌, refl, sym, ap, subst, ◌∙◌, ◌⊎◌, inl, inr, String, true, false, ◌&&◌, Option, none,
  some, cancelled, is_some, some_gt, Bool-cases, arith,
}
use dewey.Core.States.{is_terminal, in_statuses, is_status, processing}
use dewey.Core.Types.{TaskEntry}
use dewey.Core.Errors.{Raised}
use dewey.Policy.{TaskPolicy}
use dewey.Ledger.{Db, find}
use dewey.Ledger.Laws.{KeepsId}
use dewey.Sqlalchemy.Dispatch.{Backend, is_overdue, expire}
use dewey.Sqlalchemy.Executor
use dewey.Sqlalchemy.Executor.{
  World, Phase1, skipped, started, start, claimable_statuses, invoke, fail_with, complete,
}
use dewey.Sqlalchemy.Executor.Phases.{phase1_result, phase1_cases, phase1_started, find-save}
use dewey.Sqlalchemy.System.Rows.{RowStep, RowStep-is_sound, is_sound}
use dewey.Sqlalchemy.System.Reached.{is_recoverable, sound_recoverable}
use dewey.Sqlalchemy.AsyncExecutor.{
  Cut, never, claiming, claimed, handling, finishing, finished, phase1, finish_found, phase3_failed,
  phase3_completed, phase3, phases_2_3, process_task_async,
}
use dewey.Sqlalchemy.AsyncExecutor.Twin.{phase1-twin}

-- Under the id stands a sound row.
abbrev Holds : ℕ → Db → Type 0
Holds task_id db = (t : TaskEntry) × (find task_id db.tasks ≡ some t) × (is_sound t ≡ true)

save-Holds :
    (task_id : ℕ) (f : TaskEntry → TaskEntry) (db : Db) (t : TaskEntry)
    → KeepsId f
    → find task_id db.tasks ≡ some t
    → is_sound t ≡ true
    → RowStep t (f t)
    → Holds task_id (Executor.save task_id f db)
save-Holds task_id f db t keeps h s r =
    (f t, find-save task_id f db t keeps h, RowStep-is_sound t (f t) r s)

result_Holds :
    (now task_id : ℕ) (t : TaskEntry) (db : Db)
    → find task_id db.tasks ≡ some t
    → is_sound t ≡ true
    → Holds task_id (phase1_result now task_id t db).1
result_Holds now task_id t db h s = elim (Bool-cases (in_statuses t.status claimable_statuses)) [
  | inr no_ ↦ rw no_ (t, h, s)
  | inl c ↦ rw c (elim (Bool-cases (is_overdue now t)) [
    | inl o ↦ rw o (
        save-Holds task_id (expire now) db t (λ x. refl) h s
          (RowStep.expires now refl (ground (arith, c))))
    | inr o ↦ rw o (elim (Bool-cases (is_some t.scheduled_for && some_gt t.scheduled_for now)) [
      | inl later ↦ rw later (t, h, s)
      | inr due ↦
          rw due (save-Holds task_id (start now) db t (λ x. refl) h s (RowStep.begun now refl c))
    ])
  ])
]

phase1-Holds :
    (now task_id : ℕ) (db : Db) (t : TaskEntry)
    → find task_id db.tasks ≡ some t
    → is_sound t ≡ true
    → Holds task_id (phase1 now task_id db).1
phase1-Holds now task_id db t h s =
    subst (λ (r : Phase1 × Db). Holds task_id r.1)
      (sym (phase1-twin now task_id db ∙ phase1_cases now task_id db t h))
      (result_Holds now task_id t db h s)

finish_Holds :
    (task_id : ℕ) (f : TaskEntry → TaskEntry) (db : Db) (t : TaskEntry)
    → KeepsId f
    → find task_id db.tasks ≡ some t
    → is_sound t ≡ true
    → (is_status processing t.status ≡ true → RowStep t (f t))
    → Holds task_id (finish_found task_id f (some t) db).1
unfolding finish_found
finish_Holds task_id f db t keeps h s r = elim (Bool-cases (is_status processing t.status)) [
  | inl p ↦ rw p (save-Holds task_id f db t keeps h s (r p))
  | inr n ↦ rw n (t, h, s)
]

phase3-Holds :
    (w : World) (explicit : Option ℕ) (backoff : Option (ℕ → ℕ)) (resolve : String → TaskPolicy)
    (task_id : ℕ) (cached : TaskEntry) (o : Option Raised) (db : Db)
    → Holds task_id db
    → Holds task_id (phase3 w explicit backoff resolve task_id cached o db).1
unfolding phase3 phase3_failed phase3_completed
phase3-Holds w explicit backoff resolve task_id cached none db (t, h, s) = rw h (
    finish_Holds task_id (complete w.now_after) db t (λ x. refl) h s
      (λ p. RowStep.completes w.now_after refl p))
phase3-Holds w explicit backoff resolve task_id cached (some exc) db (t, h, s) = rw h (
    finish_Holds task_id _ db t (λ x. ground arith) h s
      (λ p.
        RowStep.fails w.draw exc (resolve cached.task_type) cached.attempts cached.max_attempts
          w.now_after backoff refl p))

module _ (w : World) (explicit : Option ℕ) (backoff : Option (ℕ → ℕ))
    (resolve : String → TaskPolicy) (task_id now : ℕ) (db : Db) where
  -- A run that is cancelled, wherever that is, leaves a sound row under the id.
  phases_Holds :
      (cut : Cut) (result : Phase1) (db' : Db)
      → Holds task_id (w.meanwhile db')
      → (phases_2_3 w explicit backoff resolve task_id cut result db').0 ≡ cancelled
      → (cut ≡ claiming)
        ⊎ ((cut ≡ claimed)
            ⊎ Holds task_id (phases_2_3 w explicit backoff resolve task_id cut result db').1)
  unfolding phases_2_3
  phases_Holds cut skipped db' k h = cc h
  phases_Holds never (started cached) db' k h = cc h
  phases_Holds claiming (started cached) db' k h = inl refl
  phases_Holds claimed (started cached) db' k h = inr (inl refl)
  phases_Holds handling (started cached) db' k h = inr (inr k)
  phases_Holds finishing (started cached) db' k h = inr (inr k)
  phases_Holds finished (started cached) db' k h =
      inr (inr (phase3-Holds w explicit backoff resolve task_id cached _ (w.meanwhile db') k))

  late_Holds :
      (cut : Cut)
      → (cut ≡ claiming → ⊥)
      → (cut ≡ claimed → ⊥)
      → Holds task_id (w.meanwhile (phase1 now task_id db).1)
      → (phases_2_3 w explicit backoff resolve task_id cut
          (phase1 now task_id db).0
          (phase1 now task_id db).1).0
        ≡ cancelled
      → Holds task_id
          (phases_2_3 w explicit backoff resolve task_id cut
            (phase1 now task_id db).0
            (phase1 now task_id db).1).1
  late_Holds cut a b k h =
      elim (phases_Holds cut (phase1 now task_id db).0 (phase1 now task_id db).1 k h) [
        | inl e ↦ absurd (a e)
        | inr (inl e) ↦ absurd (b e)
        | inr (inr l) ↦ l
      ]

  cancelled_Holds :
      (cut : Cut) (t : TaskEntry)
      → find task_id db.tasks ≡ some t
      → is_sound t ≡ true
      → Holds task_id (w.meanwhile (phase1 now task_id db).1)
      → (process_task_async w explicit backoff resolve task_id cut now db).0 ≡ cancelled
      → Holds task_id (process_task_async w explicit backoff resolve task_id cut now db).1
  unfolding process_task_async
  cancelled_Holds never t f s k h = late_Holds never (λ e. cc e) (λ e. cc e) k h
  cancelled_Holds claiming t f s k h = (t, f, s)
  cancelled_Holds claimed t f s k h = phase1-Holds now task_id db t f s
  cancelled_Holds handling t f s k h = late_Holds handling (λ e. cc e) (λ e. cc e) k h
  cancelled_Holds finishing t f s k h = late_Holds finishing (λ e. cc e) (λ e. cc e) k h
  cancelled_Holds finished t f s k h = late_Holds finished (λ e. cc e) (λ e. cc e) k h

  begun_of :
      (cut : Cut) (result : Phase1) (db' : Db)
      → (phases_2_3 w explicit backoff resolve task_id cut result db').0 ≡ cancelled
      → (cached : TaskEntry) × (result ≡ started cached)
  unfolding phases_2_3
  begun_of cut skipped db' h = cc h
  begun_of cut (started cached) db' h = (cached, refl)

  never_cancelled :
      (result : Phase1) (db' : Db)
      → (phases_2_3 w explicit backoff resolve task_id never result db').0 ≡ cancelled
      → ⊥
  unfolding phases_2_3
  never_cancelled skipped db' h = cc h
  never_cancelled (started cached) db' h = cc h

  -- Until the handler has ended, a row that was started is not in a terminal state.
  begun_row :
      (cached : TaskEntry)
      → (phase1 now task_id db).0 ≡ started cached
      → (u : TaskEntry) × (find task_id (phase1 now task_id db).1.tasks ≡ some u)
        × (is_terminal u.status ≡ false)
  unfolding is_terminal
  begun_row cached h =
      let twin = phase1-twin now task_id db in
      let (t, _, _, _, _, _, stored) =
        phase1_started now task_id db cached (sym (ap (λ (r : Phase1 × Db). r.0) twin) ∙ h) in
      (start now t, ap (λ (r : Phase1 × Db). find task_id r.1.tasks) twin ∙ stored, refl)

  early_end :
      (cut : Cut) (t' : TaskEntry)
      → (find task_id (w.meanwhile (phase1 now task_id db).1).tasks
          ≡ find task_id (phase1 now task_id db).1.tasks)
      → (phases_2_3 w explicit backoff resolve task_id cut
          (phase1 now task_id db).0
          (phase1 now task_id db).1).0
        ≡ cancelled
      → find task_id (w.meanwhile (phase1 now task_id db).1).tasks ≡ some t'
      → is_terminal t'.status ≡ true
      → ⊥
  early_end cut t' quiet h e y =
      let (cached, b) = begun_of cut (phase1 now task_id db).0 (phase1 now task_id db).1 h in
      let (u, g, n) = begun_row cached b in
      let found : some t' ≡ some u = sym e ∙ (quiet ∙ g) in
      let same : t' ≡ u = cc found in cc (subst (λ x. is_terminal x.status ≡ true) same y, n)

  left_by :
      (cut : Cut) (result : Phase1) (db' : Db)
      → (cut ≡ handling) ⊎ (cut ≡ finishing)
      → (phases_2_3 w explicit backoff resolve task_id cut result db').0 ≡ cancelled
      → (phases_2_3 w explicit backoff resolve task_id cut result db').1 ≡ w.meanwhile db'
  unfolding phases_2_3
  left_by cut skipped db' c h = cc h
  left_by never (started cached) db' c h = cc h
  left_by claiming (started cached) db' (inl c) h = cc c
  left_by claiming (started cached) db' (inr c) h = cc c
  left_by claimed (started cached) db' (inl c) h = cc c
  left_by claimed (started cached) db' (inr c) h = cc c
  left_by handling (started cached) db' c h = refl
  left_by finishing (started cached) db' c h = refl
  left_by finished (started cached) db' (inl c) h = cc c
  left_by finished (started cached) db' (inr c) h = cc c

  persisted :
      (cut : Cut) (t t' : TaskEntry)
      → find task_id db.tasks ≡ some t
      → is_terminal t.status ≡ false
      → (find task_id (w.meanwhile (phase1 now task_id db).1).tasks
          ≡ find task_id (phase1 now task_id db).1.tasks)
      → (process_task_async w explicit backoff resolve task_id cut now db).0 ≡ cancelled
      → find task_id (process_task_async w explicit backoff resolve task_id cut now db).1.tasks
        ≡ some t'
      → is_terminal t'.status ≡ true
      → (cut ≡ claimed) ⊎ (cut ≡ finished)
  unfolding process_task_async
  persisted never t t' f n quiet h e y =
      absurd (never_cancelled (phase1 now task_id db).0 (phase1 now task_id db).1 h)
  persisted claiming t t' f n quiet h e y =
      let found : some t ≡ some t' = sym f ∙ e in
      let same : t ≡ t' = cc found in cc (subst (λ x. is_terminal x.status ≡ false) same n, y)
  persisted claimed t t' f n quiet h e y = inl refl
  persisted handling t t' f n quiet h e y = absurd (
      early_end handling t' quiet h
        (ap (λ (r : Db). find task_id r.tasks)
            (sym
              (left_by handling (phase1 now task_id db).0 (phase1 now task_id db).1 (inl refl) h))
          ∙ e)
        y)
  persisted finishing t t' f n quiet h e y = absurd (
      early_end finishing t' quiet h
        (ap (λ (r : Db). find task_id r.tasks)
            (sym
              (left_by finishing (phase1 now task_id db).0 (phase1 now task_id db).1 (inr refl) h))
          ∙ e)
        y)
  persisted finished t t' f n quiet h e y = inr refl

  -- Whatever cancels a run of `process_task_async`, also where a commit that is cancelled persists, the
  -- row is not lost: if it was sound and not in a terminal state before, and no other session touched
  -- it while the handler ran, it is there afterwards, and there is a time from which on it matches the
  -- claim's query, but for the queue, or that of one of the four recovery passes; or it is in a
  -- terminal state, and what was cancelled is a commit that persists.
  pub cancelled_recoverable :
      (b : Backend) (limit : ℕ) (cut : Cut) (t : TaskEntry)
      → find task_id db.tasks ≡ some t
      → is_sound t ≡ true
      → is_terminal t.status ≡ false
      → (find task_id (w.meanwhile (phase1 now task_id db).1).tasks
          ≡ find task_id (phase1 now task_id db).1.tasks)
      → (process_task_async w explicit backoff resolve task_id cut now db).0 ≡ cancelled
      → (t' : TaskEntry) × (find task_id
            (process_task_async w explicit backoff resolve task_id cut now db).1.tasks
          ≡ some t')
        × (((is_terminal t'.status ≡ true) × ((cut ≡ claimed) ⊎ (cut ≡ finished)))
            ⊎ ((at : ℕ) × ((now' : ℕ) → at ≤ now' → is_recoverable b limit now' t' ≡ true)))
  cancelled_recoverable b limit cut t f s o quiet h =
      let (u, g, v) = phase1-Holds now task_id db t f s in
      let (t', e, sound) = cancelled_Holds cut t f s (u, quiet ∙ g, v) h in
      elim (Bool-cases (is_terminal t'.status)) [
        | inl y ↦ (t', e, inl (y, persisted cut t t' f o quiet h e y))
        | inr n ↦ (t', e, inr (sound_recoverable b limit t' sound n))
      ]
