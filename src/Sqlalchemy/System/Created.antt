-- ===== src/Sqlalchemy/System/Created.antt =====
-- What a call that creates a task leaves in the table.
use dewey.Prelude.{
  ℕ, ◌≡◌, refl, sym, ap, ◌∙◌, ◌⊎◌, inl, inr, String, Option, none, some, List, [], ◌∷◌, ◌++◌,
  is_empty, Bool-cases, Option-cases, if◌then◌else◌, Result, ok, err, >>=-eq-ok, ◌==◌, str_eq,
  get_or,
}
use dewey.Core.Types.{TaskEntry}
use dewey.Core.Validation.{require_timezone_aware, empty_idempotency_key}
use dewey.Serialization.{Items, Fields, encode_args, encode_kwargs}
use dewey.Policy.{TaskPolicy}
use dewey.Ledger.{Db, find, notify_work_available}
use dewey.Sqlalchemy.Queries.Actions.{tasks-notify_work_available}
use dewey.Sqlalchemy.Executor.Create.{
  Request, CreateError, integrity_error, JsonEquality, raised_value, raised_serialization, new_task,
  insert_task, key_taken, find_key, create_task, differing, create_or_get_task, compare_existing,
  or_existing, value_error, serialization_error, idempotency_conflict_error,
}

pub find-append :
    (i : ℕ) (ts : List TaskEntry) (u : TaskEntry)
    → find i (ts ++ u ∷ [])
      ≡ elim (find i ts) [ none ↦ if u.id == i then some u else none | some t ↦ some t ]
unfolding find
find-append i [] u = refl
find-append i (t ∷ ts) u = elim (Bool-cases (t.id == i)) [
  | inl e ↦ rw e refl
  | inr e ↦ rw e (find-append i ts u)
]

pub insert_task-eq-ok :
    (t : TaskEntry) (db db' : Db)
    → insert_task t db ≡ ok db'
    → (find t.id db.tasks ≡ none) × (db'.tasks ≡ db.tasks ++ t ∷ [])
unfolding insert_task
insert_task-eq-ok t db db' h = elim (Option-cases (find t.id db.tasks)) [
  | inr (u, e) ↦ absurd (let h' = rw e at h in cc h')
  | inl e ↦ elim (Bool-cases (key_taken t.task_type t.idempotency_key db.tasks)) [
    | inl k ↦ absurd (let h' = rw (e, k) at h in cc h')
    | inr k ↦
        let h' = rw (e, k) at h in
        let same : record db { tasks = db.tasks ++ t ∷ [] } ≡ db' = cc h' in
        (e, sym (ap (λ (d : Db). d.tasks) same))
  ]
]

-- A call of `create_task` that returned has stored one more row, under an id that was free: the one
-- it returns, which is made from the request and the policy.
pub create_task-eq-ok :
    (resolve : String → TaskPolicy) (id now : ℕ) (r : Request) (db db' : Db) (t : TaskEntry)
    → create_task resolve id now r db ≡ ok (t, db')
    → (scheduled_for : Option ℕ) × (expires_at : Option ℕ) × (args : Items) × (kwargs : Fields) × (t
        ≡ new_task id now (resolve r.task_type) r scheduled_for expires_at args kwargs)
      × (find id db.tasks ≡ none)
      × (db'.tasks ≡ db.tasks ++ t ∷ [])
unfolding create_task
create_task-eq-ok resolve id now r db db' t h =
    let (s, _, h₁) =
      >>=-eq-ok (raised_value (require_timezone_aware r.scheduled_for "scheduled_for")) _ h in
    let (x, _, h₂) =
      >>=-eq-ok (raised_value (require_timezone_aware r.expires_at "expires_at")) _ h₁ in
    let (a, _, h₃) = >>=-eq-ok (raised_serialization (encode_args r.args)) _ h₂ in
    let (k, _, h₄) = >>=-eq-ok (raised_serialization (encode_kwargs r.kwargs)) _ h₃ in
    let u = new_task id now (resolve r.task_type) r s x a k in
    let (mid, inserted, h₅) = >>=-eq-ok (insert_task u db) _ h₄ in
    let (free, rows_) = insert_task-eq-ok u db mid inserted in
    let same : (u, notify_work_available id u.queue mid) ≡ (t, db') = cc h₅ in
    let row : u ≡ t = ap (λ (q : TaskEntry × Db). q.0) same in
    (
      s,
      x,
      a,
      k,
      sym row,
      free,
      sym (ap (λ (q : TaskEntry × Db). q.1.tasks) same)
          ∙ (tasks-notify_work_available id u.queue mid
              ∙ (rows_ ∙ ap (λ z. db.tasks ++ z ∷ []) row)),
    )

compare_existing-eq-ok :
    (eq : JsonEquality) (expected : TaskEntry) (db db' : Db) (o : Option TaskEntry) (t : TaskEntry)
    → compare_existing eq expected db o ≡ ok (t, db')
    → db' ≡ db
unfolding compare_existing
compare_existing-eq-ok eq expected db db' none t h = cc h
compare_existing-eq-ok eq expected db db' (some u) t h =
    elim (Bool-cases (is_empty (differing eq expected u))) [
      | inl e ↦ let h' = rw e at h in cc h'
      | inr e ↦ let h' = rw e at h in cc h'
    ]

or_existing-eq-ok :
    (eq : JsonEquality) (key : String) (expected : TaskEntry) (db db' : Db)
    (m : Result CreateError (TaskEntry × Db)) (t : TaskEntry)
    → or_existing eq key expected db m ≡ ok (t, db')
    → (m ≡ ok (t, db')) ⊎ (db' ≡ db)
unfolding or_existing
or_existing-eq-ok eq key expected db db' (ok c) t h = inl h
or_existing-eq-ok eq key expected db db' (err (value_error e)) t h = cc h
or_existing-eq-ok eq key expected db db' (err (serialization_error e)) t h = cc h
or_existing-eq-ok eq key expected db db' (err integrity_error) t h =
    inr (compare_existing-eq-ok eq expected db db' (find_key expected.task_type key db.tasks) t h)
or_existing-eq-ok eq key expected db db' (err (idempotency_conflict_error fs)) t h = cc h

-- A call of `create_or_get_task` that returned has created a task as `create_task` does, or changed
-- nothing.
pub create_or_get_task-eq-ok :
    (eq : JsonEquality) (resolve : String → TaskPolicy) (id now : ℕ) (r : Request) (db db' : Db)
    (t : TaskEntry)
    → create_or_get_task eq resolve id now r db ≡ ok (t, db')
    → (create_task resolve id now r db ≡ ok (t, db')) ⊎ (db' ≡ db)
unfolding create_or_get_task
create_or_get_task-eq-ok eq resolve id now r db db' t h =
    let key = get_or r.idempotency_key "" in
    let (_, _, h₀) =
      >>=-eq-ok (raised_value (if str_eq key "" then err empty_idempotency_key else ok tt)) _ h in
    let (s, _, h₁) =
      >>=-eq-ok (raised_value (require_timezone_aware r.scheduled_for "scheduled_for")) _ h₀ in
    let (x, _, h₂) =
      >>=-eq-ok (raised_value (require_timezone_aware r.expires_at "expires_at")) _ h₁ in
    let (a, _, h₃) = >>=-eq-ok (raised_serialization (encode_args r.args)) _ h₂ in
    let (k, _, h₄) = >>=-eq-ok (raised_serialization (encode_kwargs r.kwargs)) _ h₃ in
    or_existing-eq-ok eq key (new_task id now (resolve r.task_type) r s x a k) db db'
      (create_task resolve id now r db) t h₄
