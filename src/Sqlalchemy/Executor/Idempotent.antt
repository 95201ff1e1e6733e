-- ===== src/Sqlalchemy/Executor/Idempotent.antt =====
-- A producer's call of `create_or_get_task` that is repeated.
use dewey.Prelude.{
  ℕ, ◌≡◌, refl, sym, ap, subst, ◌∙◌, inl, inr, String, false, Option, none, some, [], if◌then◌else◌,
  ok, err, >>=-eq-ok, str_eq, get_or, arith,
}
use dewey.Core.Types.{TaskEntry}
use dewey.Core.Validation.{require_timezone_aware, empty_idempotency_key}
use dewey.Serialization.{Items, Fields, encode_args, encode_kwargs}
use dewey.Policy.{TaskPolicy}
use dewey.Ledger.{Db, notify_work_available}
use dewey.Sqlalchemy.Queries.Actions.{tasks-notify_work_available}
use dewey.Sqlalchemy.Executor.Create.{
  Request, integrity_error, JsonEquality, raised_value, raised_serialization, new_task, insert_task,
  find_key, create_task, differing, create_or_get_task, compare_existing, or_existing,
}
use dewey.Sqlalchemy.System.Created.{insert_task-eq-ok}
use dewey.Sqlalchemy.Executor.Existing.{
  IsReflexive, differing-new_task, find_key-append, keyed, insert_task-key, is_none, own_key,
  or_existing-cases, compare_existing-ok,
}

module _ (eq : JsonEquality) (refls : IsReflexive eq) (resolve : String → TaskPolicy)
    (r : Request) where
  abbrev key : String
  key = get_or r.idempotency_key ""

  -- The row that a call for the request would make, with its decoded arguments.
  abbrev row_of : ℕ → ℕ → Option ℕ → Option ℕ → Items → Fields → TaskEntry
  row_of id now s x a k = new_task id now (resolve r.task_type) r s x a k

  -- The row of the key differs in no compared field.
  abbrev Matches : Option ℕ → Option ℕ → Items → Fields → TaskEntry → Db → Type 0
  Matches s x a k t db =
      (find_key r.task_type key db.tasks ≡ some t)
      × ((id now : ℕ) → differing eq (row_of id now s x a k) t ≡ [])

  -- What `create_task` returns once the row is inserted.
  abbrev stored : ℕ → ℕ → Option ℕ → Option ℕ → Items → Fields → Db → TaskEntry × Db
  stored id now s x a k mid =
      let u = row_of id now s x a k in (u, notify_work_available id u.queue mid)

  -- What a call that went through has found out: the arguments are valid, and the row that it
  -- returned is the one of the key and differs from the request in no compared field.
  abbrev Settled : TaskEntry → Db → Type 0
  Settled t db =
      (s : Option ℕ) × (x : Option ℕ) × (a : Items) × (k : Fields) × (str_eq key "" ≡ false)
      × (raised_value (require_timezone_aware r.scheduled_for "scheduled_for") ≡ ok s)
      × (raised_value (require_timezone_aware r.expires_at "expires_at") ≡ ok x)
      × (raised_serialization (encode_args r.args) ≡ ok a)
      × (raised_serialization (encode_kwargs r.kwargs) ≡ ok k)
      × Matches s x a k t db

  insert_again :
      (id now : ℕ) (s x : Option ℕ) (a : Items) (k : Fields) (t : TaskEntry) (db : Db)
      → str_eq key "" ≡ false
      → find_key r.task_type key db.tasks ≡ some t
      → insert_task (row_of id now s x a k) db ≡ err integrity_error
  unfolding insert_task
  insert_again id now s x a k t db named found =
      rw (keyed r.idempotency_key named, found) (ground arith)

  Settled-again :
      (id now : ℕ) (t : TaskEntry) (db : Db)
      → Settled t db
      → create_or_get_task eq resolve id now r db ≡ ok (t, db)
  unfolding create_or_get_task or_existing compare_existing
  Settled-again id now t db (s, x, a, k, named, es, ex, ea, ek, (found, same)) =
      rw (named, es, ex, ea, ek, insert_again id now s x a k t db named found, found, same id now)
        refl

  created_settled :
      (id now : ℕ) (s x : Option ℕ) (a : Items) (k : Fields) (t : TaskEntry) (db mid db' : Db)
      → str_eq key "" ≡ false
      → insert_task (row_of id now s x a k) db ≡ ok mid
      → row_of id now s x a k ≡ t
      → db'.tasks ≡ mid.tasks
      → Matches s x a k t db'
  created_settled id now s x a k t db mid db' named inserted made same =
      let u = row_of id now s x a k in
      let (_, rows_) = insert_task-eq-ok u db mid inserted in
      let named_key = keyed r.idempotency_key named in
      let free : find_key r.task_type key db.tasks ≡ none =
        is_none _ (rw named_key at (insert_task-key u db mid inserted)) in
      let own = own_key r.task_type key u refl named_key in
      (
        ap (find_key r.task_type key) (same ∙ rows_)
            ∙ (find_key-append r.task_type key db.tasks u free own ∙ ap some made),
        λ id' now'.
            subst (λ v. differing eq (row_of id' now' s x a k) v ≡ []) made
              (differing-new_task eq id id' now now' (resolve r.task_type) r s x a k refls),
      )

  created_pair :
      (id now : ℕ) (s x : Option ℕ) (a : Items) (k : Fields) (t : TaskEntry) (db mid db' : Db)
      → str_eq key "" ≡ false
      → insert_task (row_of id now s x a k) db ≡ ok mid
      → stored id now s x a k mid ≡ (t, db')
      → Matches s x a k t db'
  created_pair id now s x a k t db mid db' named inserted pair =
      created_settled id now s x a k t db mid db' named inserted
        (ap (λ (q : TaskEntry × Db). q.0) pair)
        (sym (ap (λ (q : TaskEntry × Db). q.1.tasks) pair) ∙ tasks-notify_work_available id _ mid)

  settled :
      (id now : ℕ) (s x : Option ℕ) (a : Items) (k : Fields) (t : TaskEntry) (db db' : Db)
      → str_eq key "" ≡ false
      → raised_value (require_timezone_aware r.scheduled_for "scheduled_for") ≡ ok s
      → raised_value (require_timezone_aware r.expires_at "expires_at") ≡ ok x
      → raised_serialization (encode_args r.args) ≡ ok a
      → raised_serialization (encode_kwargs r.kwargs) ≡ ok k
      → or_existing eq key (row_of id now s x a k) db (create_task resolve id now r db)
        ≡ ok (t, db')
      → Matches s x a k t db'
  unfolding create_task differing
  settled id now s x a k t db db' named es ex ea ek h =
      elim (or_existing-cases eq key (row_of id now s x a k) db db' _ t h) [
        | inl made ↦
            let made' = rw (es, ex, ea, ek) at made in
            let (mid, inserted, last) =
              >>=-eq-ok (insert_task (row_of id now s x a k) db) _ made' in
            let pair : stored id now s x a k mid ≡ (t, db') = cc last in
            created_pair id now s x a k t db mid db' named inserted pair
        | inr old ↦
            let (f, d, e) = compare_existing-ok eq (row_of id now s x a k) db db' _ t old in
            (ap (λ (q : Db). find_key r.task_type key q.tasks) e ∙ f, λ id' now'. d)
      ]

  call-Settled :
      (id now : ℕ) (t : TaskEntry) (db db' : Db)
      → create_or_get_task eq resolve id now r db ≡ ok (t, db')
      → Settled t db'
  unfolding create_or_get_task
  call-Settled id now t db db' h =
      let (_, en, h₀) =
        >>=-eq-ok (raised_value (if str_eq key "" then err empty_idempotency_key else ok tt)) _ h in
      let (s, es, h₁) =
        >>=-eq-ok (raised_value (require_timezone_aware r.scheduled_for "scheduled_for")) _ h₀ in
      let (x, ex, h₂) =
        >>=-eq-ok (raised_value (require_timezone_aware r.expires_at "expires_at")) _ h₁ in
      let (a, ea, h₃) = >>=-eq-ok (raised_serialization (encode_args r.args)) _ h₂ in
      let (k, ek, h₄) = >>=-eq-ok (raised_serialization (encode_kwargs r.kwargs)) _ h₃ in
      let named : str_eq key "" ≡ false = ground (arith, en) in
      let matches = settled id now s x a k t db db' named es ex ea ek h₄ in
      (s, x, a, k, named, es, ex, ea, ek, matches)

  -- A producer may repeat a call of `create_or_get_task` that went through: the repetition, right
  -- after it and at whatever time, returns the row that the first call returned, and changes nothing.
  -- Python's `==` on decoded JSON is reflexive.
  pub create_or_get_task-again :
      (id id' now now' : ℕ) (t : TaskEntry) (db db' : Db)
      → create_or_get_task eq resolve id now r db ≡ ok (t, db')
      → create_or_get_task eq resolve id' now' r db' ≡ ok (t, db')
  create_or_get_task-again id id' now now' t db db' h =
      Settled-again id' now' t db' (call-Settled id now t db db' h)
