-- ===== src/Sqlalchemy/Executor/Existing.antt =====
-- The row that a producer's call finds under its key, and how it compares with the request.
use dewey.Prelude.{
  ℕ, ◌≡◌, refl, sym, ap, subst, ◌⊎◌, inl, inr, String, ℤ, pos, negsuc, eqz, true, false, Option,
  none, some, List, [], ◌∷◌, ◌++◌, is_empty, is_some, nil_of_is_empty, Bool-cases, Result, ok, err,
  ==_iff, str_eq, eq_iff, get_or, arith,
}
use dewey.Core.Types.{TaskEntry}
use dewey.Serialization.{Items, Fields}
use dewey.Policy.{TaskPolicy}
use dewey.Ledger.{Db, find}
use dewey.Sqlalchemy.Executor.Create.{
  Request, CreateError, integrity_error, JsonEquality, new_task, insert_task, same_key, key_taken,
  find_key, differing, compare_existing, or_existing, same_time, value_error, serialization_error,
  idempotency_conflict_error,
}

-- Python's `==` on decoded JSON holds between a value and itself.
pub record IsReflexive (eq : JsonEquality) : Type 0 where
  pub args_refl : (args : Items) → eq.same_args args args ≡ true
  pub kwargs_refl : (kwargs : Fields) → eq.same_kwargs kwargs kwargs ≡ true

str_eq_refl : (s : String) → str_eq s s ≡ true
str_eq_refl s = (eq_iff s s).1 refl

eqz_refl : (z : ℤ) → eqz z z ≡ true
eqz_refl (pos n) = ground arith
eqz_refl (negsuc n) = ground arith

same_time_refl : (o : Option ℕ) → same_time o o ≡ true
same_time_refl none = refl
same_time_refl (some n) = ground arith

-- The rows that two calls for the same request make differ in no compared field.
pub differing-new_task :
    (eq : JsonEquality) (id id' now now' : ℕ) (policy : TaskPolicy) (r : Request) (s x : Option ℕ)
    (a : Items) (k : Fields)
    → IsReflexive eq
    → differing eq (new_task id' now' policy r s x a k) (new_task id now policy r s x a k) ≡ []
unfolding differing
differing-new_task eq id id' now now' policy r s x a k refls =
    rw
      (
        str_eq_refl r.task_type,
        refls.args_refl a,
        refls.kwargs_refl k,
        str_eq_refl (get_or r.queue policy.queue),
        eqz_refl (get_or r.priority policy.priority),
        (==_iff (get_or r.max_attempts policy.max_attempts)
              (get_or r.max_attempts policy.max_attempts)).1
            refl,
        same_time_refl s,
        same_time_refl x,
      )
      refl

pub find_key-append :
    (task_type key : String) (ts : List TaskEntry) (t : TaskEntry)
    → find_key task_type key ts ≡ none
    → same_key task_type key t ≡ true
    → find_key task_type key (ts ++ t ∷ []) ≡ some t
unfolding find_key
find_key-append task_type key [] t h y = rw y refl
find_key-append task_type key (u ∷ ts) t h y = elim (Bool-cases (same_key task_type key u)) [
  | inl own ↦ absurd (let h' = rw own at h in cc h')
  | inr other ↦ rw other (find_key-append task_type key ts t (rw other at h) y)
]

pub keyed : (o : Option String) → str_eq (get_or o "") "" ≡ false → o ≡ some (get_or o "")
keyed none h = absurd (let e = str_eq_refl "" in cc (h, e))
keyed (some key) h = refl

pub insert_task-key :
    (t : TaskEntry) (db db' : Db)
    → insert_task t db ≡ ok db'
    → key_taken t.task_type t.idempotency_key db.tasks ≡ false
unfolding insert_task
insert_task-key t db db' h = elim (Bool-cases (key_taken t.task_type t.idempotency_key db.tasks)) [
  | inr k ↦ k
  | inl k ↦ elim (Bool-cases (is_some (find t.id db.tasks))) [
    | inl i ↦ absurd (let h' = rw i at h in cc h')
    | inr i ↦ absurd (let h' = rw (i, k) at h in cc h')
  ]
]

pub is_none : (o : Option TaskEntry) → is_some o ≡ false → o ≡ none
is_none none h = refl
is_none (some t) h = cc h

pub own_key :
    (task_type key : String) (t : TaskEntry)
    → t.task_type ≡ task_type
    → t.idempotency_key ≡ some key
    → same_key task_type key t ≡ true
own_key task_type key t e k = rw (e, k, str_eq_refl task_type, str_eq_refl key) refl

-- What `or_existing` returns was created, or is the row that was found and compared.
pub or_existing-cases :
    (eq : JsonEquality) (key : String) (expected : TaskEntry) (db db' : Db)
    (m : Result CreateError (TaskEntry × Db)) (t : TaskEntry)
    → or_existing eq key expected db m ≡ ok (t, db')
    → (m ≡ ok (t, db'))
      ⊎ (compare_existing eq expected db (find_key expected.task_type key db.tasks) ≡ ok (t, db'))
unfolding or_existing
or_existing-cases eq key expected db db' (ok c) t h = inl h
or_existing-cases eq key expected db db' (err (value_error e)) t h = cc h
or_existing-cases eq key expected db db' (err (serialization_error e)) t h = cc h
or_existing-cases eq key expected db db' (err integrity_error) t h = inr h
or_existing-cases eq key expected db db' (err (idempotency_conflict_error fs)) t h = cc h

pub compare_existing-ok :
    (eq : JsonEquality) (expected : TaskEntry) (db db' : Db) (o : Option TaskEntry) (t : TaskEntry)
    → compare_existing eq expected db o ≡ ok (t, db')
    → (o ≡ some t) × (differing eq expected t ≡ []) × (db' ≡ db)
unfolding compare_existing
compare_existing-ok eq expected db db' none t h = cc h
compare_existing-ok eq expected db db' (some u) t h =
    elim (Bool-cases (is_empty (differing eq expected u))) [
      | inr e ↦ absurd (let h' = rw e at h in cc h')
      | inl e ↦
          let h' : ok (u, db) ≡ ok (t, db') = rw e at h in
          let pair : (u, db) ≡ (t, db') = cc h' in
          let row : u ≡ t = ap (λ (q : TaskEntry × Db). q.0) pair in
          (
            ap some row,
            subst (λ v. differing eq expected v ≡ []) row (sym (nil_of_is_empty _ e)),
            sym (ap (λ (q : TaskEntry × Db). q.1) pair),
          )
    ]
