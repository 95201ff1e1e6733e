-- ===== src/Sqlalchemy/Dispatch/Wake.antt =====
-- When the dispatcher wakes by itself.
use dewey.Prelude.{
  ℕ, String, subst, min, ◌⊎◌, ◌<◌, ◌≤◌, ◌≡◌, refl, inl, inr, true, Option, none, some, List, [],
  ◌∷◌, leb, max, arith, Bool-cases, if◌then◌else◌, ◌==◌,
}
use dewey.Core.States.{pending, failed}
use dewey.Core.Types.{TaskEntry}
use dewey.Ledger.{Db, find}
use dewey.Sqlalchemy.Dispatch.{
  Backend, in_scope, wake_at, is_awaited, min_option, earliest, not_before, next_due,
}

-- A time at or before another, where none is given after all.
abbrev By : Option ℕ → ℕ → Type 0
By none d = ⊥
By (some a) d = a ≤ d

By-min_left : (a b : Option ℕ) (d : ℕ) → By a d → By (min_option a b) d
By-min_left none b d h = absurd h
By-min_left (some a) none d h = h
By-min_left (some a) (some b) d h = omega arith

By-min_right : (a b : Option ℕ) (d : ℕ) → By b d → By (min_option a b) d
By-min_right none b d h = h
By-min_right (some a) none d h = absurd h
By-min_right (some a) (some b) d h = omega arith

earliest-By :
    (queues : Option (List String)) (ts : List TaskEntry) (i : ℕ) (t : TaskEntry) (d : ℕ)
    → find i ts ≡ some t
    → is_awaited queues t ≡ true
    → wake_at t ≡ some d
    → By (earliest queues ts) d
unfolding earliest find
earliest-By queues [] i t d f a w = cc
earliest-By queues (x ∷ ts) i t d f a w = elim (Bool-cases (x.id == i)) [
  | inl here ↦
      let found : some x ≡ some t = rw here at f in
      let same : t ≡ x = cc found in
      let a' : is_awaited queues x ≡ true = subst (λ s. is_awaited queues s ≡ true) same a in
      let w' : wake_at x ≡ some d = subst (λ s. wake_at s ≡ some d) same w in
      rw a' (By-min_left (wake_at x) (earliest queues ts) d (rw w' (omega arith)))
  | inr there ↦
      let rest = earliest-By queues ts i t d (rw there at f) a w in
      elim (Bool-cases (is_awaited queues x)) [
        | inl also ↦ rw also (By-min_right (wake_at x) (earliest queues ts) d rest)
        | inr not_ ↦ rw not_ rest
      ]
]

By-not_before :
    (now d : ℕ) (o : Option ℕ)
    → By o d
    → (due : ℕ) × (not_before now o ≡ some due) × (now ≤ due) × (due ≤ max now d)
By-not_before now d none h = absurd h
By-not_before now d (some a) h = ((if leb now a then a else now), refl, ground arith, ground arith)

-- The schedule, or the deadline if there is one that comes first.
abbrev pub first_of : ℕ → Option ℕ → ℕ
first_of at none = at
first_of at (some deadline) = min deadline at

-- A row that waits for a worker: pending, or failed with attempts left.
abbrev pub Waits : TaskEntry → Type 0
Waits t = (t.status ≡ pending) ⊎ ((t.status ≡ failed) × (t.attempts < t.max_attempts))

Waits-awaited :
    (queues : Option (List String)) (t : TaskEntry) (at : ℕ)
    → Waits t
    → in_scope queues t ≡ true
    → t.scheduled_for ≡ some at
    → is_awaited queues t ≡ true
Waits-awaited queues t at (inl p) s e = rw (s, e, p) refl
Waits-awaited queues t at (inr (f, l)) s e = rw (s, e, f) (ground (arith, l))

wake_first :
    (t : TaskEntry) (at : ℕ) (deadline : Option ℕ)
    → t.scheduled_for ≡ some at
    → t.expires_at ≡ deadline
    → wake_at t ≡ some (first_of at deadline)
wake_first t at none e d = rw (e, d) refl
wake_first t at (some deadline) e d = rw (e, d) (ground arith)

-- While a row with a schedule waits in the dispatcher's queues, pending or failed with attempts
-- left, `next_due` gives a time: not before now, and not after both now and the row's schedule, or
-- its deadline if that comes first.
pub next_due_bounds :
    (b : Backend) (now : ℕ) (db : Db) (i : ℕ) (t : TaskEntry) (at : ℕ)
    → find i db.tasks ≡ some t
    → Waits t
    → in_scope b.queues t ≡ true
    → t.scheduled_for ≡ some at
    → (due : ℕ) × (next_due b now db ≡ some due)
      × (now ≤ due)
      × (due ≤ max now (first_of at t.expires_at))
unfolding next_due
next_due_bounds b now db i t at f a s e =
    let d = first_of at t.expires_at in
    By-not_before now d (earliest b.queues db.tasks) (
      earliest-By b.queues db.tasks i t d f (Waits-awaited b.queues t at a s e)
        (wake_first t at t.expires_at e refl))
