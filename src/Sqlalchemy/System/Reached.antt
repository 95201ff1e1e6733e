-- ===== src/Sqlalchemy/System/Reached.antt =====
-- What holds along every run of the system.
use dewey.Prelude.{
  ℕ, suc, ◌+◌, ◌≤◌, ◌≡◌, sym, ap, subst, ◌∙◌, inl, inr, Bool, true, false, ◌&&◌, ◌||◌, some, List,
  [], arith, get_or,
}
use dewey.Core.States.{is_terminal, pending, failed, processing, dispatching}
use dewey.Core.Types.{TaskEntry}
use dewey.Ledger.{Db, find}
use dewey.Ledger.Evolution.{Follows, Holds}
use dewey.Sqlalchemy.Dispatch.{Backend, is_claimable, is_in_time}
use dewey.Sqlalchemy.Sweep.{expired_query, stuck_query, dispatching_query, failed_query}
use dewey.Sqlalchemy.System.{Step, Reaches, here, then_}
use dewey.Sqlalchemy.System.Rows.{RowStep, RowStep-Follows, RowStep-is_sound, is_sound}
use dewey.Sqlalchemy.System.Kept.{payload, payload-RowStep, Counts, RowStep-Counts}
use dewey.Sqlalchemy.System.Changes.{Changes, is_new, Step-Changes}

-- The row found after a transaction under an id that was taken before it.
step_of_row :
    (db db' : Db) (i : ℕ) (t t' : TaskEntry)
    → Step db db'
    → find i db.tasks ≡ some t
    → find i db'.tasks ≡ some t'
    → RowStep t t'
step_of_row db db' i t t' s f f' = elim (Step-Changes db db' s i t' f') [
  | inl (u, g, r) ↦
      let found : some u ≡ some t = sym g ∙ f in
      let same : u ≡ t = cc found in subst (λ x. RowStep x t') same r
  | inr (free, _) ↦ cc (free, f)
]

-- Whatever transaction runs, the status of a row that is there before and after it stays the same or
-- takes one transition of the state machine.
pub step-Follows :
    (db db' : Db) (i : ℕ) (t t' : TaskEntry)
    → Step db db'
    → find i db.tasks ≡ some t
    → find i db'.tasks ≡ some t'
    → Follows t.status t'.status
step-Follows db db' i t t' s f f' = RowStep-Follows t t' (step_of_row db db' i t t' s f f')

-- Whatever transaction runs, what the producer asked for stays as it was written: the type, the
-- arguments, the queue, the priority, the budget, the key, the metadata, the deadline and the first
-- schedule of a row that is there before and after.
pub step_payload :
    (db db' : Db) (i : ℕ) (t t' : TaskEntry)
    → Step db db'
    → find i db.tasks ≡ some t
    → find i db'.tasks ≡ some t'
    → payload t' ≡ payload t
step_payload db db' i t t' s f f' = payload-RowStep t t' (step_of_row db db' i t t' s f f')

-- Whatever transaction runs, the attempts of a row stay, or rise by one where the row goes from
-- pending or dispatching to processing, or go to none where it goes to pending.
pub step_counts :
    (db db' : Db) (i : ℕ) (t t' : TaskEntry)
    → Step db db'
    → find i db.tasks ≡ some t
    → find i db'.tasks ≡ some t'
    → Counts t t'
step_counts db db' i t t' s f f' = RowStep-Counts t t' (step_of_row db db' i t t' s f f')

new_sound : (t : TaskEntry) → is_new t ≡ true → is_sound t ≡ true
new_sound t h = ground (arith, h)

pub Changes-is_sound :
    (ts ts' : List TaskEntry)
    → Changes ts ts'
    → Holds (λ t. is_sound t ≡ true) ts
    → Holds (λ t. is_sound t ≡ true) ts'
Changes-is_sound ts ts' changes h i t f = elim (changes i t f) [
  | inl (u, g, step) ↦ RowStep-is_sound u t step (h i u g)
  | inr (_, fresh) ↦ new_sound t fresh
]

-- A row is sound if its budget is at least one, its attempts are within the budget, and below it while
-- it is pending or dispatching, and the timestamp that its status relies on is set. All rows are sound
-- after any run from rows that are all sound, in whatever order the transactions come, those of stale
-- workers included; each task that is created in the run asks for at least one attempt.
pub reached_sound :
    (db db' : Db)
    → Reaches db db'
    → Holds (λ t. is_sound t ≡ true) db.tasks
    → Holds (λ t. is_sound t ≡ true) db'.tasks
reached_sound db db' here h = h
reached_sound db db' (then_ {mid = mid} r s) h =
    Changes-is_sound mid.tasks db'.tasks (Step-Changes mid db' s) (reached_sound db mid r h)

pub none_held : (ts : List TaskEntry) → ts ≡ [] → Holds (λ t. is_sound t ≡ true) ts
unfolding find
none_held ts e i t f = cc (f, ap (find i) e)

-- Where a row waits to be picked up from the time `now` on: by a claim, or by one of the four passes
-- of a sweep.
abbrev pub is_recoverable : Backend → ℕ → ℕ → TaskEntry → Bool
is_recoverable b limit now t =
    (is_claimable now t && is_in_time now t)
    || (expired_query limit now).matches t
    || (failed_query limit now).matches t
    || (stuck_query b.stuck_threshold limit now).matches t
    || (dispatching_query b.dispatch_timeout limit now).matches t

-- The time from which on a row is picked up.
abbrev waits_until : Backend → TaskEntry → ℕ
waits_until b t = elim t.status [
  | pending ↦ get_or t.scheduled_for 0
  | failed ↦ get_or t.scheduled_for 0
  | dispatching ↦ suc (get_or t.dispatching_at 0 + b.dispatch_timeout)
  | processing ↦ suc (get_or t.started_at 0 + b.stuck_threshold)
  | _ ↦ 0
]

pub sound_recoverable :
    (b : Backend) (limit : ℕ) (t : TaskEntry)
    → is_sound t ≡ true
    → is_terminal t.status ≡ false
    → (at : ℕ) × ((now : ℕ) → at ≤ now → is_recoverable b limit now t ≡ true)
unfolding is_terminal
sound_recoverable b limit t h n = (waits_until b t, λ now l. ground (arith, h, n, l))

-- No row is stranded: whatever transactions have run since the table was empty, where each task that
-- was created asked for at least one attempt, for each row that is
-- not in a terminal state there is a time from which on it matches the claim's query, but for the
-- queue, or that of one of the four recovery passes.
pub reached_recoverable :
    (b : Backend) (limit i : ℕ) (db db' : Db) (t : TaskEntry)
    → db.tasks ≡ []
    → Reaches db db'
    → find i db'.tasks ≡ some t
    → is_terminal t.status ≡ false
    → (at : ℕ) × ((now : ℕ) → at ≤ now → is_recoverable b limit now t ≡ true)
reached_recoverable b limit i db db' t nothing r f n =
    sound_recoverable b limit t (reached_sound db db' r (none_held db.tasks nothing) i t f) n
