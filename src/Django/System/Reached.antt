-- ===== src/Django/System/Reached.antt =====
-- What holds along every run in which the two packages share the ledger.
use dewey.Prelude.{ℕ, ◌≡◌, ◌≤◌, subst, sym, some, true, false, [], Distinct}
use dewey.Core.States.{is_terminal}
use dewey.Core.Types.{TaskEntry}
use dewey.Ledger.{Db, find, ids}
use dewey.Ledger.Evolution.{Holds}
use dewey.Sqlalchemy.Dispatch.{Backend}
use dewey.Sqlalchemy.System.Changes.{Changes, Step-Changes}
use dewey.Sqlalchemy.System.Keys.{Step-Distinct}
use dewey.Sqlalchemy.System.Rows.{is_sound}
use dewey.Sqlalchemy.System.Reached.{Changes-is_sound, is_recoverable, sound_recoverable, none_held}
use dewey.Django.System.{Turn, of_sqlalchemy, of_django, Runs, idle, then_}
use dewey.Django.System.Simulation.{simulates}

-- What a transaction of either package does to the rows.
pub Turn-Changes :
    (db db' : Db)
    → Turn db db'
    → Distinct (ids db.tasks)
    → Changes db.tasks db'.tasks × Distinct (ids db'.tasks)
Turn-Changes db db' (of_sqlalchemy s) d = (Step-Changes db db' s, Step-Distinct db db' s d)
Turn-Changes db db' (of_django s) d =
    let (mid, s', same) = simulates db db' s d in
    subst (λ ts. Changes db.tasks ts × Distinct (ids ts)) (sym same)
      (Step-Changes db mid s', Step-Distinct db mid s' d)

-- Where the two packages take turns on one ledger, in any order, no two rows ever have the same id,
-- and all rows are sound, if that is so at the start and each task that is created asks for at least
-- one attempt.
pub shared_sound :
    (db db' : Db)
    → Runs db db'
    → Distinct (ids db.tasks)
    → Holds (λ t. is_sound t ≡ true) db.tasks
    → Distinct (ids db'.tasks) × Holds (λ t. is_sound t ≡ true) db'.tasks
shared_sound db db' idle d h = (d, h)
shared_sound db db' (then_ {mid = mid} r s) d h =
    let (d', h') = shared_sound db mid r d h in
    let (changes, d'') = Turn-Changes mid db' s d' in
    (d'', Changes-is_sound mid.tasks db'.tasks changes h')

-- Where the two packages take turns on a ledger that was empty, no row is stranded: for each row that
-- is not in a terminal state there is a time from which on it matches the claim's query, but for the
-- queue, or that of one of the four recovery passes.
pub shared_recoverable :
    (b : Backend) (limit i : ℕ) (db db' : Db) (t : TaskEntry)
    → db.tasks ≡ []
    → Runs db db'
    → find i db'.tasks ≡ some t
    → is_terminal t.status ≡ false
    → (at : ℕ) × ((now : ℕ) → at ≤ now → is_recoverable b limit now t ≡ true)
shared_recoverable b limit i db db' t nothing r f n =
    let keys : Distinct (ids db.tasks) = subst (λ ts. Distinct (ids ts)) (sym nothing) tt in
    let (_, sound) = shared_sound db db' r keys (none_held db.tasks nothing) in
    sound_recoverable b limit t (sound i t f) n
