-- ===== src/Ledger.antt =====
-- The database as the program sees it, and what its SQL statements do to it: `UPDATE … WHERE`,
-- `SELECT … WHERE id = …`, `DELETE … WHERE`, `COUNT`, and the NOTIFYs that a transaction leaves
-- (src/dewey/sqlalchemy/listen.py, src/dewey/django/listen.py). A value is what is committed
-- between two transactions, and a transaction is a function on it.
pub mod Laws
pub mod Engine
pub mod Evolution
pub mod Keyed
pub mod Liveness
use dewey.Prelude.{
  ℕ, suc, String, Bool, true, false, Option, none, some, List, [], ◌∷◌, ◌++◌, map, ◌==◌, keep,
  if◌then◌else◌,
}
use dewey.Core.Types.{TaskEntry}
use dewey.Core.Heartbeat.{DispatcherHeartbeat}

-- The payload of a NOTIFY with `kind="task"`.
pub record Wakeup : Type 0 where
  pub entry_id : ℕ
  pub queue : String

pub record Db : Type 0 where
  pub postgresql : Bool
  pub tasks : List TaskEntry
  pub wakeups : List Wakeup
  pub dispatchers : List DispatcherHeartbeat

-- `SELECT … WHERE id = i`; `id` is the primary key.
unfoldable pub find : ℕ → List TaskEntry → Option TaskEntry
find i [] = none
find i (t ∷ ts) = if t.id == i then some t else find i ts

-- `UPDATE … SET … WHERE p`
unfoldable pub update :
    (TaskEntry → Bool) → (TaskEntry → TaskEntry) → List TaskEntry → List TaskEntry
update p f [] = []
update p f (t ∷ ts) = (if p t then f t else t) ∷ update p f ts

-- `DELETE … WHERE p`
unfoldable pub delete : (TaskEntry → Bool) → List TaskEntry → List TaskEntry
delete p [] = []
delete p (t ∷ ts) = let rest = delete p ts in if p t then rest else t ∷ rest

-- The rows that `WHERE p` picks, and their number.
unfoldable pub rows : (TaskEntry → Bool) → List TaskEntry → List TaskEntry
rows p ts = keep p ts

unfoldable pub count : (TaskEntry → Bool) → List TaskEntry → ℕ
count p [] = 0
count p (t ∷ ts) = if p t then suc (count p ts) else count p ts

abbrev pub ids : List TaskEntry → List ℕ
ids = map (λ (t : TaskEntry). t.id)

-- `notify_work_available(kind="task", …)`: nothing is sent where the database is not PostgreSQL.
unfoldable pub notify_work_available : ℕ → String → Db → Db
notify_work_available entry_id queue db =
    if db.postgresql
    then record db { wakeups = db.wakeups ++ record { entry_id = entry_id; queue = queue } ∷ [] }
    else db

-- `for task_id, queue in rows: notify_work_available(…)`
unfoldable pub notify_all : List TaskEntry → Db → Db
unfolding notify_work_available
notify_all [] db = db
notify_all (t ∷ ts) db = notify_all ts (notify_work_available t.id t.queue db)
