-- ===== src/Ledger/Engine.antt =====
-- The database engine's part in `SELECT … WHERE … ORDER BY … LIMIT … [FOR UPDATE SKIP LOCKED]`:
-- which rows it returns, where the statement leaves that open. It is a parameter of the model, and
-- `IsSql` is what the SQL standard and PostgreSQL's manual document of it.
pub mod Sorting
use dewey.Prelude.{
  ℕ, ◌≤◌, ◌<◌, ◌≡◌, ◌⊎◌, Bool, true, false, ◌&&◌, some, List, [], ◌∷◌, All, Pairwise, Distinct,
  contains, length,
}
use dewey.Core.Types.{TaskEntry}
use dewey.Ledger.{find, ids}

pub record Query : Type 0 where
  pub matches : TaskEntry → Bool
  pub before : TaskEntry → TaskEntry → Bool
  pub limit : ℕ
  pub skip_locked : Bool

-- `locked` are the rows that other sessions hold while the statement runs.
pub record Engine : Type 0 where
  pub select : Query → List TaskEntry → List TaskEntry
  pub locked : TaskEntry → Bool

-- A sort key: a total preorder.
pub record IsOrder (before : TaskEntry → TaskEntry → Bool) : Type 0 where
  pub total : (a b : TaskEntry) → (before a b ≡ true) ⊎ (before b a ≡ true)
  pub trans : (a b c : TaskEntry) → before a b ≡ true → before b c ≡ true → before a c ≡ true

-- A row that the statement may return: it is in the table, matches, and is not skipped.
pub record IsCandidate (e : Engine) (q : Query) (ts : List TaskEntry) (t : TaskEntry) : Type 0 where
  pub present : find t.id ts ≡ some t
  pub matching : q.matches t ≡ true
  pub free : (q.skip_locked && e.locked t) ≡ false

pub record IsSql (e : Engine) : Type 0 where
  pub found :
      (q : Query) (ts : List TaskEntry)
      → All (λ t. (find t.id ts ≡ some t) × (q.matches t ≡ true)) (e.select q ts)
  pub distinct : (q : Query) (ts : List TaskEntry) → Distinct (ids (e.select q ts))
  pub limited : (q : Query) (ts : List TaskEntry) → length (e.select q ts) ≤ q.limit
  pub sorted :
      (q : Query) (ts : List TaskEntry)
      → IsOrder q.before
      → Pairwise (λ a b. q.before a b ≡ true) (e.select q ts)
  -- Below the limit no candidate is left out.
  pub complete :
      (q : Query) (ts : List TaskEntry) (t : TaskEntry)
      → IsCandidate e q ts t
      → length (e.select q ts) < q.limit
      → contains t.id (ids (e.select q ts)) ≡ true
  -- A candidate that is left out comes behind all that are returned.
  pub first :
      (q : Query) (ts : List TaskEntry) (t : TaskEntry)
      → IsOrder q.before
      → IsCandidate e q ts t
      → contains t.id (ids (e.select q ts)) ≡ false
      → All (λ s. q.before s t ≡ true) (e.select q ts)
