-- ===== src/Django/Executor/Creating.antt =====
-- Creation over the two ORMs.
use dewey.Prelude.{ℕ, ◌≡◌, refl, String}
use dewey.Policy.{TaskPolicy}
use dewey.Ledger.{Db}
use dewey.Sqlalchemy.Executor.Create
use dewey.Sqlalchemy.Executor.Create.{Request, JsonEquality}
use dewey.Django.Executor.{create_task, create_or_get_task}

pub create_task-eq :
    (resolve : String → TaskPolicy) (id now : ℕ) (r : Request) (db : Db)
    → create_task resolve id now r db ≡ Create.create_task resolve id now r db
unfolding create_task Create.create_task
create_task-eq resolve id now r db = refl

-- Filling in the policy's values before the nested call changes nothing.
pub create_or_get_task-eq :
    (eq : JsonEquality) (resolve : String → TaskPolicy) (id now : ℕ) (r : Request) (db : Db)
    → create_or_get_task eq resolve id now r db ≡ Create.create_or_get_task eq resolve id now r db
unfolding create_or_get_task Create.create_or_get_task create_task Create.create_task
create_or_get_task-eq eq resolve id now r db = refl
