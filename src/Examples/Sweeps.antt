-- ===== src/Examples/Sweeps.antt =====
-- The recovery passes, and the actions of an operator.
use dewey.Prelude.{◌+◌, ◌≡◌, ◌↔◌, ◌⊎◌, refl, none, some, length}
use dewey.Ledger.{find}
use dewey.Sqlalchemy.Queries.{purge_completed}
use dewey.Sqlalchemy.Queries.Purge.{IsOutdated, purge_completed-find}
use dewey.Examples.{db, finished}

purge_completed-find_example :
    let (removed, db') = purge_completed 0 none 60 db in
    ((find 7 db'.tasks ≡ none) ↔ IsOutdated 0 none 60 finished)
    × ((find 7 db'.tasks ≡ none) ⊎ (find 7 db'.tasks ≡ some finished))
    × (removed + length db'.tasks ≡ 7)
unfolding find
purge_completed-find_example =
    purge_completed-find 0 none 60 7 db finished
      (refl, (refl, (refl, (refl, (refl, (refl, (refl, tt))))))) refl
