-- ===== src/Examples/Claims.antt =====
-- The claim at a table with one overdue row and three that are due.
use dewey.Prelude.{
  ℕ, ◌≤◌, ◌≡◌, refl, ◌⊎◌, true, false, none, inr, arith, some, List, [], ◌∷◌, contains, length,
  Pairwise, All, max,
}
use dewey.Core.States.{pending, dispatching}
use dewey.Core.Types.{TaskEntry}
use dewey.Ledger.{find, ids, update, rows}
use dewey.Ledger.Engine.Sorting.{sorting}
use dewey.Ledger.Engine.Sorting.Laws.{sorting-IsSql}
use dewey.Sqlalchemy.Dispatch.{in_scope, claim, release, next_due}
use dewey.Sqlalchemy.Dispatch.Claimed.{IsDue, IsAhead, claimed_row}
use dewey.Sqlalchemy.Dispatch.Release.{claims_disjoint, release-claim}
use dewey.Sqlalchemy.Dispatch.Order.{Precedes, claim_order, claim_first}
use dewey.Sqlalchemy.Dispatch.Wake.{next_due_bounds}
use dewey.Examples.{engine, backend, db, waiting_retry}

claimed_ids : (claim engine backend 2 60 db).0 ≡ 2 ∷ 1 ∷ []
unfolding claim sorting update rows
claimed_ids = refl

claimed_row_example :
    (t : TaskEntry) × (find 2 db.tasks ≡ some t)
    × IsDue 60 t
    × IsAhead 60 t.expires_at
    × (in_scope backend.queues t ≡ true)
    × (find 2 (claim engine backend 2 60 db).1.tasks
        ≡ some (record t { status = dispatching; dispatching_at = some 60 }))
unfolding claim sorting update rows
claimed_row_example = claimed_row engine backend 2 60 (sorting-IsSql (λ _. false)) db 2 refl

claims_disjoint_example :
    contains 2 (claim engine backend 5 61 (claim engine backend 2 60 db).1).0 ≡ false
unfolding claim sorting update rows
claims_disjoint_example =
    claims_disjoint engine engine backend backend 2 5 60 61 db 2 (sorting-IsSql (λ _. false))
      (sorting-IsSql (λ _. false)) refl

release-claim_example :
    (t : TaskEntry) × (find 2 db.tasks ≡ some t)
    × (find 2 (release (2 ∷ []) (claim engine backend 2 60 db).1).tasks
        ≡ some (record t { status = pending; dispatching_at = none }))
unfolding claim sorting update rows
release-claim_example =
    release-claim engine backend 2 60 db 2 (2 ∷ []) (sorting-IsSql (λ _. false)) refl refl

claim_order_example :
    (rs : List TaskEntry) × ((claim engine backend 2 60 db).0 ≡ ids rs)
    × Pairwise Precedes rs
    × All (λ t. find t.id db.tasks ≡ some t) rs
claim_order_example = claim_order engine backend 2 60 (sorting-IsSql (λ _. false)) db

claim_first_example :
    (contains 3 (claim engine backend 2 60 db).0 ≡ true)
    ⊎ ((length (claim engine backend 2 60 db).0 ≡ 2)
        × (rs : List TaskEntry) × ((claim engine backend 2 60 db).0 ≡ ids rs)
        × All (λ s. Precedes s waiting_retry) rs)
unfolding find sorting
claim_first_example =
    claim_first engine backend 2 60 (sorting-IsSql (λ _. false)) db waiting_retry refl
      (inr (refl, omega arith, omega arith)) tt refl refl

next_due_bounds_example :
    (due : ℕ) × (next_due backend 10 db ≡ some due) × (10 ≤ due) × (due ≤ max 10 50)
unfolding find sorting
next_due_bounds_example =
    next_due_bounds backend 10 db 3 waiting_retry 50 refl (inr (refl, omega arith)) refl refl
