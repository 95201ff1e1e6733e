-- ===== src/Sqlalchemy/Dispatch/Release.antt =====
-- Claims against one another and against `release`.
use dewey.Prelude.{
  ℕ, ◌≡◌, refl, sym, ap, subst, ◌∙◌, inl, inr, true, false, ◌&&◌, none, some, List, contains,
  is_empty, Bool-cases, if◌then◌else◌, and_right, nil_of_is_empty,
}
use dewey.Core.States.{pending, dispatching, is_status}
use dewey.Core.Types.{TaskEntry}
use dewey.Ledger.{Db, find, update}
use dewey.Ledger.Laws.{id-find, set_if}
use dewey.Ledger.Engine.{Engine, IsSql}
use dewey.Ledger.Evolution.{Evolves, update-Evolves, Evolves-refl, find-update_of_some}
use dewey.Sqlalchemy.Dispatch.{Backend, is_claimable, hand_over, give_back, claim, release}
use dewey.Sqlalchemy.Dispatch.Claim.{Sets}
use dewey.Sqlalchemy.Dispatch.Claimed.{claimed_candidate}

-- Two claims in a row, by any two dispatchers at any two times, return no id in common.
pub claims_disjoint :
    (e e' : Engine) (b b' : Backend) (limit limit' now now' : ℕ) (db : Db) (i : ℕ)
    → IsSql e
    → IsSql e'
    → contains i (claim e b limit now db).0 ≡ true
    → contains i (claim e' b' limit' now' (claim e b limit now db).1).0 ≡ false
claims_disjoint e e' b b' limit limit' now now' db i sql sql' h =
    elim (Bool-cases (contains i (claim e' b' limit' now' (claim e b limit now db).1).0)) [
      | inl again ↦
          let (t, f, c, d, s, stored) = claimed_candidate e b limit now sql db i h in
          let (u, g, c', d', s', stored') =
            claimed_candidate e' b' limit' now' sql' (claim e b limit now db).1 i again in
          let same : some (hand_over now t) ≡ some u = sym stored ∙ g in
          let row : hand_over now t ≡ u = cc same in
          cc (subst (λ x. is_claimable now' x ≡ true) (sym row) c')
      | inr new ↦ new
    ]

-- The row that is found under an id after `release`.
pub find-release :
    (task_ids : List ℕ) (db : Db) (i : ℕ) (t : TaskEntry)
    → find i db.tasks ≡ some t
    → find i (release task_ids db).tasks
      ≡ some (if contains i task_ids && is_status dispatching t.status then give_back t else t)
unfolding release
find-release task_ids db i t f =
    let p = λ (s : TaskEntry). contains s.id task_ids && is_status dispatching s.status in
    let own : t.id ≡ i = id-find i db.tasks t f in
    let stored : find i (update p give_back db.tasks) ≡ some (set_if p give_back t) =
      find-update_of_some p give_back i db.tasks t (λ s. refl) f in
    elim (Bool-cases (is_empty task_ids)) [
      | inl nothing ↦
          let out : contains i task_ids ≡ false =
            ap (contains i) (sym (nil_of_is_empty task_ids nothing)) in
          rw nothing (rw out f)
      | inr something ↦ rw something (
          stored
          ∙ ap
              (λ k.
                some (
                  if contains k task_ids && is_status dispatching t.status then give_back t else t))
              own)
    ]

-- `release` undoes a claim: the row is pending again, with the attempts, the schedule and all else
-- that it had before the claim, except that it has no time of a hand-over.
pub release-claim :
    (e : Engine) (b : Backend) (limit now : ℕ) (db : Db) (i : ℕ) (task_ids : List ℕ)
    → IsSql e
    → contains i (claim e b limit now db).0 ≡ true
    → contains i task_ids ≡ true
    → (t : TaskEntry) × (find i db.tasks ≡ some t)
      × (find i (release task_ids (claim e b limit now db).1).tasks
          ≡ some (record t { status = pending; dispatching_at = none }))
release-claim e b limit now db i task_ids sql h c =
    let (t, f, _, _, _, stored) = claimed_candidate e b limit now sql db i h in
    (
      t,
      f,
      find-release task_ids (claim e b limit now db).1 i (hand_over now t) stored ∙ ap some (rw c),
    )

-- A release gives back rows that are dispatching, and changes no other row.
pub release-Evolves :
    (task_ids : List ℕ) (db : Db)
    → Evolves
        (Sets (λ t. is_status dispatching t.status) give_back)
        db.tasks
        (release task_ids db).tasks
unfolding release
release-Evolves task_ids db = elim (Bool-cases (is_empty task_ids)) [
  | inl nothing ↦ rw nothing (Evolves-refl _ db.tasks (λ t. inl refl))
  | inr something ↦ rw something (
      update-Evolves _ (λ t. contains t.id task_ids && is_status dispatching t.status) give_back
        db.tasks (λ t. refl) (λ t f. inl refl) (λ t f g. inr (refl, and_right _ _ g)))
]
