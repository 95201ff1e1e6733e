-- ===== src/Sqlalchemy/Queries/Stats.antt =====
-- The counts of a dashboard, from the groups that have a row.
use dewey.Prelude.{
  ℕ, zero, suc, arith, ◌≡◌, refl, sym, ap, ◌∙◌, Bool, List, [], ◌∷◌, map, keep, ltb,
}
use dewey.Core.States.{
  TaskStatus, pending, dispatching, processing, completed, failed, dead, expired,
}
use dewey.Ledger.{Db, count}
use dewey.Sqlalchemy.Queries.{all_statuses, has_status, assign, assign_all, zeros, get_stats}

abbrev present : TaskStatus × ℕ → Bool
present g = ltb 0 g.1

-- A group without a row may as well be assigned, where the count is zero already.
assign-keep :
    (s : TaskStatus) (n : ℕ) (gs stats : List (TaskStatus × ℕ))
    → assign s 0 stats ≡ stats
    → assign_all (keep present ((s, n) ∷ gs)) stats
      ≡ assign_all (keep present gs) (assign s n stats)
unfolding assign_all
assign-keep s zero gs stats h = sym (ap (assign_all (keep present gs)) h)
assign-keep s (suc n) gs stats h = ground arith

abbrev table : ℕ → ℕ → ℕ → ℕ → ℕ → ℕ → ℕ → List (TaskStatus × ℕ)
table a b c d e f g =
    (pending, a)
    ∷ (dispatching, b)
    ∷ (processing, c)
    ∷ (completed, d)
    ∷ (failed, e)
    ∷ (dead, f)
    ∷ (expired, g)
    ∷ []

fill :
    (a b c d e f g : ℕ)
    → assign_all (keep present (table a b c d e f g)) zeros ≡ table a b c d e f g
unfolding assign_all assign
fill a b c d e f g =
    assign-keep pending a
      ((dispatching, b)
        ∷ (processing, c)
        ∷ (completed, d)
        ∷ (failed, e)
        ∷ (dead, f)
        ∷ (expired, g)
        ∷ [])
      (table 0 0 0 0 0 0 0) refl
    ∙ (assign-keep dispatching b
          ((processing, c) ∷ (completed, d) ∷ (failed, e) ∷ (dead, f) ∷ (expired, g) ∷ [])
          (table a 0 0 0 0 0 0) refl
        ∙ (assign-keep processing c ((completed, d) ∷ (failed, e) ∷ (dead, f) ∷ (expired, g) ∷ [])
              (table a b 0 0 0 0 0) refl
            ∙ (assign-keep completed d ((failed, e) ∷ (dead, f) ∷ (expired, g) ∷ [])
                  (table a b c 0 0 0 0) refl
                ∙ (assign-keep failed e ((dead, f) ∷ (expired, g) ∷ []) (table a b c d 0 0 0) refl
                    ∙ (assign-keep dead f ((expired, g) ∷ []) (table a b c d e 0 0) refl
                        ∙ (assign-keep expired g [] (table a b c d e f 0) refl))))))

-- Each status is reported once, in the order of the enum, with the number of its rows, and with zero
-- where it has none.
pub get_stats-eq :
    (db : Db) → get_stats db ≡ map (λ s. (s, count (has_status s) db.tasks)) all_statuses
unfolding get_stats
get_stats-eq db =
    let n = λ (s : TaskStatus). count (has_status s) db.tasks in
    fill (n pending) (n dispatching) (n processing) (n completed) (n failed) (n dead) (n expired)
