-- ===== src/Sqlalchemy/Dispatch/Order.antt =====
-- The order of a claim, and which due rows it may leave behind.
use dewey.Prelude.{
  ℕ, ◌≤◌, ◌<◌, Option, none, get_or, [], ◌∷◌, ◌≡◌, refl, sym, ap, subst, ◌∙◌, ◌⊎◌, inl, inr, Bool,
  true, false, ◌&&◌, some, List, contains, is_empty, length, length-map, arith, Bool-cases,
  if◌then◌else◌, All, All-mono, Pairwise, ℤ, pos, negsuc, lebz, eqz, leb, ◌==◌,
}
use native.Mathlib.Decide.{dec_lt}
use dewey.Core.Types.{TaskEntry}
use dewey.Ledger.{Db, find, ids}
use dewey.Ledger.Laws.{id-find, set_if}
use dewey.Ledger.Engine.{Engine, IsSql, IsCandidate, IsOrder}
use dewey.Ledger.Evolution.{find-update_of_some, selected_matches}
use dewey.Sqlalchemy.Dispatch.{
  Backend, in_scope, is_in_time, overdue_query, candidates_query, expire, expire_overdue,
  claim_candidates, claim, claim_before, effective_due,
}
use dewey.Sqlalchemy.Dispatch.Claim.{expire_overdue-Evolves}
use dewey.Sqlalchemy.Dispatch.Claimed.{
  IsDue, IsAhead, IsDue-claimable, IsAhead-in_time, chosen, claim_candidates-ids,
}

-- The keys behind the priority.
abbrev tie_before : ℕ → ℕ → ℕ → ℕ → Bool
tie_before d c d' c' = if d == d' then leb c c' else leb d d'

tie_total : (d c d' c' : ℕ) → (tie_before d c d' c' ≡ true) ⊎ (tie_before d' c' d c ≡ true)
tie_total d c d' c' = ground arith

tie_trans :
    (d c d' c' d'' c'' : ℕ)
    → tie_before d c d' c' ≡ true
    → tie_before d' c' d'' c'' ≡ true
    → tie_before d c d'' c'' ≡ true
tie_trans d c d' c' d'' c'' h k = ground arith

-- The priority decides, and where it is equal the rest.
abbrev ranked : ℤ → ℤ → Bool → Bool
ranked p q rest = if eqz p q then rest else lebz q p

ranked_total :
    (p q : ℤ) (r s : Bool) → (r ≡ true) ⊎ (s ≡ true) → (ranked p q r ≡ true) ⊎ (ranked q p s ≡ true)
ranked_total (pos a) (pos b) r s h = ground arith
ranked_total (pos a) (negsuc b) r s h = inl refl
ranked_total (negsuc a) (pos b) r s h = inr refl
ranked_total (negsuc a) (negsuc b) r s h = ground arith

ranked_trans :
    (p q o : ℤ) (r s t : Bool)
    → (r ≡ true → s ≡ true → t ≡ true)
    → ranked p q r ≡ true
    → ranked q o s ≡ true
    → ranked p o t ≡ true
ranked_trans (pos a) (pos b) (pos c) r s t f h k = ground (arith, f)
ranked_trans (pos a) (pos b) (negsuc c) r s t f h k = refl
ranked_trans (pos a) (negsuc b) (pos c) r s t f h k = cc
ranked_trans (pos a) (negsuc b) (negsuc c) r s t f h k = refl
ranked_trans (negsuc a) (pos b) o r s t f h k = cc
ranked_trans (negsuc a) (negsuc b) (pos c) r s t f h k = cc
ranked_trans (negsuc a) (negsuc b) (negsuc c) r s t f h k = ground (arith, f)

-- The `ORDER BY` of the claim is a total preorder.
pub claim_before-IsOrder : IsOrder claim_before
claim_before-IsOrder = record {
  total = λ a b.
      ranked_total a.priority b.priority _ _
        (tie_total (effective_due a) a.created_at (effective_due b) b.created_at);
  trans = λ a b c h k.
      ranked_trans a.priority b.priority c.priority _ _ _
        (tie_trans (effective_due a) a.created_at (effective_due b) b.created_at (effective_due c)
          c.created_at)
        h k;
}

-- A priority above another.
abbrev pub Above : ℤ → ℤ → Type 0
Above (pos a) (pos b) = b < a
Above (pos a) (negsuc b) = Unit
Above (negsuc a) (pos b) = ⊥
Above (negsuc a) (negsuc b) = a < b

-- The time from which a row was due: its schedule, or its creation where it has none.
abbrev pub due_since : Option ℕ → ℕ → ℕ
due_since none created_at = created_at
due_since (some at) created_at = at

-- A row that is to be claimed before another: the higher priority, then the longer wait, then the
-- earlier creation.
abbrev pub Precedes : TaskEntry → TaskEntry → Type 0
Precedes s t =
    let d = due_since s.scheduled_for s.created_at in
    let d' = due_since t.scheduled_for t.created_at in
    Above s.priority t.priority
    ⊎ ((s.priority ≡ t.priority) × ((d < d') ⊎ ((d ≡ d') × (s.created_at ≤ t.created_at))))

ranked_cases : (p q : ℤ) (r : Bool) → ranked p q r ≡ true → Above p q ⊎ ((p ≡ q) × (r ≡ true))
ranked_cases (pos a) (pos b) r h = ground arith
ranked_cases (pos a) (negsuc b) r h = inl tt
ranked_cases (negsuc a) (pos b) r h = cc h
ranked_cases (negsuc a) (negsuc b) r h = ground arith

tie_cases : (d c d' c' : ℕ) → tie_before d c d' c' ≡ true → (d < d') ⊎ ((d ≡ d') × (c ≤ c'))
tie_cases d c d' c' h = ground arith

since_created : (o : Option ℕ) (created_at : ℕ) → get_or o created_at ≡ due_since o created_at
since_created none c = refl
since_created (some at) c = refl

claim_before-Precedes : (s t : TaskEntry) → claim_before s t ≡ true → Precedes s t
claim_before-Precedes s t h = elim (ranked_cases s.priority t.priority _ h) [
  | inl a ↦ inl a
  | inr (e, r) ↦ inr (
    e,
    rw
        (
          sym (since_created s.scheduled_for s.created_at),
          sym (since_created t.scheduled_for t.created_at),
        )
        (tie_cases (effective_due s) s.created_at (effective_due t) t.created_at r),
  )
]

Pairwise-mono {ℓ κ ι} :
    {A : Type ℓ} (P : A → A → Type κ) (Q : A → A → Type ι)
    → ((x y : A) → Q x y → P x y)
    → (xs : List A) → Pairwise Q xs
    → Pairwise P xs
Pairwise-mono P Q f [] h = tt
Pairwise-mono P Q f (x ∷ xs) h = (All-mono (P x) (Q x) (f x) xs h.0, Pairwise-mono P Q f xs h.1)

module _ (e : Engine) (b : Backend) (limit now : ℕ) (sql : IsSql e) where
  -- Marking the overdue rows leaves a row that is in time as it is.
  find-expire_overdue :
      (db : Db) (i : ℕ) (t : TaskEntry)
      → is_in_time now t ≡ true
      → find i db.tasks ≡ some t
      → find i (expire_overdue e b limit now db).tasks ≡ some t
  unfolding expire_overdue
  find-expire_overdue db i t h f =
      let expired_ids = ids (e.select (overdue_query b limit now) db.tasks) in
      let p = λ (s : TaskEntry). contains s.id expired_ids in
      elim (Bool-cases (is_empty expired_ids)) [
        | inl nothing ↦ rw nothing f
        | inr something ↦ rw something (
            find-update_of_some p (expire now) i db.tasks t (λ s. refl) f
            ∙ ap some (stays db i t h f))
      ]
    where
      stays :
          (db : Db) (i : ℕ) (t : TaskEntry)
          → is_in_time now t ≡ true
          → find i db.tasks ≡ some t
          → set_if
              (λ s. contains s.id (ids (e.select (overdue_query b limit now) db.tasks)))
              (expire now)
              t
            ≡ t
      stays db i t h f =
          elim (Bool-cases (contains t.id (ids (e.select (overdue_query b limit now) db.tasks)))) [
            | inl in_ ↦
                let f' : find t.id db.tasks ≡ some t =
                  ap (λ k. find k db.tasks) (id-find i db.tasks t f) ∙ f in
                let m = selected_matches e (overdue_query b limit now) t.id db.tasks t sql f' in_ in
                absurd (ground arith)
            | inr out ↦ rw out
          ]

  -- The ids that a claim returns are those of rows that stood in the table before it, ordered by
  -- priority, the highest first, then by the time from which they were due, which is the schedule or
  -- else the creation, then by creation.
  pub claim_order :
      (db : Db)
      → (rs : List TaskEntry) × ((claim e b limit now db).0 ≡ ids rs)
        × Pairwise Precedes rs
        × All (λ t. find t.id db.tasks ≡ some t) rs
  unfolding claim
  claim_order db =
      let db' = expire_overdue e b limit now db in
      (
        chosen e b limit now sql db',
        claim_candidates-ids e b limit now sql db',
        Pairwise-mono Precedes (λ s t. claim_before s t ≡ true) claim_before-Precedes
            (chosen e b limit now sql db') (sql.sorted _ db'.tasks claim_before-IsOrder),
        All-mono _ _ (λ t h. stood db t h.0 h.1) (chosen e b limit now sql db')
            (sql.found _ db'.tasks),
      )
    where
      stood :
          (db : Db) (t : TaskEntry)
          → find t.id (expire_overdue e b limit now db).tasks ≡ some t
          → (candidates_query b limit now).matches t ≡ true
          → find t.id db.tasks ≡ some t
      stood db t f m =
          let (s, g, step) = expire_overdue-Evolves e b limit now sql db t.id t f in
          elim step [
            | inl same ↦ g ∙ ap some (sym same)
            | inr (gone, _) ↦
                cc (subst (λ x. (candidates_query b limit now).matches x ≡ true) gone m)
          ]

  -- A row that is due, in time, in the dispatcher's queues and not skipped as locked is claimed; or
  -- the claim is full, and every row in it has a higher priority than that row, or the same and was
  -- due earlier, or since the same time and was not created later.
  pub claim_first :
      (db : Db) (t : TaskEntry)
      → find t.id db.tasks ≡ some t
      → IsDue now t
      → IsAhead now t.expires_at
      → in_scope b.queues t ≡ true
      → (b.supports_skip_locked && e.locked t) ≡ false
      → (contains t.id (claim e b limit now db).0 ≡ true)
        ⊎ ((length (claim e b limit now db).0 ≡ limit)
            × (rs : List TaskEntry) × ((claim e b limit now db).0 ≡ ids rs)
            × All (λ s. Precedes s t) rs)
  unfolding claim
  claim_first db t f due ahead s free =
      let c = IsDue-claimable now t due in
      let d = IsAhead-in_time now t ahead in
      let db' = expire_overdue e b limit now db in
      let q = candidates_query b limit now in
      let rs = e.select q db'.tasks in
      let same = claim_candidates-ids e b limit now sql db' in
      let k : IsCandidate e q db'.tasks t = record {
        present = find-expire_overdue db t.id t d f;
        matching = ground (arith, c, d, s);
        free = free;
      } in
      elim (Bool-cases (contains t.id (ids rs))) [
        | inl in_ ↦ inl (rw same in_)
        | inr out ↦ inr (
          full db' out same k,
          rs,
          same,
          All-mono _ _ (λ r h. claim_before-Precedes r t h) rs
              (sql.first q db'.tasks t claim_before-IsOrder k out),
        )
      ]
    where
      full :
          (db' : Db)
          → contains t.id (ids (e.select (candidates_query b limit now) db'.tasks)) ≡ false
          → (claim_candidates e b limit now db').0
            ≡ ids (e.select (candidates_query b limit now) db'.tasks)
          → IsCandidate e (candidates_query b limit now) db'.tasks t
          → length (claim_candidates e b limit now db').0 ≡ limit
      full db' out same k =
          let q = candidates_query b limit now in
          let l = length (e.select q db'.tasks) in
          rw (same, length-map)
            (elim (dec_lt l limit) [
              | yes less ↦ cc (sql.complete q db'.tasks t k less, out)
              | no more ↦ omega (arith, sql.limited q db'.tasks)
            ])
