-- ===== src/Ledger/Keyed.antt =====
-- Tables whose ids are distinct, as a primary key makes them.
use dewey.Prelude.{
  ℕ, ◌≡◌, refl, sym, ap, subst, ◌∙◌, Bool, false, some, List, [], ◌∷◌, All, Distinct, contains,
  arith, Bool-cases, inl, inr, ◌==◌, ==_iff, if◌then◌else◌,
}
use dewey.Core.Types.{TaskEntry}
use dewey.Ledger.{find, update, rows, ids}
use dewey.Ledger.Laws.{KeepsId, set_if}

pub ids-update :
    (p : TaskEntry → Bool) (f : TaskEntry → TaskEntry) (ts : List TaskEntry)
    → KeepsId f
    → ids (update p f ts) ≡ ids ts
unfolding update
ids-update p f [] keeps = refl
ids-update p f (t ∷ ts) keeps = ground (arith, keeps t, ids-update p f ts keeps)

-- No row has an id that is not listed.
pub other_ids :
    (i : ℕ) (ts : List TaskEntry) → contains i (ids ts) ≡ false → All (λ t. (i == t.id) ≡ false) ts
other_ids i [] h = tt
other_ids i (t ∷ ts) h = ground (arith, other_ids i ts)

contains-rows_absent :
    (g : TaskEntry → Bool) (i : ℕ) (ts : List TaskEntry)
    → contains i (ids ts) ≡ false
    → contains i (ids (rows g ts)) ≡ false
unfolding rows
contains-rows_absent g i [] h = refl
contains-rows_absent g i (t ∷ ts) h = ground (arith, contains-rows_absent g i ts)

-- A row picked in front leaves the rows behind it as they are.
picked_behind :
    (g : TaskEntry → Bool) (x : TaskEntry) (ts picked : List TaskEntry)
    → All (λ t. (x.id == t.id) ≡ false) ts
    → All (λ t. contains t.id (ids picked) ≡ g t) ts
    → All (λ t. contains t.id (ids (if g x then x ∷ picked else picked)) ≡ g t) ts
picked_behind g x [] picked o h = tt
picked_behind g x (t ∷ ts) picked o h =
    (ground (arith, o.0, h.0), picked_behind g x ts picked o.1 h.1)

-- A row of the table is among those picked exactly if it passes the test.
pub contains-rows_self :
    (g : TaskEntry → Bool) (ts : List TaskEntry)
    → Distinct (ids ts)
    → All (λ t. contains t.id (ids (rows g ts)) ≡ g t) ts
unfolding rows
contains-rows_self g [] d = tt
contains-rows_self g (x ∷ ts) d = (
  ground (arith, contains-rows_absent g x.id ts d.0),
  picked_behind g x ts (rows g ts) (other_ids x.id ts d.0) (contains-rows_self g ts d.1),
)

-- Two updates, one after the other, set each row by tests that agree on it.
pub update-update :
    (p q p' q' : TaskEntry → Bool) (f g : TaskEntry → TaskEntry) (ts : List TaskEntry)
    → All (λ t. set_if q g (set_if p f t) ≡ set_if q' g (set_if p' f t)) ts
    → update q g (update p f ts) ≡ update q' g (update p' f ts)
unfolding update
update-update p q p' q' f g [] h = refl
update-update p q p' q' f g (t ∷ ts) (h, hs) =
    ap (λ y. y ∷ update q g (update p f ts)) h
    ∙ ap (λ ys. set_if q' g (set_if p' f t) ∷ ys) (update-update p q p' q' f g ts hs)

update_none :
    (i : ℕ) (f : TaskEntry → TaskEntry) (ts : List TaskEntry)
    → contains i (ids ts) ≡ false
    → update (λ s. s.id == i) f ts ≡ ts
unfolding update
update_none i f [] h = refl
update_none i f (t ∷ ts) h = ground (arith, update_none i f ts)

-- An update by a key depends on what it does to the row of that key, and on no other row.
pub update-key :
    (i : ℕ) (f g : TaskEntry → TaskEntry) (ts : List TaskEntry) (t : TaskEntry)
    → Distinct (ids ts)
    → find i ts ≡ some t
    → f t ≡ g t
    → update (λ s. s.id == i) f ts ≡ update (λ s. s.id == i) g ts
unfolding update find
update-key i f g [] t d h e = refl
update-key i f g (x ∷ ts) t d h e = elim (Bool-cases (x.id == i)) [
  | inl own ↦
      let h' : some x ≡ some t = rw own at h in
      let same : x ≡ t = cc h' in
      let gone : contains i (ids ts) ≡ false =
        subst (λ k. contains k (ids ts) ≡ false) ((==_iff x.id i).0 own) d.0 in
      rw (own, update_none i f ts gone, update_none i g ts gone)
        (ap (λ y. y ∷ ts) (ap f same ∙ (e ∙ sym (ap g same))))
  | inr other ↦ rw other (ap (λ ys. x ∷ ys) (update-key i f g ts t d.1 (rw other at h) e))
]
