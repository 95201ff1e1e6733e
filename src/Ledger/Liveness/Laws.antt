-- ===== src/Ledger/Liveness/Laws.antt =====
-- Which heartbeats a table has after a write and a clean-up.
use dewey.Prelude.{
  ℕ, ◌≡◌, refl, sym, ap, subst, ◌∙◌, Bool, true, false, not, ◌&&◌, ◌||◌, none, some, List, [], ◌∷◌,
  ◌++◌, keep, contains, arith, ◌==◌, ==_iff, Bool-cases, inl, inr,
}
use dewey.Core.Heartbeat.{DispatcherHeartbeat}
use dewey.Ledger.Liveness.{
  any, find_beat, set_beat, beat_ids, Reader, IsReader, is_stale, stale_ids, without,
}

-- The row of an instance.
abbrev pub is_of : ℕ → DispatcherHeartbeat → Bool
is_of i h = h.instance_id == i

pub any-keep :
    (p q : DispatcherHeartbeat → Bool) (hs : List DispatcherHeartbeat)
    → any p (keep q hs) ≡ any (λ h. q h && p h) hs
unfolding any
any-keep p q [] = refl
any-keep p q (h ∷ hs) = ground (arith, any-keep p q hs)

-- A weaker test holds of some row as well.
pub any_mono :
    (p q : DispatcherHeartbeat → Bool) (hs : List DispatcherHeartbeat)
    → ((h : DispatcherHeartbeat) → p h ≡ true → q h ≡ true)
    → any p hs ≡ true
    → any q hs ≡ true
unfolding any
any_mono p q [] f e = e
any_mono p q (h ∷ hs) f e = ground (arith, f h, any_mono p q hs f)

pub any-append :
    (p : DispatcherHeartbeat → Bool) (hs : List DispatcherHeartbeat) (h : DispatcherHeartbeat)
    → any p (hs ++ h ∷ []) ≡ (any p hs || p h)
unfolding any
any-append p [] h = ground arith
any-append p (x ∷ hs) h = ground (arith, any-append p hs h)

contains-beat_ids :
    (i : ℕ) (hs : List DispatcherHeartbeat)
    → contains i (beat_ids hs) ≡ true
    → any (is_of i) hs ≡ true
unfolding any
contains-beat_ids i [] e = e
contains-beat_ids i (h ∷ hs) e = ground (arith, e, contains-beat_ids i hs)

-- An instance of which no row is stale is not cleaned up.
pub fresh_kept :
    (r : Reader) (i now : ℕ) (hs : List DispatcherHeartbeat)
    → IsReader r
    → any (λ h. is_stale now h && is_of i h) hs ≡ false
    → contains i (stale_ids r now hs) ≡ false
fresh_kept r i now hs sql none_ = elim (Bool-cases (contains i (stale_ids r now hs))) [
  | inr n ↦ n
  | inl y ↦
      let picked = contains-beat_ids i (r.take_any 1000 (keep (is_stale now) hs)) y in
      let stale = sql.of_rows 1000 (is_of i) (keep (is_stale now) hs) picked in
      cc (none_, stale, any-keep (is_of i) (is_stale now) hs)
]

-- A clean-up keeps the rows of an instance that is not listed.
pub any-without :
    (is : List ℕ) (i : ℕ) (p : DispatcherHeartbeat → Bool) (hs : List DispatcherHeartbeat)
    → contains i is ≡ false
    → ((h : DispatcherHeartbeat) → p h ≡ true → h.instance_id ≡ i)
    → any p hs ≡ true
    → any p (without is hs) ≡ true
any-without is i p hs gone own e =
    any-keep p (λ h. not (contains h.instance_id is)) hs
    ∙ any_mono p (λ h. not (contains h.instance_id is) && p h) hs
        (λ h y.
          let mine : contains h.instance_id is ≡ false =
            subst (λ k. contains k is ≡ false) (sym (own h y)) gone in
          rw (mine, y) refl)
        e

-- No row has an id under which none is found.
pub any-of_none :
    (i : ℕ) (q : DispatcherHeartbeat → Bool) (hs : List DispatcherHeartbeat)
    → find_beat i hs ≡ none
    → any (λ h. q h && is_of i h) hs ≡ false
unfolding any find_beat
any-of_none i q [] e = refl
any-of_none i q (h ∷ hs) e = ground (arith, any-of_none i q hs)

-- A row that is found passes every test that it passes.
pub any-of_some :
    (i : ℕ) (p : DispatcherHeartbeat → Bool) (hs : List DispatcherHeartbeat)
    (h : DispatcherHeartbeat)
    → find_beat i hs ≡ some h
    → p h ≡ true
    → any p hs ≡ true
unfolding any find_beat
any-of_some i p [] h e y = cc e
any-of_some i p (x ∷ hs) h e y = elim (Bool-cases (x.instance_id == i)) [
  | inl own ↦
      let e' : some x ≡ some h = rw own at e in let same : x ≡ h = cc e' in rw (ap p same, y) refl
  | inr other ↦
      let e' : find_beat i hs ≡ some h = rw other at e in ground (arith, any-of_some i p hs h e' y)
]

-- After an update no row of the instance passes a test that the new value fails.
pub any-set_beat-false :
    (i : ℕ) (f : DispatcherHeartbeat → DispatcherHeartbeat) (q : DispatcherHeartbeat → Bool)
    (hs : List DispatcherHeartbeat)
    → ((h : DispatcherHeartbeat) → q (f h) ≡ false)
    → any (λ h. q h && is_of i h) (set_beat i f hs) ≡ false
unfolding any set_beat
any-set_beat-false i f q [] no_ = refl
any-set_beat-false i f q (h ∷ hs) no_ = ground (arith, no_ h, any-set_beat-false i f q hs no_)

-- The row that is found has been set.
pub find-set_beat :
    (i : ℕ) (f : DispatcherHeartbeat → DispatcherHeartbeat) (hs : List DispatcherHeartbeat)
    (h : DispatcherHeartbeat)
    → ((h : DispatcherHeartbeat) → h.instance_id ≡ i → (f h).instance_id ≡ i)
    → find_beat i hs ≡ some h
    → find_beat i (set_beat i f hs) ≡ some (f h)
unfolding find_beat set_beat
find-set_beat i f [] h keeps e = cc e
find-set_beat i f (x ∷ hs) h keeps e = ground (arith, keeps x, e, find-set_beat i f hs h keeps)

pub find-without :
    (j : ℕ) (is : List ℕ) (hs : List DispatcherHeartbeat)
    → contains j is ≡ false
    → find_beat j (without is hs) ≡ find_beat j hs
unfolding find_beat
find-without j is [] gone = refl
find-without j is (h ∷ hs) gone = elim (Bool-cases (h.instance_id == j)) [
  | inl own ↦
      let mine : contains h.instance_id is ≡ false =
        subst (λ k. contains k is ≡ false) (sym ((==_iff h.instance_id j).0 own)) gone in
      rw (mine, own) refl
  | inr other ↦ ground (arith, find-without j is hs gone)
]

pub find-append_other :
    (j : ℕ) (hs : List DispatcherHeartbeat) (h : DispatcherHeartbeat)
    → is_of j h ≡ false
    → find_beat j (hs ++ h ∷ []) ≡ find_beat j hs
unfolding find_beat
find-append_other j [] h n = rw n refl
find-append_other j (x ∷ hs) h n = ground (arith, find-append_other j hs h n)

pub find-set_beat_other :
    (i j : ℕ) (f : DispatcherHeartbeat → DispatcherHeartbeat) (hs : List DispatcherHeartbeat)
    → (i == j) ≡ false
    → ((h : DispatcherHeartbeat) → h.instance_id ≡ i → (f h).instance_id ≡ i)
    → find_beat j (set_beat i f hs) ≡ find_beat j hs
unfolding find_beat set_beat
find-set_beat_other i j f [] n keeps = refl
find-set_beat_other i j f (h ∷ hs) n keeps =
    ground (arith, keeps h, n, find-set_beat_other i j f hs n keeps)

-- The number of stale rows of an instance after another's row was appended or set.
pub any-set_beat_other :
    (i j : ℕ) (f : DispatcherHeartbeat → DispatcherHeartbeat) (q : DispatcherHeartbeat → Bool)
    (hs : List DispatcherHeartbeat)
    → (i == j) ≡ false
    → ((h : DispatcherHeartbeat) → h.instance_id ≡ i → (f h).instance_id ≡ i)
    → any (λ h. q h && is_of j h) (set_beat i f hs) ≡ any (λ h. q h && is_of j h) hs
unfolding any set_beat
any-set_beat_other i j f q [] n keeps = refl
any-set_beat_other i j f q (h ∷ hs) n keeps =
    ground (arith, keeps h, n, any-set_beat_other i j f q hs n keeps)

pub id-find_beat :
    (i : ℕ) (hs : List DispatcherHeartbeat) (h : DispatcherHeartbeat)
    → find_beat i hs ≡ some h
    → h.instance_id ≡ i
unfolding find_beat
id-find_beat i [] h e = cc e
id-find_beat i (x ∷ hs) h e = elim (Bool-cases (x.instance_id == i)) [
  | inl own ↦
      let e' : some x ≡ some h = rw own at e in
      let same : x ≡ h = cc e' in
      sym (ap (λ (y : DispatcherHeartbeat). y.instance_id) same) ∙ (==_iff x.instance_id i).0 own
  | inr other ↦ id-find_beat i hs h (rw other at e)
]

pub without-none : (hs : List DispatcherHeartbeat) → without [] hs ≡ hs
without-none [] = refl
without-none (h ∷ hs) = ap (λ xs. h ∷ xs) (without-none hs)
