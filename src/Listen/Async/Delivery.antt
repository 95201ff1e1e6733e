-- ===== src/Listen/Async/Delivery.antt =====
-- The queue of the asyncio listener: what is notified is delivered, once and in order.
use dewey.Prelude.{
  ℕ, zero, suc, ◌+◌, ◌≤◌, ◌<◌, String, Option, none, some, List, [], ◌∷◌, ◌++◌, ◌≡◌, refl, sym, ap,
  subst, ◌∙◌, arith, length, length-append, ◌⊎◌, inl, inr,
}
use mathlib.Core.List.{append-nil, append_assoc}
use dewey.Listen.Payload.{Codec, WorkNotification, parse_payload}
use dewey.Listen.Async.{AsyncListener, put_parsed, put_nowait, on_notify, notified, wait}

pub data Event : Type 0 where
  arrives : String → Event
  waits : ℕ → List String → Event

-- What is read of payloads that come in this order.
unfoldable pub notifications : Codec → List String → List WorkNotification
notifications c [] = []
notifications c (payload ∷ payloads) = elim (parse_payload c payload) [
  | none ↦ notifications c payloads
  | some n ↦ n ∷ notifications c payloads
]

unfoldable pub payloads : List Event → List String
payloads [] = []
payloads (arrives p ∷ events) = p ∷ payloads events
payloads (waits timeout ps ∷ events) = ps ++ payloads events

-- All that is delivered by a history of callbacks and waits, and the listener after it.
unfoldable pub history : Codec → List Event → AsyncListener → List WorkNotification × AsyncListener
history c [] l = ([], l)
history c (arrives p ∷ events) l = history c events (on_notify c p l)
history c (waits timeout ps ∷ events) l =
    let (ns, l') = wait c timeout ps l in let (ns', l'') = history c events l' in (ns ++ ns', l'')

notifications-append :
    (c : Codec) (ps qs : List String)
    → notifications c (ps ++ qs) ≡ notifications c ps ++ notifications c qs
unfolding notifications
notifications-append c [] qs = refl
notifications-append c (p ∷ ps) qs = ground (arith, notifications-append c ps qs)

-- A queue that is never full drops nothing.
abbrev HasRoom : ℕ → AsyncListener → Type 0
HasRoom n l = (l.max_queue_size ≡ 0) ⊎ (length l.queue + n ≤ l.max_queue_size)

abbrev as_list : Option WorkNotification → List WorkNotification
as_list none = []
as_list (some n) = n ∷ []

put_parsed-queue :
    (given : Option WorkNotification) (n : ℕ) (l : AsyncListener)
    → HasRoom (suc n) l
    → ((put_parsed given l).queue ≡ l.queue ++ as_list given) × HasRoom n (put_parsed given l)
unfolding put_nowait
put_parsed-queue none n l (inl e) = (sym (append-nil l.queue), inl e)
put_parsed-queue none n l (inr h) = (sym (append-nil l.queue), inr (omega arith))
put_parsed-queue (some a) n l (inl e) = (ground arith, inl (ground arith))
put_parsed-queue (some a) n l (inr h) =
    (ground arith, inr (ground (arith, length-append {0} l.queue (a ∷ []))))

notifications-cons :
    (c : Codec) (p : String) (ps : List String)
    → notifications c (p ∷ ps) ≡ as_list (parse_payload c p) ++ notifications c ps
unfolding notifications
notifications-cons c p ps = ground arith

room_for : {m n : ℕ} → m ≡ n → (l : AsyncListener) → HasRoom m l → HasRoom n l
room_for e l room = subst (λ k. HasRoom k l) e room

emptied-HasRoom : (n : ℕ) (l : AsyncListener) → HasRoom n l → HasRoom n (record l { queue = [] })
emptied-HasRoom n l (inl e) = inl e
emptied-HasRoom n l (inr h) = inr (omega arith)

notified-queue :
    (c : Codec) (ps : List String) (n : ℕ) (l : AsyncListener)
    → HasRoom (length ps + n) l
    → ((notified c ps l).queue ≡ l.queue ++ notifications c ps) × HasRoom n (notified c ps l)
unfolding notified on_notify notifications
notified-queue c [] n l room = (sym (append-nil l.queue), room_for (omega arith) l room)
notified-queue c (p ∷ ps) n l room =
    let (one, room') =
      put_parsed-queue (parse_payload c p) (length ps + n) l (room_for (omega arith) l room) in
    let (all, room'') = notified-queue c ps n _ room' in
    (
      all
          ∙ ap (λ (q : List WorkNotification). q ++ notifications c ps) one
          ∙ (append_assoc l.queue _ _
              ∙ ap (λ (q : List WorkNotification). l.queue ++ q) (sym (notifications-cons c p ps))),
      room'',
    )

-- What a history of callbacks and waits delivers, and what it leaves in the queue, is what was queued
-- before and what is read of the payloads that came, each once and in the order in which they came,
-- if the queue is unbounded or has room for all of them.
pub history_delivers :
    (c : Codec) (events : List Event) (l : AsyncListener)
    → HasRoom (length (payloads events)) l
    → let (delivered, l') = history c events l in
      delivered ++ l'.queue ≡ l.queue ++ notifications c (payloads events)
unfolding history payloads on_notify wait notifications
history_delivers c [] l room = sym (append-nil l.queue)
history_delivers c (arrives p ∷ events) l room =
    let (one, room') = put_parsed-queue (parse_payload c p) (length (payloads events)) l room in
    history_delivers c events _ room'
    ∙ ap (λ (q : List WorkNotification). q ++ notifications c (payloads events)) one
    ∙ append_assoc l.queue _ _
    ∙ ap (λ (q : List WorkNotification). l.queue ++ q)
        (sym (notifications-cons c p (payloads events)))
history_delivers c (waits zero ps ∷ events) l room =
    let (all, room') =
      notified-queue c ps (length (payloads events)) l
        (room_for (length-append ps (payloads events)) l room) in
    history_delivers c events (notified c ps l) room'
    ∙ ap (λ (q : List WorkNotification). q ++ notifications c (payloads events)) all
    ∙ append_assoc l.queue _ _
    ∙ ap (λ (q : List WorkNotification). l.queue ++ q)
        (sym (notifications-append c ps (payloads events)))
history_delivers c (waits (suc timeout) ps ∷ events) l room =
    let (all, room') =
      notified-queue c ps (length (payloads events)) l
        (room_for (length-append ps (payloads events)) l room) in
    let l' : AsyncListener = notified c ps l in
    let rest =
      history_delivers c events (record l' { queue = [] })
        (emptied-HasRoom (length (payloads events)) l' room') in
    append_assoc l'.queue _ _
    ∙ ap (λ (q : List WorkNotification). l'.queue ++ q) rest
    ∙ ap (λ (q : List WorkNotification). q ++ notifications c (payloads events)) all
    ∙ append_assoc l.queue _ _
    ∙ ap (λ (q : List WorkNotification). l.queue ++ q)
        (sym (notifications-append c ps (payloads events)))

abbrev Within : ℕ → AsyncListener → Type 0
Within m l = (l.max_queue_size ≡ m) × (length l.queue ≤ m)

put_parsed-Within :
    (given : Option WorkNotification) (m : ℕ) (l : AsyncListener)
    → 0 < m
    → Within m l
    → Within m (put_parsed given l)
unfolding put_nowait
put_parsed-Within none m l positive h = h
put_parsed-Within (some n) m l positive h = ground (arith, length-append {0} l.queue (n ∷ []))

notified-Within :
    (c : Codec) (ps : List String) (m : ℕ) (l : AsyncListener)
    → 0 < m
    → Within m l
    → Within m (notified c ps l)
unfolding notified on_notify
notified-Within c [] m l positive h = h
notified-Within c (p ∷ ps) m l positive h =
    notified-Within c ps m _ positive (put_parsed-Within (parse_payload c p) m l positive h)

history-Within :
    (c : Codec) (events : List Event) (m : ℕ) (l : AsyncListener)
    → 0 < m
    → Within m l
    → Within m (history c events l).1
unfolding history on_notify wait
history-Within c [] m l positive h = h
history-Within c (arrives p ∷ events) m l positive h =
    history-Within c events m _ positive (put_parsed-Within (parse_payload c p) m l positive h)
history-Within c (waits zero ps ∷ events) m l positive h =
    history-Within c events m _ positive (notified-Within c ps m l positive h)
history-Within c (waits (suc timeout) ps ∷ events) m l positive h =
    history-Within c events m _ positive ((notified-Within c ps m l positive h).0, omega arith)
