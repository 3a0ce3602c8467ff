-- ===== src/Alice/Deadlock.antt =====
-- What the goroutine that waits for t1 does to the lock (protocol/alice/message_handler.go).
use atomic_swap.Base.{Bytes, true, false, Option, ◌≡◌, refl, ◌∙◌, ap}
use atomic_swap.Base.Outcome.{ok, blocked}
use atomic_swap.Errors.{Err}
use atomic_swap.Action.{Action, pure, modify, handle, handle_outcome, ignore, ◌>>=◌}
use atomic_swap.Action.Keeps.{Keeps, keeps}
use atomic_swap.Types.Status.{Status, is_ongoing, completed_refund}
use atomic_swap.Message.{Message}
use atomic_swap.World.{Platform, Io, Answer, value, failure, from_answer, ask}
use atomic_swap.Alice.{Config, State, io, status, with_lock, release, clear_next_expected_message}
use atomic_swap.Alice.Chain.{get_secret, refund_call}
use atomic_swap.Alice.Settle.{exit}
use atomic_swap.Alice.Handler.{handle_protocol_message}
use atomic_swap.Alice.Watch.{after_refund, refund_late, notify_refund, t1_fires}

module _ (p : Platform) (cfg : Config) where
  -- The lock of a swap state, through calls that do not touch it.
  record IsHeld (s : State p) : Type 0 where
    held : s.locked ≡ true

  Held-io : {A : Type 0} (m : Io A) → Keeps IsHeld (io p m)
  unfolding io
  Held-io m = record { kept = λ s h. record { held = h.held } }

  Held-clear : (st : Status) → Keeps IsHeld (clear_next_expected_message p st)
  unfolding clear_next_expected_message
  Held-clear st = record { kept = λ s h. record { held = h.held } }

  refund_call-IsHeld : Keeps IsHeld (refund_call p cfg)
  unfolding refund_call get_secret
  refund_call-IsHeld = search (keeps, Held-io, Held-clear) depth 40 fits 3000

  notify_refund-IsHeld : (tx : Bytes) → Keeps IsHeld (notify_refund p cfg tx)
  unfolding notify_refund
  notify_refund-IsHeld tx = search (keeps, Held-io) depth 20

  -- A call under a lock that is held waits for ever.
  with_lock-held :
      {A : Type 0} (m : Action (State p) A) (s : State p)
      → s.locked ≡ true
      → with_lock p m s ≡ (blocked, s)
  unfolding with_lock
  with_lock-held m s h = rw h refl

  handle-at :
      {A B : Type 0} (m : Action (State p) A) (f : A → Action (State p) B)
      (g : Err → Action (State p) B) (s : State p) (a : A)
      → (m s).0 ≡ ok a
      → handle m f g s ≡ f a (m s).1
  unfolding handle
  handle-at m f g s a h = rw h refl

  >>=-at :
      {A B : Type 0} (m : Action (State p) A) (f : A → Action (State p) B) (s : State p) (a : A)
      → (m s).0 ≡ ok a
      → (m >>= f) s ≡ f a (m s).1
  unfolding ◌>>=◌
  >>=-at m f s a h = rw h refl

  ignored :
      (a : Answer (Unit {0})) (s : State p)
      → (handle_outcome (from_answer a) (λ _. pure tt) (λ _. pure tt) s).0 ≡ ok tt
  unfolding pure
  ignored (value u) s = refl
  ignored (failure b) s = refl

  clear-ok : (st : Status) (s : State p) → (clear_next_expected_message p st s).0 ≡ ok tt
  unfolding clear_next_expected_message
  clear-ok st s = refl

  notify_refund-ok : (tx : Bytes) (s : State p) → (notify_refund p cfg tx s).0 ≡ ok tt
  unfolding notify_refund ignore handle io ask
  notify_refund-ok tx s = ignored _ _

  ignore_held :
      (m : Action (State p) (Unit {0})) (s : State p)
      → s.locked ≡ true
      → ignore (with_lock p m) s ≡ (blocked, s)
  unfolding ignore handle
  ignore_held m s h = rw (with_lock-held m s h) refl

  after_refund-stuck :
      (tx : Bytes) (s : State p)
      → IsHeld s
      → ((after_refund p cfg tx s).0 ≡ blocked) × IsHeld (after_refund p cfg tx s).1
  unfolding after_refund exit
  after_refund-stuck tx s h =
      let s3 = (clear_next_expected_message p completed_refund s).1 in
      let h4 = (notify_refund-IsHeld tx).kept s3 ((Held-clear completed_refund).kept s h) in
      let s4 = (notify_refund p cfg tx s3).1 in
      let e =
        >>=-at (clear_next_expected_message p completed_refund) _ s tt (clear-ok completed_refund s)
        ∙ >>=-at (notify_refund p cfg tx) _ s3 tt (notify_refund-ok tx s3)
        ∙ ignore_held _ s4 h4.held in
      (ap (λ r. r.0) e, record { held = ap (λ r. r.1.locked) e ∙ h4.held })

  refund_late-stuck :
      (s : State p) (tx : Bytes)
      → s.locked ≡ true
      → is_ongoing (status p s) ≡ true
      → (refund_call p cfg (record s { t1_watch = false })).0 ≡ ok tx
      → ((refund_late p cfg s).0 ≡ blocked) × IsHeld (refund_late p cfg s).1
  unfolding refund_late ◌>>=◌ modify
  refund_late-stuck s tx h ongoing refunded =
      let s1 : State p = record s { t1_watch = false } in
      let h2 = refund_call-IsHeld.kept s1 (record { held = h }) in
      rw (ongoing, handle-at (refund_call p cfg) (after_refund p cfg) (λ _. pure tt) s1 tx refunded)
        (after_refund-stuck tx (refund_call p cfg s1).1 h2)

  -- When t1 has passed, the swap is ongoing and the refund goes through, Alice's node is stuck: the
  -- goroutine that waited for t1 calls Exit while it holds the lock, so it never returns, the lock
  -- stays held, and handling any later message of the peer never returns either.
  pub t1_fires_stuck :
      (s : State p) (tx : Bytes)
      → s.locked ≡ false
      → is_ongoing (status p s) ≡ true
      → (refund_call p cfg (record s { locked = true; t1_watch = false })).0 ≡ ok tx
      → ((t1_fires p cfg s).0 ≡ blocked)
        × ((t1_fires p cfg s).1.locked ≡ true)
        × ((msg : Option (Message p.float.Carrier))
            → (handle_protocol_message p cfg msg (t1_fires p cfg s).1).0 ≡ blocked)
  unfolding t1_fires with_lock release handle_protocol_message
  t1_fires_stuck s tx free ongoing refunded =
      let s1 : State p = record s { locked = true } in
      let (e, h) = refund_late-stuck s1 tx refl ongoing refunded in
      rw (free, e) (refl, h.held, λ msg. rw h.held refl)
