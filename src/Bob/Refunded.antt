-- ===== src/Bob/Refunded.antt =====
-- What happens to a Bob who has reclaimed his monero (protocol/bob/message_handler.go).
use atomic_swap.Base.{
  Bytes, Bool, true, false, Option, none, some, ◌≡◌, refl, ap, ◌∙◌, if◌then◌else◌,
}
use atomic_swap.Base.Outcome.{Outcome, ok, err, panic, blocked}
use atomic_swap.Errors.{Err}
use atomic_swap.Action.{Action, pure, fail, handle_outcome, fail_if, ◌>>=◌, ◌>>◌}
use atomic_swap.Message.{
  Message, MessageType, SendKeysMessage, NotifyRefund, send_keys, notify_refund,
  notify_eth_locked_type,
}
use atomic_swap.Types.Status.{completed_refund}
use atomic_swap.Manager.{set_status}
use atomic_swap.World.{Platform}
use atomic_swap.Bob.{
  Config, State, is_full, send_status, release, with_lock, clear_next_expected_message,
  set_next_expected_message, expect, check_message_type, check_type,
}
use atomic_swap.Bob.Handler.{
  accept_keys, handle_send_keys_message, handle_refund, check_running, dispatch,
  handle_protocol_message,
}
use atomic_swap.Bob.Fields.{handle_refund-Holds, accept_keys-Holds}

module _ (p : Platform) (cfg : Config) where
  -- The state after a reclaim expects no message, and is as alive as before.
  record IsIdle (s : State p) : Type 0 where
    idle : s.next_expected ≡ none
    running : s.cancelled ≡ false

  abbrev Answer : Type 0
  Answer = Option (Message p.float.Carrier) × Bool

  sent :
      (b : Bool) (s : State p) (r : Answer)
      → s.next_expected ≡ none
      → s.cancelled ≡ false
      → let after = (send_status p b completed_refund >> pure r) s in
        after.0 ≡ ok r → IsIdle after.1
  unfolding send_status ◌>>=◌
  sent true s r i h e = cc
  sent false s r i h e = record { idle = i; running = h }

  cleared :
      (u : Outcome Err Bytes) (s : State p) (r : Answer)
      → s.cancelled ≡ false
      → let after =
          handle_outcome u (λ _. clear_next_expected_message p completed_refund >> pure r) fail s in
        after.0 ≡ ok r → IsIdle after.1
  unfolding clear_next_expected_message ◌>>=◌
  cleared (ok a) s r h e =
      sent (is_full p s.status_ch)
        (record s { next_expected = none; manager = set_status s.info completed_refund s.manager })
        r refl h e
  cleared (err x) s r h e = cc
  cleared panic s r h e = cc
  cleared blocked s r h e = cc

  dispatch_refund :
      (m : NotifyRefund) (s : State p)
      → s.cancelled ≡ false
      → (dispatch p cfg (some (notify_refund (some m))) s).0 ≡ ok (none, true)
      → IsIdle (dispatch p cfg (some (notify_refund (some m))) s).1
  unfolding dispatch ◌>>=◌
  dispatch_refund m s h e =
      cleared (handle_refund p cfg m.tx_hash s).0 (handle_refund p cfg m.tx_hash s).1 (none, true)
        ((handle_refund-Holds p cfg (λ s. s.cancelled) false (λ s h. refl) m.tx_hash).kept s
          (record { held = h })).held
        e

  check_refund :
      {A : Type 0} (o : Option MessageType) (m : Option NotifyRefund) (k : Action (State p) A)
      (s : State p)
      → (check_type p o (notify_refund m) >> k) s ≡ k s
  unfolding check_type ◌>>=◌
  check_refund none m k s = refl
  check_refund (some u) m k s = refl

  past_running :
      {A : Type 0} (b : Bool) (x : Err) (m : Action (State p) (Unit {0})) (k : Action (State p) A)
      (s : State p) (r : A)
      → ((fail_if b x >> m >> k) s).0 ≡ ok r
      → (b ≡ false) × ((fail_if b x >> m >> k) s ≡ (m >> k) s)
  unfolding fail_if ◌>>=◌
  past_running true x m k s r e = cc
  past_running false x m k s r e = (refl, refl)

  past_lock :
      {A : Type 0} (b : Bool) (u : Outcome Err A) (s s' : State p) (r : A)
      → (if b then (blocked, s) else release p (u, s')).0 ≡ ok r
      → (u ≡ ok r)
        × ((if b then (blocked, s) else release p (u, s')).1 ≡ record s' { locked = false })
  unfolding release
  past_lock true u s s' r e = cc
  past_lock false (ok a) s s' r e = (e, refl)
  past_lock false (err x) s s' r e = cc
  past_lock false panic s s' r e = cc
  past_lock false blocked s s' r e = cc

  -- Handling a message, the lock held.
  abbrev handle_locked : Message p.float.Carrier → Action (State p) Answer
  handle_locked msg =
      check_running p cfg >> check_message_type p (some msg) >> dispatch p cfg (some msg)

  refund_runs :
      (m : NotifyRefund) (s : State p)
      → (handle_locked (notify_refund (some m)) s).0 ≡ ok (none, true)
      → IsIdle (handle_locked (notify_refund (some m)) s).1
  unfolding check_running check_message_type ◌>>=◌
  refund_runs m s e =
      let msg = notify_refund (some m) in
      let (up, same) =
        past_running s.cancelled _ (check_message_type p (some msg)) (dispatch p cfg (some msg)) s
          (none, true) e in
      let same2 = same ∙ check_refund s.next_expected (some m) (dispatch p cfg (some msg)) s in
      rw same2 (dispatch_refund m s up (rw same2 at e))

  refund-IsIdle :
      (m : NotifyRefund) (s : State p)
      → (handle_protocol_message p cfg (some (notify_refund (some m))) s).0 ≡ ok (none, true)
      → let after = (handle_protocol_message p cfg (some (notify_refund (some m))) s).1 in
        IsIdle after × (after.locked ≡ false)
  unfolding handle_protocol_message with_lock
  refund-IsIdle m s e =
      let s1 : State p = record s { locked = true } in
      let msg = notify_refund (some m) in
      let (e1, same) =
        past_lock s.locked (handle_locked msg s1).0 s (handle_locked msg s1).1 (none, true) e in
      let i = refund_runs m s1 e1 in rw same (record { idle = i.idle; running = i.running }, refl)

  keys_panic :
      (u : Outcome Err (Unit {0})) (s : State p)
      → u ≡ ok tt
      → s.next_expected ≡ none
      → (handle_outcome u (λ _. set_next_expected_message p notify_eth_locked_type) fail s).0
        ≡ panic
  unfolding set_next_expected_message expect
  keys_panic u s e h = rw (e, h) refl

  handle_send_keys_message-panics :
      (msg : SendKeysMessage p.float.Carrier) (s : State p)
      → s.next_expected ≡ none
      → (accept_keys p cfg msg s).0 ≡ ok tt
      → (handle_send_keys_message p cfg msg s).0 ≡ panic
  unfolding handle_send_keys_message ◌>>=◌
  handle_send_keys_message-panics msg s idle e =
      keys_panic (accept_keys p cfg msg s).0 (accept_keys p cfg msg s).1 e
        ((accept_keys-Holds p cfg (λ s. s.next_expected) none (λ s h. refl) (λ s a b. refl)
            msg).kept
          s (record { held = idle })).held

  goes_on :
      {A : Type 0} (b : Bool) (x : Err) (m : Action (State p) (Unit {0})) (k : Action (State p) A)
      (s : State p)
      → b ≡ false
      → (fail_if b x >> m >> k) s ≡ (m >> k) s
  unfolding fail_if ◌>>=◌
  goes_on true x m k s e = cc
  goes_on false x m k s e = refl

  unchecked :
      {A : Type 0} (o : Option MessageType) (m : Message p.float.Carrier) (k : Action (State p) A)
      (s : State p)
      → o ≡ none
      → (check_type p o m >> k) s ≡ k s
  unfolding check_type ◌>>=◌
  unchecked none m k s e = refl
  unchecked (some u) m k s e = cc

  dispatch_keys :
      (msg : SendKeysMessage p.float.Carrier) (s : State p)
      → (handle_send_keys_message p cfg msg s).0 ≡ panic
      → (dispatch p cfg (some (send_keys (some msg))) s).0 ≡ panic
  unfolding dispatch ◌>>=◌
  dispatch_keys msg s e = rw e refl

  handle_locked-panics :
      (msg : SendKeysMessage p.float.Carrier) (s : State p)
      → IsIdle s
      → (accept_keys p cfg msg s).0 ≡ ok tt
      → (handle_locked (send_keys (some msg)) s).0 ≡ panic
  unfolding check_running check_message_type ◌>>=◌
  handle_locked-panics msg s i e =
      let m = send_keys (some msg) in
      let k = dispatch p cfg (some m) in
      ap (λ x. x.0)
        (goes_on s.cancelled _ (check_message_type p (some m)) k s i.running
          ∙ unchecked s.next_expected m k s i.idle)
      ∙ dispatch_keys msg s (handle_send_keys_message-panics msg s i.idle e)

  locked_panic :
      (b : Bool) (u : Outcome Err Answer) (s s' : State p)
      → b ≡ false
      → u ≡ panic
      → (if b then (blocked, s) else release p (u, s')).0 ≡ panic
  unfolding release
  locked_panic true u s s' h e = cc
  locked_panic false u s s' h e = rw e refl

  -- A peer that has refunded can stop Bob's node: if handling a NotifyRefund message succeeds, and a
  -- SendKeys message follows whose keys pass all checks, then handling that message panics, since no
  -- next message is expected any more and the node asks for the type of the one that is.
  pub keys_after_refund :
      (m : NotifyRefund) (msg : SendKeysMessage p.float.Carrier) (s : State p)
      → (handle_protocol_message p cfg (some (notify_refund (some m))) s).0 ≡ ok (none, true)
      → let after = (handle_protocol_message p cfg (some (notify_refund (some m))) s).1 in
        (accept_keys p cfg msg (record after { locked = true })).0 ≡ ok tt
        → (handle_protocol_message p cfg (some (send_keys (some msg))) after).0 ≡ panic
  unfolding handle_protocol_message with_lock
  keys_after_refund m msg s e valid =
      let (i, free) = refund-IsIdle m s e in
      let after = (handle_protocol_message p cfg (some (notify_refund (some m))) s).1 in
      let s1 : State p = record after { locked = true } in
      locked_panic after.locked (handle_locked (send_keys (some msg)) s1).0 after _ free
        (handle_locked-panics msg s1 (record { idle = i.idle; running = i.running }) valid)
