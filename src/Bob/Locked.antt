-- ===== src/Bob/Locked.antt =====
-- HandleProtocolMessage of Bob takes the mutex and frees it (protocol/bob/message_handler.go).
use atomic_swap.Base.{◌≡◌, List, Bool, true, false, Option, none, some, ◌≢◌, refl}
use atomic_swap.Base.Outcome.{Outcome, ok, err, panic, blocked}
use atomic_swap.Errors.{Err}
use atomic_swap.Action.{Action}
use atomic_swap.Action.Keeps.{Keeps, keeps, Keeps-pure, Keeps-fail, Keeps-if}
use atomic_swap.Action.Returns.{Returns, returns, Returns-pure, Returns-fail, Returns-if}
use atomic_swap.Message.{
  Message, MessageType, send_keys, notify_eth_locked, notify_xmr_lock, notify_ready, notify_claimed,
  notify_refund, query_response,
}
use atomic_swap.Types.Offer.{Offer}
use atomic_swap.Types.Status.{Status}
use atomic_swap.World.{Platform}
use atomic_swap.Bob.{Config, State, is_full, with_lock, release, check_message_type, check_type}
use atomic_swap.Bob.Handler.{check_running, handle_protocol_message}
use atomic_swap.Bob.Stays.{Stays, dispatch-Stays}
use atomic_swap.Bob.Ends.{dispatch-Returns}

module _ (p : Platform) (cfg : Config)
    (room : (o : Option (List Status)) → is_full p o ≡ false) where
  check_type-Stays :
      {o : Option (Offer p.float.Carrier)} {l : Bool} (t : Option MessageType)
      (msg : Message p.float.Carrier)
      → Keeps (Stays p o l) (check_type p t msg)
  unfolding check_type
  check_type-Stays none msg = Keeps-pure _
  check_type-Stays (some u) (notify_refund m) = Keeps-pure _
  check_type-Stays (some u) (send_keys m) = Keeps-if _ _ _ (Keeps-pure _) (Keeps-fail _)
  check_type-Stays (some u) (notify_eth_locked m) = Keeps-if _ _ _ (Keeps-pure _) (Keeps-fail _)
  check_type-Stays (some u) (notify_ready m) = Keeps-if _ _ _ (Keeps-pure _) (Keeps-fail _)
  check_type-Stays (some u) (query_response m) = Keeps-if _ _ _ (Keeps-pure _) (Keeps-fail _)
  check_type-Stays (some u) (notify_xmr_lock m) = Keeps-if _ _ _ (Keeps-pure _) (Keeps-fail _)
  check_type-Stays (some u) (notify_claimed m) = Keeps-if _ _ _ (Keeps-pure _) (Keeps-fail _)

  check_type-Returns :
      (t : Option MessageType) (msg : Message p.float.Carrier) → Returns (check_type p t msg)
  unfolding check_type
  check_type-Returns none msg = Returns-pure _
  check_type-Returns (some u) (notify_refund m) = Returns-pure _
  check_type-Returns (some u) (send_keys m) = Returns-if _ _ _ (Returns-pure _) (Returns-fail _)
  check_type-Returns (some u) (notify_eth_locked m) =
      Returns-if _ _ _ (Returns-pure _) (Returns-fail _)
  check_type-Returns (some u) (notify_ready m) = Returns-if _ _ _ (Returns-pure _) (Returns-fail _)
  check_type-Returns (some u) (query_response m) =
      Returns-if _ _ _ (Returns-pure _) (Returns-fail _)
  check_type-Returns (some u) (notify_xmr_lock m) =
      Returns-if _ _ _ (Returns-pure _) (Returns-fail _)
  check_type-Returns (some u) (notify_claimed m) =
      Returns-if _ _ _ (Returns-pure _) (Returns-fail _)

  check_message_type-Stays :
      {o : Option (Offer p.float.Carrier)} {l : Bool} (msg : Message p.float.Carrier)
      → Keeps (Stays p o l) (check_message_type p (some msg))
  unfolding check_message_type
  check_message_type-Stays msg = record {
    kept = λ s h. (check_type-Stays s.next_expected msg).kept s h;
  }

  check_message_type-Returns :
      (msg : Message p.float.Carrier) → Returns (check_message_type p (some msg))
  unfolding check_message_type
  check_message_type-Returns msg = record {
    from = λ s. (check_type-Returns s.next_expected msg).from s;
  }

  -- A call under the mutex, which is free.
  released :
      {A : Type 0} (o : Offer p.float.Carrier) (r : Outcome Err A) (s : State p)
      → r ≢ blocked
      → Stays p (some o) true s
      → ((release p (r, s)).0 ≢ blocked) × Stays p (some o) false (release p (r, s)).1
  unfolding release
  released o (ok a) s k h = (k, record { offered = h.offered; held = refl })
  released o (err e) s k h = (k, record { offered = h.offered; held = refl })
  released o panic s k h = (k, record { offered = h.offered; held = refl })
  released o blocked s k h = absurd (k refl)

  locked_call :
      {A : Type 0} (o : Offer p.float.Carrier) (m : Action (State p) A) (s : State p)
      → Keeps (Stays p (some o) true) m
      → Returns m
      → Stays p (some o) false s
      → ((with_lock p m s).0 ≢ blocked) × Stays p (some o) false (with_lock p m s).1
  unfolding with_lock
  locked_call o m s keep k h =
      let s1 : State p = record s { locked = true } in
      rw h.held (
        released o (m s1).0 (m s1).1 (k.from s1)
          (keep.kept s1 (record { offered = h.offered; held = refl })))

  -- A message leaves the mutex free and the offer as it is.
  pub message-Stays :
      (o : Offer p.float.Carrier) (msg : Message p.float.Carrier) (s : State p)
      → Stays p (some o) false s
      → ((handle_protocol_message p cfg (some msg) s).0 ≢ blocked)
        × Stays p (some o) false (handle_protocol_message p cfg (some msg) s).1
  unfolding handle_protocol_message check_running
  message-Stays o msg s h =
      locked_call o _ s
        (search (keeps, check_message_type-Stays, dispatch-Stays) depth 30 fits 3000)
        (search (returns, check_message_type-Returns, dispatch-Returns) depth 30 fits 3000) h
