-- ===== src/Bob/Claims.antt =====
-- When a message makes Bob claim the ether, which reveals his secret
-- (protocol/bob/message_handler.go).
use atomic_swap.Base.{
  ℕ, Bool, true, false, Bool-cases, Option, none, some, ◌≡◌, ◌≢◌, ◌⊎◌, inl, inr, refl,
  if◌then◌else◌,
}
use atomic_swap.Base.Outcome.{Outcome, ok, err, panic, blocked}
use atomic_swap.Errors.{Err}
use atomic_swap.Action.{Action, ◌>>=◌, ◌>>◌, fail_if}
use atomic_swap.Action.Keeps.{Keeps, Keeps-pure, Keeps-fail, Keeps-bind, Keeps-if}
use atomic_swap.Message.{
  Message, MessageType, byte, type_of, send_keys, notify_eth_locked, notify_ready, notify_refund,
  notify_xmr_lock, notify_claimed, query_response, query_response_type, send_keys_type,
  notify_eth_locked_type, notify_xmr_lock_type, notify_ready_type, notify_claimed_type,
  notify_refund_type, nil_type,
}
use atomic_swap.World.{Platform}
use atomic_swap.World.Calls.{count, claim_kind}
use atomic_swap.Bob.{Config, State, release, with_lock, check_message_type, check_type}
use atomic_swap.Bob.Handler.{check_running, dispatch, handle_protocol_message}
use atomic_swap.Bob.Calls.{MadeBy, is_ready_message, dispatch-Keeps}

module _ (p : Platform) (cfg : Config) where
  -- The number of claims made so far.
  abbrev claims : State p → ℕ
  claims s = count claim_kind s.history

  release-history :
      {A : Type 0} (r : Outcome Err A) (s : State p) → (release p (r, s)).1.history ≡ s.history
  unfolding release
  release-history (ok a) s = refl
  release-history (err e) s = refl
  release-history panic s = refl
  release-history blocked s = refl

  check-Keeps :
      {n : ℕ} (o : Option MessageType) (msg : Message p.float.Carrier)
      → Keeps (MadeBy p claim_kind n) (check_type p o msg)
  unfolding check_type
  check-Keeps none msg = Keeps-pure _
  check-Keeps (some u) (notify_refund m) = Keeps-pure _
  check-Keeps (some u) (send_keys m) = Keeps-if _ _ _ (Keeps-pure _) (Keeps-fail _)
  check-Keeps (some u) (notify_eth_locked m) = Keeps-if _ _ _ (Keeps-pure _) (Keeps-fail _)
  check-Keeps (some u) (notify_ready m) = Keeps-if _ _ _ (Keeps-pure _) (Keeps-fail _)
  check-Keeps (some u) (query_response m) = Keeps-if _ _ _ (Keeps-pure _) (Keeps-fail _)
  check-Keeps (some u) (notify_xmr_lock m) = Keeps-if _ _ _ (Keeps-pure _) (Keeps-fail _)
  check-Keeps (some u) (notify_claimed m) = Keeps-if _ _ _ (Keeps-pure _) (Keeps-fail _)

  -- A NotifyReady message gets past the check of its type only where it is expected, or nothing is.
  accepted :
      {A : Type 0} (o : Option MessageType) (m : Message p.float.Carrier) (k : Action (State p) A)
      (s : State p)
      → is_ready_message (some m) ≡ true
      → claims ((check_type p o m >> k) s).1 ≢ claims s
      → (o ≡ none) ⊎ (o ≡ some notify_ready_type)
  unfolding check_type ◌>>=◌ byte type_of
  accepted none (notify_ready m) k s e d = inl refl
  accepted (some notify_ready_type) (notify_ready m) k s e d = inr refl
  accepted (some send_keys_type) (notify_ready m) k s e d = absurd (d refl)
  accepted (some query_response_type) (notify_ready m) k s e d = absurd (d refl)
  accepted (some notify_eth_locked_type) (notify_ready m) k s e d = absurd (d refl)
  accepted (some notify_xmr_lock_type) (notify_ready m) k s e d = absurd (d refl)
  accepted (some notify_claimed_type) (notify_ready m) k s e d = absurd (d refl)
  accepted (some notify_refund_type) (notify_ready m) k s e d = absurd (d refl)
  accepted (some nil_type) (notify_ready m) k s e d = absurd (d refl)
  accepted o (send_keys m) k s e d = cc
  accepted o (notify_eth_locked m) k s e d = cc
  accepted o (query_response m) k s e d = cc
  accepted o (notify_xmr_lock m) k s e d = cc
  accepted o (notify_claimed m) k s e d = cc
  accepted o (notify_refund m) k s e d = cc

  -- When a claim is due: a NotifyReady message comes in where one is expected or nothing is, and the
  -- swap was not left.
  pub record IsDue (msg : Option (Message p.float.Carrier)) (s : State p) : Type 0 where
    pub ready : is_ready_message msg ≡ true
    pub running : s.cancelled ≡ false
    pub expected : (s.next_expected ≡ none) ⊎ (s.next_expected ≡ some notify_ready_type)
    pub unlocked : s.locked ≡ false

  -- The checks of a message and its handling, where a claim is made.
  checked :
      (msg : Option (Message p.float.Carrier)) (s : State p)
      → claims ((check_message_type p msg >> dispatch p cfg msg) s).1 ≢ claims s
      → (is_ready_message msg ≡ true)
        × ((s.next_expected ≡ none) ⊎ (s.next_expected ≡ some notify_ready_type))
  unfolding check_message_type ◌>>=◌
  checked none s d = absurd (d refl)
  checked (some m) s d = elim (Bool-cases (is_ready_message (some m))) [
    | inl e ↦ (e, accepted s.next_expected m (dispatch p cfg (some m)) s e d)
    | inr e ↦ absurd (
        d
          ((Keeps-bind _ _ (check-Keeps s.next_expected m)
              (λ u. dispatch-Keeps p cfg (some m) e)).kept
            s (record { made = record { times = refl } })).made.times)
  ]

  past :
      {A : Type 0} (b : Bool) (e : Err) (m : Action (State p) (Unit {0})) (k : Action (State p) A)
      (s : State p)
      → claims ((fail_if b e >> m >> k) s).1 ≢ claims s
      → (b ≡ false) × (claims ((m >> k) s).1 ≢ claims s)
  unfolding ◌>>=◌ fail_if
  past true e m k s d = absurd (d refl)
  past false e m k s d = (refl, d)

  running :
      (msg : Option (Message p.float.Carrier)) (s : State p)
      → claims ((check_running p cfg >> check_message_type p msg >> dispatch p cfg msg) s).1
        ≢ claims s
      → (s.cancelled ≡ false)
        × (claims ((check_message_type p msg >> dispatch p cfg msg) s).1 ≢ claims s)
  unfolding check_running ◌>>=◌
  running msg s d = past s.cancelled _ (check_message_type p msg) (dispatch p cfg msg) s d

  locking :
      {A : Type 0} (b : Bool) (r : Outcome Err A) (s s' : State p)
      → claims (if b then (blocked, s) else release p (r, s')).1 ≢ claims s
      → (b ≡ false) × (claims s' ≢ claims s)
  locking true r s s' d = absurd (d refl)
  locking false r s s' d = (refl, rw (release-history r s') at d)

  -- Bob reveals his secret to no message but the one that Alice is ready: if the handling of a
  -- message makes a call of Claim, however the handling ends, then it is a NotifyReady message, one
  -- is expected or no message is, and the swap was not left and its lock was free.
  pub claim_guarded :
      (msg : Option (Message p.float.Carrier)) (s : State p)
      → count claim_kind (handle_protocol_message p cfg msg s).1.history
        ≢ count claim_kind s.history
      → IsDue msg s
  unfolding handle_protocol_message with_lock
  claim_guarded msg s d =
      let s1 : State p = record s { locked = true } in
      let (free, d1) = locking s.locked _ s _ d in
      let (up, d2) = running msg s1 d1 in
      let (ready, expected) = checked msg s1 d2 in
      record { ready = ready; running = up; expected = expected; unlocked = free }
