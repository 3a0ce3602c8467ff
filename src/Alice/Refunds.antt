-- ===== src/Alice/Refunds.antt =====
-- Which events make Alice refund (protocol/alice/message_handler.go).
use atomic_swap.Base.{
  ℕ, zero, suc, Bytes, Bool, true, false, Option, none, some, List, [], ◌∷◌, ◌≡◌, refl,
  if◌then◌else◌,
}
use atomic_swap.Base.Outcome.{Outcome, ok, err, panic, blocked}
use atomic_swap.Errors.{Err}
use atomic_swap.Action.{Action, fail}
use atomic_swap.Action.Keeps.{
  Keeps, keeps, Keeps-pure, Keeps-fail, Keeps-gets, Keeps-if, Keeps-wrap, Keeps-bind, Keeps-fail_if,
  Keeps-hang,
}
use atomic_swap.Message.{
  Message, MessageType, type_of, SendKeysMessage, NotifyXmrLock, send_keys, notify_xmr_lock,
  notify_claimed, query_response, notify_eth_locked, notify_ready, notify_refund,
}
use atomic_swap.World.{Platform, EthLog}
use atomic_swap.World.Calls.{
  count, refund_kind, Keeps-ask, Keeps-wait, wait_for_receipt-Keeps, create_monero_wallet-Keeps,
}
use atomic_swap.World.Logs.{get_secret_from_log-Keeps}
use atomic_swap.Crypto.Keys.{PrivateSpendKey}
use atomic_swap.Alice.{Config, State, release, with_lock, check_message_type, check_type}
use atomic_swap.Alice.Chain.{lock_eth_body, lock_eth, ready}
use atomic_swap.Alice.Settle.{
  mine, unlock_loop, close_claimed, transfer_back, claim_by_keys, claim_by_secret, claim_monero,
}
use atomic_swap.Alice.Handler.{
  info_of, handle_send_keys_message, handle_notify_xmr_lock, claim_from, handle_notify_claimed,
  dispatch, handle_protocol_message,
}
use atomic_swap.Alice.Calls.{
  MadeBy, Keeps-io, Keeps-set, Keeps-clear, accept_keys-Keeps, check_locked_xmr-Keeps,
  first_id-Keeps, set_timeouts-Keeps, Keeps-expect, close_xmr_locked-Keeps,
}

module _ (p : Platform) (cfg : Config) {n : ℕ} where
  lock_eth-Keeps : (amount : ℕ) → Keeps (MadeBy p refund_kind n) (lock_eth p cfg amount)
  unfolding lock_eth lock_eth_body
  lock_eth-Keeps amount = record { kept = λ s g. record { made = (body.kept s g).made } }
    where
      body : Keeps (MadeBy p refund_kind n) (lock_eth_body p cfg amount)
      body =
          search (keeps, Keeps-io, Keeps-ask, Keeps-set, wait_for_receipt-Keeps, first_id-Keeps)
            depth 60 fits 5000

  ready-Keeps : Keeps (MadeBy p refund_kind n) (ready p cfg)
  unfolding ready
  ready-Keeps = search (keeps, Keeps-io, Keeps-ask, wait_for_receipt-Keeps) depth 40 fits 5000

  send_keys-Keeps :
      (msg : SendKeysMessage p.float.Carrier)
      → Keeps (MadeBy p refund_kind n) (handle_send_keys_message p cfg msg)
  unfolding handle_send_keys_message info_of
  send_keys-Keeps msg =
      search (keeps, accept_keys-Keeps, lock_eth-Keeps, set_timeouts-Keeps, Keeps-set, Keeps-expect)
        depth 40 fits 5000

  xmr_lock-Keeps :
      (msg : NotifyXmrLock) → Keeps (MadeBy p refund_kind n) (handle_notify_xmr_lock p cfg msg)
  unfolding handle_notify_xmr_lock
  xmr_lock-Keeps msg =
      search
        (
          keeps, check_locked_xmr-Keeps, close_xmr_locked-Keeps, ready-Keeps, set_timeouts-Keeps,
          Keeps-set, Keeps-expect,
        )
        depth 40 fits 5000

  mine-Keeps : (b : Bool) → Keeps (MadeBy p refund_kind n) (mine p cfg b)
  unfolding mine
  mine-Keeps true = search (keeps, Keeps-io, Keeps-ask) depth 20 fits 3000
  mine-Keeps false = Keeps-pure _

  unlock_loop-Keeps : (rounds : ℕ) → Keeps (MadeBy p refund_kind n) (unlock_loop p cfg rounds)
  unfolding unlock_loop
  unlock_loop-Keeps zero = Keeps-hang
  unlock_loop-Keeps (suc rounds) = Keeps-bind _ _ (Keeps-gets _) (λ c.
      Keeps-bind _ _ (Keeps-fail_if _ _) (λ u. Keeps-bind _ _ (mine-Keeps _) (λ v.
        Keeps-bind _ _ (Keeps-wrap _ _ (Keeps-io p cfg _ (Keeps-ask _ _ refl))) (λ b.
          Keeps-if _ _ _ (Keeps-pure _) (
            Keeps-bind _ _ (Keeps-io p cfg _ (Keeps-wait _ refl))
              (λ w. unlock_loop-Keeps rounds))))))

  transfer_back-Keeps :
      (b : Bool) (addr : Bytes) → Keeps (MadeBy p refund_kind n) (transfer_back p cfg b addr)
  unfolding transfer_back close_claimed
  transfer_back-Keeps false addr = Keeps-pure _
  transfer_back-Keeps true addr =
      search (keeps, Keeps-io, Keeps-ask, Keeps-set, unlock_loop-Keeps) depth 40 fits 5000

  claim_monero-Keeps :
      (sk : PrivateSpendKey p.curve) → Keeps (MadeBy p refund_kind n) (claim_monero p cfg sk)
  unfolding claim_monero claim_by_secret claim_by_keys
  claim_monero-Keeps sk =
      search (keeps, Keeps-io, Keeps-ask, create_monero_wallet-Keeps, transfer_back-Keeps) depth 40
        fits 5000

  claim_from-Keeps : (logs : List EthLog) → Keeps (MadeBy p refund_kind n) (claim_from p cfg logs)
  unfolding claim_from
  claim_from-Keeps [] = Keeps-fail _
  claim_from-Keeps (log ∷ logs) =
      search (keeps, get_secret_from_log-Keeps, claim_monero-Keeps) depth 20 fits 3000

  claimed-Keeps : (tx : Bytes) → Keeps (MadeBy p refund_kind n) (handle_notify_claimed p cfg tx)
  unfolding handle_notify_claimed
  claimed-Keeps tx =
      search (keeps, Keeps-io, wait_for_receipt-Keeps, claim_from-Keeps) depth 20 fits 3000

  dispatch-Keeps :
      (msg : Option (Message p.float.Carrier)) → Keeps (MadeBy p refund_kind n) (dispatch p cfg msg)
  unfolding dispatch
  dispatch-Keeps none = Keeps-fail _
  dispatch-Keeps (some (send_keys m)) = search (keeps, send_keys-Keeps) depth 20 fits 3000
  dispatch-Keeps (some (notify_xmr_lock m)) = search (keeps, xmr_lock-Keeps) depth 20 fits 3000
  dispatch-Keeps (some (notify_claimed m)) =
      search (keeps, claimed-Keeps, Keeps-clear) depth 20 fits 3000
  dispatch-Keeps (some (notify_eth_locked m)) = Keeps-fail _
  dispatch-Keeps (some (notify_ready m)) = Keeps-fail _
  dispatch-Keeps (some (notify_refund m)) = Keeps-fail _
  dispatch-Keeps (some (query_response m)) = Keeps-fail _

  check-Keeps :
      (msg : Option (Message p.float.Carrier))
      → Keeps (MadeBy p refund_kind n) (check_message_type p msg)
  unfolding check_message_type check_type fail
  check-Keeps none = record { kept = λ s g. g }
  check-Keeps (some msg) = record { kept = λ s g. (by_expected s.next_expected).kept s g }
    where
      by_expected :
          (o : Option MessageType) → Keeps (MadeBy p refund_kind n) (check_type p o (type_of msg))
      by_expected none = Keeps-pure _
      by_expected (some u) = search keeps

  with_lock-Keeps :
      {A : Type 0} (m : Action (State p) A)
      → Keeps (MadeBy p refund_kind n) m
      → Keeps (MadeBy p refund_kind n) (with_lock p m)
  unfolding with_lock release
  with_lock-Keeps {A = A} m k = record {
    kept = λ s g.
        by_lock s s.locked (m (record s { locked = true })).0
          (k.kept (record s { locked = true }) (record { made = g.made })) g;
  }
    where
      by_lock :
          (s : State p)
          → (b : Bool) → (r : Outcome Err A) → {s' : State p} → MadeBy p refund_kind n s'
          → MadeBy p refund_kind n s
          → MadeBy p refund_kind n (if b then (blocked, s) else release p (r, s')).1
      by_lock s true r h g = g
      by_lock s false (ok a) h g = record { made = h.made }
      by_lock s false (err e) h g = record { made = h.made }
      by_lock s false panic h g = record { made = h.made }
      by_lock s false blocked h g = h

  handle_protocol_message-Keeps :
      (msg : Option (Message p.float.Carrier))
      → Keeps (MadeBy p refund_kind n) (handle_protocol_message p cfg msg)
  unfolding handle_protocol_message
  handle_protocol_message-Keeps msg =
      with_lock-Keeps _ (Keeps-bind _ _ (check-Keeps msg) (λ u. dispatch-Keeps msg))

-- No message makes Alice refund: whatever Bob sends, in whatever state, and however the handling
-- ends, the number of refund calls made stays the same.
pub handle_protocol_message_no_refund :
    (p : Platform) (cfg : Config) (msg : Option (Message p.float.Carrier)) (s : State p)
    → count refund_kind (handle_protocol_message p cfg msg s).1.history
      ≡ count refund_kind s.history
handle_protocol_message_no_refund p cfg msg s =
    ((handle_protocol_message-Keeps p cfg msg).kept s
      (record { made = record { times = refl } })).made.times
