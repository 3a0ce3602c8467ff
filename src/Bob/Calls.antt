-- ===== src/Bob/Calls.antt =====
-- Which of the calls that move funds Bob's operations can make, and which messages lead to a claim
-- (protocol/bob/message_handler.go).
use atomic_swap.Base.{
  Bool-cases, inl, inr, ◌==◌, ℕ, Bytes, Bool, true, false, Option, none, some, List, [], ◌∷◌, ◌≡◌,
}
use atomic_swap.Action.{modify}
use atomic_swap.Action.Keeps.{Keeps, keeps, Keeps-fail, Keeps-bind}
use atomic_swap.Message.{
  byte, Message, MessageType, SendKeysMessage, NotifyEthLocked, send_keys, notify_eth_locked,
  notify_ready, notify_refund, notify_xmr_lock, notify_claimed, query_response,
}
use atomic_swap.Types.Status.{Status}
use atomic_swap.Crypto.Keys.{PrivateSpendKey}
use atomic_swap.World.{Platform, EthLog, Io}
use atomic_swap.World.Calls.{
  Kind, Made, claim_kind, Keeps-ask, wait_for_receipt-Keeps, wait_for_blocks-Keeps,
  create_monero_wallet-Keeps, verify_keys_and_proof-Keeps,
}
use atomic_swap.World.Logs.{get_secret_from_log-Keeps}
use atomic_swap.Protocol.{get_status}
use atomic_swap.Bob.{
  Config, State, io, clear_next_expected_message, set_next_expected_message, expect, send_status,
  is_full,
}
use atomic_swap.Bob.Chain.{
  info_of, swaps_view, set_timeouts, compare_code, check_contract_code, first_event, check_event,
  check_value, check_contract, shared_keys, await_block, lock_funds,
}
use atomic_swap.Bob.Settle.{reclaim_by_keys, reclaim_monero}
use atomic_swap.Bob.Handler.{
  accept_keys, handle_send_keys_message, check_eth_locked, lock_provided, handle_notify_eth_locked,
  reclaim_from, handle_refund, dispatch,
}

-- So many calls of the kind stand in the history of the swap state.
pub record MadeBy (p : Platform) (k : Kind) (n : ℕ) (s : State p) : Type 0 where
  pub made : Made k n s.history

module _ (p : Platform) (cfg : Config) {k : Kind} {n : ℕ} where
  pub Keeps-io : {A : Type 0} (m : Io A) → Keeps (Made k n) m → Keeps (MadeBy p k n) (io p m)
  unfolding io
  Keeps-io m h = record { kept = λ s g. record { made = h.kept s.history g.made } }

  pub Keeps-set :
      (f : State p → State p)
      → ((s : State p) → (f s).history ≡ s.history)
      → Keeps (MadeBy p k n) (modify f)
  unfolding modify
  Keeps-set f e = record { kept = λ s g. record { made = rw (e s) g.made } }

  Made-send_status :
      (b : Bool) (st : Status) (s : State p)
      → Made k n s.history
      → Made k n (send_status p b st s).1.history
  unfolding send_status
  Made-send_status true st s g = g
  Made-send_status false st s g = g

  pub Keeps-clear : (st : Status) → Keeps (MadeBy p k n) (clear_next_expected_message p st)
  unfolding clear_next_expected_message
  Keeps-clear st = record {
    kept = λ s g. record { made = Made-send_status (is_full p s.status_ch) st _ g.made };
  }

  pub Keeps-expect : (t : MessageType) → Keeps (MadeBy p k n) (set_next_expected_message p t)
  unfolding set_next_expected_message expect
  Keeps-expect t = record { kept = λ s g. record { made = by_old s.next_expected s g.made } }
    where
      by_old :
          (o : Option MessageType) (s : State p)
          → Made k n s.history
          → Made k n (expect p o t s).1.history
      by_old none s g = g
      by_old (some u) s g = elim (Bool-cases (byte t == byte u)) [
        | inl h ↦ rw h g
        | inr h ↦ rw h (Made-send_status (is_full p s.status_ch) (get_status t) _ g)
      ]

  swaps_view-Keeps : Keeps (MadeBy p k n) (swaps_view p cfg)
  unfolding swaps_view
  swaps_view-Keeps = search (keeps, Keeps-io, Keeps-ask) depth 30 fits 3000

  set_timeouts-Keeps : Keeps (MadeBy p k n) (set_timeouts p cfg)
  unfolding set_timeouts
  set_timeouts-Keeps = search (keeps, swaps_view-Keeps, Keeps-set) depth 30 fits 3000

  compare_code-Keeps : (code : Bytes) → Keeps (MadeBy p k n) (compare_code p cfg code)
  unfolding compare_code
  compare_code-Keeps code = search keeps depth 40 fits 3000

  check_contract_code-Keeps : (addr : Bytes) → Keeps (MadeBy p k n) (check_contract_code p cfg addr)
  unfolding check_contract_code
  check_contract_code-Keeps addr =
      search (keeps, Keeps-io, Keeps-ask, compare_code-Keeps) depth 30 fits 3000

  first_event-Keeps : (logs : List EthLog) → Keeps (MadeBy p k n) (first_event p cfg logs)
  unfolding first_event
  first_event-Keeps [] = Keeps-fail _
  first_event-Keeps (log ∷ logs) = search keeps depth 20

  check_contract-Keeps : (tx : Bytes) → Keeps (MadeBy p k n) (check_contract p cfg tx)
  unfolding check_contract check_event check_value info_of
  check_contract-Keeps tx =
      search (keeps, Keeps-io, wait_for_receipt-Keeps, first_event-Keeps, swaps_view-Keeps) depth 60
        fits 5000

  pub check_eth_locked-Keeps :
      (msg : NotifyEthLocked) → Keeps (MadeBy p k n) (check_eth_locked p cfg msg)
  unfolding check_eth_locked
  check_eth_locked-Keeps msg =
      search
        (keeps, Keeps-io, Keeps-ask, Keeps-set, check_contract_code-Keeps, check_contract-Keeps)
        depth 60 fits 5000

-- Whether a message is a NotifyReady message.
abbrev pub is_ready_message : {F : Type 0} → Option (Message F) → Bool
is_ready_message (some (notify_ready _)) = true
is_ready_message _ = false

module _ (p : Platform) (cfg : Config) {n : ℕ} where
  await_block-Keeps :
      (b : Bool) (addr : Bytes) → Keeps (MadeBy p claim_kind n) (await_block p cfg b addr)
  unfolding await_block
  await_block-Keeps true addr = search (keeps, Keeps-io, Keeps-ask) depth 20 fits 3000
  await_block-Keeps false addr = search (keeps, Keeps-io, wait_for_blocks-Keeps) depth 20 fits 3000

  lock_funds-Keeps : (amount : ℕ) → Keeps (MadeBy p claim_kind n) (lock_funds p cfg amount)
  unfolding lock_funds shared_keys
  lock_funds-Keeps amount =
      search (keeps, Keeps-io, Keeps-ask, await_block-Keeps) depth 60 fits 5000

  eth_locked-Keeps :
      (msg : NotifyEthLocked) → Keeps (MadeBy p claim_kind n) (handle_notify_eth_locked p cfg msg)
  unfolding handle_notify_eth_locked lock_provided info_of
  eth_locked-Keeps msg =
      search
        (
          keeps, check_eth_locked-Keeps, lock_funds-Keeps, set_timeouts-Keeps, Keeps-set,
          Keeps-expect,
        )
        depth 60 fits 5000

  send_keys-Keeps :
      (msg : SendKeysMessage p.float.Carrier)
      → Keeps (MadeBy p claim_kind n) (handle_send_keys_message p cfg msg)
  unfolding handle_send_keys_message accept_keys
  send_keys-Keeps msg =
      search (keeps, Keeps-io, verify_keys_and_proof-Keeps, Keeps-set, Keeps-expect) depth 40 fits
        5000

  reclaim_monero-Keeps :
      (sk : PrivateSpendKey p.curve) → Keeps (MadeBy p claim_kind n) (reclaim_monero p cfg sk)
  unfolding reclaim_monero reclaim_by_keys
  reclaim_monero-Keeps sk =
      search (keeps, Keeps-io, Keeps-ask, create_monero_wallet-Keeps) depth 40 fits 5000

  reclaim_from-Keeps :
      (logs : List EthLog) → Keeps (MadeBy p claim_kind n) (reclaim_from p cfg logs)
  unfolding reclaim_from
  reclaim_from-Keeps [] = Keeps-fail _
  reclaim_from-Keeps (log ∷ logs) =
      Keeps-bind _ _ (get_secret_from_log-Keeps p log _) (λ sk. reclaim_monero-Keeps sk)

  handle_refund-Keeps : (tx : Bytes) → Keeps (MadeBy p claim_kind n) (handle_refund p cfg tx)
  unfolding handle_refund
  handle_refund-Keeps tx =
      search (keeps, Keeps-io, Keeps-ask, reclaim_from-Keeps) depth 30 fits 3000

  pub dispatch-Keeps :
      (msg : Option (Message p.float.Carrier))
      → is_ready_message msg ≡ false
      → Keeps (MadeBy p claim_kind n) (dispatch p cfg msg)
  unfolding dispatch
  dispatch-Keeps none e = Keeps-fail _
  dispatch-Keeps (some (send_keys msg)) e = search (keeps, send_keys-Keeps) depth 30 fits 3000
  dispatch-Keeps (some (notify_eth_locked msg)) e =
      search (keeps, eth_locked-Keeps) depth 30 fits 3000
  dispatch-Keeps (some (notify_ready msg)) e = cc
  dispatch-Keeps (some (notify_refund msg)) e =
      search (keeps, handle_refund-Keeps, Keeps-clear) depth 30 fits 3000
  dispatch-Keeps (some (query_response msg)) e = Keeps-fail _
  dispatch-Keeps (some (notify_xmr_lock msg)) e = Keeps-fail _
  dispatch-Keeps (some (notify_claimed msg)) e = Keeps-fail _
