-- ===== src/Bob/Stays.antt =====
-- What the handlers of Bob never touch: the offer that the swap is for, and the mutex, which is
-- taken and freed around them (protocol/bob/message_handler.go and swap_state.go).
use atomic_swap.Base.{
  Bool-cases, inl, inr, ◌==◌, ℕ, Bytes, Bool, true, false, Option, none, some, List, [], ◌∷◌, ◌≡◌,
  ◌∙◌,
}
use atomic_swap.Action.{modify}
use atomic_swap.Action.Keeps.{Keeps, keeps, Keeps-fail}
use atomic_swap.Message.{
  byte, Message, MessageType, SendKeysMessage, NotifyEthLocked, send_keys, notify_eth_locked,
  notify_ready, notify_refund, notify_xmr_lock, notify_claimed, query_response,
}
use atomic_swap.Types.Status.{Status}
use atomic_swap.Types.Offer.{Offer}
use atomic_swap.Crypto.Keys.{PrivateSpendKey}
use atomic_swap.World.{Platform, EthLog, Io}
use atomic_swap.World.Logs.{get_secret_from_log-Keeps}
use atomic_swap.Protocol.{get_status}
use atomic_swap.Bob.{
  Config, State, io, clear_next_expected_message, set_next_expected_message, expect, send_status,
  is_full,
}
use atomic_swap.Bob.Chain.{
  info_of, swaps_view, set_timeouts, compare_code, check_contract_code, first_event, check_event,
  check_value, check_contract, shared_keys, await_block, lock_funds, generate_and_set_keys,
  claim_funds, get_secret,
}
use atomic_swap.Bob.Settle.{reclaim_by_keys, reclaim_monero}
use atomic_swap.Bob.Handler.{
  accept_keys, handle_send_keys_message, send_keys_message, check_eth_locked, lock_provided,
  handle_notify_eth_locked, reclaim_from, handle_refund, close_ready, handle_notify_ready, dispatch,
}

pub record Stays (p : Platform) (o : Option (Offer p.float.Carrier)) (l : Bool) (s : State p)
    : Type 0 where
  pub offered : s.offer ≡ o
  pub held : s.locked ≡ l

module _ (p : Platform) (cfg : Config) {o : Option (Offer p.float.Carrier)} {l : Bool} where
  Stays-io : {A : Type 0} (m : Io A) → Keeps (Stays p o l) (io p m)
  unfolding io
  Stays-io m = record { kept = λ s h. record { offered = h.offered; held = h.held } }

  Stays-set :
      (f : State p → State p)
      → ((s : State p) → (f s).offer ≡ s.offer)
      → ((s : State p) → (f s).locked ≡ s.locked)
      → Keeps (Stays p o l) (modify f)
  unfolding modify
  Stays-set f a b = record {
    kept = λ s h. record { offered = a s ∙ h.offered; held = b s ∙ h.held };
  }

  Stays-send_status :
      (b : Bool) (st : Status) (s : State p) → Stays p o l s → Stays p o l (send_status p b st s).1
  unfolding send_status
  Stays-send_status true st s h = h
  Stays-send_status false st s h = record { offered = h.offered; held = h.held }

  Stays-clear : (st : Status) → Keeps (Stays p o l) (clear_next_expected_message p st)
  unfolding clear_next_expected_message
  Stays-clear st = record {
    kept = λ s h.
        Stays-send_status (is_full p s.status_ch) st _
          (record { offered = h.offered; held = h.held });
  }

  pub Stays-expect : (t : MessageType) → Keeps (Stays p o l) (set_next_expected_message p t)
  unfolding set_next_expected_message expect
  Stays-expect t = record { kept = λ s h. by_old s.next_expected s h }
    where
      by_old :
          (u : Option MessageType) (s : State p) → Stays p o l s → Stays p o l (expect p u t s).1
      by_old none s h = h
      by_old (some u) s h = elim (Bool-cases (byte t == byte u)) [
        | inl e ↦ rw e h
        | inr e ↦ rw e (
            Stays-send_status (is_full p s.status_ch) (get_status t) _
              (record { offered = h.offered; held = h.held }))
      ]

  set_timeouts-Stays : Keeps (Stays p o l) (set_timeouts p cfg)
  unfolding set_timeouts swaps_view
  set_timeouts-Stays = search (keeps, Stays-io, Stays-set) depth 40 fits 5000

  compare_code-Stays : (code : Bytes) → Keeps (Stays p o l) (compare_code p cfg code)
  unfolding compare_code
  compare_code-Stays code = search keeps depth 40 fits 3000

  check_contract_code-Stays : (addr : Bytes) → Keeps (Stays p o l) (check_contract_code p cfg addr)
  unfolding check_contract_code
  check_contract_code-Stays addr = search (keeps, Stays-io, compare_code-Stays) depth 30 fits 3000

  first_event-Stays : (logs : List EthLog) → Keeps (Stays p o l) (first_event p cfg logs)
  unfolding first_event
  first_event-Stays [] = Keeps-fail _
  first_event-Stays (log ∷ logs) = search keeps depth 20

  check_contract-Stays : (tx : Bytes) → Keeps (Stays p o l) (check_contract p cfg tx)
  unfolding check_contract check_event check_value info_of swaps_view
  check_contract-Stays tx = search (keeps, Stays-io, first_event-Stays) depth 60 fits 5000

  check_eth_locked-Stays :
      (msg : NotifyEthLocked) → Keeps (Stays p o l) (check_eth_locked p cfg msg)
  unfolding check_eth_locked
  check_eth_locked-Stays msg =
      search (keeps, Stays-io, Stays-set, check_contract_code-Stays, check_contract-Stays) depth 60
        fits 5000

  await_block-Stays : (b : Bool) (addr : Bytes) → Keeps (Stays p o l) (await_block p cfg b addr)
  unfolding await_block
  await_block-Stays true addr = search (keeps, Stays-io) depth 20 fits 3000
  await_block-Stays false addr = search (keeps, Stays-io) depth 20 fits 3000

  lock_funds-Stays : (amount : ℕ) → Keeps (Stays p o l) (lock_funds p cfg amount)
  unfolding lock_funds shared_keys
  lock_funds-Stays amount = search (keeps, Stays-io, await_block-Stays) depth 60 fits 5000

  eth_locked-Stays :
      (msg : NotifyEthLocked) → Keeps (Stays p o l) (handle_notify_eth_locked p cfg msg)
  unfolding handle_notify_eth_locked lock_provided info_of
  eth_locked-Stays msg =
      search
        (
          keeps, check_eth_locked-Stays, lock_funds-Stays, set_timeouts-Stays, Stays-set,
          Stays-expect,
        )
        depth 60 fits 5000

  pub send_keys-Stays :
      (msg : SendKeysMessage p.float.Carrier)
      → Keeps (Stays p o l) (handle_send_keys_message p cfg msg)
  unfolding handle_send_keys_message accept_keys
  send_keys-Stays msg = search (keeps, Stays-io, Stays-set, Stays-expect) depth 40 fits 5000

  generate_and_set_keys-Stays : Keeps (Stays p o l) (generate_and_set_keys p cfg)
  unfolding generate_and_set_keys
  generate_and_set_keys-Stays = search (keeps, Stays-io, Stays-set) depth 40 fits 5000

  pub send_keys_message-Stays : Keeps (Stays p o l) (send_keys_message p cfg)
  unfolding send_keys_message info_of
  send_keys_message-Stays = search (keeps, generate_and_set_keys-Stays) depth 60 fits 5000

  reclaim_monero-Stays :
      (sk : PrivateSpendKey p.curve) → Keeps (Stays p o l) (reclaim_monero p cfg sk)
  unfolding reclaim_monero reclaim_by_keys
  reclaim_monero-Stays sk = search (keeps, Stays-io) depth 40 fits 5000

  reclaim_from-Stays : (logs : List EthLog) → Keeps (Stays p o l) (reclaim_from p cfg logs)
  unfolding reclaim_from
  reclaim_from-Stays [] = Keeps-fail _
  reclaim_from-Stays (log ∷ logs) =
      search (keeps, get_secret_from_log-Keeps, reclaim_monero-Stays) depth 20 fits 3000

  handle_refund-Stays : (tx : Bytes) → Keeps (Stays p o l) (handle_refund p cfg tx)
  unfolding handle_refund
  handle_refund-Stays tx = search (keeps, Stays-io, reclaim_from-Stays) depth 30 fits 3000

  claim_funds-Stays : Keeps (Stays p o l) (claim_funds p cfg)
  unfolding claim_funds get_secret
  claim_funds-Stays = search (keeps, Stays-io) depth 60 fits 5000

  notify_ready-Stays : Keeps (Stays p o l) (handle_notify_ready p cfg)
  unfolding handle_notify_ready close_ready
  notify_ready-Stays = search (keeps, claim_funds-Stays, Stays-set, Stays-clear) depth 40 fits 3000

  -- No message changes for which offer the swap is.
  pub dispatch-Stays :
      (msg : Option (Message p.float.Carrier)) → Keeps (Stays p o l) (dispatch p cfg msg)
  unfolding dispatch
  dispatch-Stays none = Keeps-fail _
  dispatch-Stays (some (send_keys msg)) = search (keeps, send_keys-Stays) depth 30 fits 3000
  dispatch-Stays (some (notify_eth_locked msg)) =
      search (keeps, eth_locked-Stays) depth 30 fits 3000
  dispatch-Stays (some (notify_ready msg)) = search (keeps, notify_ready-Stays) depth 30 fits 3000
  dispatch-Stays (some (notify_refund msg)) =
      search (keeps, handle_refund-Stays, Stays-clear) depth 30 fits 3000
  dispatch-Stays (some (query_response msg)) = Keeps-fail _
  dispatch-Stays (some (notify_xmr_lock msg)) = Keeps-fail _
  dispatch-Stays (some (notify_claimed msg)) = Keeps-fail _
