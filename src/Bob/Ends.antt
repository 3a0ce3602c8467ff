-- ===== src/Bob/Ends.antt =====
-- The handlers of Bob end, on every platform (protocol/bob/message_handler.go and swap_state.go).
use atomic_swap.Base.{
  ◌≡◌, ◌==◌, Bool-cases, inl, inr, ℕ, zero, suc, Bytes, Bool, true, false, Option, none, some, List,
  [], ◌∷◌, ◌≢◌,
}
use atomic_swap.Base.Outcome.{blocked}
use atomic_swap.Action.{ignore}
use atomic_swap.Action.Returns.{
  Returns, returns, Returns-pure, Returns-fail, Returns-bind, Returns-handle, Returns-if,
  Returns-wrap,
}
use atomic_swap.Message.{
  byte, Message, MessageType, SendKeysMessage, NotifyEthLocked, send_keys, notify_eth_locked,
  notify_ready, notify_refund, notify_xmr_lock, notify_claimed, query_response,
}
use atomic_swap.Types.Status.{Status}
use atomic_swap.World.{Platform, EthLog, Io}
use atomic_swap.Bob.{Config, State, is_full, send_status, set_next_expected_message, expect}
use atomic_swap.Bob.Chain.{
  info_of, swaps_view, set_timeouts, compare_code, check_contract_code, first_event, check_event,
  check_value, check_contract, shared_keys, await_block, lock_funds, generate_and_set_keys,
}
use atomic_swap.Bob.Handler.{
  accept_keys, handle_send_keys_message, send_keys_message, check_eth_locked, lock_provided,
  handle_notify_eth_locked, reclaim_from, handle_refund, close_ready, handle_notify_ready, dispatch,
}
use atomic_swap.World.Returns.{
  Returns-ask, Returns-wait, wait_for_receipt-Returns, get_secret_from_log-Returns,
}
use atomic_swap.World.Monero.{tries_loop, blocks_loop, wait_for_blocks}
use atomic_swap.Protocol.{prove, verify, generate_keys_and_proof, verify_keys_and_proof}
use atomic_swap.Bob.Exits.{Returns-io, Returns-clear, claim_funds-Returns, reclaim_monero-Returns}

module _ (p : Platform) (cfg : Config)
    (room : (o : Option (List Status)) → is_full p o ≡ false) where
  tries_loop-Returns :
      (tries prev : ℕ) (next : Io ℕ) → Returns next → Returns (tries_loop p tries prev next)
  unfolding tries_loop
  tries_loop-Returns zero prev next h = h
  tries_loop-Returns (suc tries) prev next h = Returns-bind _ _ (Returns-ask _ _) (λ u.
      Returns-handle _ _ _ (Returns-ask _ _)
        (λ height.
          Returns-if _ _ _ (Returns-pure _)
            (Returns-bind _ _ (Returns-wait _) (λ v. tries_loop-Returns tries prev next h)))
        (λ e. tries_loop-Returns tries prev next h))

  blocks_loop-Returns : (count prev : ℕ) → Returns (blocks_loop p count prev)
  unfolding blocks_loop
  blocks_loop-Returns zero prev = Returns-fail _
  blocks_loop-Returns (suc count) prev =
      tries_loop-Returns 360 prev _ (blocks_loop-Returns count prev)

  wait_for_blocks-Returns : (count : ℕ) → Returns (wait_for_blocks p count)
  unfolding wait_for_blocks
  wait_for_blocks-Returns count =
      Returns-bind _ _ (Returns-wrap _ _ (Returns-ask _ _)) (blocks_loop-Returns count)

  generate_keys_and_proof-Returns : Returns (generate_keys_and_proof p)
  unfolding generate_keys_and_proof prove verify
  generate_keys_and_proof-Returns = search (returns, Returns-ask) depth 40 fits 3000

  verify_keys_and_proof-Returns : (a b : Bytes) → Returns (verify_keys_and_proof p a b)
  unfolding verify_keys_and_proof verify
  verify_keys_and_proof-Returns a b = search (returns, Returns-ask) depth 40 fits 3000

  pub Returns-expect : (t : MessageType) → Returns (set_next_expected_message p t)
  unfolding set_next_expected_message expect send_status
  Returns-expect t = record { from = λ s. by_old s.next_expected s }
    where
      by_old : (u : Option MessageType) (s : State p) → (expect p u t s).0 ≢ blocked
      by_old none s = λ h. cc
      by_old (some u) s = elim (Bool-cases (byte t == byte u)) [
        | inl e ↦ rw e (λ h. cc)
        | inr e ↦ rw (e, room s.status_ch) (λ h. cc)
      ]

  set_timeouts-Returns : Returns (set_timeouts p cfg)
  unfolding set_timeouts swaps_view
  set_timeouts-Returns = search (returns, Returns-io, Returns-ask) depth 40 fits 5000

  compare_code-Returns : (code : Bytes) → Returns (compare_code p cfg code)
  unfolding compare_code
  compare_code-Returns code = search returns depth 40 fits 3000

  check_contract_code-Returns : (addr : Bytes) → Returns (check_contract_code p cfg addr)
  unfolding check_contract_code
  check_contract_code-Returns addr =
      search (returns, Returns-io, Returns-ask, compare_code-Returns) depth 30 fits 3000

  first_event-Returns : (logs : List EthLog) → Returns (first_event p cfg logs)
  unfolding first_event
  first_event-Returns [] = Returns-fail _
  first_event-Returns (log ∷ logs) = search returns depth 20

  check_contract-Returns : (tx : Bytes) → Returns (check_contract p cfg tx)
  unfolding check_contract check_event check_value info_of swaps_view
  check_contract-Returns tx =
      search (returns, Returns-io, Returns-ask, wait_for_receipt-Returns, first_event-Returns) depth
        60 fits 5000

  check_eth_locked-Returns : (msg : NotifyEthLocked) → Returns (check_eth_locked p cfg msg)
  unfolding check_eth_locked
  check_eth_locked-Returns msg =
      search (returns, Returns-io, Returns-ask, check_contract_code-Returns, check_contract-Returns)
        depth 60 fits 5000

  await_block-Returns : (b : Bool) (addr : Bytes) → Returns (await_block p cfg b addr)
  unfolding await_block ignore
  await_block-Returns true addr = search (returns, Returns-io, Returns-ask) depth 20 fits 3000
  await_block-Returns false addr =
      search (returns, Returns-io, wait_for_blocks-Returns) depth 20 fits 3000

  lock_funds-Returns : (amount : ℕ) → Returns (lock_funds p cfg amount)
  unfolding lock_funds shared_keys
  lock_funds-Returns amount =
      search (returns, Returns-io, Returns-ask, await_block-Returns) depth 60 fits 5000

  eth_locked-Returns : (msg : NotifyEthLocked) → Returns (handle_notify_eth_locked p cfg msg)
  unfolding handle_notify_eth_locked lock_provided info_of
  eth_locked-Returns msg =
      search
        (
          returns, check_eth_locked-Returns, lock_funds-Returns, set_timeouts-Returns,
          Returns-expect,
        )
        depth 60 fits 5000

  pub send_keys-Returns :
      (msg : SendKeysMessage p.float.Carrier) → Returns (handle_send_keys_message p cfg msg)
  unfolding handle_send_keys_message accept_keys
  send_keys-Returns msg =
      search (returns, Returns-io, verify_keys_and_proof-Returns, Returns-expect) depth 40 fits 5000

  generate_and_set_keys-Returns : Returns (generate_and_set_keys p cfg)
  unfolding generate_and_set_keys
  generate_and_set_keys-Returns =
      search (returns, Returns-io, Returns-ask, generate_keys_and_proof-Returns) depth 40 fits 5000

  pub send_keys_message-Returns : Returns (send_keys_message p cfg)
  unfolding send_keys_message info_of
  send_keys_message-Returns = search (returns, generate_and_set_keys-Returns) depth 60 fits 5000

  reclaim_from-Returns : (logs : List EthLog) → Returns (reclaim_from p cfg logs)
  unfolding reclaim_from
  reclaim_from-Returns [] = Returns-fail _
  reclaim_from-Returns (log ∷ logs) =
      search (returns, get_secret_from_log-Returns, reclaim_monero-Returns) depth 20 fits 3000

  handle_refund-Returns : (tx : Bytes) → Returns (handle_refund p cfg tx)
  unfolding handle_refund
  handle_refund-Returns tx =
      search (returns, Returns-io, Returns-ask, reclaim_from-Returns) depth 30 fits 3000

  notify_ready-Returns : Returns (handle_notify_ready p cfg)
  unfolding handle_notify_ready close_ready
  notify_ready-Returns = search (returns, claim_funds-Returns, Returns-clear) depth 40 fits 3000

  -- The handling of every message ends.
  pub dispatch-Returns : (msg : Option (Message p.float.Carrier)) → Returns (dispatch p cfg msg)
  unfolding dispatch
  dispatch-Returns none = Returns-fail _
  dispatch-Returns (some (send_keys msg)) = search (returns, send_keys-Returns) depth 30 fits 3000
  dispatch-Returns (some (notify_eth_locked msg)) =
      search (returns, eth_locked-Returns) depth 30 fits 3000
  dispatch-Returns (some (notify_ready msg)) =
      search (returns, notify_ready-Returns) depth 30 fits 3000
  dispatch-Returns (some (notify_refund msg)) =
      search (returns, handle_refund-Returns, Returns-clear) depth 30 fits 3000
  dispatch-Returns (some (query_response msg)) = Returns-fail _
  dispatch-Returns (some (notify_xmr_lock msg)) = Returns-fail _
  dispatch-Returns (some (notify_claimed msg)) = Returns-fail _
