-- ===== src/Alice/Chain.antt =====
-- The calls of the contract in protocol/alice/swap_state.go: keys, lockETH, ready, refund and the
-- timeouts.
use atomic_swap.Base.{
  ℕ, zero, suc, Bytes, codes, Bool, true, false, not, ◌&&◌, ◌||◌, contains, Option, none, some,
  is_some, List, [], ◌∷◌, if◌then◌else◌, ltb,
}
use atomic_swap.Errors.{
  named, error, no_swap_contract_set, no_public_keys_set, counterparty_keys_not_set,
  swap_instantiation_no_logs,
}
use atomic_swap.Action.{
  Action, pure, fail, fail_if, gets, modify, deref, hang, wrap, handle, ◌>>=◌, ◌>>◌,
}
use atomic_swap.Types.Status.{completed_refund, is_ongoing}
use atomic_swap.Crypto.Keys.{private_hex}
use atomic_swap.Crypto.Secp256k1.{keccak}
use atomic_swap.Protocol.{generate_keys_and_proof}
use atomic_swap.World.{
  Platform, new_swap, set_ready, refund, is_ready, swaps, write_keys, sleep, wait_until, ask, now,
  wait, EthLog,
}
use atomic_swap.World.Ethereum.{wait_for_receipt, get_id_from_log, reverse_bytes}
use atomic_swap.Alice.{Config, State, io, status, clear_next_expected_message}

abbrev pub revert_swap_completed : Bytes
revert_swap_completed = codes "swap is already completed"

module _ (p : Platform) (cfg : Config) where
  open p use {curve, float, transact_answer, is_ready_answer, swaps_answer, done_answer, clock}

  -- `generateAndSetKeys`
  unfoldable pub generate_and_set_keys : Action (State p) (Unit {0})
  generate_and_set_keys = do
    old ← gets (λ s. s.privkeys)
    if is_some old then pure tt else (do
      k ← io p (generate_keys_and_proof p)
      modify (λ s. record s {
        dleq_proof = some k.dleq_proof;
        secp256k1_pub = some k.secp256k1_public_key;
        privkeys = some k.private_key_pair;
        pubkeys = some k.public_keys;
      })
      io p (
          ask
            (write_keys (private_hex curve k.private_key_pair.sk.key)
              (private_hex curve k.private_key_pair.vk))
            done_answer))

  -- `getSecret`
  unfoldable pub get_secret : Action (State p) Bytes
  get_secret = do proof ← deref (← gets (λ s. s.dleq_proof)); pure (reverse_bytes proof.secret)

  unfoldable pub first_id : List EthLog → Action (State p) ℕ
  first_id [] = fail (named swap_instantiation_no_logs)
  first_id (log ∷ _) =
      handle (get_id_from_log p log) pure
        (λ e. modify (λ s. record s { contract_swap_id = none }) >> fail e)

  -- `lockETH` up to the deferred reset of `txOpts.Value`.
  unfoldable pub lock_eth_body : ℕ → Action (State p) Bytes
  unfolding first_id
  lock_eth_body amount = do
    pubkeys ← gets (λ s. s.pubkeys)
    fail_if (not (is_some pubkeys)) (named no_public_keys_set)
    spend ← gets (λ s. s.bob_public_spend_key)
    view ← gets (λ s. s.bob_private_view_key)
    fail_if (not (is_some spend) || not (is_some view)) (named counterparty_keys_not_set)
    ours ← deref (← gets (λ s. s.secp256k1_pub))
    theirs ← deref (← gets (λ s. s.bob_secp256k1_public_key))
    modify (λ s. record s { tx_value = some amount })
    bob_address ← gets (λ s. s.bob_address)
    tx ← wrap (codes "failed to instantiate swap on-chain") (
        io p (
          ask
            (new_swap (keccak curve.keccak_256 theirs) (keccak curve.keccak_256 ours) bob_address
              cfg.swap_timeout amount)
            transact_answer))
    logs ← wrap (codes "failed to call new_swap in contract") (io p (wait_for_receipt p tx))
    id ← first_id logs
    modify (λ s. record s { contract_swap_id = some id })
    pure tx

  unfoldable pub lock_eth : ℕ → Action (State p) Bytes
  unfolding lock_eth_body
  lock_eth amount s = let (r, s') = lock_eth_body amount s in (r, record s' { tx_value = none })

  -- `ready`
  unfoldable pub ready : Action (State p) (Unit {0})
  ready = do
    id ← deref (← gets (λ s. s.contract_swap_id))
    handle (io p (ask (set_ready id) transact_answer))
        (λ tx.
          wrap (codes "failed to call is_ready in swap contract") (io p (wait_for_receipt p tx))
          >> pure tt)
        (λ e. do
          ongoing ← gets (λ s. is_ongoing (status p s))
          if contains (error e) revert_swap_completed && not ongoing then pure tt else fail e)

  -- `refund`
  unfoldable pub refund_call : Action (State p) Bytes
  refund_call = do
    fail_if (not (is_some cfg.contract)) (named no_swap_contract_set)
    sc ← get_secret
    id ← deref (← gets (λ s. s.contract_swap_id))
    tx ← io p (ask (refund id sc) transact_answer)
    wrap (codes "failed to call Refund function in contract") (io p (wait_for_receipt p tx))
    clear_next_expected_message p completed_refund
    pure tx

  -- `time.Until(t) > 0`
  abbrev pub is_future : Option ℕ → ℕ → Bool
  is_future none n = false
  is_future (some t) n = ltb n t

  -- The wait of `tryRefund`: it ends at t1.
  unfoldable pub wait_for_t1 : Bool → Option ℕ → Action (State p) (Unit {0})
  wait_for_t1 true (some t1) = io p (wait (wait_until t1))
  wait_for_t1 true none = pure tt
  wait_for_t1 false _ = pure tt

  -- `tryRefund`
  unfoldable pub try_refund : Action (State p) Bytes
  unfolding wait_for_t1
  try_refund = do
    t0 ← gets (λ s. s.t0)
    t1 ← gets (λ s. s.t1)
    now_0 ← io p (now clock)
    now_1 ← io p (now clock)
    id ← deref (← gets (λ s. s.contract_swap_id))
    ready ← io p (ask (is_ready id) is_ready_answer)
    wait_for_t1 ((is_future t0 now_0 || ready) && is_future t1 now_1) t1
    refund_call

  -- The loop of `setTimeouts`, which tries until the node answers.
  unfoldable pub timeouts_loop : ℕ → ℕ → Action (State p) (Unit {0})
  timeouts_loop zero id = hang
  timeouts_loop (suc rounds) id =
      handle (io p (ask (swaps id) swaps_answer))
        (λ info. modify (λ s. record s { t0 = some info.timeout_0; t1 = some info.timeout_1 }))
        (λ _. io p (wait (sleep 10)) >> timeouts_loop rounds id)

  -- `setTimeouts`
  unfoldable pub set_timeouts : Action (State p) (Unit {0})
  unfolding timeouts_loop
  set_timeouts = do
    fail_if (not (is_some cfg.contract)) (named no_swap_contract_set)
    t0 ← gets (λ s. s.t0)
    t1 ← gets (λ s. s.t1)
    if is_some t0 && is_some t1
        then pure tt
        else (do id ← deref (← gets (λ s. s.contract_swap_id)); timeouts_loop cfg.patience id)
