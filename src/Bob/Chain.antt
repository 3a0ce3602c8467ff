-- ===== src/Bob/Chain.antt =====
-- The calls outside of protocol/bob/swap_state.go and utils.go: keys, the checks of the contract,
-- locking the monero, claiming the ether, and the timeouts.
use atomic_swap.Base.{
  ℕ, ◌+◌, ◌-◌, Bytes, codes, Bool, true, false, not, ◌&&◌, bytes_eq, Option, none, some, is_some,
  List, [], ◌∷◌, if◌then◌else◌, ltb, leb, ◌==◌, length, take, drop, get_elem?,
}
use atomic_swap.Errors.{
  named, external, plain, cannot_find_new_log, unexpected_swap_id, invalid_swap_contract,
  past_claim_time,
}
use atomic_swap.Action.{
  Action, pure, fail, fail_if, gets, modify, deref, or_fail, ignore, wrap, ◌>>=◌, ◌>>◌,
}
use atomic_swap.Manager.{Info}
use atomic_swap.Crypto.Keys.{PublicKeyPair, private_hex, sum_spend_and_view_keys}
use atomic_swap.Crypto.Address.{address}
use atomic_swap.Crypto.Secp256k1.{keccak}
use atomic_swap.Protocol.{generate_keys_and_proof}
use atomic_swap.World.{
  Platform, EthLog, NewEvent, SwapInfo, swaps, claim, code_at, balance_at, get_balance, transfer,
  get_address, generate_blocks, refresh, write_keys, wait_until, ask, now, wait,
}
use atomic_swap.World.Ethereum.{wait_for_receipt, reverse_bytes}
use atomic_swap.World.Monero.{wait_for_blocks}
use atomic_swap.Alice.Settle.{is_development}
use atomic_swap.Bob.{Config, State, io}

-- `b[lo:hi]` and `b[lo:]`, with constant bounds in order; `none` is out of range, where Go panics.
unfoldable pub slice : ℕ → ℕ → Bytes → Option Bytes
slice lo hi b = if leb hi (length b) then some (take (hi - lo) (drop lo b)) else none

unfoldable pub slice_from : ℕ → Bytes → Option Bytes
slice_from lo b = if leb lo (length b) then some (drop lo b) else none

-- `time.Until(t) > 0` and `time.Until(t) < 0`; the zero time is long past.
abbrev pub is_future : Option ℕ → ℕ → Bool
is_future none n = false
is_future (some t) n = ltb n t

abbrev pub is_past : Option ℕ → ℕ → Bool
is_past none n = true
is_past (some t) n = ltb t n

module _ (p : Platform) (cfg : Config) where
  open p use {
    curve, float, expected_code, parse_new, code_at_answer, balance_at_answer, transact_answer,
    swaps_answer, get_balance_answer, transfer_answer, get_address_answer, done_answer, clock,
  }

  -- `s.info.ReceivedAmount()` and `ProvidedAmount()`, which dereference the info.
  unfoldable pub info_of : Action (State p) (Info float.Carrier)
  info_of = do deref (← gets (λ s. get_elem? s.manager.heap s.info))

  -- `generateAndSetKeys`
  unfoldable pub generate_and_set_keys : Action (State p) (Unit {0})
  generate_and_set_keys = do
    old ← gets (λ s. s.privkeys)
    if is_some old then pure tt else (do
      k ← io p (generate_keys_and_proof p)
      modify (λ s. record s {
        dleq_proof = some k.dleq_proof;
        secp256k1_pub = some k.secp256k1_public_key;
        privkeys = some k.private_key_pair;
        pubkeys = some k.public_keys;
      })
      io p (
          ask
            (write_keys (private_hex curve k.private_key_pair.sk.key)
              (private_hex curve k.private_key_pair.vk))
            done_answer))

  -- `getSecret`
  unfoldable pub get_secret : Action (State p) Bytes
  get_secret = do proof ← deref (← gets (λ s. s.dleq_proof)); pure (reverse_bytes proof.secret)

  -- A view of the contract, through the binding and the swap's ID.
  unfoldable pub swaps_view : Action (State p) SwapInfo
  swaps_view = do
    deref (← gets (λ s. s.contract))
    id ← deref (← gets (λ s. s.contract_swap_id))
    io p (ask (swaps id) swaps_answer)

  -- `setTimeouts`
  unfoldable pub set_timeouts : Action (State p) (Unit {0})
  unfolding swaps_view
  set_timeouts = do
    info ← wrap (codes "failed to get swap info from contract: err=") swaps_view
    modify (λ s. record s { t0 = some info.timeout_0; t1 = some info.timeout_1 })

  -- The comparison of `checkContractCode`, with the library code of the contract left out.
  unfoldable pub compare_code : Bytes → Action (State p) (Unit {0})
  unfolding slice slice_from
  compare_code code = do
    swap_expected ← deref (slice 154 3474 expected_code)
    swap_found ← deref (slice 0 3320 code)
    fail_if (not (bytes_eq swap_expected swap_found)) (named invalid_swap_contract)
    lib_expected ← deref (slice 3494 6149 expected_code)
    lib_found ← deref (slice_from 3340 code)
    fail_if (not (bytes_eq lib_expected lib_found)) (named invalid_swap_contract)

  -- `checkContractCode`
  unfoldable pub check_contract_code : Bytes → Action (State p) (Unit {0})
  unfolding compare_code
  check_contract_code addr = do code ← io p (ask (code_at addr) code_at_answer); compare_code code

  unfoldable pub first_event : List EthLog → Action (State p) NewEvent
  first_event [] = fail (named cannot_find_new_log)
  first_event (log ∷ _) = do
    deref (← gets (λ s. s.contract))
    or_fail (parse_new log.data_bytes) (external [])

  -- The checks of `checkContract` on the event: the ID and both keys are those of the swap.
  unfoldable pub check_event : NewEvent → Action (State p) (Unit {0})
  check_event event = do
    id ← deref (← gets (λ s. s.contract_swap_id))
    fail_if (not (event.swap_id == id)) (named unexpected_swap_id)
    ours ← deref (← gets (λ s. s.secp256k1_pub))
    fail_if (not (bytes_eq event.claim_key (keccak curve.keccak_256 ours)))
        (plain (codes "contract claim key is not expected"))
    theirs ← deref (← gets (λ s. s.alice_secp256k1_public_key))
    fail_if (not (bytes_eq event.refund_key (keccak curve.keccak_256 theirs)))
        (plain (codes "contract refund key is not expected"))

  -- And on the value of the swap in the contract.
  unfoldable pub check_value : Action (State p) (Unit {0})
  unfolding swaps_view info_of
  check_value = do
    swap ← swaps_view
    info ← info_of
    fail_if (ltb swap.value (float.ether_to_wei info.received_amount))
        (plain (codes "contract does not have expected balance"))

  -- `checkContract`
  unfoldable pub check_contract : Bytes → Action (State p) (Unit {0})
  unfolding first_event check_event check_value
  check_contract tx_hash = do
    logs ←
        wrap (codes "failed to get receipt for New transaction") (io p (wait_for_receipt p tx_hash))
    event ← first_event logs
    check_event event
    check_value

  -- The account whose keys are the sums of both sides' keys.
  unfoldable pub shared_keys : Action (State p) (PublicKeyPair curve)
  shared_keys = do
    theirs ← deref (← gets (λ s. s.alice_public_keys))
    ours ← deref (← gets (λ s. s.pubkeys))
    pure (sum_spend_and_view_keys curve theirs ours)

  -- On a development chain blocks are mined, its errors dropped; else a new block is waited for.
  unfoldable pub await_block : Bool → Bytes → Action (State p) (Unit {0})
  await_block true addr = ignore (io p (ask (generate_blocks addr 2) done_answer))
  await_block false addr = io p (wait_for_blocks p 1) >> pure tt

  -- `lockFunds`: the address to which the monero was sent.
  unfoldable pub lock_funds : ℕ → Action (State p) Bytes
  unfolding shared_keys await_block
  lock_funds amount = do
    kp ← shared_keys
    io p (ask (get_balance 0) get_balance_answer)
    let addr = address curve kp cfg.env
    io p (ask (transfer addr amount) transfer_answer)
    bob_address ← io p (ask (get_address 0) get_address_answer)
    await_block (is_development cfg.env) bob_address
    io p (ask refresh done_answer)
    pure addr

  -- `claimFunds`: the hash of the transaction.
  unfoldable pub claim_funds : Action (State p) Bytes
  claim_funds = do
    io p (ask balance_at balance_at_answer)
    sc ← get_secret
    deref (← gets (λ s. s.contract))
    id ← deref (← gets (λ s. s.contract_swap_id))
    tx ← io p (ask (claim id sc) transact_answer)
    wrap (codes "failed to check claim transaction receipt") (io p (wait_for_receipt p tx))
    io p (ask balance_at balance_at_answer)
    pure tx

  -- The wait of `tryClaim`: it ends a second after t0.
  unfoldable pub wait_for_t0 : Bool → Option ℕ → Action (State p) (Unit {0})
  wait_for_t0 true (some t0) = io p (wait (wait_until (t0 + 1)))
  wait_for_t0 true none = pure tt
  wait_for_t0 false _ = pure tt

  -- `tryClaim`; both times are compared with the clock before the wait.
  unfoldable pub try_claim : Action (State p) Bytes
  unfolding wait_for_t0 claim_funds swaps_view
  try_claim = do
    t0 ← gets (λ s. s.t0)
    now_0 ← io p (now clock)
    t1 ← gets (λ s. s.t1)
    now_1 ← io p (now clock)
    info ← swaps_view
    wait_for_t0 (is_future t0 now_0 && not info.is_ready) t0
    fail_if (is_past t1 now_1) (named past_claim_time)
    claim_funds
