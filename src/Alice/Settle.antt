-- ===== src/Alice/Settle.antt =====
-- How a swap of protocol/alice ends: claiming the monero, refunding the ether, and Exit
-- (protocol/alice/swap_state.go, and filterForClaim of recovery.go).
use atomic_swap.Base.{
  ℕ, zero, suc, Bytes, codes, Bool, true, false, not, contains, Option, none, some, List, [], ◌∷◌,
  if◌then◌else◌, is_empty,
}
use atomic_swap.Base.Outcome.{Outcome, blocked}
use atomic_swap.Errors.{
  Err, named, plain, error, swap_completed, no_claim_logs_found, unexpected_message_type,
  cannot_refund,
}
use atomic_swap.Action.{
  Action, pure, fail, fail_if, crash, hang, gets, modify, deref, ignore, wrap, handle, ◌>>=◌, ◌>>◌,
}
use atomic_swap.Types.Status.{completed_success, completed_refund, completed_abort, is_ongoing}
use atomic_swap.Types.Environment.{Environment, mainnet, stagenet, development}
use atomic_swap.Message.{MessageType, send_keys_type, notify_xmr_lock_type, notify_claimed_type}
use atomic_swap.Manager.{complete_ongoing_swap}
use atomic_swap.Crypto.Keys.{
  PrivateSpendKey, PrivateKeyPair, new_private_key_pair, sum_private_spend_keys,
  sum_private_view_keys, private_hex,
}
use atomic_swap.World.{
  Platform, filter_logs, write_shared_keys, generate_blocks, refresh, get_balance, sweep_all,
  send_notify_refund, sleep, ask, wait, EthLog,
}
use atomic_swap.World.Ethereum.{find_log, get_secret_from_log}
use atomic_swap.World.Monero.{create_monero_wallet}
use atomic_swap.Alice.{Config, State, io, status, with_lock, clear_next_expected_message}
use atomic_swap.Alice.Chain.{revert_swap_completed, try_refund}

-- `env == common.Development`
abbrev pub is_development : Environment → Bool
is_development development = true
is_development mainnet = false
is_development stagenet = false

abbrev pub claimed_topic : Bytes
claimed_topic = codes "0xd5a2476fc450083bbb092dd3f4be92698ffdc2d213e6f1e730c7f44a52f1ccfc"

module _ (p : Platform) (cfg : Config) where
  open p use {curve, float, filter_logs_answer, done_answer, get_balance_answer, sweep_all_answer}

  unfoldable pub secret_of_found : Option EthLog → Action (State p) (PrivateSpendKey curve)
  secret_of_found none = fail (named no_claim_logs_found)
  secret_of_found (some log) =
      wrap (codes "failed to get secret from log") (get_secret_from_log p log (codes "Claimed"))

  unfoldable pub search_logs : List EthLog → Action (State p) (PrivateSpendKey curve)
  unfolding secret_of_found
  search_logs [] = fail (named no_claim_logs_found)
  search_logs (log ∷ logs) = do
    id ← gets (λ s. s.contract_swap_id)
    found ← find_log p (log ∷ logs) (codes "Claimed") id
    secret_of_found found

  -- `filterForClaim`
  unfoldable pub filter_for_claim : Action (State p) (PrivateSpendKey curve)
  unfolding search_logs
  filter_for_claim = do
    logs ←
        wrap (codes "failed to filter logs")
          (io p (ask (filter_logs claimed_topic) filter_logs_answer))
    search_logs logs

  -- A block is mined on a development chain; its errors are dropped.
  unfoldable pub mine : Bool → Action (State p) (Unit {0})
  mine true =
      ignore (io p (ask (generate_blocks cfg.wallet_address 64) done_answer))
      >> ignore (io p (ask refresh done_answer))
  mine false = pure tt

  -- The loop of `waitUntilBalanceUnlocks`.
  unfoldable pub unlock_loop : ℕ → Action (State p) (Unit {0})
  unfolding mine
  unlock_loop zero = hang
  unlock_loop (suc rounds) = do
    cancelled ← gets (λ s. s.cancelled)
    fail_if cancelled (plain (codes "context canceled"))
    mine (is_development cfg.env)
    balance ← wrap (codes "failed to get balance") (io p (ask (get_balance 0) get_balance_answer))
    if float.eq balance.balance balance.unlocked_balance
        then pure tt
        else (io p (wait (sleep 30)) >> unlock_loop rounds)

  -- `close(s.claimedCh)`
  unfoldable pub close_claimed : Action (State p) (Unit {0})
  close_claimed = do
    closed ← gets (λ s. s.claimed_ch)
    if closed then crash else modify (λ s. record s { claimed_ch = true })

  -- The monero goes on to the original account, where that was asked for.
  unfoldable pub transfer_back : Bool → Bytes → Action (State p) Bytes
  unfolding unlock_loop close_claimed
  transfer_back false addr = pure addr
  transfer_back true addr = do
    wrap (codes "failed to wait for balance to unlock") (unlock_loop cfg.patience)
    amounts ←
        wrap (codes "failed to send funds to original account")
          (io p (ask (sweep_all cfg.wallet_address) sweep_all_answer))
    fail_if (is_empty amounts) (plain (codes "sweep all did not return any amounts"))
    close_claimed
    pure addr

  -- The parts of `claimMonero`: with the pair of both sides' keys a wallet is made.
  unfoldable pub claim_by_keys : PrivateKeyPair curve → Action (State p) Bytes
  unfolding transfer_back
  claim_by_keys kp = do
    io p (
        ask (write_shared_keys (private_hex curve kp.sk.key) (private_hex curve kp.vk)) done_answer)
    addr ← io p (create_monero_wallet p cfg.env kp)
    transfer_back cfg.transfer_back addr

  unfoldable pub claim_by_secret : PrivateSpendKey curve → Action (State p) Bytes
  unfolding claim_by_keys
  claim_by_secret sk_b = do
    ours ← deref (← gets (λ s. s.privkeys))
    vk_b ← deref (← gets (λ s. s.bob_private_view_key))
    claim_by_keys (
        new_private_key_pair curve (sum_private_spend_keys curve sk_b ours.sk)
          (sum_private_view_keys curve vk_b ours.vk))

  -- `claimMonero`
  unfoldable pub claim_monero : PrivateSpendKey curve → Action (State p) Bytes
  unfolding claim_by_secret
  claim_monero sk_b = do
    ongoing ← gets (λ s. is_ongoing (status p s))
    fail_if (not ongoing) (named swap_completed)
    claim_by_secret sk_b

  -- `tryClaim`
  unfoldable pub try_claim : Action (State p) (Unit {0})
  try_claim = do
    ongoing ← gets (λ s. is_ongoing (status p s))
    if not ongoing then pure tt else (do
      sk_b ← filter_for_claim
      claim_monero sk_b
      clear_next_expected_message p completed_success)

  -- A refund that is too late because the swap is completed means that Bob claimed.
  unfoldable pub refund_or_claim : Action (State p) (Unit {0})
  refund_or_claim =
      handle (try_refund p cfg) (λ _. clear_next_expected_message p completed_refund)
        (λ e.
          if contains (error e) revert_swap_completed
          then try_claim
          else (clear_next_expected_message p completed_abort >> fail e))

  -- The `switch` of `Exit` on the next expected message.
  unfoldable pub exit_by : Option MessageType → Action (State p) (Unit {0})
  unfolding refund_or_claim
  exit_by (some send_keys_type) = clear_next_expected_message p completed_abort
  exit_by (some notify_xmr_lock_type) = refund_or_claim
  exit_by (some notify_claimed_type) = refund_or_claim
  exit_by none = try_claim
  exit_by (some _) =
      clear_next_expected_message p completed_abort >> fail (named unexpected_message_type)

  -- The deferred function of `Exit`: it runs however the call ends, unless it does not end.
  unfoldable pub leave : {A : Type 0} → Outcome Err A × State p → Outcome Err A × State p
  leave (blocked, s) = (blocked, s)
  leave (r, s) =
      (r, record s { cancelled = true; current = false; manager = complete_ongoing_swap s.manager })

  -- `Exit`
  unfoldable pub exit : Action (State p) (Unit {0})
  unfolding exit_by leave
  exit = with_lock p (λ s. leave (exit_by s.next_expected s))

  -- The refund of `doRefund`, and the message to the peer.
  unfoldable pub refund_and_notify : Action (State p) Bytes
  refund_and_notify =
      handle (try_refund p cfg)
        (λ tx. do
          clear_next_expected_message p completed_refund
          wrap (codes "failed to send refund message")
              (io p (ask (send_notify_refund tx) done_answer))
          pure tx)
        (λ e. clear_next_expected_message p completed_abort >> fail e)

  unfoldable pub refund_by : Option MessageType → Action (State p) Bytes
  unfolding refund_and_notify
  refund_by (some notify_xmr_lock_type) = refund_and_notify
  refund_by (some notify_claimed_type) = refund_and_notify
  refund_by _ = fail (named cannot_refund)

  -- `doRefund`
  unfoldable pub do_refund : Action (State p) Bytes
  unfolding refund_by
  do_refund s = refund_by s.next_expected s
