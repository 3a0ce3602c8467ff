-- ===== src/Bob/Settle.antt =====
-- How a swap of protocol/bob ends: reclaiming the monero after a refund of Alice, claiming the
-- ether, and Exit (protocol/bob/swap_state.go).
use atomic_swap.Base.{
  Bytes, codes, Bool, true, false, not, ◌&&◌, contains, Option, none, some, List, [], ◌∷◌,
  if◌then◌else◌,
}
use atomic_swap.Base.Outcome.{Outcome, panic, blocked}
use atomic_swap.Errors.{Err, named, external, error, no_refund_logs_found, unexpected_message_type}
use atomic_swap.Action.{Action, pure, fail, gets, modify, deref, or_fail, wrap, handle, ◌>>=◌, ◌>>◌}
use atomic_swap.Types.Status.{
  Status, completed_success, completed_refund, completed_abort, is_ongoing, expecting_keys,
  keys_exchanged, eth_locked, xmr_locked, contract_ready, unknown_status,
}
use atomic_swap.Types.Offer.{Offer}
use atomic_swap.Message.{MessageType, send_keys_type, notify_eth_locked_type, notify_ready_type}
use atomic_swap.Manager.{complete_ongoing_swap}
use atomic_swap.Crypto.Keys.{
  PrivateSpendKey, PrivateKeyPair, new_private_key_pair, sum_private_spend_keys,
  sum_private_view_keys, private_hex, view,
}
use atomic_swap.World.{Platform, EthLog, filter_logs, write_shared_keys, ask}
use atomic_swap.World.Ethereum.{find_log, get_secret_from_log}
use atomic_swap.World.Monero.{create_monero_wallet}
use atomic_swap.Alice.Chain.{revert_swap_completed}
use atomic_swap.Bob.{Config, State, io, status, with_lock, clear_next_expected_message}
use atomic_swap.Bob.Offers.{put_offer}
use atomic_swap.Bob.Chain.{try_claim}

abbrev pub refunded_topic : Bytes
refunded_topic = codes "0x4fd30f3ee0d64f7eaa62d0e005ca64c6a560652156d6c33f23ea8ca4936106e0"

module _ (p : Platform) (cfg : Config) where
  open p use {curve, float, hash_of, filter_logs_answer, done_answer}

  unfoldable pub secret_of_found : Option EthLog → Action (State p) (PrivateSpendKey curve)
  secret_of_found none = fail (named no_refund_logs_found)
  secret_of_found (some log) =
      wrap (codes "failed to get secret from log") (get_secret_from_log p log (codes "Refunded"))

  unfoldable pub search_logs : List EthLog → Action (State p) (PrivateSpendKey curve)
  unfolding secret_of_found
  search_logs [] = fail (named no_refund_logs_found)
  search_logs (log ∷ logs) = do
    id ← gets (λ s. s.contract_swap_id)
    found ← find_log p (log ∷ logs) (codes "Refunded") id
    secret_of_found found

  -- `filterForRefund`
  unfoldable pub filter_for_refund : Action (State p) (PrivateSpendKey curve)
  unfolding search_logs
  filter_for_refund = do
    logs ←
        wrap (codes "failed to filter logs")
          (io p (ask (filter_logs refunded_topic) filter_logs_answer))
    search_logs logs

  -- With the pair of both sides' keys a wallet is made.
  unfoldable pub reclaim_by_keys : PrivateKeyPair curve → Action (State p) Bytes
  reclaim_by_keys kp = do
    io p (
        ask (write_shared_keys (private_hex curve kp.sk.key) (private_hex curve kp.vk)) done_answer)
    io p (create_monero_wallet p cfg.env kp)

  -- `reclaimMonero`
  unfoldable pub reclaim_monero : PrivateSpendKey curve → Action (State p) Bytes
  unfolding reclaim_by_keys
  reclaim_monero sk_a = do
    vk_a ← or_fail (view curve sk_a) (external [])
    ours ← deref (← gets (λ s. s.privkeys))
    reclaim_by_keys (
        new_private_key_pair curve (sum_private_spend_keys curve sk_a ours.sk)
          (sum_private_view_keys curve vk_a ours.vk))

  -- `tryReclaimMonero`
  unfoldable pub try_reclaim_monero : Action (State p) Bytes
  unfolding filter_for_refund reclaim_monero
  try_reclaim_monero = do sk_a ← filter_for_refund; reclaim_monero sk_a

  -- Where Alice did not refund, Bob claims.
  unfoldable pub claim_instead : Action (State p) (Unit {0})
  claim_instead =
      handle (try_claim p cfg) (λ _. clear_next_expected_message p completed_success)
        (λ e. do
          ongoing ← gets (λ s. is_ongoing (status p s))
          if contains (error e) revert_swap_completed && not ongoing then pure tt else fail e)

  unfoldable pub reclaim_or_claim : Action (State p) (Unit {0})
  unfolding claim_instead
  reclaim_or_claim =
      handle try_reclaim_monero
        (λ addr. do
          clear_next_expected_message p completed_refund
          modify (λ s. record s { monero_reclaim_address = addr }))
        (λ _. claim_instead)

  -- The `switch` of `exit` on the next expected message.
  unfoldable pub exit_by : Option MessageType → Action (State p) (Unit {0})
  unfolding reclaim_or_claim
  exit_by (some send_keys_type) = clear_next_expected_message p completed_abort
  exit_by (some notify_eth_locked_type) = clear_next_expected_message p completed_abort
  exit_by (some notify_ready_type) = reclaim_or_claim
  exit_by _ = clear_next_expected_message p completed_abort >> fail (named unexpected_message_type)

  -- `status == CompletedSuccess || status == CompletedRefund`
  abbrev pub is_settled : Status → Bool
  is_settled completed_success = true
  is_settled completed_refund = true
  is_settled expecting_keys = false
  is_settled keys_exchanged = false
  is_settled eth_locked = false
  is_settled xmr_locked = false
  is_settled contract_ready = false
  is_settled completed_abort = false
  is_settled unknown_status = false

  abbrev pub is_success : Status → Bool
  is_success completed_success = true
  is_success _ = false

  -- The goroutines are stopped, and the instance and its manager let the swap go.
  abbrev pub depart : State p → State p
  depart s = record s {
    cancelled = true;
    current = false;
    manager = complete_ongoing_swap s.manager;
  }

  unfoldable pub put_back :
      {A : Type 0}
      → Bool
      → Option (Offer float.Carrier)
      → Outcome Err A × State p
      → Outcome Err A × State p
  put_back true offer (r, s) = (r, s)
  put_back false none (r, s) = (panic, s)
  put_back false (some o) (r, s) = (r, record s { offers = (put_offer hash_of o s.offers).1 })

  -- The deferred function of `exit`: it runs however the call ends, unless it does not end. The
  -- offer is there again unless the swap was a success.
  unfoldable pub leave : {A : Type 0} → Outcome Err A × State p → Outcome Err A × State p
  unfolding put_back
  leave (blocked, s) = (blocked, s)
  leave (r, s) = put_back (is_success (status p (depart s))) s.offer (r, depart s)

  unfoldable pub exit_action : Action (State p) (Unit {0})
  unfolding exit_by
  exit_action s = (if is_settled (status p s) then pure tt else exit_by s.next_expected) s

  -- `exit`, for which the lock is held.
  unfoldable pub exit_locked : Action (State p) (Unit {0})
  unfolding exit_action leave
  exit_locked s = leave (exit_action s)

  -- `Exit`
  unfoldable pub exit : Action (State p) (Unit {0})
  unfolding exit_locked
  exit = with_lock p exit_locked
