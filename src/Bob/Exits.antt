-- ===== src/Bob/Exits.antt =====
-- How a swap state of Bob is left (protocol/bob/swap_state.go, `Exit` and `exit`).
use atomic_swap.Base.{◌≡◌, ℕ, Bool, true, false, Option, none, some, List, [], ◌∷◌}
use atomic_swap.Errors.{Err}
use atomic_swap.Action.{fail, ◌>>◌}
use atomic_swap.Action.Returns.{
  Returns, returns, Returns-pure, Returns-fail, Returns-bind, Returns-if,
}
use atomic_swap.Types.Status.{Status}
use atomic_swap.Message.{
  MessageType, query_response_type, send_keys_type, notify_eth_locked_type, notify_xmr_lock_type,
  notify_ready_type, notify_claimed_type, notify_refund_type, nil_type,
}
use atomic_swap.World.{Platform, Io, EthLog}
use atomic_swap.Crypto.Keys.{PrivateSpendKey}
use atomic_swap.World.Returns.{
  Returns-ask, Returns-now, Returns-wait, wait_for_receipt-Returns, create_monero_wallet-Returns,
  get_secret_from_log-Returns, find_log-Returns,
}
use atomic_swap.Bob.{Config, io, status, is_full, send_status, clear_next_expected_message}
use atomic_swap.Bob.Chain.{get_secret, swaps_view, claim_funds, wait_for_t0, try_claim}
use atomic_swap.Bob.Settle.{
  secret_of_found, search_logs, filter_for_refund, reclaim_by_keys, reclaim_monero,
  try_reclaim_monero, claim_instead, reclaim_or_claim, exit_by, is_settled, exit_action,
}

-- The status channel has room whenever a status is sent.
module _ (p : Platform) (cfg : Config)
    (room : (o : Option (List Status)) → is_full p o ≡ false) where
  pub Returns-io : {A : Type 0} (m : Io A) → Returns m → Returns (io p m)
  unfolding io
  Returns-io m h = record { from = λ s. h.from s.history }

  pub Returns-clear : (st : Status) → Returns (clear_next_expected_message p st)
  unfolding clear_next_expected_message send_status
  Returns-clear st = record { from = λ s. rw (room s.status_ch) (λ e. cc) }

  pub claim_funds-Returns : Returns (claim_funds p cfg)
  unfolding claim_funds get_secret
  claim_funds-Returns =
      search (returns, Returns-io, Returns-ask, wait_for_receipt-Returns) depth 60 fits 5000

  wait_for_t0-Returns : (b : Bool) (t : Option ℕ) → Returns (wait_for_t0 p cfg b t)
  unfolding wait_for_t0
  wait_for_t0-Returns true (some t) = Returns-io _ (Returns-wait _)
  wait_for_t0-Returns true none = Returns-pure _
  wait_for_t0-Returns false t = Returns-pure _

  try_claim-Returns : Returns (try_claim p cfg)
  unfolding try_claim swaps_view
  try_claim-Returns =
      search
        (returns, Returns-io, Returns-ask, Returns-now, wait_for_t0-Returns, claim_funds-Returns)
        depth 60 fits 5000

  secret_of_found-Returns : (o : Option EthLog) → Returns (secret_of_found p cfg o)
  unfolding secret_of_found
  secret_of_found-Returns none = Returns-fail _
  secret_of_found-Returns (some log) = search (returns, get_secret_from_log-Returns)

  search_logs-Returns : (logs : List EthLog) → Returns (search_logs p cfg logs)
  unfolding search_logs
  search_logs-Returns [] = Returns-fail _
  search_logs-Returns (log ∷ logs) =
      search (returns, find_log-Returns, secret_of_found-Returns) depth 20 fits 3000

  pub reclaim_monero-Returns : (sk : PrivateSpendKey p.curve) → Returns (reclaim_monero p cfg sk)
  unfolding reclaim_monero reclaim_by_keys
  reclaim_monero-Returns sk =
      search (returns, Returns-io, Returns-ask, create_monero_wallet-Returns) depth 40 fits 3000

  try_reclaim_monero-Returns : Returns (try_reclaim_monero p cfg)
  unfolding try_reclaim_monero filter_for_refund
  try_reclaim_monero-Returns =
      search (returns, Returns-io, Returns-ask, search_logs-Returns, reclaim_monero-Returns) depth
        40 fits 3000

  reclaim_or_claim-Returns : Returns (reclaim_or_claim p cfg)
  unfolding reclaim_or_claim claim_instead
  reclaim_or_claim-Returns =
      search (returns, try_reclaim_monero-Returns, try_claim-Returns, Returns-clear) depth 40 fits
        3000

  aborted-Returns :
      {A : Type 0} (st : Status) (e : Err)
      → Returns (clear_next_expected_message p st >> fail {A = A} e)
  aborted-Returns st e = Returns-bind _ _ (Returns-clear _) (λ u. Returns-fail _)

  exit_by-Returns : (o : Option MessageType) → Returns (exit_by p cfg o)
  unfolding exit_by
  exit_by-Returns none = aborted-Returns _ _
  exit_by-Returns (some send_keys_type) = Returns-clear _
  exit_by-Returns (some notify_eth_locked_type) = Returns-clear _
  exit_by-Returns (some notify_ready_type) = reclaim_or_claim-Returns
  exit_by-Returns (some notify_claimed_type) = aborted-Returns _ _
  exit_by-Returns (some query_response_type) = aborted-Returns _ _
  exit_by-Returns (some notify_xmr_lock_type) = aborted-Returns _ _
  exit_by-Returns (some nil_type) = aborted-Returns _ _
  exit_by-Returns (some notify_refund_type) = aborted-Returns _ _

  pub exit_action-Returns : Returns (exit_action p cfg)
  unfolding exit_action
  exit_action-Returns = record {
    from = λ s.
        (Returns-if (is_settled p cfg (status p s)) _ _ (Returns-pure _)
            (exit_by-Returns s.next_expected)).from
          s;
  }
