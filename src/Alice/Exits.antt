-- ===== src/Alice/Exits.antt =====
-- How a swap state is left (protocol/alice/swap_state.go, `Exit`, and the goroutine of
-- message_handler.go that waits for t1).
use atomic_swap.Base.{
  ℕ, Bytes, Bool, true, false, Option, none, some, List, [], ◌∷◌, ◌≡◌, ◌≢◌, refl, sym, ◌∙◌, arith,
}
use atomic_swap.Base.Outcome.{Outcome, ok, err, panic, blocked}
use atomic_swap.Errors.{Err}
use atomic_swap.Action.Returns.{Returns, returns, Returns-pure, Returns-fail, Returns-bind}
use atomic_swap.Types.Status.{Status}
use atomic_swap.Message.{
  MessageType, query_response_type, send_keys_type, notify_eth_locked_type, notify_xmr_lock_type,
  notify_ready_type, notify_claimed_type, notify_refund_type, nil_type,
}
use atomic_swap.World.{Platform, Io, EthLog}
use atomic_swap.Crypto.Keys.{PrivateSpendKey}
use atomic_swap.Manager.{Manager, complete_ongoing_swap}
use atomic_swap.World.Returns.{
  Returns-ask, Returns-now, Returns-wait, wait_for_receipt-Returns, create_monero_wallet-Returns,
  get_secret_from_log-Returns, find_log-Returns,
}
use atomic_swap.Alice.{Config, State, io, with_lock, release, clear_next_expected_message}
use atomic_swap.Alice.Chain.{get_secret, refund_call, wait_for_t1, try_refund}
use atomic_swap.Alice.Settle.{
  secret_of_found, search_logs, filter_for_claim, transfer_back, claim_by_keys, claim_by_secret,
  claim_monero, try_claim, refund_or_claim, exit_by, leave, exit,
}

module _ (p : Platform) (cfg : Config) where
  Returns-io : {A : Type 0} (m : Io A) → Returns m → Returns (io p m)
  unfolding io
  Returns-io m h = record { from = λ s. h.from s.history }

  Returns-clear : (st : Status) → Returns (clear_next_expected_message p st)
  unfolding clear_next_expected_message
  Returns-clear st = record { from = λ s e. cc }

  wait_for_t1-Returns : (b : Bool) (t : Option ℕ) → Returns (wait_for_t1 p cfg b t)
  unfolding wait_for_t1
  wait_for_t1-Returns true (some t) = Returns-io _ (Returns-wait _)
  wait_for_t1-Returns true none = Returns-pure _
  wait_for_t1-Returns false t = Returns-pure _

  refund_call-Returns : Returns (refund_call p cfg)
  unfolding refund_call get_secret
  refund_call-Returns =
      search (returns, Returns-io, Returns-ask, Returns-clear, wait_for_receipt-Returns) depth 40
        fits 3000

  pub try_refund-Returns : Returns (try_refund p cfg)
  unfolding try_refund
  try_refund-Returns =
      search
        (returns, Returns-io, Returns-ask, Returns-now, wait_for_t1-Returns, refund_call-Returns)
        depth 40 fits 3000

  secret_of_found-Returns : (o : Option EthLog) → Returns (secret_of_found p cfg o)
  unfolding secret_of_found
  secret_of_found-Returns none = Returns-fail _
  secret_of_found-Returns (some log) = search (returns, get_secret_from_log-Returns)

  search_logs-Returns : (logs : List EthLog) → Returns (search_logs p cfg logs)
  unfolding search_logs
  search_logs-Returns [] = Returns-fail _
  search_logs-Returns (log ∷ logs) =
      search (returns, find_log-Returns, secret_of_found-Returns) depth 20 fits 3000

  filter_for_claim-Returns : Returns (filter_for_claim p cfg)
  unfolding filter_for_claim
  filter_for_claim-Returns =
      search (returns, Returns-io, Returns-ask, search_logs-Returns) depth 20 fits 3000

  module _ (no_transfer : cfg.transfer_back ≡ false) where
    transfer_back-Returns : (addr : Bytes) → Returns (transfer_back p cfg cfg.transfer_back addr)
    unfolding transfer_back
    transfer_back-Returns addr = rw no_transfer (Returns-pure _)

    claim_monero-Returns : (sk : PrivateSpendKey p.curve) → Returns (claim_monero p cfg sk)
    unfolding claim_monero claim_by_secret claim_by_keys
    claim_monero-Returns sk =
        search
          (returns, Returns-io, Returns-ask, create_monero_wallet-Returns, transfer_back-Returns)
          depth 40 fits 3000

    try_claim-Returns : Returns (try_claim p cfg)
    unfolding try_claim
    try_claim-Returns =
        search (returns, filter_for_claim-Returns, claim_monero-Returns, Returns-clear) depth 20
          fits 3000

    refund_or_claim-Returns : Returns (refund_or_claim p cfg)
    unfolding refund_or_claim
    refund_or_claim-Returns =
        search (returns, try_refund-Returns, try_claim-Returns, Returns-clear) depth 20 fits 3000

    exit_by-Returns : (o : Option MessageType) → Returns (exit_by p cfg o)
    unfolding exit_by
    exit_by-Returns none = try_claim-Returns
    exit_by-Returns (some send_keys_type) = Returns-clear _
    exit_by-Returns (some notify_xmr_lock_type) = refund_or_claim-Returns
    exit_by-Returns (some notify_claimed_type) = refund_or_claim-Returns
    exit_by-Returns (some query_response_type) =
        Returns-bind _ _ (Returns-clear _) (λ u. Returns-fail _)
    exit_by-Returns (some notify_eth_locked_type) =
        Returns-bind _ _ (Returns-clear _) (λ u. Returns-fail _)
    exit_by-Returns (some notify_ready_type) =
        Returns-bind _ _ (Returns-clear _) (λ u. Returns-fail _)
    exit_by-Returns (some nil_type) = Returns-bind _ _ (Returns-clear _) (λ u. Returns-fail _)
    exit_by-Returns (some notify_refund_type) =
        Returns-bind _ _ (Returns-clear _) (λ u. Returns-fail _)

  ongoing-complete_ongoing_swap :
      {F : Type 0} (m : Manager F) → (complete_ongoing_swap m).ongoing ≡ none
  unfolding complete_ongoing_swap
  ongoing-complete_ongoing_swap m = ground arith

  -- A swap that is left.
  pub record IsLeft (s : State p) : Type 0 where
    pub over : s.cancelled ≡ true
    pub dropped : s.current ≡ false
    pub unlocked : s.locked ≡ false
    pub completed : s.manager.ongoing ≡ none

  left :
      {A : Type 0} (r : Outcome Err A) (s : State p)
      → r ≢ blocked
      → IsLeft (release p (leave p cfg (r, s))).1 × ((release p (leave p cfg (r, s))).0 ≡ r)
  unfolding leave release
  left (ok a) s k = (
    record {
      over = refl;
      dropped = refl;
      unlocked = refl;
      completed = ongoing-complete_ongoing_swap s.manager;
    },
    refl,
  )
  left (err e) s k = (
    record {
      over = refl;
      dropped = refl;
      unlocked = refl;
      completed = ongoing-complete_ongoing_swap s.manager;
    },
    refl,
  )
  left panic s k = (
    record {
      over = refl;
      dropped = refl;
      unlocked = refl;
      completed = ongoing-complete_ongoing_swap s.manager;
    },
    refl,
  )
  left blocked s k = absurd (k refl)

  -- Exit always gets a swap out of the way. Where the lock is free and the monero is not sent on to
  -- another account, Exit returns, on every platform and from every state, even if refunding and
  -- claiming fail or panic; then the context is cancelled, the instance has no swap state, the lock
  -- is free and no swap is ongoing.
  pub exit_leaves :
      (s : State p)
      → cfg.transfer_back ≡ false
      → s.locked ≡ false
      → ((exit p cfg s).0 ≢ blocked) × IsLeft (exit p cfg s).1
  unfolding exit with_lock
  exit_leaves s no_transfer free =
      let s1 : State p = record s { locked = true } in
      let k = (exit_by-Returns no_transfer s.next_expected).from s1 in
      let (l, e) =
        left (exit_by p cfg s.next_expected s1).0 (exit_by p cfg s.next_expected s1).1 k in
      rw free (λ h. k (sym e ∙ h), l)
