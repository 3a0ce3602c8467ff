-- ===== src/Bob/Leave.antt =====
-- What Bob leaves behind (protocol/bob/swap_state.go, `exit`).
use atomic_swap.Base.{
  ℕ, Bool, true, false, Option, none, some, List, [], ◌∷◌, ◌≡◌, ◌≢◌, refl, sym, ◌∙◌, arith,
}
use atomic_swap.Base.Outcome.{Outcome, ok, err, panic, blocked}
use atomic_swap.Errors.{Err}
use atomic_swap.Action.{modify}
use atomic_swap.Action.Keeps.{Keeps, keeps, Keeps-pure, Keeps-fail, Keeps-if}
use atomic_swap.Types.Status.{Status}
use atomic_swap.Types.Offer.{Offer, get_id}
use atomic_swap.Message.{
  MessageType, query_response_type, send_keys_type, notify_eth_locked_type, notify_xmr_lock_type,
  notify_ready_type, notify_claimed_type, notify_refund_type, nil_type,
}
use atomic_swap.World.{Platform, Io, EthLog}
use atomic_swap.World.Logs.{get_secret_from_log-Keeps, find_log-Keeps}
use atomic_swap.Crypto.Keys.{PrivateSpendKey}
use atomic_swap.Manager.{Manager, complete_ongoing_swap}
use atomic_swap.Bob.{
  Config, State, is_full, send_status, io, status, with_lock, release, clear_next_expected_message,
}
use atomic_swap.Bob.Offers.{OfferMap, entry, find, find-put_offer}
use atomic_swap.Bob.Chain.{get_secret, swaps_view, claim_funds, wait_for_t0, try_claim}
use atomic_swap.Bob.Settle.{
  secret_of_found, search_logs, filter_for_refund, reclaim_by_keys, reclaim_monero,
  try_reclaim_monero, claim_instead, reclaim_or_claim, exit_by, is_settled, is_success, depart,
  put_back, leave, exit_action, exit_locked, exit,
}
use atomic_swap.Bob.Exits.{exit_action-Returns}

module _ (p : Platform) (cfg : Config) where
  -- The swap state is for this offer, and the offers of the instance are these.
  pub record IsFor (o : Option (Offer p.float.Carrier)) (os : OfferMap p.float.Carrier)
      (s : State p) : Type 0 where
    pub offered : s.offer ≡ o
    pub listed : s.offers ≡ os

  module _ {o : Option (Offer p.float.Carrier)} {os : OfferMap p.float.Carrier} where
    IsFor-io : {A : Type 0} (m : Io A) → Keeps (IsFor o os) (io p m)
    unfolding io
    IsFor-io m = record { kept = λ s h. record { offered = h.offered; listed = h.listed } }

    IsFor-set :
        (f : State p → State p)
        → ((s : State p) → (f s).offer ≡ s.offer)
        → ((s : State p) → (f s).offers ≡ s.offers)
        → Keeps (IsFor o os) (modify f)
    unfolding modify
    IsFor-set f a b = record {
      kept = λ s h. record { offered = a s ∙ h.offered; listed = b s ∙ h.listed };
    }

    IsFor-send_status :
        (b : Bool) (st : Status) (s : State p) → IsFor o os s → IsFor o os (send_status p b st s).1
    unfolding send_status
    IsFor-send_status true st s h = h
    IsFor-send_status false st s h = record { offered = h.offered; listed = h.listed }

    pub IsFor-clear : (st : Status) → Keeps (IsFor o os) (clear_next_expected_message p st)
    unfolding clear_next_expected_message
    IsFor-clear st = record {
      kept = λ s h.
          IsFor-send_status (is_full p s.status_ch) st _
            (record { offered = h.offered; listed = h.listed });
    }

    wait_for_t0-IsFor : (b : Bool) (t : Option ℕ) → Keeps (IsFor o os) (wait_for_t0 p cfg b t)
    unfolding wait_for_t0
    wait_for_t0-IsFor true (some t) = IsFor-io _
    wait_for_t0-IsFor true none = Keeps-pure _
    wait_for_t0-IsFor false t = Keeps-pure _

    pub claim_funds-IsFor : Keeps (IsFor o os) (claim_funds p cfg)
    unfolding claim_funds get_secret
    claim_funds-IsFor = search (keeps, IsFor-io) depth 60 fits 5000

    try_claim-IsFor : Keeps (IsFor o os) (try_claim p cfg)
    unfolding try_claim swaps_view
    try_claim-IsFor =
        search (keeps, IsFor-io, wait_for_t0-IsFor, claim_funds-IsFor) depth 60 fits 5000

    secret_of_found-IsFor : (l : Option EthLog) → Keeps (IsFor o os) (secret_of_found p cfg l)
    unfolding secret_of_found
    secret_of_found-IsFor none = Keeps-fail _
    secret_of_found-IsFor (some log) = search (keeps, get_secret_from_log-Keeps)

    search_logs-IsFor : (logs : List EthLog) → Keeps (IsFor o os) (search_logs p cfg logs)
    unfolding search_logs
    search_logs-IsFor [] = Keeps-fail _
    search_logs-IsFor (log ∷ logs) =
        search (keeps, find_log-Keeps, secret_of_found-IsFor) depth 20 fits 3000

    reclaim_monero-IsFor :
        (sk : PrivateSpendKey p.curve) → Keeps (IsFor o os) (reclaim_monero p cfg sk)
    unfolding reclaim_monero reclaim_by_keys
    reclaim_monero-IsFor sk = search (keeps, IsFor-io) depth 40 fits 3000

    try_reclaim_monero-IsFor : Keeps (IsFor o os) (try_reclaim_monero p cfg)
    unfolding try_reclaim_monero filter_for_refund
    try_reclaim_monero-IsFor =
        search (keeps, IsFor-io, search_logs-IsFor, reclaim_monero-IsFor) depth 40 fits 3000

    reclaim_or_claim-IsFor : Keeps (IsFor o os) (reclaim_or_claim p cfg)
    unfolding reclaim_or_claim claim_instead
    reclaim_or_claim-IsFor =
        search (keeps, try_reclaim_monero-IsFor, try_claim-IsFor, IsFor-clear, IsFor-set) depth 40
          fits 3000

    exit_by-IsFor : (t : Option MessageType) → Keeps (IsFor o os) (exit_by p cfg t)
    unfolding exit_by
    exit_by-IsFor none = search (keeps, IsFor-clear)
    exit_by-IsFor (some send_keys_type) = IsFor-clear _
    exit_by-IsFor (some notify_eth_locked_type) = IsFor-clear _
    exit_by-IsFor (some notify_ready_type) = reclaim_or_claim-IsFor
    exit_by-IsFor (some notify_claimed_type) = search (keeps, IsFor-clear)
    exit_by-IsFor (some query_response_type) = search (keeps, IsFor-clear)
    exit_by-IsFor (some notify_xmr_lock_type) = search (keeps, IsFor-clear)
    exit_by-IsFor (some nil_type) = search (keeps, IsFor-clear)
    exit_by-IsFor (some notify_refund_type) = search (keeps, IsFor-clear)

    exit_action-IsFor : Keeps (IsFor o os) (exit_action p cfg)
    unfolding exit_action
    exit_action-IsFor = record {
      kept = λ s h.
          (Keeps-if (is_settled p cfg (status p s)) _ _ (Keeps-pure _)
              (exit_by-IsFor s.next_expected)).kept
            s h;
    }

  ongoing-complete_ongoing_swap :
      {F : Type 0} (m : Manager F) → (complete_ongoing_swap m).ongoing ≡ none
  unfolding complete_ongoing_swap
  ongoing-complete_ongoing_swap m = ground arith

  -- A swap that is left, for an offer, where these were the offers before: the offer itself can be
  -- taken again, unless the swap was a success. If another entry stood under its ID before, this one
  -- still stands there.
  pub record IsLeft (o : Offer p.float.Carrier) (os : OfferMap p.float.Carrier) (s : State p)
      : Type 0 where
    pub over : s.cancelled ≡ true
    pub dropped : s.current ≡ false
    pub completed : s.manager.ongoing ≡ none
    pub offered_again :
        is_success p cfg (status p s) ≡ false
        → find (get_id p.hash_of o).0 s.offers
          ≡ some (entry (find (get_id p.hash_of o).0 os) (get_id p.hash_of o).1)

  some-injective : {A : Type 0} (a b : A) → some a ≡ some b → a ≡ b
  some-injective a b e = cc

  put_back-IsLeft :
      {A : Type 0} (b : Bool) (of : Option (Offer p.float.Carrier)) (o : Offer p.float.Carrier)
      (r : Outcome Err A) (s : State p)
      → of ≡ some o
      → is_success p cfg (status p s) ≡ b
      → s.cancelled ≡ true
      → s.current ≡ false
      → s.manager.ongoing ≡ none
      → (IsLeft o s.offers (put_back p cfg b of (r, s)).1) × ((put_back p cfg b of (r, s)).0 ≡ r)
  unfolding put_back
  put_back-IsLeft true of o r s g e h1 h2 h3 =
      (record { over = h1; dropped = h2; completed = h3; offered_again = λ f. cc }, refl)
  put_back-IsLeft false none o r s g e h1 h2 h3 = cc
  put_back-IsLeft false (some o') o r s g e h1 h2 h3 = (
    record {
      over = h1;
      dropped = h2;
      completed = h3;
      offered_again = λ f. rw (some-injective o' o g) (find-put_offer p.hash_of o s.offers);
    },
    refl,
  )

  leave-IsLeft :
      {A : Type 0} (o : Offer p.float.Carrier) (r : Outcome Err A) (s : State p)
      → r ≢ blocked
      → s.offer ≡ some o
      → (IsLeft o s.offers (leave p cfg (r, s)).1) × ((leave p cfg (r, s)).0 ≡ r)
  unfolding leave
  leave-IsLeft o blocked s k e = absurd (k refl)
  leave-IsLeft o (ok a) s k e =
      put_back-IsLeft _ s.offer o (ok a) (depart p cfg s) e refl refl refl
        (ongoing-complete_ongoing_swap s.manager)
  leave-IsLeft o (err x) s k e =
      put_back-IsLeft _ s.offer o (err x) (depart p cfg s) e refl refl refl
        (ongoing-complete_ongoing_swap s.manager)
  leave-IsLeft o panic s k e =
      put_back-IsLeft _ s.offer o panic (depart p cfg s) e refl refl refl
        (ongoing-complete_ongoing_swap s.manager)

  -- `exit` returns from every swap state with an offer, whatever the outside answers and whichever
  -- message is expected, and leaves it.
  pub exit_locked-leaves :
      (room : (o : Option (List Status)) → is_full p o ≡ false) (s : State p)
      (o : Offer p.float.Carrier)
      → s.offer ≡ some o
      → ((exit_locked p cfg s).0 ≢ blocked) × IsLeft o s.offers (exit_locked p cfg s).1
  unfolding exit_locked
  exit_locked-leaves room s o e =
      let k = exit_action-Returns p cfg room in
      let f = exit_action-IsFor.kept s (record { offered = e; listed = refl }) in
      let (l, same) =
        leave-IsLeft o (exit_action p cfg s).0 (exit_action p cfg s).1 (k.from s) f.offered in
      (λ h. k.from s (sym same ∙ h), rw f.listed at l)

  unlocked-IsLeft :
      (o : Offer p.float.Carrier) (os : OfferMap p.float.Carrier) (s : State p)
      → IsLeft o os s
      → IsLeft o os (record s { locked = false })
  unlocked-IsLeft o os s l = record {
    over = l.over;
    dropped = l.dropped;
    completed = l.completed;
    offered_again = l.offered_again;
  }

  release-IsLeft :
      {A : Type 0} (o : Offer p.float.Carrier) (os : OfferMap p.float.Carrier) (r : Outcome Err A)
      (s : State p)
      → r ≢ blocked
      → IsLeft o os s
      → (IsLeft o os (release p (r, s)).1)
        × ((release p (r, s)).1.locked ≡ false)
        × ((release p (r, s)).0 ≡ r)
  unfolding release
  release-IsLeft o os blocked s k l = absurd (k refl)
  release-IsLeft o os (ok a) s k l = (unlocked-IsLeft o os s l, refl, refl)
  release-IsLeft o os (err x) s k l = (unlocked-IsLeft o os s l, refl, refl)
  release-IsLeft o os panic s k l = (unlocked-IsLeft o os s l, refl, refl)

  -- Where the status channel has room whenever a status is sent, Exit returns from every swap state
  -- with an offer and a free lock, whatever the outside answers and whichever message is expected. It
  -- leaves the swap: the goroutines are stopped, the instance and the manager have no ongoing swap,
  -- the lock is free, and unless the status of the swap says success, the offer itself, its amounts
  -- and its rate unchanged and its ID set, stands under its ID with a new extra; if another entry
  -- stood there before, then that one stands there.
  pub exit_leaves_offer :
      (room : (o : Option (List Status)) → is_full p o ≡ false) (s : State p)
      (o : Offer p.float.Carrier)
      → s.offer ≡ some o
      → s.locked ≡ false
      → ((exit p cfg s).0 ≢ blocked)
        × IsLeft o s.offers (exit p cfg s).1
        × ((exit p cfg s).1.locked ≡ false)
  unfolding exit with_lock
  exit_leaves_offer room s o e free =
      let s1 : State p = record s { locked = true } in
      let (k, l) = exit_locked-leaves room s1 o e in
      let (l2, open', same) =
        release-IsLeft o s.offers (exit_locked p cfg s1).0 (exit_locked p cfg s1).1 k l in
      rw free ((λ h. k (sym same ∙ h)), l2, open')
