-- ===== src/Bob/Start.antt =====
-- How Bob offers and starts a swap (protocol/bob/net.go and offers.go, and newSwapState of
-- swap_state.go).
use atomic_swap.Base.{
  ℕ, Bytes, Bool, true, false, Option, none, some, List, [], ◌∷◌, get_elem?, ltb,
}
use atomic_swap.Base.Outcome.{Outcome, ok, err, panic, blocked}
use atomic_swap.Errors.{
  Err, named, external, have_ongoing_swap, protocol_already_in_progress, balance_too_low,
  no_offer_with_id, amount_provided_too_low, amount_provided_too_high, unlocked_balance_too_low,
}
use atomic_swap.Action.{Action, pure, fail_if, gets, modify, or_fail, ◌>>=◌, ◌>>◌}
use atomic_swap.Types.Status.{Status, expecting_keys}
use atomic_swap.Types.Provides.{provides_xmr}
use atomic_swap.Types.Offer.{Offer, hex_to_hash, to_xmr}
use atomic_swap.Types.Coins.{monero_to_piconero, as_monero}
use atomic_swap.Message.{SendKeysMessage, send_keys_type, notify_eth_locked_type}
use atomic_swap.Manager.{Manager, Error, new_info, add_swap, id_of}
use atomic_swap.World.{Platform, History, Io, get_balance, write_swap_id, ask}
use atomic_swap.Bob.{Config, State, set_next_expected_message}
use atomic_swap.Bob.Offers.{
  OfferExtra, OfferMap, OfferWithExtra, put_offer, get_and_delete_offer, get_offers,
}
use atomic_swap.Bob.Handler.{handle_send_keys_message, send_keys_message}

module _ (p : Platform) (cfg : Config) where
  open p use {float, hash_of, get_balance_answer, done_answer}

  -- The instance between swaps: `running` tells that `b.swapState` is not nil, and `announced` lists
  -- the swap IDs that went to the channels of taken offers. `swapMu` is held throughout `initiate`,
  -- `GetOffers` and `ClearOffers`.
  pub record Instance : Type 0 where
    pub history : History
    pub running : Bool
    pub manager : Manager float.Carrier
    pub offers : OfferMap float.Carrier
    pub announced : List ℕ

  unfoldable pub outside : {A : Type 0} → Io A → Action Instance A
  outside m s = let (r, h) = m s.history in (r, record s { history = h })

  unfoldable pub pointer_of : ℕ → Outcome Error (Unit {0}) → Outcome Err ℕ
  pointer_of q (ok u) = ok q
  pointer_of q (err e) = err (named have_ongoing_swap)
  pointer_of q panic = panic
  pointer_of q blocked = blocked

  -- `pswap.NewInfo`, and then `AddSwap`: the pointer to the new info.
  unfoldable pub add_new : float.Carrier → float.Carrier → float.Carrier → Action Instance ℕ
  unfolding pointer_of
  add_new provided received rate s =
      let (q, m) = new_info provides_xmr provided received rate expecting_keys 0 s.manager in
      let (r, m') = add_swap q m in (pointer_of q r, record s { manager = m' })

  -- The swap state that newSwapState builds; the status channel of the offer, to
  -- which nothing was sent before the offer was taken, gets the first status.
  unfoldable pub fresh_state : ℕ → Offer float.Carrier → List Status → Instance → State p
  fresh_state q offer sent s = record {
    history = s.history;
    locked = false;
    cancelled = false;
    current = true;
    manager = s.manager;
    offers = s.offers;
    info = q;
    offer = some offer;
    status_ch = some (expecting_keys ∷ sent);
    dleq_proof = none;
    secp256k1_pub = none;
    privkeys = none;
    pubkeys = none;
    contract = none;
    contract_swap_id = none;
    t0 = none;
    t1 = none;
    alice_public_keys = none;
    alice_secp256k1_public_key = none;
    next_expected = some send_keys_type;
    ready_ch = false;
    monero_reclaim_address = [];
    t0_watch = false;
  }

  -- `newSwapState`; making the transactor is a call of go-ethereum that fails only without a chain
  -- ID. An error after AddSwap leaves the swap with the manager.
  unfoldable pub new_swap_state :
      Offer float.Carrier → OfferExtra → ℕ → ℕ → Action Instance (State p)
  unfolding add_new fresh_state outside
  new_swap_state offer extra provided desired = do
    let xmr = as_monero float provided
    let ether = float.wei_to_ether desired
    q ← add_new xmr ether (float.div xmr ether)
    m ← gets (λ s. s.manager)
    outside (ask (write_swap_id (id_of (get_elem? m.heap q))) done_answer)
    gets (fresh_state q offer extra.status_ch)

  -- `initiate`
  unfoldable pub initiate : Offer float.Carrier → OfferExtra → ℕ → ℕ → Action Instance (State p)
  unfolding new_swap_state outside
  initiate offer extra provided desired = do
    running ← gets (λ s. s.running)
    fail_if running (named protocol_already_in_progress)
    balance ← outside (ask (get_balance 0) get_balance_answer)
    fail_if (float.le balance.unlocked_balance (float.of_u64 provided)) (named balance_too_low)
    st ← new_swap_state offer extra provided desired
    modify (λ s. record s { running = true })
    pure st

  -- `getAndDeleteOffer`
  unfoldable pub take_offer : Bytes → Action Instance (Option (OfferWithExtra float.Carrier))
  take_offer id s =
      let (o, os) = get_and_delete_offer id s.offers in (ok o, record s { offers = os })

  -- `offerExtra.IDCh <- b.swapState.info.ID()`, and the channel is closed: it has room for one ID,
  -- and an extra belongs to one take.
  unfoldable pub announce : ℕ → Action Instance (Unit {0})
  announce q =
      modify (λ s. record s { announced = id_of (get_elem? s.manager.heap q) ∷ s.announced })

  -- What the instance and its swap state share: a call on the swap state works on what the instance
  -- has, and what it leaves comes back to the instance, however the call ends.
  unfoldable pub attach : State p → Instance → State p
  attach st s = record st { history = s.history; manager = s.manager; offers = s.offers }

  unfoldable pub absorb :
      {A : Type 0} → Outcome Err A × State p → Instance → Outcome Err A × Instance
  absorb (r, st) s =
      (r, record s { history = st.history; manager = st.manager; offers = st.offers })

  -- The end of `HandleInitiateMessage`, on the new swap state; what is deferred runs only if both
  -- calls succeed.
  unfoldable pub exchange_keys :
      SendKeysMessage float.Carrier → Action (State p) (SendKeysMessage float.Carrier × State p)
  exchange_keys msg = do
    handle_send_keys_message p cfg msg
    resp ← send_keys_message p cfg
    set_next_expected_message p notify_eth_locked_type
    st ← gets (λ s. s)
    pure (resp, st)

  -- `HandleInitiateMessage` with what was found under the offer's ID.
  unfoldable pub take_up :
      SendKeysMessage float.Carrier
      → Option (OfferWithExtra float.Carrier)
      → Action Instance (SendKeysMessage float.Carrier × State p)
  unfolding initiate announce attach absorb exchange_keys
  take_up msg taken = do
    o ← or_fail taken (named no_offer_with_id)
    let provided = to_xmr float o.offer.exchange_rate msg.provided_amount
    fail_if (float.lt provided o.offer.minimum_amount) (named amount_provided_too_low)
    fail_if (float.lt o.offer.maximum_amount provided) (named amount_provided_too_high)
    st ←
        initiate o.offer o.extra (monero_to_piconero float provided)
          (float.ether_to_wei msg.provided_amount)
    announce st.info
    λ s. absorb (exchange_keys msg (attach st s)) s

  -- `HandleInitiateMessage`: the swap state and the response.
  unfoldable pub handle_initiate_message :
      SendKeysMessage float.Carrier → Action Instance (SendKeysMessage float.Carrier × State p)
  unfolding take_offer take_up
  handle_initiate_message msg = do
    id ← or_fail (hex_to_hash msg.offer_id) (external [])
    taken ← take_offer id
    take_up msg taken

  -- `MakeOffer`
  unfoldable pub make_offer : Offer float.Carrier → Action Instance OfferExtra
  unfolding outside
  make_offer o = do
    balance ← outside (ask (get_balance 0) get_balance_answer)
    fail_if
        (ltb (float.to_u64 balance.unlocked_balance) (monero_to_piconero float o.maximum_amount))
        (named unlocked_balance_too_low)
    λ s. let (extra, os) = put_offer hash_of o s.offers in (ok extra, record s { offers = os })

  -- `GetOffers` and `ClearOffers` of the instance
  unfoldable pub all_offers : Action Instance (List (Offer float.Carrier))
  all_offers = gets (λ s. get_offers s.offers)

  unfoldable pub clear_offers : Action Instance (Unit {0})
  clear_offers = modify (λ s. record s { offers = [] })
