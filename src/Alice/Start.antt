-- ===== src/Alice/Start.antt =====
-- How Alice starts a swap (protocol/alice/net.go, and newSwapState of swap_state.go).
use atomic_swap.Base.{
  ℕ, Bytes, codes, Bool, true, false, not, Option, none, some, is_some, [], ◌∷◌, leb, get_elem?,
}
use atomic_swap.Base.Outcome.{Outcome, ok, err, panic, blocked}
use atomic_swap.Errors.{
  Err, named, no_swap_contract_set, protocol_already_in_progress, balance_too_low,
  have_ongoing_swap,
}
use atomic_swap.Action.{Action, pure, fail_if, gets, modify, wrap, ◌>>=◌, ◌>>◌}
use atomic_swap.Types.Status.{expecting_keys}
use atomic_swap.Types.Provides.{provides_eth}
use atomic_swap.Types.Offer.{to_xmr}
use atomic_swap.Message.{send_keys_type}
use atomic_swap.Manager.{Manager, Error, Manager, new_info, add_swap, id_of}
use atomic_swap.World.{
  Platform, History, Io, balance_at, write_contract_address, write_swap_id, ask,
}
use atomic_swap.Alice.{Config, State}

module _ (p : Platform) (cfg : Config) where
  open p use {float, balance_at_answer, done_answer}

  -- The instance between swaps: `running` tells that `a.swapState` is not nil. `swapMu` is held
  -- throughout `initiate`.
  pub record Instance : Type 0 where
    pub history : History
    pub running : Bool
    pub manager : Manager float.Carrier

  unfoldable pub outside : {A : Type 0} → Io A → Action Instance A
  outside m s = let (r, h) = m s.history in (r, record s { history = h })

  unfoldable pub pointer_of : ℕ → Outcome Error (Unit {0}) → Outcome Err ℕ
  pointer_of q (ok u) = ok q
  pointer_of q (err e) = err (named have_ongoing_swap)
  pointer_of q panic = panic
  pointer_of q blocked = blocked

  -- `pswap.NewInfo`, and then `AddSwap`: the pointer to the new info.
  unfoldable pub add_new : float.Carrier → float.Carrier → float.Carrier → Action Instance ℕ
  unfolding pointer_of
  add_new provided received rate s =
      let (q, m) = new_info provides_eth provided received rate expecting_keys 0 s.manager in
      let (r, m') = add_swap q m in (pointer_of q r, record s { manager = m' })

  -- The swap state that newSwapState builds; its status channel holds the first status.
  unfoldable pub fresh_state : ℕ → Instance → State p
  fresh_state q s = record {
    history = s.history;
    locked = false;
    cancelled = false;
    current = true;
    manager = s.manager;
    info = q;
    status_ch = some (expecting_keys ∷ []);
    dleq_proof = none;
    secp256k1_pub = none;
    privkeys = none;
    pubkeys = none;
    bob_public_spend_key = none;
    bob_private_view_key = none;
    bob_secp256k1_public_key = none;
    bob_address = [];
    contract_swap_id = none;
    t0 = none;
    t1 = none;
    tx_value = none;
    next_expected = some send_keys_type;
    xmr_locked_ch = false;
    claimed_ch = false;
    t0_watch = false;
    t1_watch = false;
  }

  abbrev contract_text : Option Bytes → Bytes
  contract_text none = []
  contract_text (some a) = a

  -- What newSwapState does after AddSwap; an error there leaves the swap with the manager.
  unfoldable pub write_files : ℕ → Action Instance (State p)
  unfolding fresh_state outside
  write_files q = do
    m ← gets (λ s. s.manager)
    outside (ask (write_swap_id (id_of (get_elem? m.heap q))) done_answer)
    wrap (codes "failed to write contract address to file")
        (outside (ask (write_contract_address (contract_text cfg.contract)) done_answer))
    gets (fresh_state q)

  -- `newSwapState`; making the transactor is a call of go-ethereum that fails only without a chain
  -- ID.
  unfoldable pub new_swap_state : ℕ → float.Carrier → float.Carrier → Action Instance (State p)
  unfolding add_new write_files
  new_swap_state wei received rate = do
    fail_if (not (is_some cfg.contract)) (named no_swap_contract_set)
    q ← add_new (float.wei_to_ether wei) received rate
    write_files q

  -- `MoneroToPiconero` and `AsMonero`
  abbrev pub in_piconero : float.Carrier → float.Carrier
  in_piconero amount =
      float.div (float.of_u64 (float.to_u64 (float.mul amount (float.of_u64 1_000_000_000_000))))
        (float.of_u64 1_000_000_000_000)

  -- `initiate`
  unfoldable pub initiate : ℕ → float.Carrier → float.Carrier → Action Instance (State p)
  unfolding new_swap_state outside
  initiate wei received rate = do
    running ← gets (λ s. s.running)
    fail_if running (named protocol_already_in_progress)
    balance ← outside (ask balance_at balance_at_answer)
    fail_if (leb balance wei) (named balance_too_low)
    st ← new_swap_state wei received rate
    modify (λ s. record s { running = true })
    pure st

  -- `InitiateProtocol`
  unfoldable pub initiate_protocol : float.Carrier → float.Carrier → Action Instance (State p)
  unfolding initiate
  initiate_protocol provided rate =
      initiate (float.ether_to_wei provided) (in_piconero (to_xmr float rate provided)) rate
