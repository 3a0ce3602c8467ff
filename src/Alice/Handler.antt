-- ===== src/Alice/Handler.antt =====
-- protocol/alice/message_handler.go: what Alice does with each message of Bob, and the keys that
-- she sends first (swap_state.go).
use atomic_swap.Base.{
  ℕ, Bytes, codes, Bool, true, false, not, ◌||◌, bytes_eq, Option, none, some, List, [], ◌∷◌, ◌+◌,
  if◌then◌else◌, is_empty,
}
use atomic_swap.Errors.{
  named, plain, external, missing_keys, missing_address, no_locked_xmr_address,
  claim_tx_has_no_logs, unexpected_message_type,
}
use atomic_swap.Action.{
  Action, pure, fail, fail_if, crash, gets, modify, deref, or_fail, wrap, ◌>>=◌, ◌>>◌,
}
use atomic_swap.Types.Status.{completed_success}
use atomic_swap.Message.{
  Message, SendKeysMessage, NotifyXmrLock, send_keys, notify_xmr_lock, notify_claimed,
  notify_eth_locked, notify_ready, notify_xmr_lock_type, notify_claimed_type,
}
use atomic_swap.Manager.{Info}
use atomic_swap.Base.{get_elem?}
use atomic_swap.Crypto.Hex.{encode_to_string}
use atomic_swap.Crypto.Keys.{
  PublicKeyPair, new_public_key_pair, sum_private_view_keys, sum_public_keys, public_view,
  new_private_view_key_from_hex, new_public_key_from_hex, private_hex, public_hex,
}
use atomic_swap.Crypto.Address.{address}
use atomic_swap.Crypto.Secp256k1.{to_string}
use atomic_swap.Protocol.{verify_keys_and_proof}
use atomic_swap.World.{
  Platform, GetBalanceResponse, EthLog, generate_from_keys, refresh, get_accounts, get_balance,
  close_wallet, ask,
}
use atomic_swap.World.Ethereum.{wait_for_receipt, get_secret_from_log}
use atomic_swap.World.Monero.{wait_for_blocks}
use atomic_swap.Alice.{
  Config, State, io, with_lock, clear_next_expected_message, set_next_expected_message,
  check_message_type,
}
use atomic_swap.Alice.Chain.{generate_and_set_keys, lock_eth, set_timeouts, ready}
use atomic_swap.Alice.Settle.{is_development, claim_monero}

module _ (p : Platform) (cfg : Config) where
  open p use {curve, float, hex_to_address, done_answer, get_accounts_answer, get_balance_answer}

  abbrev Msg : Type 0
  Msg = Message float.Carrier

  -- `s.info.ReceivedAmount()` and `ProvidedAmount()`, which dereference the info.
  unfoldable pub info_of : Action (State p) (Info float.Carrier)
  info_of = do deref (← gets (λ s. get_elem? s.manager.heap s.info))

  -- `SendKeysMessage`
  unfoldable pub send_keys_message : Action (State p) (SendKeysMessage float.Carrier)
  send_keys_message = do
    generate_and_set_keys p cfg
    keys ← deref (← gets (λ s. s.pubkeys))
    proof ← deref (← gets (λ s. s.dleq_proof))
    secp ← deref (← gets (λ s. s.secp256k1_pub))
    pure (record {
      offer_id = [];
      provided_amount = float.of_u64 0;
      public_spend_key = public_hex curve keys.sk;
      public_view_key = public_hex curve keys.vk;
      private_view_key = [];
      dleq_proof = encode_to_string proof.proof;
      secp256k1_public_key = to_string secp;
      eth_address = [];
    })

  -- `handleSendKeysMessage` up to the locking of the ether: the checks of Bob's keys.
  unfoldable pub accept_keys : SendKeysMessage float.Carrier → Action (State p) (Unit {0})
  unfolding info_of
  accept_keys msg = do
    info ← info_of
    fail_if (float.lt msg.provided_amount info.received_amount)
        (plain (codes "receiving amount is not the same as expected"))
    fail_if (is_empty msg.public_spend_key || is_empty msg.private_view_key) (named missing_keys)
    fail_if (is_empty msg.eth_address) (named missing_address)
    vk ←
        wrap (codes "failed to generate Bob's private view keys")
          (or_fail (new_private_view_key_from_hex curve msg.private_view_key) (external []))
    modify (λ s. record s { bob_address = hex_to_address msg.eth_address })
    sk ←
        wrap (codes "failed to generate Bob's public spend key")
          (or_fail (new_public_key_from_hex curve msg.public_spend_key) (external []))
    secp256k1_pub ← io p (verify_keys_and_proof p msg.dleq_proof msg.secp256k1_public_key)
    modify (λ s. record s {
      bob_public_spend_key = some sk;
      bob_private_view_key = some vk;
      bob_secp256k1_public_key = some secp256k1_pub;
    })

  -- `handleSendKeysMessage`
  unfoldable pub handle_send_keys_message : SendKeysMessage float.Carrier → Action (State p) Msg
  unfolding accept_keys
  handle_send_keys_message msg = do
    accept_keys msg
    info ← info_of
    tx ←
        wrap (codes "failed to deploy contract")
          (lock_eth p cfg (float.ether_to_wei info.provided_amount))
    set_timeouts p cfg
    modify (λ s. record s { t0_watch = true })
    set_next_expected_message p notify_xmr_lock_type
    contract ← deref cfg.contract
    id ← gets (λ s. s.contract_swap_id)
    pure (
        notify_eth_locked
          (some (record { address = contract; tx_hash = tx; contract_swap_id = id })))

  -- The loop over the wallet's accounts: the balance of the first one with the address.
  unfoldable pub find_balance :
      ℕ → Bytes → List (Option Bytes) → Action (State p) (Option (GetBalanceResponse float.Carrier))
  find_balance i addr [] = pure none
  find_balance i addr (none ∷ accounts) = crash
  find_balance i addr (some acc ∷ accounts) =
      let rest = find_balance (i + 1) addr accounts in
      if bytes_eq acc addr
      then (do
        balance ←
            wrap (codes "failed to get balance") (io p (ask (get_balance i) get_balance_answer))
        pure (some balance))
      else rest

  -- The account whose keys are the sums of both sides' keys.
  unfoldable pub shared_keys : Action (State p) (curve.Scalar × PublicKeyPair curve)
  shared_keys = do
    vk_b ← deref (← gets (λ s. s.bob_private_view_key))
    ours ← deref (← gets (λ s. s.privkeys))
    sk_b ← deref (← gets (λ s. s.bob_public_spend_key))
    public ← deref (← gets (λ s. s.pubkeys))
    let vk = sum_private_view_keys curve vk_b ours.vk
    pure (
      vk,
      new_public_key_pair curve (sum_public_keys curve sk_b public.sk) (public_view curve vk),
    )

  -- Outside development, new blocks are waited for.
  unfoldable pub await_blocks : Bool → Action (State p) (Unit {0})
  await_blocks true = pure tt
  await_blocks false = io p (wait_for_blocks p 2) >> pure tt

  -- The middle of `handleNotifyXMRLock`: the balance of the account with the address, in a
  -- view-only wallet.
  unfoldable pub locked_balance :
      curve.Scalar → Bytes → Action (State p) (GetBalanceResponse float.Carrier)
  unfolding await_blocks
  locked_balance vk addr = do
    wrap (codes "failed to generate view-only wallet to verify locked XMR")
        (io p (ask (generate_from_keys none (private_hex curve vk) addr) done_answer))
    await_blocks (is_development cfg.env)
    wrap (codes "failed to refresh client") (io p (ask refresh done_answer))
    accounts ← wrap (codes "failed to get accounts") (io p (ask get_accounts get_accounts_answer))
    found ← find_balance 0 addr accounts
    or_fail found (plain (codes "failed to find account with address"))

  -- `xmrtypes.MoneroToPiconero(s.info.ReceivedAmount())`, and back to a float.
  abbrev pub expected_amount : Info float.Carrier → float.Carrier
  expected_amount info =
      float.of_u64 (float.to_u64 (float.mul info.received_amount (float.of_u64 1_000_000_000_000)))

  -- `handleNotifyXMRLock` up to the closing of the wallet: the checks of the locked monero.
  unfoldable pub check_locked_xmr : NotifyXmrLock → Action (State p) (Unit {0})
  unfolding shared_keys locked_balance info_of
  check_locked_xmr msg = do
    fail_if (is_empty msg.address) (named no_locked_xmr_address)
    (vk, kp) ← shared_keys
    fail_if (not (bytes_eq msg.address (address curve kp cfg.env)))
        (plain (codes "address received in message does not match expected address"))
    balance ← locked_balance vk (address curve kp cfg.env)
    info ← info_of
    fail_if (float.lt balance.balance (expected_amount info))
        (plain (codes "locked XMR amount is less than expected"))
    wrap (codes "failed to close wallet") (io p (ask close_wallet done_answer))
    pure tt

  -- `close(s.xmrLockedCh)`
  unfoldable pub close_xmr_locked : Action (State p) (Unit {0})
  close_xmr_locked = do
    closed ← gets (λ s. s.xmr_locked_ch)
    if closed then crash else modify (λ s. record s { xmr_locked_ch = true })

  -- `handleNotifyXMRLock`
  unfoldable pub handle_notify_xmr_lock : NotifyXmrLock → Action (State p) Msg
  unfolding close_xmr_locked
  handle_notify_xmr_lock msg = do
    check_locked_xmr msg
    close_xmr_locked
    wrap (codes "failed to call Ready") (ready p cfg)
    wrap (codes "failed to set timeouts") (set_timeouts p cfg)
    modify (λ s. record s { t1_watch = true })
    set_next_expected_message p notify_claimed_type
    pure (notify_ready (some (record {})))

  unfoldable pub claim_from : List EthLog → Action (State p) Bytes
  claim_from [] = fail (named claim_tx_has_no_logs)
  claim_from (log ∷ _) = do
    sk_b ←
        wrap (codes "failed to get secret from log") (get_secret_from_log p log (codes "Claimed"))
    claim_monero p cfg sk_b

  -- `handleNotifyClaimed`
  unfoldable pub handle_notify_claimed : Bytes → Action (State p) Bytes
  unfolding claim_from
  handle_notify_claimed tx_hash = do
    logs ← wrap (codes "failed check claim transaction receipt") (io p (wait_for_receipt p tx_hash))
    claim_from logs

  -- The `switch` of HandleProtocolMessage: the response, and whether the protocol is done. An error
  -- comes with done, but for a message of another type.
  unfoldable pub dispatch : Option Msg → Action (State p) (Option Msg × Bool)
  dispatch (some (send_keys msg)) = do
    resp ← handle_send_keys_message (← deref msg)
    pure (some resp, false)
  dispatch (some (notify_xmr_lock msg)) = do
    out ← handle_notify_xmr_lock (← deref msg)
    pure (some out, false)
  dispatch (some (notify_claimed msg)) = do
    m ← deref msg
    handle_notify_claimed m.tx_hash
    clear_next_expected_message p completed_success
    pure (none, true)
  dispatch _ = fail (named unexpected_message_type)

  -- `HandleProtocolMessage`
  unfoldable pub handle_protocol_message : Option Msg → Action (State p) (Option Msg × Bool)
  unfolding dispatch
  handle_protocol_message msg = with_lock p (check_message_type p msg >> dispatch msg)
