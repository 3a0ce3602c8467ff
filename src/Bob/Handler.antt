-- ===== src/Bob/Handler.antt =====
-- protocol/bob/message_handler.go: what Bob does with each message of Alice, and the keys that he
-- sends (swap_state.go).
use atomic_swap.Base.{
  Bytes, codes, Bool, true, false, ◌||◌, Option, none, some, List, [], ◌∷◌, if◌then◌else◌, is_empty,
  is_some, not,
}
use atomic_swap.Errors.{
  named, plain, external, missing_alice_keys, missing_contract_address, nil_contract_swap_id,
  claim_tx_has_no_logs, unexpected_message_type,
}
use atomic_swap.Action.{
  Action, pure, fail, fail_if, crash, gets, modify, deref, or_fail, wrap, ◌>>=◌, ◌>>◌,
}
use atomic_swap.Types.Status.{completed_success, completed_refund}
use atomic_swap.Types.Coins.{monero_to_piconero}
use atomic_swap.Message.{
  Message, SendKeysMessage, NotifyEthLocked, send_keys, notify_eth_locked, notify_xmr_lock,
  notify_ready, notify_claimed, notify_refund, notify_eth_locked_type, notify_ready_type,
}
use atomic_swap.Crypto.Hex.{encode_to_string}
use atomic_swap.Crypto.Keys.{new_public_key_pair_from_hex, private_hex, public_hex}
use atomic_swap.Crypto.Secp256k1.{to_string}
use atomic_swap.Protocol.{verify_keys_and_proof}
use atomic_swap.World.{Platform, EthLog, transaction_receipt, write_contract_address, ask}
use atomic_swap.World.Ethereum.{get_secret_from_log}
use atomic_swap.Bob.{
  Config, State, io, with_lock, clear_next_expected_message, set_next_expected_message,
  check_message_type,
}
use atomic_swap.Bob.Chain.{
  info_of, generate_and_set_keys, check_contract_code, check_contract, lock_funds, set_timeouts,
  claim_funds,
}
use atomic_swap.Bob.Settle.{reclaim_monero}

module _ (p : Platform) (cfg : Config) where
  open p use {curve, float, hex_to_address, receipt_answer, done_answer}

  abbrev Msg : Type 0
  Msg = Message float.Carrier

  -- `SendKeysMessage`
  unfoldable pub send_keys_message : Action (State p) (SendKeysMessage float.Carrier)
  send_keys_message = do
    generate_and_set_keys p cfg
    info ← info_of p cfg
    public ← deref (← gets (λ s. s.pubkeys))
    private ← deref (← gets (λ s. s.privkeys))
    proof ← deref (← gets (λ s. s.dleq_proof))
    secp ← deref (← gets (λ s. s.secp256k1_pub))
    pure (record {
      offer_id = [];
      provided_amount = info.provided_amount;
      public_spend_key = public_hex curve public.sk;
      public_view_key = [];
      private_view_key = private_hex curve private.vk;
      dleq_proof = encode_to_string proof.proof;
      secp256k1_public_key = to_string secp;
      eth_address = cfg.eth_address;
    })

  -- `handleSendKeysMessage` up to the next expected message: the checks of Alice's keys.
  unfoldable pub accept_keys : SendKeysMessage float.Carrier → Action (State p) (Unit {0})
  accept_keys msg = do
    fail_if (is_empty msg.public_spend_key || is_empty msg.public_view_key)
        (named missing_alice_keys)
    kp ← wrap (codes "failed to generate Alice's public keys") (
        or_fail (new_public_key_pair_from_hex curve msg.public_spend_key msg.public_view_key)
          (external []))
    secp256k1_pub ← io p (verify_keys_and_proof p msg.dleq_proof msg.secp256k1_public_key)
    modify (λ s. record s {
      alice_public_keys = some kp;
      alice_secp256k1_public_key = some secp256k1_pub;
    })

  -- `handleSendKeysMessage`
  unfoldable pub handle_send_keys_message :
      SendKeysMessage float.Carrier → Action (State p) (Unit {0})
  handle_send_keys_message msg =
      accept_keys msg >> set_next_expected_message p notify_eth_locked_type

  -- `handleNotifyETHLocked` up to the locking of the monero: the checks of the contract. The
  -- constructor of the bindings fails only on a faulty ABI.
  unfoldable pub check_eth_locked : NotifyEthLocked → Action (State p) (Unit {0})
  check_eth_locked msg = do
    fail_if (is_empty msg.address) (named missing_contract_address)
    fail_if (not (is_some msg.contract_swap_id)) (named nil_contract_swap_id)
    modify (λ s. record s { contract_swap_id = msg.contract_swap_id })
    check_contract_code p cfg (hex_to_address msg.address)
    modify (λ s. record s { contract = some (hex_to_address msg.address) })
    wrap (codes "failed to write contract address to file")
        (io p (ask (write_contract_address msg.address) done_answer))
    check_contract p cfg msg.tx_hash

  -- The monero is sent, in the amount that the swap's info says.
  unfoldable pub lock_provided : Action (State p) Bytes
  lock_provided = do
    info ← info_of p cfg
    wrap (codes "failed to lock funds")
        (lock_funds p cfg (monero_to_piconero float info.provided_amount))

  -- `handleNotifyETHLocked`
  unfoldable pub handle_notify_eth_locked : NotifyEthLocked → Action (State p) Msg
  unfolding lock_provided
  handle_notify_eth_locked msg = do
    check_eth_locked msg
    addr ← lock_provided
    set_timeouts p cfg
    modify (λ s. record s { t0_watch = true })
    set_next_expected_message p notify_ready_type
    pure (notify_xmr_lock (some (record { address = addr })))

  -- `close(s.readyCh)`
  unfoldable pub close_ready : Action (State p) (Unit {0})
  close_ready = do
    closed ← gets (λ s. s.ready_ch)
    if closed then crash else modify (λ s. record s { ready_ch = true })

  -- The case of NotifyReady: the hash of the claim.
  unfoldable pub handle_notify_ready : Action (State p) Bytes
  unfolding close_ready
  handle_notify_ready = do
    close_ready
    tx ← wrap (codes "failed to redeem ether") (claim_funds p cfg)
    clear_next_expected_message p completed_success
    pure tx

  unfoldable pub reclaim_from : List EthLog → Action (State p) Bytes
  reclaim_from [] = fail (named claim_tx_has_no_logs)
  reclaim_from (log ∷ _) = do
    sk_a ← get_secret_from_log p log (codes "Refunded")
    reclaim_monero p cfg sk_a

  -- `handleRefund`
  unfoldable pub handle_refund : Bytes → Action (State p) Bytes
  unfolding reclaim_from
  handle_refund tx_hash = do
    logs ← io p (ask (transaction_receipt tx_hash) receipt_answer)
    reclaim_from logs

  -- The `switch` of HandleProtocolMessage: the response, and whether the protocol is done.
  unfoldable pub dispatch : Option Msg → Action (State p) (Option Msg × Bool)
  dispatch (some (send_keys msg)) = do handle_send_keys_message (← deref msg); pure (none, false)
  dispatch (some (notify_eth_locked msg)) = do
    out ← handle_notify_eth_locked (← deref msg)
    pure (some out, false)
  dispatch (some (notify_ready msg)) = do
    tx ← handle_notify_ready
    pure (some (notify_claimed (some (record { tx_hash = tx }))), true)
  dispatch (some (notify_refund msg)) = do
    m ← deref msg
    handle_refund m.tx_hash
    clear_next_expected_message p completed_refund
    pure (none, true)
  dispatch _ = fail (named unexpected_message_type)

  unfoldable pub check_running : Action (State p) (Unit {0})
  check_running = do
    cancelled ← gets (λ s. s.cancelled)
    fail_if cancelled (plain (codes "protocol exited: context canceled"))

  -- `HandleProtocolMessage`
  unfoldable pub handle_protocol_message : Option Msg → Action (State p) (Option Msg × Bool)
  unfolding check_running dispatch
  handle_protocol_message msg =
      with_lock p (check_running >> check_message_type p msg >> dispatch msg)
