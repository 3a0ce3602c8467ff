-- ===== src/Errors.antt =====
-- The errors of the packages protocol/alice, protocol/bob, protocol, swapfactory and common, and
-- what errors.Is and `err.Error()` tell of them.
use atomic_swap.Base.{Bytes, codes, ◌++◌, Bool, true, false}

-- The package variables. One that two packages declare with the same text stands here once.
pub data Name : Type 0 where
  no_ongoing_swap unexpected_message_type missing_keys missing_address no_claim_logs_found : Name
  cannot_refund nil_message incorrect_message_type no_locked_xmr_address claim_tx_has_no_logs : Name
  no_public_keys_set counterparty_keys_not_set swap_instantiation_no_logs swap_completed : Name
  protocol_already_in_progress balance_too_low no_swap_contract_set have_ongoing_swap : Name
  no_refund_logs_found past_claim_time nil_swap_state nil_contract_swap_id : Name
  cannot_find_new_log unexpected_swap_id invalid_swap_contract no_offer_with_id : Name
  amount_provided_too_low amount_provided_too_high unlocked_balance_too_low : Name
  invalid_secp256k1_key receipt_time_out : Name
  missing_alice_keys missing_contract_address eth_balance_too_low : Name

-- `external` is an error of code outside the repository, `plain` a new error of errors.New or
-- fmt.Errorf (what `%v` would print is left out), and `wrapped` an error behind `%w`.
pub data Err : Type 0 where
  named : Name → Err
  external : Bytes → Err
  plain : Bytes → Err
  wrapped : Bytes → Err → Err

unfoldable pub text : Name → Bytes
text no_ongoing_swap = codes "no ongoing swap"
text unexpected_message_type = codes "unexpected message type"
text missing_keys = codes "did not receive Bob's public spend or private view key"
text missing_address = codes "did not receive Bob's address"
text no_claim_logs_found = codes "no Claimed logs found"
text cannot_refund = codes "swap is not at a stage where it can refund"
text nil_message = codes "message is nil"
text incorrect_message_type = codes "received unexpected message"
text no_locked_xmr_address = codes "got empty address for locked XMR"
text claim_tx_has_no_logs = codes "claim transaction has no logs"
text no_public_keys_set = codes "our public keys aren't set"
text counterparty_keys_not_set = codes "counterparty's keys aren't set"
text swap_instantiation_no_logs = codes "expected 1 log, got 0"
text swap_completed = codes "swap has already completed"
text protocol_already_in_progress = codes "protocol already in progress"
text balance_too_low = codes "balance lower than amount to be provided"
text no_swap_contract_set = codes "no swap contract found"
text have_ongoing_swap = codes "already have ongoing swap"
text no_refund_logs_found = codes "no refund logs found"
text past_claim_time = codes "past t1, can no longer claim"
text nil_swap_state = codes "swap state is nil"
text nil_contract_swap_id = codes "expected swapID in NotifyETHLocked message"
text cannot_find_new_log = codes "cannot find New log"
text unexpected_swap_id = codes "unexpected swap ID was emitted by New log"
text invalid_swap_contract = codes "given contract address does not contain correct code"
text no_offer_with_id = codes "failed to find offer with given ID"
text amount_provided_too_low = codes "amount provided by taker is too low for offer"
text amount_provided_too_high = codes "amount provided by taker is too high for offer"
text unlocked_balance_too_low = codes "unlocked balance is less than maximum offer amount"
text invalid_secp256k1_key =
    codes "secp256k1 public key resulting from proof verification does not match key sent"
text missing_alice_keys = codes "did not receive Alice's public spend or view key"
text missing_contract_address = codes "got empty contract address"
text eth_balance_too_low = codes "eth balance lower than amount to be provided"
text receipt_time_out = codes "failed to get receipt, timed out"

-- `err.Error()`
unfoldable pub error : Err → Bytes
unfolding text
error (named n) = text n
error (external t) = t
error (plain t) = t
error (wrapped t e) = t ++ codes ": " ++ error e

-- `errors.Is(err, errNoClaimLogsFound)` and `errors.Is(err, errNoRefundLogsFound)`
unfoldable pub is_no_claim_logs_found : Err → Bool
is_no_claim_logs_found (named no_claim_logs_found) = true
is_no_claim_logs_found (wrapped _ e) = is_no_claim_logs_found e
is_no_claim_logs_found _ = false

unfoldable pub is_no_refund_logs_found : Err → Bool
is_no_refund_logs_found (named no_refund_logs_found) = true
is_no_refund_logs_found (wrapped _ e) = is_no_refund_logs_found e
is_no_refund_logs_found _ = false
