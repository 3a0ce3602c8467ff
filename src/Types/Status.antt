-- ===== src/Types/Status.antt =====
-- common/types/status.go: the stage that a swap is at, its name, and its reading back.
pub mod Names
use atomic_swap.Base.{Bytes, Bool, true, false, codes, bytes_eq, if◌then◌else◌}

pub data Status : Type 0 where
  expecting_keys keys_exchanged eth_locked xmr_locked contract_ready : Status
  completed_success completed_refund completed_abort unknown_status : Status

-- The `switch` compares the cases in order.
unfoldable pub new_status : Bytes → Status
unfolding bytes_eq
new_status str =
    if bytes_eq str (codes "ExpectingKeys")
    then expecting_keys
    else (if bytes_eq str (codes "KeysExchanged")
        then keys_exchanged
        else (if bytes_eq str (codes "ETHLocked")
            then eth_locked
            else (if bytes_eq str (codes "XMRLocked")
                then xmr_locked
                else (if bytes_eq str (codes "ContractReady")
                    then contract_ready
                    else (if bytes_eq str (codes "Success")
                        then completed_success
                        else (if bytes_eq str (codes "Refunded")
                            then completed_refund
                            else (if bytes_eq str (codes "Aborted")
                                then completed_abort
                                else unknown_status)))))))

unfoldable pub to_string : Status → Bytes
to_string expecting_keys = codes "ExpectingKeys"
to_string keys_exchanged = codes "KeysExchanged"
to_string eth_locked = codes "ETHLocked"
to_string xmr_locked = codes "XMRLocked"
to_string contract_ready = codes "ContractReady"
to_string completed_success = codes "Success"
to_string completed_refund = codes "Refunded"
to_string completed_abort = codes "Aborted"
to_string unknown_status = codes "unknown"

unfoldable pub info : Status → Bytes
info expecting_keys = codes "keys have not yet been exchanged"
info keys_exchanged = codes "keys have been exchanged, but no value has been locked"
info eth_locked = codes "the ETH provider has locked their ether, but no XMR has been locked"
info xmr_locked = codes "both the XMR and ETH providers have locked their funds"
info contract_ready = codes "the locked ether is ready to be claimed"
info completed_success =
    codes "the locked funds have been claimed and the swap has completed successfully"
info completed_refund = codes "the locked funds have been refunded and the swap has completed"
info completed_abort = codes "the swap was aborted before any funds were locked"
info unknown_status = codes "unknown"

unfoldable pub is_ongoing : Status → Bool
is_ongoing completed_success = false
is_ongoing completed_refund = false
is_ongoing completed_abort = false
is_ongoing _ = true
