-- ===== src/Types/Status/Names.antt =====
-- The name of a status and its reading back (common/types/status.go).
use atomic_swap.Base.{Bytes, ◌≡◌, refl, ◌⊎◌, arith, codes, bytes_eq, bytes_eq_iff}
use atomic_swap.Types.Status.{Status, expecting_keys, unknown_status, new_status, to_string}

-- Reading the name of any status gives that status back.
pub new_status-to_string : (s : Status) → new_status (to_string s) ≡ s
unfolding new_status to_string bytes_eq
new_status-to_string expecting_keys = refl
new_status-to_string _ = refl

-- A text that reads as a proper status is exactly the name of that status; all others read as
-- unknown.
pub to_string-new_status :
    (str : Bytes) → (new_status str ≡ unknown_status) ⊎ (to_string (new_status str) ≡ str)
unfolding new_status to_string
to_string-new_status str = ground (
  arith,
  bytes_eq_iff str (codes "ExpectingKeys"),
  bytes_eq_iff str (codes "KeysExchanged"),
  bytes_eq_iff str (codes "ETHLocked"),
  bytes_eq_iff str (codes "XMRLocked"),
  bytes_eq_iff str (codes "ContractReady"),
  bytes_eq_iff str (codes "Success"),
  bytes_eq_iff str (codes "Refunded"),
  bytes_eq_iff str (codes "Aborted"),
)
