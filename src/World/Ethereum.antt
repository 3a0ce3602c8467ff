-- ===== src/World/Ethereum.antt =====
-- common/utils.go and swapfactory/utils.go: byte order, receipts and the contract's logs.
use atomic_swap.Base.{
  ℕ, zero, suc, ◌+◌, ◌-◌, Bytes, Bool, not, ◌&&◌, Option, none, some, List, [], ◌∷◌, codes,
  bytes_eq, ltb, ◌==◌, if◌then◌else◌, length, get_elem?, set, replicate,
}
use atomic_swap.Errors.{Err, named, external, plain, receipt_time_out}
use atomic_swap.Action.{Action, pure, fail, crash, or_fail, handle, ◌>>=◌, ◌>>◌}
use atomic_swap.Crypto.Keys.{PrivateSpendKey, new_private_spend_key}
use atomic_swap.World.{
  Platform, Io, EthLog, AbiValue, big_int, bytes_32, transaction_receipt, sleep, ask, wait,
}

abbrev or_zero : Option ℕ → ℕ
or_zero none = 0
or_zero (some b) = b

-- `s[i], s[j] = s[j], s[i]`
swap : ℕ → ℕ → Bytes → Bytes
swap i j s = set (set s i (or_zero (get_elem? s j))) j (or_zero (get_elem? s i))

swap_ends : ℕ → ℕ → ℕ → Bytes → Bytes
swap_ends zero i j s = s
swap_ends (suc rounds) i j s =
    let rest = swap_ends rounds (i + 1) (j - 1) (swap i j s) in if ltb i j then rest else s

-- `Reverse`; `i` and `j` meet before `length s` rounds.
unfoldable pub reverse_bytes : Bytes → Bytes
unfolding swap swap_ends
reverse_bytes s = swap_ends (length s) 0 (length s - 1) s

abbrev pub max_retries : ℕ
max_retries = 360

abbrev is_event : Bytes → Bool
is_event event =
    not (not (bytes_eq event (codes "Refunded")) && not (bytes_eq event (codes "Claimed")))

abbrev invalid_event : Err
invalid_event = plain (codes "invalid event name, must be one of Claimed or Refunded")

abbrev not_enough : Err
not_enough = plain (codes "log had not enough parameters")

module _ (p : Platform) where
  open p use {curve, unpack, receipt_answer}

  -- `WaitForReceipt`, for so many tries, ten seconds apart.
  unfoldable pub receipt_loop : ℕ → Bytes → Io (List EthLog)
  receipt_loop zero tx_hash = fail (named receipt_time_out)
  receipt_loop (suc tries) tx_hash =
      handle (ask (transaction_receipt tx_hash) receipt_answer) pure
        (λ _. wait (sleep 10) >> receipt_loop tries tx_hash)

  unfoldable pub wait_for_receipt : Bytes → Io (List EthLog)
  wait_for_receipt tx_hash = receipt_loop max_retries tx_hash

  module _ {S : Type 0} where
    unfoldable pub key_from_secret : Bytes → Action S (PrivateSpendKey curve)
    key_from_secret s =
        if bytes_eq s (replicate 32 0)
        then fail (plain (codes "got zero secret key from contract"))
        else or_fail (new_private_spend_key curve (reverse_bytes s)) (external [])

    unfoldable pub secret_at_one : List AbiValue → Action S (PrivateSpendKey curve)
    unfolding key_from_secret
    secret_at_one (_ ∷ bytes_32 s ∷ _) = key_from_secret s
    secret_at_one (_ ∷ big_int _ ∷ _) = crash
    secret_at_one _ = fail not_enough

    -- `GetSecretFromLog`
    unfoldable pub get_secret_from_log : EthLog → Bytes → Action S (PrivateSpendKey curve)
    unfolding secret_at_one
    get_secret_from_log log event =
        if is_event event
        then or_fail (unpack event log.data_bytes) (external []) >>= secret_at_one
        else fail invalid_event

    -- `Cmp` with a nil ID panics.
    unfoldable pub compare_id : ℕ → Option ℕ → Action S Bool
    compare_id event_id none = crash
    compare_id event_id (some id) = pure (event_id == id)

    unfoldable pub id_matches : Option ℕ → List AbiValue → Action S Bool
    unfolding compare_id
    id_matches id (big_int event_id ∷ _ ∷ _) = compare_id event_id id
    id_matches id (bytes_32 _ ∷ _ ∷ _) = crash
    id_matches id _ = fail not_enough

    -- `CheckIfLogIDMatches`
    unfoldable pub check_if_log_id_matches : EthLog → Bytes → Option ℕ → Action S Bool
    unfolding id_matches
    check_if_log_id_matches log event id =
        if is_event event
        then or_fail (unpack event log.data_bytes) (external []) >>= id_matches id
        else fail invalid_event

    unfoldable pub id_at_zero : List AbiValue → Action S ℕ
    id_at_zero (big_int id ∷ _) = pure id
    id_at_zero (bytes_32 _ ∷ _) = crash
    id_at_zero [] = fail not_enough

    -- `GetIDFromLog`
    unfoldable pub get_id_from_log : EthLog → Action S ℕ
    unfolding id_at_zero
    get_id_from_log log = or_fail (unpack (codes "New") log.data_bytes) (external []) >>= id_at_zero

    -- The loop of filterForClaim and filterForRefund over the logs: the first log of the swap; a
    -- log that cannot be read is passed over.
    unfoldable pub find_log : List EthLog → Bytes → Option ℕ → Action S (Option EthLog)
    unfolding check_if_log_id_matches
    find_log [] event id = pure none
    find_log (log ∷ logs) event id =
        let rest = find_log logs event id in
        handle (check_if_log_id_matches log event id) (λ b. if b then pure (some log) else rest)
          (λ _. rest)
