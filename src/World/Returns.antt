-- ===== src/World/Returns.antt =====
-- The calls of the outside that end on every platform, with the retries that bound their loops.
use atomic_swap.Base.{ℕ, zero, suc, Bytes, Option, none, some, List, [], ◌∷◌, ◌≢◌}
use atomic_swap.Base.Outcome.{blocked}
use atomic_swap.Action.Returns.{
  Returns, returns, Returns-pure, Returns-fail, Returns-crash, Returns-bind, Returns-handle,
  Returns-or_fail, Returns-if,
}
use atomic_swap.Types.Environment.{Environment}
use atomic_swap.Crypto.Keys.{PrivateKeyPair}
use atomic_swap.World.{
  Platform, Call, History, Answer, value, failure, ask, now, wait, from_answer, EthLog, AbiValue,
  big_int, bytes_32,
}
use atomic_swap.World.Ethereum.{
  receipt_loop, wait_for_receipt, key_from_secret, secret_at_one, get_secret_from_log, compare_id,
  id_matches, check_if_log_id_matches, find_log,
}
use atomic_swap.World.Monero.{create_monero_wallet}

answered : {A : Type 0} (a : Answer A) → from_answer a ≢ blocked
answered (value a) h = cc
answered (failure t) h = cc

pub Returns-ask : {A : Type 0} (c : Call) (answer : History → Answer A) → Returns (ask c answer)
unfolding ask
Returns-ask c answer = record { from = λ h. answered (answer (c ∷ h)) }

pub Returns-now : (clock : History → ℕ) → Returns (now clock)
unfolding now
Returns-now clock = record { from = λ h e. cc }

pub Returns-wait : (c : Call) → Returns (wait c)
unfolding wait
Returns-wait c = record { from = λ h e. cc }

module _ (p : Platform) where
  receipt_loop-Returns : (tries : ℕ) (tx : Bytes) → Returns (receipt_loop p tries tx)
  unfolding receipt_loop
  receipt_loop-Returns zero tx = Returns-fail _
  receipt_loop-Returns (suc tries) tx =
      Returns-handle _ _ _ (Returns-ask _ _) Returns-pure
        (λ e. Returns-bind _ _ (Returns-wait _) (λ u. receipt_loop-Returns tries tx))

  pub wait_for_receipt-Returns : (tx : Bytes) → Returns (wait_for_receipt p tx)
  unfolding wait_for_receipt
  wait_for_receipt-Returns tx = receipt_loop-Returns 360 tx

  pub create_monero_wallet-Returns :
      (env : Environment) (kp : PrivateKeyPair p.curve) → Returns (create_monero_wallet p env kp)
  unfolding create_monero_wallet
  create_monero_wallet-Returns env kp = search (returns, Returns-ask) depth 20

  module _ {S : Type 0} where
    secret_at_one-Returns : (vs : List AbiValue) → Returns {S = S} (secret_at_one p vs)
    unfolding secret_at_one key_from_secret
    secret_at_one-Returns [] = Returns-fail _
    secret_at_one-Returns (v ∷ []) = Returns-fail _
    secret_at_one-Returns (v ∷ bytes_32 s ∷ vs) = search returns
    secret_at_one-Returns (v ∷ big_int b ∷ vs) = Returns-crash

    pub get_secret_from_log-Returns :
        (log : EthLog) (event : Bytes) → Returns {S = S} (get_secret_from_log p log event)
    unfolding get_secret_from_log
    get_secret_from_log-Returns log event =
        Returns-if _ _ _ (Returns-bind _ _ (Returns-or_fail _ _) secret_at_one-Returns)
          (Returns-fail _)

    compare_id-Returns : (e : ℕ) (id : Option ℕ) → Returns {S = S} (compare_id p e id)
    unfolding compare_id
    compare_id-Returns e none = Returns-crash
    compare_id-Returns e (some id) = Returns-pure _

    id_matches-Returns : (id : Option ℕ) (vs : List AbiValue) → Returns {S = S} (id_matches p id vs)
    unfolding id_matches
    id_matches-Returns id [] = Returns-fail _
    id_matches-Returns id (big_int e ∷ []) = Returns-fail _
    id_matches-Returns id (bytes_32 e ∷ []) = Returns-fail _
    id_matches-Returns id (big_int e ∷ v ∷ vs) = compare_id-Returns e id
    id_matches-Returns id (bytes_32 e ∷ v ∷ vs) = Returns-crash

    check_if_log_id_matches-Returns :
        (log : EthLog) (event : Bytes) (id : Option ℕ)
        → Returns {S = S} (check_if_log_id_matches p log event id)
    unfolding check_if_log_id_matches
    check_if_log_id_matches-Returns log event id =
        Returns-if _ _ _ (Returns-bind _ _ (Returns-or_fail _ _) (id_matches-Returns id))
          (Returns-fail _)

    pub find_log-Returns :
        (logs : List EthLog) (event : Bytes) (id : Option ℕ)
        → Returns {S = S} (find_log p logs event id)
    unfolding find_log
    find_log-Returns [] event id = Returns-pure _
    find_log-Returns (log ∷ logs) event id =
        Returns-handle _ _ _ (check_if_log_id_matches-Returns log event id)
          (λ b. Returns-if _ _ _ (Returns-pure _) (find_log-Returns logs event id))
          (λ e. find_log-Returns logs event id)
