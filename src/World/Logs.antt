-- ===== src/World/Logs.antt =====
-- The readers of logs (swapfactory/utils.go) keep whatever holds of the state: they touch nothing.
use atomic_swap.Base.{ℕ, Bytes, Option, none, some, List, [], ◌∷◌}
use atomic_swap.Action.Keeps.{
  Keeps, keeps, Keeps-pure, Keeps-fail, Keeps-crash, Keeps-if, Keeps-bind, Keeps-handle,
  Keeps-or_fail,
}
use atomic_swap.World.{Platform, EthLog, AbiValue, big_int, bytes_32}
use atomic_swap.World.Ethereum.{
  key_from_secret, secret_at_one, get_secret_from_log, compare_id, id_matches,
  check_if_log_id_matches, find_log,
}

module _ (p : Platform) {S : Type 0} {P : S → Type 0} where
  secret_at_one-Keeps : (vs : List AbiValue) → Keeps P (secret_at_one p vs)
  unfolding secret_at_one key_from_secret
  secret_at_one-Keeps [] = Keeps-fail _
  secret_at_one-Keeps (v ∷ []) = Keeps-fail _
  secret_at_one-Keeps (v ∷ bytes_32 s ∷ vs) = search keeps
  secret_at_one-Keeps (v ∷ big_int b ∷ vs) = Keeps-crash

  pub get_secret_from_log-Keeps :
      (log : EthLog) (event : Bytes) → Keeps P (get_secret_from_log p log event)
  unfolding get_secret_from_log
  get_secret_from_log-Keeps log event =
      Keeps-if _ _ _ (Keeps-bind _ _ (Keeps-or_fail _ _) secret_at_one-Keeps) (Keeps-fail _)

  compare_id-Keeps : (e : ℕ) (id : Option ℕ) → Keeps P (compare_id p e id)
  unfolding compare_id
  compare_id-Keeps e none = Keeps-crash
  compare_id-Keeps e (some id) = Keeps-pure _

  id_matches-Keeps : (id : Option ℕ) (vs : List AbiValue) → Keeps P (id_matches p id vs)
  unfolding id_matches
  id_matches-Keeps id [] = Keeps-fail _
  id_matches-Keeps id (big_int e ∷ []) = Keeps-fail _
  id_matches-Keeps id (bytes_32 e ∷ []) = Keeps-fail _
  id_matches-Keeps id (big_int e ∷ v ∷ vs) = compare_id-Keeps e id
  id_matches-Keeps id (bytes_32 e ∷ v ∷ vs) = Keeps-crash

  check_if_log_id_matches-Keeps :
      (log : EthLog) (event : Bytes) (id : Option ℕ)
      → Keeps P (check_if_log_id_matches p log event id)
  unfolding check_if_log_id_matches
  check_if_log_id_matches-Keeps log event id =
      Keeps-if _ _ _ (Keeps-bind _ _ (Keeps-or_fail _ _) (id_matches-Keeps id)) (Keeps-fail _)

  pub find_log-Keeps :
      (logs : List EthLog) (event : Bytes) (id : Option ℕ) → Keeps P (find_log p logs event id)
  unfolding find_log
  find_log-Keeps [] event id = Keeps-pure _
  find_log-Keeps (log ∷ logs) event id =
      Keeps-handle _ _ _ (check_if_log_id_matches-Keeps log event id)
        (λ b. Keeps-if _ _ _ (Keeps-pure _) (find_log-Keeps logs event id))
        (λ e. find_log-Keeps logs event id)
