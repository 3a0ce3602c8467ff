-- ===== src/Alice/Calls.antt =====
-- Which of the calls that move funds Alice's operations can make.
use atomic_swap.Base.{
  ℕ, zero, suc, Bytes, Bool, true, false, Option, none, some, List, [], ◌∷◌, ◌≡◌, refl, ◌+◌, arith,
}
use atomic_swap.Action.{modify}
use atomic_swap.Action.Keeps.{
  Keeps, keeps, Keeps-pure, Keeps-fail, Keeps-if, Keeps-wrap, Keeps-handle, Keeps-bind,
  Keeps-or_fail, Keeps-crash, Keeps-hang,
}
use atomic_swap.Message.{MessageType, SendKeysMessage, NotifyXmrLock}
use atomic_swap.Types.Status.{Status}
use atomic_swap.World.{Platform, EthLog, AbiValue, big_int, bytes_32, Io}
use atomic_swap.World.Calls.{
  Kind, Made, Keeps-ask, Keeps-wait, wait_for_blocks-Keeps, verify_keys_and_proof-Keeps,
}
use atomic_swap.World.Ethereum.{get_id_from_log, id_at_zero}
use atomic_swap.Alice.{
  Config, State, io, clear_next_expected_message, set_next_expected_message, expect,
}
use atomic_swap.Alice.Chain.{first_id, timeouts_loop, set_timeouts}
use atomic_swap.Alice.Handler.{
  info_of, accept_keys, find_balance, shared_keys, await_blocks, locked_balance, check_locked_xmr,
  close_xmr_locked,
}

-- So many calls of the kind stand in the history of the swap state.
pub record MadeBy (p : Platform) (k : Kind) (n : ℕ) (s : State p) : Type 0 where
  pub made : Made k n s.history

module _ (p : Platform) (cfg : Config) {k : Kind} {n : ℕ} where
  pub Keeps-io : {A : Type 0} (m : Io A) → Keeps (Made k n) m → Keeps (MadeBy p k n) (io p m)
  unfolding io
  Keeps-io m h = record { kept = λ s g. record { made = h.kept s.history g.made } }

  pub Keeps-set :
      (f : State p → State p)
      → ((s : State p) → (f s).history ≡ s.history)
      → Keeps (MadeBy p k n) (modify f)
  unfolding modify
  Keeps-set f e = record { kept = λ s g. record { made = rw (e s) g.made } }

  pub Keeps-clear : (st : Status) → Keeps (MadeBy p k n) (clear_next_expected_message p st)
  unfolding clear_next_expected_message
  Keeps-clear st = record { kept = λ s g. record { made = g.made } }

  pub id_at_zero-Keeps : (vs : List AbiValue) → Keeps (MadeBy p k n) (id_at_zero p vs)
  unfolding id_at_zero
  id_at_zero-Keeps [] = Keeps-fail _
  id_at_zero-Keeps (big_int id ∷ vs) = Keeps-pure _
  id_at_zero-Keeps (bytes_32 b ∷ vs) = Keeps-crash

  pub accept_keys-Keeps :
      (msg : SendKeysMessage p.float.Carrier) → Keeps (MadeBy p k n) (accept_keys p cfg msg)
  unfolding accept_keys info_of
  accept_keys-Keeps msg =
      search (keeps, Keeps-io, verify_keys_and_proof-Keeps, Keeps-set) depth 30 fits 3000

  pub find_balance-Keeps :
      (i : ℕ) (addr : Bytes) (accounts : List (Option Bytes))
      → Keeps (MadeBy p k n) (find_balance p cfg i addr accounts)
  unfolding find_balance
  find_balance-Keeps i addr [] = Keeps-pure _
  find_balance-Keeps i addr (none ∷ accounts) = Keeps-crash
  find_balance-Keeps i addr (some acc ∷ accounts) =
      Keeps-if _ _ _
        (Keeps-bind _ _ (Keeps-wrap _ _ (Keeps-io _ (Keeps-ask _ _ refl))) (λ b. Keeps-pure _))
        (find_balance-Keeps (i + 1) addr accounts)

  pub await_blocks-Keeps : (b : Bool) → Keeps (MadeBy p k n) (await_blocks p cfg b)
  unfolding await_blocks
  await_blocks-Keeps true = Keeps-pure _
  await_blocks-Keeps false =
      Keeps-bind _ _ (Keeps-io _ (wait_for_blocks-Keeps p 2)) (λ h. Keeps-pure _)

  pub check_locked_xmr-Keeps :
      (msg : NotifyXmrLock) → Keeps (MadeBy p k n) (check_locked_xmr p cfg msg)
  unfolding check_locked_xmr locked_balance shared_keys info_of
  check_locked_xmr-Keeps msg =
      search (keeps, Keeps-io, Keeps-ask, await_blocks-Keeps, find_balance-Keeps) depth 40 fits 3000

  pub first_id-Keeps : (logs : List EthLog) → Keeps (MadeBy p k n) (first_id p cfg logs)
  unfolding first_id get_id_from_log
  first_id-Keeps [] = Keeps-fail _
  first_id-Keeps (log ∷ logs) =
      Keeps-handle _ _ _ (Keeps-bind _ _ (Keeps-or_fail _ _) id_at_zero-Keeps) Keeps-pure
        (λ e. Keeps-bind _ _ (Keeps-set _ (λ s. refl)) (λ u. Keeps-fail _))

  pub timeouts_loop-Keeps : (rounds id : ℕ) → Keeps (MadeBy p k n) (timeouts_loop p cfg rounds id)
  unfolding timeouts_loop
  timeouts_loop-Keeps zero id = Keeps-hang
  timeouts_loop-Keeps (suc rounds) id =
      Keeps-handle _ _ _ (Keeps-io _ (Keeps-ask _ _ refl)) (λ info. Keeps-set _ (λ s. refl))
        (λ e. Keeps-bind _ _ (Keeps-io _ (Keeps-wait _ refl)) (λ u. timeouts_loop-Keeps rounds id))

  pub set_timeouts-Keeps : Keeps (MadeBy p k n) (set_timeouts p cfg)
  unfolding set_timeouts
  set_timeouts-Keeps = search (keeps, timeouts_loop-Keeps) depth 30 fits 3000

  pub Keeps-expect : (t : MessageType) → Keeps (MadeBy p k n) (set_next_expected_message p t)
  unfolding set_next_expected_message expect
  Keeps-expect t = record { kept = λ s g. record { made = by_old s.next_expected s g.made } }
    where
      by_old :
          (o : Option MessageType) (s : State p)
          → Made k n s.history
          → Made k n (expect p o t s).history
      by_old none s g = g
      by_old (some u) s g = ground (arith, g)

  pub close_xmr_locked-Keeps : Keeps (MadeBy p k n) (close_xmr_locked p cfg)
  unfolding close_xmr_locked
  close_xmr_locked-Keeps = search (keeps, Keeps-set) depth 30 fits 3000
