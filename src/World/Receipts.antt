-- ===== src/World/Receipts.antt =====
-- What a receipt that was waited for tells (common/utils.go).
use atomic_swap.Base.{ℕ, zero, suc, Bytes, List, ◌∷◌, ◌≡◌}
use atomic_swap.Base.Outcome.{ok}
use atomic_swap.Errors.{Err}
use atomic_swap.Action.{pure, fail, handle, handle_outcome}
use atomic_swap.Action.Inversion.{>>=-ok}
use atomic_swap.World.{
  Platform, History, Answer, value, failure, from_answer, EthLog, Io, ask, transaction_receipt,
}
use atomic_swap.World.Ethereum.{receipt_loop, wait_for_receipt}

-- A call that succeeded got a value.
pub from_answer-ok : {A : Type 0} (a : Answer A) (b : A) → from_answer a ≡ ok b → a ≡ value b
from_answer-ok (value c) b e = cc
from_answer-ok (failure t) b e = cc

module _ (p : Platform) where
  -- The node's answer to a question for the receipt of a transaction.
  abbrev pub Receipt : Bytes → List EthLog → Type 0
  Receipt tx logs =
      (before : History) × (p.receipt_answer (transaction_receipt tx ∷ before) ≡ value logs)

  answered :
      (a : Answer (List EthLog)) (g : Err → Io (List EthLog)) (h : History) (logs : List EthLog)
      (Q : Type 0)
      → (handle_outcome (from_answer a) pure g h).0 ≡ ok logs
      → (a ≡ value logs → Q)
      → ((e : Err) → (g e h).0 ≡ ok logs → Q)
      → Q
  unfolding pure
  answered (value v) g h logs Q e now later = now (from_answer-ok (value v) logs e)
  answered (failure t) g h logs Q e now later = later _ e

  receipt_loop-ok :
      (tries : ℕ) (tx : Bytes) (h : History) (logs : List EthLog)
      → (receipt_loop p tries tx h).0 ≡ ok logs
      → Receipt tx logs
  unfolding receipt_loop handle ask fail
  receipt_loop-ok zero tx h logs e = cc
  receipt_loop-ok (suc tries) tx h logs e =
      answered (p.receipt_answer (transaction_receipt tx ∷ h)) _ _ logs (Receipt tx logs) e
        (λ a. (h, a))
        (λ x e1. let (_, _, e2) = >>=-ok _ _ _ e1 in receipt_loop-ok tries tx _ logs e2)

  -- If waiting for a receipt succeeds, then the node answered with those logs.
  pub wait_for_receipt-ok :
      (tx : Bytes) (h : History) (logs : List EthLog)
      → (wait_for_receipt p tx h).0 ≡ ok logs
      → Receipt tx logs
  unfolding wait_for_receipt
  wait_for_receipt-ok tx h logs e = receipt_loop-ok 360 tx h logs e
