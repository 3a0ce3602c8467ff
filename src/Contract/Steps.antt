-- ===== src/Contract/Steps.antt =====
-- Any sequence of calls of SwapFactory.sol, by anybody, at any times.
use atomic_swap.Base.{ℕ, ◌≢◌, Bool, List, [], ◌∷◌}
use atomic_swap.Contract.{Contract, Msg, new_swap, set_ready, claim, refund}

pub data Action : Type 0 where
  new_swap_call : ℕ → ℕ → ℕ → ℕ → Action
  set_ready_call : ℕ → Action
  claim_call : ℕ → ℕ → Action
  refund_call : ℕ → ℕ → Action

-- `SwapFactory` after its constructor.
abbrev pub deployed : Contract
deployed = record { next_id = 0; swaps = []; balance = 0; paid = []; logs = [] }

module _ (ecrecover : ℕ → ℕ → ℕ → ℕ → ℕ) (accepts : ℕ → Bool) where
  unfoldable pub apply : Action → Msg → Contract → Contract
  apply (new_swap_call ck rk claimer duration) msg c = (new_swap ck rk claimer duration msg c).1
  apply (set_ready_call id) msg c = (set_ready id msg c).1
  apply (claim_call id s) msg c = (claim ecrecover accepts id s msg c).1
  apply (refund_call id s) msg c = (refund ecrecover accepts id s msg c).1

  unfoldable pub run : List (Action × Msg) → Contract → Contract
  run [] c = c
  run ((a, msg) ∷ calls) c = run calls (apply a msg c)

-- Nobody has the private key of the zero address.
abbrev pub IsSigned : Action × Msg → Type 0
IsSigned (_, msg) = msg.sender ≢ 0
