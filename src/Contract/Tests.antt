-- ===== src/Contract/Tests.antt =====
-- A swap on SwapFactory.sol: account 10 locks 5 wei for account 20, says that it is ready, and
-- account 20 claims with the secret 1. The precompiled contract is the scalar itself.
use atomic_swap.Base.{
  ℕ, ◌≤◌, ◌+◌, ◌*◌, ◌%◌, ◌≡◌, ◌⊎◌, ◌↔◌, refl, Bool, true, List, [], ◌∷◌, All, lookup, insert, arith,
}
use atomic_swap.Base.Outcome.{ok, err}
use atomic_swap.Contract.{
  Msg, swap_at, new_swap, set_ready, claim, refund, mul_verify, gx, order, already_completed,
  counterparty_turn, too_early, too_late,
}
use atomic_swap.Contract.Steps.{
  Action, new_swap_call, set_ready_call, claim_call, deployed, apply, run, IsSigned,
}
use atomic_swap.Contract.Funds.{locked, deposited, total_paid, run_solvent}
use atomic_swap.Contract.Secrets.{Revealed, completed-Revealed, settled_final}
use atomic_swap.Contract.Spec.{Reach, view}
use atomic_swap.Contract.Refine.{run-Reach}
use atomic_swap.Contract.Once.{settlements, tally, settlements-run}
use atomic_swap.Contract.Enabled.{MayClaim, MayRefund, settle_iff}
use atomic_swap.Contract.Windows.{claim-refund_exclusive}

abbrev ecrecover : ℕ → ℕ → ℕ → ℕ → ℕ
ecrecover h v r s = s

abbrev accepts : ℕ → Bool
accepts a = true

abbrev by : ℕ → ℕ → ℕ → Msg
by sender value timestamp = record { sender = sender; value = value; timestamp = timestamp }

abbrev opened : List (Action × Msg)
opened =
    (new_swap_call gx (2 * gx % order) 20 100, by 10 5 1_000)
    ∷ (set_ready_call 0, by 10 0 1_010)
    ∷ []

abbrev settled : List (Action × Msg)
settled = (claim_call 0 1, by 20 0 1_020) ∷ []

abbrev both : List (Action × Msg)
both =
    (new_swap_call gx (2 * gx % order) 20 100, by 10 5 1_000)
    ∷ (set_ready_call 0, by 10 0 1_010)
    ∷ (claim_call 0 1, by 20 0 1_020)
    ∷ []

opened-IsSigned : All IsSigned opened
opened-IsSigned = ((λ h. cc), ((λ h. cc), tt))

settled-IsSigned : All IsSigned settled
settled-IsSigned = ((λ h. cc), tt)

both-IsSigned : All IsSigned both
both-IsSigned = ((λ h. cc), ((λ h. cc), ((λ h. cc), tt)))

run_solvent_example :
    let c = run ecrecover accepts opened deployed in
    (c.balance ≡ locked c.swaps) × (deposited c.swaps ≡ c.balance + total_paid c.paid)
run_solvent_example = run_solvent ecrecover accepts opened opened-IsSigned

completed-Revealed_example :
    let c = run ecrecover accepts both deployed in Revealed ecrecover 0 (swap_at 0 c) c.logs
unfolding run apply new_swap set_ready claim swap_at mul_verify lookup insert
completed-Revealed_example = completed-Revealed ecrecover accepts both 0 refl

settled_final_example :
    let c = run ecrecover accepts settled (run ecrecover accepts both deployed) in
    (claim ecrecover accepts 0 1 (by 20 0 1_030) c ≡ (err already_completed, c))
    × (refund ecrecover accepts 0 1 (by 20 0 1_030) c ≡ (err already_completed, c))
    × (set_ready 0 (by 20 0 1_030) c ≡ (err already_completed, c))
unfolding run apply new_swap set_ready claim swap_at mul_verify lookup insert
settled_final_example =
    settled_final ecrecover accepts both settled 0 1 (by 20 0 1_030) both-IsSigned settled-IsSigned
      refl

claim-refund_exclusive_example :
    let c = run ecrecover accepts opened deployed in
    let claimed = (claim ecrecover accepts 0 1 (by 20 0 1_020) c).0 in
    let refunded = (refund ecrecover accepts 0 2 (by 10 0 1_020) c).0 in
    ((claimed ≡ ok tt) × (refunded ≡ err counterparty_turn))
    ⊎ ((refunded ≡ ok tt) × ((claimed ≡ err too_early) ⊎ (claimed ≡ err too_late)))
unfolding run apply new_swap set_ready swap_at mul_verify lookup insert
claim-refund_exclusive_example =
    claim-refund_exclusive ecrecover accepts 0 1 2 1_020 (run ecrecover accepts opened deployed)
      refl (omega arith) refl refl refl refl

run-Reach_example : let c = run ecrecover accepts both deployed in Reach ecrecover c.logs (view c)
run-Reach_example = run-Reach ecrecover accepts both both-IsSigned

settlements-run_example :
    let c = run ecrecover accepts both deployed in
    (settlements 0 c.logs ≤ 1) × (settlements 0 c.logs ≡ tally ((view c).phase 0))
settlements-run_example = settlements-run ecrecover accepts both 0 both-IsSigned

settle_iff_example :
    let c = run ecrecover accepts opened deployed in
    (((claim ecrecover accepts 0 1 (by 20 0 1_020) c).0 ≡ ok tt)
      ↔ MayClaim ecrecover accepts 0 1 (by 20 0 1_020) ((view c).phase 0))
    × (((refund ecrecover accepts 0 1 (by 20 0 1_020) c).0 ≡ ok tt)
        ↔ MayRefund ecrecover accepts 0 1 (by 20 0 1_020) ((view c).phase 0))
settle_iff_example =
    settle_iff ecrecover accepts opened 0 1 (by 20 0 1_020) opened-IsSigned (λ h. cc)
