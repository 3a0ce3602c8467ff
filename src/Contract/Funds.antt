-- ===== src/Contract/Funds.antt =====
-- Where the ether of SwapFactory.sol is, over any sequence of calls.
use atomic_swap.Base.{
  ℕ, ◌+◌, ◌≤◌, ◌≡◌, ◌≢◌, refl, Bool, arith, List, [], ◌∷◌, Dict, lookup, insert, lookup-insert,
  none, All, if◌then◌else◌,
}
use atomic_swap.Base.Outcome.{err}
use atomic_swap.Contract.{
  Contract, Msg, Swap, or_no_swap, swap_at, new_swap, set_ready, claim, refund, no_funds,
}
use atomic_swap.Contract.Steps.{
  Action, new_swap_call, set_ready_call, claim_call, refund_call, deployed, apply, run, IsSigned,
}

-- The ether of a swap that is still open.
abbrev pub open_value : Swap → ℕ
open_value s = if s.completed then 0 else s.value

pub locked : Dict Swap → ℕ
locked [] = 0
locked ((_, s) ∷ d) = open_value s + locked d

pub total_paid : List (ℕ × ℕ) → ℕ
total_paid [] = 0
total_paid ((_, v) ∷ ps) = v + total_paid ps

-- What was ever sent to the contract for the swaps of the mapping.
pub deposited : Dict Swap → ℕ
deposited [] = 0
deposited ((_, s) ∷ d) = s.value + deposited d

deposited-insert :
    (k : ℕ) (s : Swap) (d : Dict Swap)
    → deposited (insert k s d) + (or_no_swap (lookup k d)).value ≡ deposited d + s.value
unfolding deposited lookup insert
deposited-insert k s [] = ground arith
deposited-insert k s ((j, t) ∷ d) = ground (arith, deposited-insert k s d)

-- A write replaces what was locked under its key.
locked-insert :
    (k : ℕ) (s : Swap) (d : Dict Swap)
    → locked (insert k s d) + open_value (or_no_swap (lookup k d)) ≡ locked d + open_value s
unfolding locked lookup insert
locked-insert k s [] = ground arith
locked-insert k s ((j, t) ∷ d) = ground (arith, locked-insert k s d)

-- No swap holds more than all of them.
pub open_value-le-locked : (k : ℕ) (d : Dict Swap) → open_value (or_no_swap (lookup k d)) ≤ locked d
unfolding locked lookup
open_value-le-locked k [] = ground arith
open_value-le-locked k ((j, t) ∷ d) = ground (arith, open_value-le-locked k d)

-- The contract holds exactly the ether of its open swaps, what was deposited is held or was paid
-- out, and an ID that was not given out has no swap.
pub record IsSolvent (c : Contract) : Type 0 where
  pub funded : c.balance ≡ locked c.swaps
  pub accounted : deposited c.swaps ≡ c.balance + total_paid c.paid
  pub fresh : (k : ℕ) → c.next_id ≤ k → lookup k c.swaps ≡ none

pub deployed-IsSolvent : IsSolvent deployed
unfolding locked deposited total_paid lookup
deployed-IsSolvent = record { funded = refl; accounted = refl; fresh = λ k h. refl }

module _ (ecrecover : ℕ → ℕ → ℕ → ℕ → ℕ) (accepts : ℕ → Bool) where
  pub apply-IsSolvent :
      (a : Action) (msg : Msg) (c : Contract)
      → msg.sender ≢ 0
      → IsSolvent c
      → IsSolvent (apply ecrecover accepts a msg c)
  unfolding apply new_swap set_ready claim refund swap_at total_paid
  apply-IsSolvent (new_swap_call ck rk claimer duration) msg c h v = record {
    funded = grind (arith, v.funded, v.fresh c.next_id, locked-insert);
    accounted = grind (arith, v.accounted, v.fresh c.next_id, deposited-insert);
    fresh = λ k b. grind (arith, v.fresh k, lookup-insert);
  }
  apply-IsSolvent (set_ready_call id) msg c h v = record {
    funded = grind (arith, v.funded, locked-insert);
    accounted = grind (arith, v.accounted, deposited-insert);
    fresh = λ k b. grind (arith, v.fresh k, lookup-insert);
  }
  apply-IsSolvent (claim_call id s) msg c h v = record {
    funded = grind (arith, v.funded, locked-insert, open_value-le-locked);
    accounted = grind (arith, v.accounted, v.funded, open_value-le-locked, deposited-insert);
    fresh = λ k b. grind (arith, v.fresh k, lookup-insert);
  }
  apply-IsSolvent (refund_call id s) msg c h v = record {
    funded = grind (arith, v.funded, locked-insert, open_value-le-locked);
    accounted = grind (arith, v.accounted, v.funded, open_value-le-locked, deposited-insert);
    fresh = λ k b. grind (arith, v.fresh k, lookup-insert);
  }

  pub run-IsSolvent :
      (calls : List (Action × Msg)) (c : Contract)
      → All IsSigned calls
      → IsSolvent c
      → IsSolvent (run ecrecover accepts calls c)
  unfolding run
  run-IsSolvent [] c h v = v
  run-IsSolvent ((a, msg) ∷ calls) c h v =
      run-IsSolvent calls (apply ecrecover accepts a msg c) h.1 (apply-IsSolvent a msg c h.0 v)

  -- After any sequence of calls by senders other than the zero address, the contract holds exactly
  -- the ether of the swaps that are still open, and all that was deposited is held or paid out.
  pub run_solvent :
      (calls : List (Action × Msg))
      → All IsSigned calls
      → let c = run ecrecover accepts calls deployed in
        (c.balance ≡ locked c.swaps) × (deposited c.swaps ≡ c.balance + total_paid c.paid)
  run_solvent calls h =
      let v = run-IsSolvent calls deployed h deployed-IsSolvent in (v.funded, v.accounted)

  -- After any sequence of calls by senders other than the zero address, no claim and no refund
  -- fails for want of funds.
  pub settle_funded :
      (calls : List (Action × Msg)) (id s : ℕ) (msg : Msg)
      → All IsSigned calls
      → let c = run ecrecover accepts calls deployed in
        ((claim ecrecover accepts id s msg c).0 ≢ err no_funds)
        × ((refund ecrecover accepts id s msg c).0 ≢ err no_funds)
  unfolding claim refund swap_at
  settle_funded calls id s msg h =
      let c = run ecrecover accepts calls deployed in
      let v = run-IsSolvent calls deployed h deployed-IsSolvent in
      (
        grind (arith, v.funded, open_value-le-locked id c.swaps),
        grind (arith, v.funded, open_value-le-locked id c.swaps),
      )
