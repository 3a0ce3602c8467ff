-- ===== src/Contract/Guards.antt =====
-- What a call of claim or refund in SwapFactory.sol asks for, in terms of the swap's phase.
use atomic_swap.Base.{
  ℕ, ◌≤◌, ◌<◌, ◌≡◌, ◌⊎◌, inl, inr, refl, Bool, true, false, Option, none, some, if◌then◌else◌,
  arith,
}
use atomic_swap.Base.Outcome.{ok}
use atomic_swap.Contract.{Contract, Swap, Msg, mul_verify, or_no_swap, swap_at, claim, refund}
use atomic_swap.Contract.Funds.{IsSolvent, open_value-le-locked}
use atomic_swap.Contract.Spec.{
  Terms, Phase, pending, is_set_ready, settled, terms_of, phase_of, CanClaim, after_timeout,
  when_ready, CanRefund, before_timeout, pending_late, ready_late,
}

pub claim_phases :
    (now : ℕ) (ph : Phase) (t : Terms)
    → CanClaim now ph t
    → ((ph ≡ pending t) × (t.timeout_0 ≤ now) × (now < t.timeout_1))
      ⊎ ((ph ≡ is_set_ready t) × (now < t.timeout_1))
claim_phases now ph t (after_timeout _ a b) = inl (refl, a, b)
claim_phases now ph t (when_ready _ a) = inr (refl, a)

pub refund_phases :
    (now : ℕ) (ph : Phase) (t : Terms)
    → CanRefund now ph t
    → ((ph ≡ pending t) × ((t.timeout_1 ≤ now) ⊎ (now < t.timeout_0)))
      ⊎ ((ph ≡ is_set_ready t) × (t.timeout_1 ≤ now))
refund_phases now ph t (before_timeout _ a) = inl (refl, inr a)
refund_phases now ph t (pending_late _ a) = inl (refl, inl a)
refund_phases now ph t (ready_late _ a) = inr (refl, a)

-- What an open phase tells of the swap in the mapping.
pub phase_swap :
    (o : Option Swap) (t : Terms) (r : Bool)
    → phase_of o ≡ (if r then is_set_ready t else pending t)
    → (terms_of (or_no_swap o) ≡ t)
      × ((or_no_swap o).completed ≡ false)
      × ((or_no_swap o).is_ready ≡ r)
phase_swap none t true e = cc
phase_swap none t false e = cc
phase_swap (some s) t r e = by_flags s.completed s.is_ready r refl refl e
  where
    by_flags :
        (c r' r : Bool)
        → s.completed ≡ c
        → s.is_ready ≡ r'
        → (if c
            then settled (terms_of s)
            else (if r' then is_set_ready (terms_of s) else pending (terms_of s)))
          ≡ (if r then is_set_ready t else pending t)
        → (terms_of s ≡ t) × (s.completed ≡ false) × (s.is_ready ≡ r)
    by_flags true r' true ec er h = cc
    by_flags true r' false ec er h = cc
    by_flags false true true ec er h = (cc, ec, er)
    by_flags false true false ec er h = cc
    by_flags false false true ec er h = cc
    by_flags false false false ec er h = (cc, ec, er)

-- An open swap is paid for.
pub paid_for :
    (id : ℕ) (c : Contract)
    → IsSolvent c
    → (swap_at id c).completed ≡ false
    → (swap_at id c).value ≤ c.balance
unfolding swap_at
paid_for id c v h = grind (arith, v.funded, h, open_value-le-locked id c.swaps)

module _ (ecrecover : ℕ → ℕ → ℕ → ℕ → ℕ) (accepts : ℕ → Bool) where
  pub claim-ok :
      (id s : ℕ) (msg : Msg) (c : Contract)
      → let swap = swap_at id c in
        (claim ecrecover accepts id s msg c).0 ≡ ok tt
        → (swap.completed ≡ false)
          × (swap.claimer ≡ msg.sender)
          × ((swap.timeout_0 ≤ msg.timestamp) ⊎ (swap.is_ready ≡ true))
          × (msg.timestamp < swap.timeout_1)
          × (mul_verify ecrecover s swap.pub_key_claim ≡ true)
          × (accepts swap.claimer ≡ true)
  unfolding claim
  claim-ok id s msg c h = ground arith

  pub claim_works :
      (id s : ℕ) (msg : Msg) (c : Contract)
      → let swap = swap_at id c in
        swap.completed ≡ false
        → swap.claimer ≡ msg.sender
        → (swap.timeout_0 ≤ msg.timestamp) ⊎ (swap.is_ready ≡ true)
        → msg.timestamp < swap.timeout_1
        → mul_verify ecrecover s swap.pub_key_claim ≡ true
        → accepts swap.claimer ≡ true
        → swap.value ≤ c.balance
        → (claim ecrecover accepts id s msg c).0 ≡ ok tt
  unfolding claim
  claim_works id s msg c open_ who turn late secret takes funds = ground arith

  pub refund-ok :
      (id s : ℕ) (msg : Msg) (c : Contract)
      → let swap = swap_at id c in
        (refund ecrecover accepts id s msg c).0 ≡ ok tt
        → (swap.completed ≡ false)
          × (swap.owner ≡ msg.sender)
          × ((swap.timeout_1 ≤ msg.timestamp)
              ⊎ ((msg.timestamp < swap.timeout_0) × (swap.is_ready ≡ false)))
          × (mul_verify ecrecover s swap.pub_key_refund ≡ true)
          × (accepts swap.owner ≡ true)
  unfolding refund
  refund-ok id s msg c h = ground arith

  pub refund_works :
      (id s : ℕ) (msg : Msg) (c : Contract)
      → let swap = swap_at id c in
        swap.completed ≡ false
        → swap.owner ≡ msg.sender
        → (swap.timeout_1 ≤ msg.timestamp)
          ⊎ ((msg.timestamp < swap.timeout_0) × (swap.is_ready ≡ false))
        → mul_verify ecrecover s swap.pub_key_refund ≡ true
        → accepts swap.owner ≡ true
        → swap.value ≤ c.balance
        → (refund ecrecover accepts id s msg c).0 ≡ ok tt
  unfolding refund
  refund_works id s msg c open_ who turn secret takes funds = ground arith
