-- ===== src/Contract/Enabled.antt =====
-- When calls of SwapFactory.sol succeed: exactly when the abstract machine has the step.
use atomic_swap.Base.{
  ℕ, ◌≤◌, ◌<◌, ◌≡◌, ◌≢◌, ◌↔◌, ◌⊎◌, inl, inr, sym, ap, ◌∙◌, Bool, true, false, List, lookup, All,
}
use atomic_swap.Base.Outcome.{ok}
use atomic_swap.Contract.{Contract, Msg, mul_verify, swap_at, claim, refund}
use atomic_swap.Contract.Steps.{Action, deployed, run, IsSigned}
use atomic_swap.Contract.Funds.{IsSolvent, deployed-IsSolvent, run-IsSolvent}
use atomic_swap.Contract.Spec.{Terms, Phase, terms_of, view, CanClaim, CanRefund}
use atomic_swap.Contract.Phases.{owned, claimable, claim_window, refund_window}
use atomic_swap.Contract.Guards.{
  claim_phases, refund_phases, phase_swap, claim-ok, claim_works, refund-ok, refund_works, paid_for,
}

module _ (ecrecover : ℕ → ℕ → ℕ → ℕ → ℕ) (accepts : ℕ → Bool) where
  -- The machine has the step, and the address takes the ether.
  abbrev pub MayClaim : ℕ → ℕ → Msg → Phase → Type 0
  MayClaim id s msg ph =
      (t : Terms) × CanClaim msg.timestamp ph t
      × (t.claimer ≡ msg.sender)
      × (mul_verify ecrecover s t.pub_key_claim ≡ true)
      × (accepts t.claimer ≡ true)

  abbrev pub MayRefund : ℕ → ℕ → Msg → Phase → Type 0
  MayRefund id s msg ph =
      (t : Terms) × CanRefund msg.timestamp ph t
      × (t.owner ≡ msg.sender)
      × (mul_verify ecrecover s t.pub_key_refund ≡ true)
      × (accepts t.owner ≡ true)

  claim-MayClaim :
      (id s : ℕ) (msg : Msg) (c : Contract)
      → msg.sender ≢ 0
      → (claim ecrecover accepts id s msg c).0 ≡ ok tt
      → MayClaim id s msg ((view c).phase id)
  unfolding swap_at
  claim-MayClaim id s msg c h e =
      let (open_, who, turn, late, secret, takes) = claim-ok ecrecover accepts id s msg c e in
      let at = claimable (lookup id c.swaps) (λ z. h (sym who ∙ z)) in
      (
        terms_of (swap_at id c),
        claim_window msg.timestamp (lookup id c.swaps) (swap_at id c) at open_ turn late,
        who,
        secret,
        takes,
      )

  -- The call works under what the terms say.
  claim_by_terms :
      (id s : ℕ) (msg : Msg) (c : Contract) (t : Terms)
      → IsSolvent c
      → terms_of (swap_at id c) ≡ t
      → (swap_at id c).completed ≡ false
      → (t.timeout_0 ≤ msg.timestamp) ⊎ ((swap_at id c).is_ready ≡ true)
      → msg.timestamp < t.timeout_1
      → t.claimer ≡ msg.sender
      → mul_verify ecrecover s t.pub_key_claim ≡ true
      → accepts t.claimer ≡ true
      → (claim ecrecover accepts id s msg c).0 ≡ ok tt
  claim_by_terms id s msg c t v same open_ turn late who secret takes =
      let claimer = ap (λ (u : Terms). u.claimer) same in
      let key = ap (λ (u : Terms). u.pub_key_claim) same in
      let t0 = ap (λ (u : Terms). u.timeout_0) same in
      let t1 = ap (λ (u : Terms). u.timeout_1) same in
      claim_works ecrecover accepts id s msg c open_ (claimer ∙ who) (rw t0 turn) (rw t1 late)
        (rw key secret) (rw claimer takes) (paid_for id c v open_)

  refund_by_terms :
      (id s : ℕ) (msg : Msg) (c : Contract) (t : Terms)
      → IsSolvent c
      → terms_of (swap_at id c) ≡ t
      → (swap_at id c).completed ≡ false
      → (t.timeout_1 ≤ msg.timestamp)
        ⊎ ((msg.timestamp < t.timeout_0) × ((swap_at id c).is_ready ≡ false))
      → t.owner ≡ msg.sender
      → mul_verify ecrecover s t.pub_key_refund ≡ true
      → accepts t.owner ≡ true
      → (refund ecrecover accepts id s msg c).0 ≡ ok tt
  refund_by_terms id s msg c t v same open_ turn who secret takes =
      let owner = ap (λ (u : Terms). u.owner) same in
      let key = ap (λ (u : Terms). u.pub_key_refund) same in
      let t0 = ap (λ (u : Terms). u.timeout_0) same in
      let t1 = ap (λ (u : Terms). u.timeout_1) same in
      refund_works ecrecover accepts id s msg c open_ (owner ∙ who) (rw (t0, t1) turn)
        (rw key secret) (rw owner takes) (paid_for id c v open_)

  MayClaim-claim :
      (id s : ℕ) (msg : Msg) (c : Contract)
      → IsSolvent c
      → MayClaim id s msg ((view c).phase id)
      → (claim ecrecover accepts id s msg c).0 ≡ ok tt
  unfolding swap_at
  MayClaim-claim id s msg c v (t, turn, who, secret, takes) =
      elim (claim_phases msg.timestamp ((view c).phase id) t turn) [
        | inl (ph, a, b) ↦
            let (same, open_, r) = phase_swap (lookup id c.swaps) t false ph in
            claim_by_terms id s msg c t v same open_ (inl a) b who secret takes
        | inr (ph, b) ↦
            let (same, open_, r) = phase_swap (lookup id c.swaps) t true ph in
            claim_by_terms id s msg c t v same open_ (inr r) b who secret takes
      ]

  refund-MayRefund :
      (id s : ℕ) (msg : Msg) (c : Contract)
      → msg.sender ≢ 0
      → (refund ecrecover accepts id s msg c).0 ≡ ok tt
      → MayRefund id s msg ((view c).phase id)
  unfolding swap_at
  refund-MayRefund id s msg c h e =
      let (open_, who, turn, secret, takes) = refund-ok ecrecover accepts id s msg c e in
      let at = owned (lookup id c.swaps) (λ z. h (sym who ∙ z)) in
      (
        terms_of (swap_at id c),
        refund_window msg.timestamp (lookup id c.swaps) (swap_at id c) at open_ turn,
        who,
        secret,
        takes,
      )

  MayRefund-refund :
      (id s : ℕ) (msg : Msg) (c : Contract)
      → IsSolvent c
      → MayRefund id s msg ((view c).phase id)
      → (refund ecrecover accepts id s msg c).0 ≡ ok tt
  unfolding swap_at
  MayRefund-refund id s msg c v (t, turn, who, secret, takes) =
      elim (refund_phases msg.timestamp ((view c).phase id) t turn) [
        | inl (ph, inl a) ↦
            let (same, open_, r) = phase_swap (lookup id c.swaps) t false ph in
            refund_by_terms id s msg c t v same open_ (inl a) who secret takes
        | inl (ph, inr a) ↦
            let (same, open_, r) = phase_swap (lookup id c.swaps) t false ph in
            refund_by_terms id s msg c t v same open_ (inr (a, r)) who secret takes
        | inr (ph, a) ↦
            let (same, open_, r) = phase_swap (lookup id c.swaps) t true ph in
            refund_by_terms id s msg c t v same open_ (inl a) who secret takes
      ]

  -- The contract does exactly what the machine allows: after any sequence of calls by senders other
  -- than the zero address, a claim by such a sender succeeds if and only if the machine has a claim
  -- in this phase at this time, by the claimer and with a secret that opens the claim key, and the
  -- claimer's address takes the ether; and a refund if and only if it has a refund, by the owner and
  -- with a secret that opens the refund key, and the owner's address takes the ether.
  pub settle_iff :
      (calls : List (Action × Msg)) (id s : ℕ) (msg : Msg)
      → All IsSigned calls
      → msg.sender ≢ 0
      → let c = run ecrecover accepts calls deployed in
        (((claim ecrecover accepts id s msg c).0 ≡ ok tt) ↔ MayClaim id s msg ((view c).phase id))
        × (((refund ecrecover accepts id s msg c).0 ≡ ok tt)
            ↔ MayRefund id s msg ((view c).phase id))
  settle_iff calls id s msg g h =
      let c = run ecrecover accepts calls deployed in
      let v = run-IsSolvent ecrecover accepts calls deployed g deployed-IsSolvent in
      (
        (claim-MayClaim id s msg c h, MayClaim-claim id s msg c v),
        (refund-MayRefund id s msg c h, MayRefund-refund id s msg c v),
      )
