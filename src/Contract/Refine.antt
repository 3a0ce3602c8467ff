-- ===== src/Contract/Refine.antt =====
-- SwapFactory.sol is the abstract machine of swaps.
use atomic_swap.Base.{
  ℕ, ◌≤◌, ◌<◌, ◌≡◌, ◌≢◌, ◌⊎◌, inl, inr, refl, sym, ap, ◌∙◌, Bool, true, false, some, List, [], ◌∷◌,
  lookup, insert, All, arith,
}
use atomic_swap.Contract.{
  Contract, Msg, Log, new, ready, claimed, refunded, mul_verify, swap_at, created, new_swap,
  set_ready, claim, refund,
}
use atomic_swap.Contract.Steps.{
  Action, new_swap_call, set_ready_call, claim_call, refund_call, deployed, apply, run, IsSigned,
}
use atomic_swap.Contract.Funds.{IsSolvent, deployed-IsSolvent, apply-IsSolvent}
use atomic_swap.Contract.Spec.{terms_of, phase_of, view, Step, begin, say_ready, Reach, start, next}
use atomic_swap.Contract.Phases.{
  view_eq, owned, claimable, phase_pending, phase_ready, claim_window, refund_window,
}

module _ (ecrecover : ℕ → ℕ → ℕ → ℕ → ℕ) (accepts : ℕ → Bool) where
  claim_cases :
      (id s : ℕ) (msg : Msg) (c : Contract)
      → let r = claim ecrecover accepts id s msg c in
        let swap = swap_at id c in
        (r.1 ≡ c)
        ⊎ ((swap.completed ≡ false)
            × (swap.claimer ≡ msg.sender)
            × ((swap.timeout_0 ≤ msg.timestamp) ⊎ (swap.is_ready ≡ true))
            × (msg.timestamp < swap.timeout_1)
            × (mul_verify ecrecover s swap.pub_key_claim ≡ true)
            × (r.1.logs ≡ claimed id s ∷ c.logs)
            × (r.1.swaps ≡ insert id (record swap { completed = true }) c.swaps)
            × (r.1.paid ≡ (swap.claimer, swap.value) ∷ c.paid))
  unfolding claim
  claim_cases id s msg c = ground arith

  refund_cases :
      (id s : ℕ) (msg : Msg) (c : Contract)
      → let r = refund ecrecover accepts id s msg c in
        let swap = swap_at id c in
        (r.1 ≡ c)
        ⊎ ((swap.completed ≡ false)
            × (swap.owner ≡ msg.sender)
            × ((swap.timeout_1 ≤ msg.timestamp)
                ⊎ ((msg.timestamp < swap.timeout_0) × (swap.is_ready ≡ false)))
            × (mul_verify ecrecover s swap.pub_key_refund ≡ true)
            × (r.1.logs ≡ refunded id s ∷ c.logs)
            × (r.1.swaps ≡ insert id (record swap { completed = true }) c.swaps)
            × (r.1.paid ≡ (swap.owner, swap.value) ∷ c.paid))
  unfolding refund
  refund_cases id s msg c = ground arith

  set_ready_cases :
      (id : ℕ) (msg : Msg) (c : Contract)
      → let r = set_ready id msg c in
        let swap = swap_at id c in
        (r.1 ≡ c)
        ⊎ ((swap.completed ≡ false)
            × (swap.owner ≡ msg.sender)
            × (swap.is_ready ≡ false)
            × (r.1.logs ≡ ready id ∷ c.logs)
            × (r.1.swaps ≡ insert id (record swap { is_ready = true }) c.swaps)
            × (r.1.paid ≡ c.paid))
  unfolding set_ready
  set_ready_cases id msg c = ground arith

  new_swap_cases :
      (ck rk claimer duration : ℕ) (msg : Msg) (c : Contract)
      → let r = new_swap ck rk claimer duration msg c in
        (r.1 ≡ c)
        ⊎ ((r.1.logs ≡ new c.next_id ck rk ∷ c.logs)
            × (r.1.swaps ≡ insert c.next_id (created ck rk claimer duration msg) c.swaps)
            × (r.1.paid ≡ c.paid))
  unfolding new_swap
  new_swap_cases ck rk claimer duration msg c = ground arith

  -- The call changes nothing, or it logs one event, and that is a step of the machine.
  abbrev Refines : Msg → Contract → Contract → Type 0
  Refines msg c c' =
      (c' ≡ c) ⊎ ((l : Log) × (c'.logs ≡ l ∷ c.logs) × Step ecrecover msg (view c) l (view c'))

  claim-Refines :
      (id s : ℕ) (msg : Msg) (c : Contract)
      → msg.sender ≢ 0
      → Refines msg c (claim ecrecover accepts id s msg c).1
  unfolding swap_at
  claim-Refines id s msg c h = elim (claim_cases id s msg c) [
    | inl e ↦ inl e
    | inr (open_, who, turn, late, secret, el, es, ep) ↦
        let swap = swap_at id c in
        let c' = (claim ecrecover accepts id s msg c).1 in
        let at = claimable (lookup id c.swaps) (λ z. h (sym who ∙ z)) in
        inr (
          claimed id s,
          el,
          rw
              (view_eq id (record swap { completed = true }) ((swap.claimer, swap.value) ∷ c.paid) c
                c' es ep)
              (Step.claim id s (terms_of swap)
                (claim_window msg.timestamp (lookup id c.swaps) swap at open_ turn late) who
                secret),
        )
  ]

  refund-Refines :
      (id s : ℕ) (msg : Msg) (c : Contract)
      → msg.sender ≢ 0
      → Refines msg c (refund ecrecover accepts id s msg c).1
  unfolding swap_at
  refund-Refines id s msg c h = elim (refund_cases id s msg c) [
    | inl e ↦ inl e
    | inr (open_, who, turn, secret, el, es, ep) ↦
        let swap = swap_at id c in
        let c' = (refund ecrecover accepts id s msg c).1 in
        let at = owned (lookup id c.swaps) (λ z. h (sym who ∙ z)) in
        inr (
          refunded id s,
          el,
          rw
              (view_eq id (record swap { completed = true }) ((swap.owner, swap.value) ∷ c.paid) c
                c' es ep)
              (Step.refund id s (terms_of swap)
                (refund_window msg.timestamp (lookup id c.swaps) swap at open_ turn) who secret),
        )
  ]

  set_ready-Refines :
      (id : ℕ) (msg : Msg) (c : Contract) → msg.sender ≢ 0 → Refines msg c (set_ready id msg c).1
  unfolding swap_at
  set_ready-Refines id msg c h = elim (set_ready_cases id msg c) [
    | inl e ↦ inl e
    | inr (open_, who, not_yet, el, es, ep) ↦
        let swap = swap_at id c in
        let c' = (set_ready id msg c).1 in
        let at = owned (lookup id c.swaps) (λ z. h (sym who ∙ z)) in
        let now_ready =
          phase_ready (some (record swap { is_ready = true })) (record swap { is_ready = true })
            refl open_ refl in
        inr (
          ready id,
          el,
          rw (view_eq id (record swap { is_ready = true }) c.paid c c' es ep, now_ready)
              (say_ready id (terms_of swap)
                (phase_pending (lookup id c.swaps) swap at open_ not_yet) who),
        )
  ]

  new_swap-Refines :
      (ck rk claimer duration : ℕ) (msg : Msg) (c : Contract)
      → IsSolvent c
      → Refines msg c (new_swap ck rk claimer duration msg c).1
  new_swap-Refines ck rk claimer duration msg c v =
      elim (new_swap_cases ck rk claimer duration msg c) [
        | inl e ↦ inl e
        | inr (el, es, ep) ↦
            let swap = created ck rk claimer duration msg in
            let c' = (new_swap ck rk claimer duration msg c).1 in
            inr (
              new c.next_id ck rk,
              el,
              rw (view_eq c.next_id swap c.paid c c' es ep) (
                  begin c.next_id duration (terms_of swap)
                    (ap phase_of (v.fresh c.next_id (omega arith))) refl refl refl refl),
            )
      ]

  apply-Refines :
      (a : Action) (msg : Msg) (c : Contract)
      → msg.sender ≢ 0
      → IsSolvent c
      → Refines msg c (apply ecrecover accepts a msg c)
  unfolding apply
  apply-Refines (new_swap_call ck rk claimer duration) msg c h v =
      new_swap-Refines ck rk claimer duration msg c v
  apply-Refines (set_ready_call id) msg c h v = set_ready-Refines id msg c h
  apply-Refines (claim_call id s) msg c h v = claim-Refines id s msg c h
  apply-Refines (refund_call id s) msg c h v = refund-Refines id s msg c h

  -- The contract is where the machine gets by the steps that the contract logged.
  abbrev IsRun : Contract → Type 0
  IsRun c = Reach ecrecover c.logs (view c)

  apply-IsRun :
      (a : Action) (msg : Msg) (c : Contract)
      → msg.sender ≢ 0
      → IsSolvent c
      → IsRun c
      → IsRun (apply ecrecover accepts a msg c)
  apply-IsRun a msg c h v r = elim (apply-Refines a msg c h v) [
    | inl e ↦ rw e r
    | inr (l, el, step) ↦ rw el (next msg r step)
  ]

  run-IsRun :
      (calls : List (Action × Msg)) (c : Contract)
      → All IsSigned calls
      → IsSolvent c
      → IsRun c
      → IsRun (run ecrecover accepts calls c)
  unfolding run
  run-IsRun [] c h v r = r
  run-IsRun ((a, msg) ∷ calls) c h v r =
      run-IsRun calls (apply ecrecover accepts a msg c) h.1
        (apply-IsSolvent ecrecover accepts a msg c h.0 v) (apply-IsRun a msg c h.0 v r)

  -- The contract refines the abstract machine of swaps: after any sequence of calls by senders other
  -- than the zero address, its phases and payments are those that the machine reaches by exactly the
  -- steps that the logs tell.
  pub run-Reach :
      (calls : List (Action × Msg))
      → All IsSigned calls
      → let c = run ecrecover accepts calls deployed in Reach ecrecover c.logs (view c)
  unfolding lookup
  run-Reach calls h = run-IsRun calls deployed h deployed-IsSolvent start
