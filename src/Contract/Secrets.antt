-- ===== src/Contract/Secrets.antt =====
-- What a settled swap of SwapFactory.sol reveals, and that it is settled for good.
use atomic_swap.Base.{
  ℕ, ◌≡◌, ◌⊎◌, inl, inr, refl, Bool, true, false, arith, ◌==◌, List, [], ◌∷◌, lookup, insert,
  lookup-insert, ==_iff, All, if◌then◌else◌, Bool-cases,
}
use atomic_swap.Base.Outcome.{err}
use mathlib.Core.List.{Memᴰ}
use atomic_swap.Contract.{
  Contract, Msg, Swap, Log, new, ready, claimed, refunded, swap_at, created, new_swap, set_ready,
  claim, refund, already_completed, mul_verify,
}
use atomic_swap.Contract.Steps.{
  Action, new_swap_call, set_ready_call, claim_call, refund_call, deployed, apply, run, IsSigned,
}
use atomic_swap.Contract.Funds.{IsSolvent, deployed-IsSolvent, apply-IsSolvent, run-IsSolvent}

module _ (ecrecover : ℕ → ℕ → ℕ → ℕ → ℕ) where
  -- A secret that opens one of the two keys of the swap stands in the logs.
  abbrev pub Revealed : ℕ → Swap → List Log → Type 0
  Revealed id s logs =
      (secret : ℕ) × ((Memᴰ (claimed id secret) logs
          × (mul_verify ecrecover secret s.pub_key_claim ≡ true))
        ⊎ (Memᴰ (refunded id secret) logs × (mul_verify ecrecover secret s.pub_key_refund ≡ true)))

  Revealed-cons :
      (id : ℕ) (s : Swap) (l : Log) (logs : List Log)
      → Revealed id s logs
      → Revealed id s (l ∷ logs)
  Revealed-cons id s l logs (secret, inl (m, v)) = (secret, inl (Memᴰ.tail m, v))
  Revealed-cons id s l logs (secret, inr (m, v)) = (secret, inr (Memᴰ.tail m, v))

module _ (ecrecover : ℕ → ℕ → ℕ → ℕ → ℕ) (accepts : ℕ → Bool) where
  -- A claim changes nothing, or logs the secret that opens the claim key and completes the swap.
  claim_cases :
      (id s : ℕ) (msg : Msg) (c : Contract)
      → ((claim ecrecover accepts id s msg c).1 ≡ c)
        ⊎ ((mul_verify ecrecover s (swap_at id c).pub_key_claim ≡ true)
            × ((claim ecrecover accepts id s msg c).1.logs ≡ claimed id s ∷ c.logs)
            × ((claim ecrecover accepts id s msg c).1.swaps
                ≡ insert id (record (swap_at id c) { completed = true }) c.swaps))
  unfolding claim
  claim_cases id s msg c = ground arith

  -- The same of a refund and the refund key.
  refund_cases :
      (id s : ℕ) (msg : Msg) (c : Contract)
      → ((refund ecrecover accepts id s msg c).1 ≡ c)
        ⊎ ((mul_verify ecrecover s (swap_at id c).pub_key_refund ≡ true)
            × ((refund ecrecover accepts id s msg c).1.logs ≡ refunded id s ∷ c.logs)
            × ((refund ecrecover accepts id s msg c).1.swaps
                ≡ insert id (record (swap_at id c) { completed = true }) c.swaps))
  unfolding refund
  refund_cases id s msg c = ground arith

  abbrev IsRevealed : Contract → Type 0
  IsRevealed c =
      (k : ℕ) → (swap_at k c).completed ≡ true → Revealed ecrecover k (swap_at k c) c.logs

  swap_at-insert :
      (k j : ℕ) (s : Swap) (c c' : Contract)
      → c'.swaps ≡ insert k s c.swaps
      → swap_at j c' ≡ (if k == j then s else swap_at j c)
  unfolding swap_at
  swap_at-insert k j s c c' e = rw e (ground (arith, lookup-insert k j s c.swaps))

  new_swap_cases :
      (ck rk claimer duration : ℕ) (msg : Msg) (c : Contract)
      → ((new_swap ck rk claimer duration msg c).1 ≡ c)
        ⊎ (((new_swap ck rk claimer duration msg c).1.logs ≡ new c.next_id ck rk ∷ c.logs)
            × ((new_swap ck rk claimer duration msg c).1.swaps
                ≡ insert c.next_id (created ck rk claimer duration msg) c.swaps))
  unfolding new_swap
  new_swap_cases ck rk claimer duration msg c = ground arith

  set_ready_cases :
      (id : ℕ) (msg : Msg) (c : Contract)
      → ((set_ready id msg c).1 ≡ c)
        ⊎ (((swap_at id c).completed ≡ false)
            × ((set_ready id msg c).1.logs ≡ ready id ∷ c.logs)
            × ((set_ready id msg c).1.swaps
                ≡ insert id (record (swap_at id c) { is_ready = true }) c.swaps))
  unfolding set_ready
  set_ready_cases id msg c = ground arith

  -- A call that logs and writes one swap keeps the invariant, if it holds of the swap written.
  IsRevealed-write :
      (id : ℕ) (s : Swap) (l : Log) (c c' : Contract)
      → c'.swaps ≡ insert id s c.swaps
      → c'.logs ≡ l ∷ c.logs
      → (s.completed ≡ true → Revealed ecrecover id s (l ∷ c.logs))
      → IsRevealed c
      → IsRevealed c'
  IsRevealed-write id s l c c' es el new_one old k =
      rw (swap_at-insert id k s c c' es, el) (by_key (Bool-cases (id == k)))
    where
      by_key :
          ((id == k) ≡ true) ⊎ ((id == k) ≡ false)
          → (if id == k then s else swap_at k c).completed ≡ true
          → Revealed ecrecover k (if id == k then s else swap_at k c) (l ∷ c.logs)
      by_key (inl e) = rw (e, ← (==_iff id k).0 e) new_one
      by_key (inr e) = rw e (λ h. Revealed-cons ecrecover k (swap_at k c) l c.logs (old k h))

  apply-IsRevealed :
      (a : Action) (msg : Msg) (c : Contract)
      → IsRevealed c
      → IsRevealed (apply ecrecover accepts a msg c)
  unfolding apply
  apply-IsRevealed (new_swap_call ck rk claimer duration) msg c v =
      elim (new_swap_cases ck rk claimer duration msg c) [
        | inl e ↦ rw e v
        | inr (el, es) ↦ IsRevealed-write c.next_id _ _ c _ es el (λ h. cc) v
      ]
  apply-IsRevealed (set_ready_call id) msg c v = elim (set_ready_cases id msg c) [
    | inl e ↦ rw e v
    | inr (o, el, es) ↦ IsRevealed-write id _ _ c _ es el (λ h. cc) v
  ]
  apply-IsRevealed (claim_call id s) msg c v = elim (claim_cases id s msg c) [
    | inl e ↦ rw e v
    | inr (o, el, es) ↦ IsRevealed-write id _ _ c _ es el (λ h. (s, inl (Memᴰ.head refl, o))) v
  ]
  apply-IsRevealed (refund_call id s) msg c v = elim (refund_cases id s msg c) [
    | inl e ↦ rw e v
    | inr (o, el, es) ↦ IsRevealed-write id _ _ c _ es el (λ h. (s, inr (Memᴰ.head refl, o))) v
  ]

  run-IsRevealed :
      (calls : List (Action × Msg)) (c : Contract)
      → IsRevealed c
      → IsRevealed (run ecrecover accepts calls c)
  unfolding run
  run-IsRevealed [] c v = v
  run-IsRevealed ((a, msg) ∷ calls) c v =
      run-IsRevealed calls (apply ecrecover accepts a msg c) (apply-IsRevealed a msg c v)

  deployed-IsRevealed : IsRevealed deployed
  unfolding swap_at lookup
  deployed-IsRevealed k h = cc

  -- After any sequence of calls, for every completed swap a secret stands in the logs: a claimed
  -- log with a secret that opens the claim key of the swap, or a refunded log with a secret that
  -- opens its refund key.
  pub completed-Revealed :
      (calls : List (Action × Msg)) (id : ℕ)
      → let c = run ecrecover accepts calls deployed in
        (swap_at id c).completed ≡ true → Revealed ecrecover id (swap_at id c) c.logs
  completed-Revealed calls id = run-IsRevealed calls deployed deployed-IsRevealed id

  swap_at-next_id : (c : Contract) → IsSolvent c → (swap_at c.next_id c).completed ≡ false
  unfolding swap_at
  swap_at-next_id c v = rw (v.fresh c.next_id (omega arith))

  completed-write :
      (k id : ℕ) (s : Swap) (c c' : Contract)
      → c'.swaps ≡ insert k s c.swaps
      → ((swap_at k c).completed ≡ true → s.completed ≡ true)
      → (swap_at id c).completed ≡ true
      → (swap_at id c').completed ≡ true
  completed-write k id s c c' es keep h =
      rw (swap_at-insert k id s c c' es) (elim (Bool-cases (k == id)) [
        | inl e ↦ rw e (keep (rw (← (==_iff k id).0 e) at h))
        | inr e ↦ rw e h
      ])

  -- A completed swap stays completed, whatever is called then.
  apply-completed :
      (a : Action) (msg : Msg) (c : Contract) (id : ℕ)
      → IsSolvent c
      → (swap_at id c).completed ≡ true
      → (swap_at id (apply ecrecover accepts a msg c)).completed ≡ true
  unfolding apply
  apply-completed (new_swap_call ck rk claimer duration) msg c id v h =
      elim (new_swap_cases ck rk claimer duration msg c) [
        | inl e ↦ rw e h
        | inr (el, es) ↦ completed-write c.next_id id _ c _ es (λ h'. cc (swap_at-next_id c v)) h
      ]
  apply-completed (set_ready_call i) msg c id v h = elim (set_ready_cases i msg c) [
    | inl e ↦ rw e h
    | inr (o, el, es) ↦ completed-write i id _ c _ es (λ h'. h') h
  ]
  apply-completed (claim_call i s) msg c id v h = elim (claim_cases i s msg c) [
    | inl e ↦ rw e h
    | inr (o, el, es) ↦ completed-write i id _ c _ es (λ h'. refl) h
  ]
  apply-completed (refund_call i s) msg c id v h = elim (refund_cases i s msg c) [
    | inl e ↦ rw e h
    | inr (o, el, es) ↦ completed-write i id _ c _ es (λ h'. refl) h
  ]

  run-completed :
      (calls : List (Action × Msg)) (c : Contract) (id : ℕ)
      → All IsSigned calls
      → IsSolvent c
      → (swap_at id c).completed ≡ true
      → (swap_at id (run ecrecover accepts calls c)).completed ≡ true
  unfolding run
  run-completed [] c id g v h = h
  run-completed ((a, msg) ∷ calls) c id g v h =
      run-completed calls (apply ecrecover accepts a msg c) id g.1
        (apply-IsSolvent ecrecover accepts a msg c g.0 v) (apply-completed a msg c id v h)

  -- A swap is settled once. When a swap has been claimed or refunded after some calls, then after
  -- any further calls a claim, a refund and a set_ready of it revert as completed and change
  -- nothing. The senders of the calls are not the zero address.
  pub settled_final :
      (before after : List (Action × Msg)) (id s : ℕ) (msg : Msg)
      → All IsSigned before
      → All IsSigned after
      → (swap_at id (run ecrecover accepts before deployed)).completed ≡ true
      → let c = run ecrecover accepts after (run ecrecover accepts before deployed) in
        (claim ecrecover accepts id s msg c ≡ (err already_completed, c))
        × (refund ecrecover accepts id s msg c ≡ (err already_completed, c))
        × (set_ready id msg c ≡ (err already_completed, c))
  unfolding claim refund set_ready
  settled_final before after id s msg g g' h =
      let v = run-IsSolvent ecrecover accepts before deployed g deployed-IsSolvent in
      let done = run-completed after (run ecrecover accepts before deployed) id g' v h in
      (rw done, rw done, rw done)
