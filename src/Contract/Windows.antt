-- ===== src/Contract/Windows.antt =====
-- Whose turn it is (SwapFactory.sol, `claim` and `refund`).
use atomic_swap.Base.{ℕ, ◌≡◌, ◌⊎◌, ◌≤◌, Bool, true, false, arith}
use atomic_swap.Base.Outcome.{ok, err}
use atomic_swap.Contract.{
  Contract, Msg, swap_at, claim, refund, mul_verify, counterparty_turn, too_early, too_late,
}

module _ (ecrecover : ℕ → ℕ → ℕ → ℕ → ℕ) (accepts : ℕ → Bool) where
  -- At every time exactly one side can settle an open swap. The claimer with the claim secret and
  -- the owner with the refund secret call in blocks of the same timestamp on the same state, which
  -- holds the swap's ether, and both addresses take transfers: then one of the two calls succeeds
  -- and the other reverts because of the time.
  pub claim-refund_exclusive :
      (id s_b s_a now : ℕ) (c : Contract)
      → (swap_at id c).completed ≡ false
      → (swap_at id c).value ≤ c.balance
      → mul_verify ecrecover s_b (swap_at id c).pub_key_claim ≡ true
      → mul_verify ecrecover s_a (swap_at id c).pub_key_refund ≡ true
      → accepts (swap_at id c).claimer ≡ true
      → accepts (swap_at id c).owner ≡ true
      → let by_claimer : Msg = record {
        sender = (swap_at id c).claimer;
        value = 0;
        timestamp = now;
      } in
        let by_owner : Msg = record { sender = (swap_at id c).owner; value = 0; timestamp = now } in
        let claimed = (claim ecrecover accepts id s_b by_claimer c).0 in
        let refunded = (refund ecrecover accepts id s_a by_owner c).0 in
        ((claimed ≡ ok tt) × (refunded ≡ err counterparty_turn))
        ⊎ ((refunded ≡ ok tt) × ((claimed ≡ err too_early) ⊎ (claimed ≡ err too_late)))
  unfolding claim refund
  claim-refund_exclusive id s_b s_a now c open_ funds vb va ab aa = ground arith
