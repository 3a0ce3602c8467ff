-- ===== src/Contract/Phases.antt =====
-- The phases of the swaps of SwapFactory.sol, and whose turn it is in each.
use atomic_swap.Base.{
  ℕ, ◌≤◌, ◌<◌, ◌≡◌, ◌≢◌, ◌⊎◌, inl, inr, refl, true, false, Bool-cases, Option, none, some, List,
  ◌==◌, insert, lookup-insert,
}
use mathlib.Core.Path.{fun_ext, ap₂}
use atomic_swap.Contract.{Contract, Swap, or_no_swap}
use atomic_swap.Contract.Spec.{
  Phase, pending, is_set_ready, update, terms_of, phase_of, view, CanClaim, after_timeout,
  when_ready, CanRefund, before_timeout, pending_late, ready_late,
}

-- A call that writes one swap changes one phase.
view-insert :
    (id : ℕ) (s : Swap) (c c' : Contract)
    → c'.swaps ≡ insert id s c.swaps
    → (view c').phase ≡ update id (phase_of (some s)) (view c).phase
view-insert id s c c' e = fun_ext (λ j.
    rw (e, lookup-insert id j s c.swaps)
      (elim (Bool-cases (id == j)) [ inl h ↦ rw h refl | inr h ↦ rw h refl ]))

pub view_eq :
    (id : ℕ) (s : Swap) (paid : List (ℕ × ℕ)) (c c' : Contract)
    → c'.swaps ≡ insert id s c.swaps
    → c'.paid ≡ paid
    → view c' ≡ record { phase = update id (phase_of (some s)) (view c).phase; paid = paid }
view_eq id s paid c c' es ep =
    ap₂ (λ (f : ℕ → Phase) (l : List (ℕ × ℕ)). record { phase = f; paid = l })
      (view-insert id s c c' es) ep

-- Only a swap that was made has an owner or a claimer.
pub owned : (o : Option Swap) → (or_no_swap o).owner ≢ 0 → o ≡ some (or_no_swap o)
owned none h = absurd (h refl)
owned (some s) h = refl

pub claimable : (o : Option Swap) → (or_no_swap o).claimer ≢ 0 → o ≡ some (or_no_swap o)
claimable none h = absurd (h refl)
claimable (some s) h = refl

pub phase_pending :
    (o : Option Swap) (s : Swap)
    → o ≡ some s
    → s.completed ≡ false
    → s.is_ready ≡ false
    → phase_of o ≡ pending (terms_of s)
phase_pending o s e open_ r = rw (e, open_, r) refl

pub phase_ready :
    (o : Option Swap) (s : Swap)
    → o ≡ some s
    → s.completed ≡ false
    → s.is_ready ≡ true
    → phase_of o ≡ is_set_ready (terms_of s)
phase_ready o s e open_ r = rw (e, open_, r) refl

pub claim_window :
    (now : ℕ) (o : Option Swap) (s : Swap)
    → o ≡ some s
    → s.completed ≡ false
    → (s.timeout_0 ≤ now) ⊎ (s.is_ready ≡ true)
    → now < s.timeout_1
    → CanClaim now (phase_of o) (terms_of s)
claim_window now o s e open_ turn late = elim (Bool-cases s.is_ready) [
  | inl r ↦ rw (phase_ready o s e open_ r) (when_ready (terms_of s) late)
  | inr r ↦
      rw (phase_pending o s e open_ r)
        (elim turn [ inl early ↦ after_timeout (terms_of s) early late | inr r' ↦ absurd (cc) ])
]

pub refund_window :
    (now : ℕ) (o : Option Swap) (s : Swap)
    → o ≡ some s
    → s.completed ≡ false
    → (s.timeout_1 ≤ now) ⊎ ((now < s.timeout_0) × (s.is_ready ≡ false))
    → CanRefund now (phase_of o) (terms_of s)
refund_window now o s e open_ (inl late) = elim (Bool-cases s.is_ready) [
  | inl r ↦ rw (phase_ready o s e open_ r) (ready_late (terms_of s) late)
  | inr r ↦ rw (phase_pending o s e open_ r) (pending_late (terms_of s) late)
]
refund_window now o s e open_ (inr (early, r)) =
    rw (phase_pending o s e open_ r) (before_timeout (terms_of s) early)
