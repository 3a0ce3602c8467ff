-- ===== src/Contract/Once.antt =====
-- How often a swap of SwapFactory.sol is settled: what follows from the abstract machine.
use atomic_swap.Base.{
  ℕ, ◌+◌, ◌≤◌, ◌≡◌, refl, Bool, true, false, Bool-cases, inl, inr, List, [], ◌∷◌, ◌==◌, ==_iff,
  if◌then◌else◌, All, arith, ap, ◌∙◌,
}
use atomic_swap.Contract.{Msg, Log, new, ready, claimed, refunded}
use atomic_swap.Contract.Steps.{Action, deployed, run, IsSigned}
use atomic_swap.Contract.Spec.{
  Phase, Terms, absent, pending, is_set_ready, settled, Machine, update, view, CanClaim,
  after_timeout, when_ready, CanRefund, before_timeout, pending_late, ready_late, Step, begin,
  say_ready, Reach, start, next,
}
use atomic_swap.Contract.Refine.{run-Reach}

-- How many claims and refunds of the swap were logged.
pub settlements : ℕ → List Log → ℕ
settlements k [] = 0
settlements k (new i a b ∷ logs) = settlements k logs
settlements k (ready i ∷ logs) = settlements k logs
settlements k (claimed i s ∷ logs) = (if i == k then 1 else 0) + settlements k logs
settlements k (refunded i s ∷ logs) = (if i == k then 1 else 0) + settlements k logs

pub tally : Phase → ℕ
tally (settled t) = 1
tally absent = 0
tally (pending t) = 0
tally (is_set_ready t) = 0

-- A write of a phase to a swap that is not settled adds its tally.
unsettled_write :
    (id k n : ℕ) (x : Phase) (f : ℕ → Phase)
    → tally (f id) ≡ 0
    → n ≡ tally (f k)
    → (if id == k then tally x else 0) + n ≡ tally (update id x f k)
unsettled_write id k n x f open_ e = elim (Bool-cases (id == k)) [
  | inl h ↦
      let same = ap (λ (j : ℕ). tally (f j)) ((==_iff id k).0 h) in
      rw h (omega (arith, e, same, open_))
  | inr h ↦ rw h (omega (arith, e))
]

nothing_added : (b : Bool) (n : ℕ) → n ≡ (if b then 0 else 0) + n
nothing_added true n = omega arith
nothing_added false n = omega arith

unsettled-CanClaim : (now : ℕ) (ph : Phase) (t : Terms) → CanClaim now ph t → tally ph ≡ 0
unfolding tally
unsettled-CanClaim now ph t (after_timeout _ a b) = refl
unsettled-CanClaim now ph t (when_ready _ a) = refl

unsettled-CanRefund : (now : ℕ) (ph : Phase) (t : Terms) → CanRefund now ph t → tally ph ≡ 0
unfolding tally
unsettled-CanRefund now ph t (before_timeout _ a) = refl
unsettled-CanRefund now ph t (pending_late _ a) = refl
unsettled-CanRefund now ph t (ready_late _ a) = refl

module _ (ecrecover : ℕ → ℕ → ℕ → ℕ → ℕ) where
  step_counted :
      (k : ℕ) (logs : List Log) (msg : Msg) {m m' : Machine} {l : Log}
      → Step ecrecover msg m l m'
      → settlements k logs ≡ tally (m.phase k)
      → settlements k (l ∷ logs) ≡ tally (m'.phase k)
  unfolding settlements tally
  step_counted k logs msg {m} (begin id d t new_one _ _ _ _) e =
      nothing_added (id == k) (settlements k logs)
      ∙ unsettled_write id k (settlements k logs) (pending t) m.phase (ap tally new_one) e
  step_counted k logs msg {m} (say_ready id t is_pending _) e =
      nothing_added (id == k) (settlements k logs)
      ∙ unsettled_write id k (settlements k logs) (is_set_ready t) m.phase (ap tally is_pending) e
  step_counted k logs msg {m} (Step.claim id s t turn _ _) e =
      unsettled_write id k (settlements k logs) (settled t) m.phase
        (unsettled-CanClaim msg.timestamp (m.phase id) t turn) e
  step_counted k logs msg {m} (Step.refund id s t turn _ _) e =
      unsettled_write id k (settlements k logs) (settled t) m.phase
        (unsettled-CanRefund msg.timestamp (m.phase id) t turn) e

  pub reach_counted :
      (k : ℕ) {logs : List Log} {m : Machine}
      → Reach ecrecover logs m
      → settlements k logs ≡ tally (m.phase k)
  unfolding settlements tally
  reach_counted k start = refl
  reach_counted k (next {logs} msg r st) = step_counted k logs msg st (reach_counted k r)

at_most_one : (ph : Phase) → tally ph ≤ 1
unfolding tally
at_most_one absent = omega arith
at_most_one (pending t) = omega arith
at_most_one (is_set_ready t) = omega arith
at_most_one (settled t) = omega arith

-- A swap is settled at most once: after any sequence of calls by senders other than the zero address,
-- the logs have at most one claim or refund of it, and one exactly if its phase is settled.
pub settlements-run :
    (ecrecover : ℕ → ℕ → ℕ → ℕ → ℕ) (accepts : ℕ → Bool) (calls : List (Action × Msg)) (k : ℕ)
    → All IsSigned calls
    → let c = run ecrecover accepts calls deployed in
      (settlements k c.logs ≤ 1) × (settlements k c.logs ≡ tally ((view c).phase k))
settlements-run ecrecover accepts calls k h =
    let e = reach_counted ecrecover k (run-Reach ecrecover accepts calls h) in
    let c = run ecrecover accepts calls deployed in
    (omega (arith, e, at_most_one ((view c).phase k)), e)
