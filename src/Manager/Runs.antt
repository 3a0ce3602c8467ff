-- ===== src/Manager/Runs.antt =====
-- Any sequence of calls of protocol/swap/manager.go: each holds the lock throughout, so that calls
-- from several goroutines are one such sequence.
use atomic_swap.Base.{
  ℕ, ◌%◌, ◌^◌, ◌<◌, ◌≤◌, ◌≡◌, ◌≢◌, none, some, List, [], ◌∷◌, Dict, lookup, insert, lookup-insert,
  ap, ◌∙◌, length, length-append, length-set, arith, Option-cases, inl, inr,
}
use atomic_swap.Types.Status.{Status}
use atomic_swap.Types.Provides.{ProvidesCoin}
use atomic_swap.Manager.{
  Manager, new_manager, new_info, set_status, add_swap, complete_ongoing_swap, get_past_swap,
}
use atomic_swap.Manager.Invariant.{
  IsValid, new_manager-IsValid, new_info-IsValid, set_status-IsValid, add_swap-IsValid,
  complete_ongoing_swap-IsValid,
}

-- A call that changes the state; errors of AddSwap are passed over.
pub data Call (F : Type 0) : Type 0 where
  make : ProvidesCoin → F → F → F → Status → ℕ → Call F
  add : ℕ → Call F
  set_to : ℕ → Status → Call F
  complete : Call F

still_there : (k j p : ℕ) (d : Dict ℕ) → lookup k d ≢ none → lookup k (insert j p d) ≢ none
still_there k j p d h = grind (arith, h, lookup-insert j k p d)

same_place : (k p q n : ℕ) → k ≡ p % 2 ^ 64 → k ≡ q % 2 ^ 64 → p < n → q < n → n ≤ 2 ^ 64 → p ≡ q
same_place k p q n e f a b c = omega (arith, e, f, a, b, c)

module _ {F : Type 0} where
  unfoldable pub perform : Call F → Manager F → Manager F
  perform (make c x y r s ch) m = (new_info c x y r s ch m).1
  perform (add p) m = (add_swap p m).1
  perform (set_to p s) m = set_status p s m
  perform complete m = complete_ongoing_swap m

  unfoldable pub run : List (Call F) → Manager F → Manager F
  run [] m = m
  run (c ∷ cs) m = run cs (perform c m)

  perform-IsValid : (c : Call F) (m : Manager F) → IsValid m → IsValid (perform c m)
  unfolding perform
  perform-IsValid (make c x y r s ch) m v = new_info-IsValid c x y r s ch m v
  perform-IsValid (add p) m v = add_swap-IsValid p m v
  perform-IsValid (set_to p s) m v = set_status-IsValid p s m v
  perform-IsValid complete m v = complete_ongoing_swap-IsValid m v

  runs-IsValid : (cs : List (Call F)) (m : Manager F) → IsValid m → IsValid (run cs m)
  unfolding run
  runs-IsValid [] m v = v
  runs-IsValid (c ∷ cs) m v = runs-IsValid cs (perform c m) (perform-IsValid c m v)

  -- After any sequence of calls on a new manager, infos are numbered in the order of their making, in
  -- 64 bits; the ongoing swap exists; and every past swap exists and is filed under its own ID.
  pub run-IsValid : (cs : List (Call F)) → IsValid (run cs (new_manager {F = F}))
  run-IsValid cs = runs-IsValid cs new_manager new_manager-IsValid

  past_kept :
      (k : ℕ) (c : Call F) (m : Manager F)
      → lookup k m.past ≢ none
      → lookup k (perform c m).past ≢ none
  unfolding perform new_info set_status add_swap complete_ongoing_swap
  past_kept k (make c x y r s ch) m h = h
  past_kept k (add p) m h = grind (arith, h, still_there k)
  past_kept k (set_to p s) m h = grind (arith, h)
  past_kept k complete m h = grind (arith, h, still_there k)

  heap_grows : (c : Call F) (m : Manager F) → length m.heap ≤ length (perform c m).heap
  unfolding perform new_info set_status add_swap complete_ongoing_swap
  heap_grows (make c x y r s ch) m = omega (arith, length-append {0} m.heap)
  heap_grows (add p) m = grind arith
  heap_grows (set_to p s) m = grind (arith, length-set)
  heap_grows complete m = grind arith

  runs_keep :
      (cs : List (Call F)) (k : ℕ) (m : Manager F)
      → lookup k m.past ≢ none
      → (lookup k (run cs m).past ≢ none) × (length m.heap ≤ length (run cs m).heap)
  unfolding run
  runs_keep [] k m h = (h, omega arith)
  runs_keep (c ∷ cs) k m h =
      let (past, grown) = runs_keep cs k (perform c m) (past_kept k c m h) in
      (past, omega (arith, grown, heap_grows c m))

  -- The history is for good: a swap that GetPastSwap returned for an ID after some calls on a new
  -- manager is returned for it after any further calls, as long as at most 2 ^ 64 swaps were made.
  pub past_final :
      (before after : List (Call F)) (id p : ℕ)
      → get_past_swap id (run before new_manager) ≡ some p
      → length (run after (run before new_manager)).heap ≤ 2 ^ 64
      → get_past_swap id (run after (run before new_manager)) ≡ some p
  unfolding get_past_swap
  past_final before after id p h few =
      let m = run before (new_manager {F = F}) in
      let v = run-IsValid before in
      let (past, grown) = runs_keep after id m (λ e. cc (e, h)) in
      elim (Option-cases (lookup id (run after m).past)) [
        | inl e ↦ absurd (past e)
        | inr (q, e) ↦
            let (a, x) = v.filed id p h in
            let (b, y) = (runs-IsValid after m v).filed id q e in
            e
            ∙ ap some
                (same_place id q p (length (run after m).heap) y x b (omega (arith, a, grown)) few)
      ]
