-- ===== src/Manager/History.antt =====
-- What a reader of the past swaps sees (protocol/swap/manager.go).
use atomic_swap.Base.{
  ℕ, ◌%◌, ◌^◌, ◌<◌, ◌≡◌, ◌≢◌, ◌⊎◌, none, some, insert, true, lookup-insert_self, ◌∙◌, get_elem?,
  get_elem?-set, get_elem?-of_lt, length, set, arith, Option-cases, inl, inr,
}
use atomic_swap.Base.Outcome.{ok, err}
use atomic_swap.Types.Status.{Status, is_ongoing}
use atomic_swap.Manager.{
  Info, Manager, have_ongoing_swap, set_status, add_swap, get_past_swap, get_ongoing_swap,
  complete_ongoing_swap, status_of,
}
use atomic_swap.Manager.Invariant.{IsValid, id_of-IsValid, set_status-IsValid}

module _ {F : Type 0} where
  -- The swap manager takes an ongoing swap only if there is none yet: then that swap is the
  -- ongoing one. Otherwise it returns an error and stays as it was.
  pub add_swap_exclusive :
      (p : ℕ) (i : Info F) (m : Manager F)
      → get_elem? m.heap p ≡ some i
      → is_ongoing i.status ≡ true
      → ((m.ongoing ≡ none) × (add_swap p m ≡ (ok tt, record m { ongoing = some p })))
        ⊎ ((m.ongoing ≢ none) × (add_swap p m ≡ (err have_ongoing_swap, m)))
  unfolding add_swap
  add_swap_exclusive p i m e o = elim (Option-cases m.ongoing) [
    | inl h ↦ inl (h, ground arith)
    | inr (q, h) ↦ inr (ground arith, ground arith)
  ]

  ongoing-set_status : (m : Manager F) (p : ℕ) (s : Status) → (set_status p s m).ongoing ≡ m.ongoing
  unfolding set_status
  ongoing-set_status m p s = ground arith

  pub get_ongoing_swap-set_status :
      (m : Manager F) (p : ℕ) (s : Status)
      → get_ongoing_swap (set_status p s m) ≡ get_ongoing_swap m
  unfolding get_ongoing_swap
  get_ongoing_swap-set_status m p s = ongoing-set_status m p s

  set_status_live :
      (m : Manager F) (p : ℕ) (i : Info F) (s : Status)
      → get_elem? m.heap p ≡ some i
      → set_status p s m ≡ record m { heap = set m.heap p (record i { status = s }) }
  unfolding set_status
  set_status_live m p i s e = ground arith

  status_of-set_status :
      (m : Manager F) (p : ℕ) (s : Status)
      → p < length m.heap
      → status_of (get_elem? (set_status p s m).heap p) ≡ s
  unfolding status_of
  status_of-set_status m p s h =
      let (i, at) = get_elem?-of_lt m.heap p h in
      rw (set_status_live m p i s at)
        (rw (get_elem?-set m.heap p p (record i { status = s }) h) (ground arith))

  complete_ongoing_swap_live :
      (m : Manager F) (p : ℕ)
      → IsValid m
      → m.ongoing ≡ some p
      → complete_ongoing_swap m ≡ record m { past = insert (p % 2 ^ 64) p m.past; ongoing = none }
  unfolding complete_ongoing_swap
  complete_ongoing_swap_live m p v e = ground (arith, id_of-IsValid m v p (v.live p e))

  -- A swap state and the manager share the info: the status that is set last while the swap is
  -- ongoing is the status that is read under the swap's ID once it is a past swap.
  pub status_of-past :
      (m : Manager F) (p : ℕ) (s : Status)
      → IsValid m
      → get_ongoing_swap m ≡ some p
      → let after = complete_ongoing_swap (set_status p s m) in
        (get_past_swap (p % 2 ^ 64) after ≡ some p) × (status_of (get_elem? after.heap p) ≡ s)
  unfolding get_past_swap get_ongoing_swap
  status_of-past m p s v e =
      rw
        (complete_ongoing_swap_live (set_status p s m) p (set_status-IsValid p s m v)
          (ongoing-set_status m p s ∙ e))
        (
          lookup-insert_self (p % 2 ^ 64) p (set_status p s m).past,
          status_of-set_status m p s (v.live p e),
        )
