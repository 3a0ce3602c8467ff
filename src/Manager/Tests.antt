-- ===== src/Manager/Tests.antt =====
-- One swap through the manager of protocol/swap/manager.go.
use atomic_swap.Base.{ℕ, ◌≡◌, refl, some, get_elem?, List, [], ◌∷◌, lookup, insert, arith}
use atomic_swap.Types.Status.{expecting_keys, completed_success, is_ongoing}
use atomic_swap.Types.Provides.{provides_xmr}
use atomic_swap.Manager.{
  Manager, id_of, new_manager, new_info, set_status, add_swap, get_past_swap, get_ongoing_swap,
  complete_ongoing_swap, status_of,
}
use atomic_swap.Manager.Invariant.{IsValid, new_manager-IsValid, new_info-IsValid, add_swap-IsValid}
use atomic_swap.Manager.Runs.{
  Call, make, add, set_to, complete, run, perform, run-IsValid, past_final,
}
use atomic_swap.Manager.History.{status_of-past}

abbrev made : Manager ℕ
made = (new_info provides_xmr 3 4 5 expecting_keys 0 new_manager).1

abbrev started : Manager ℕ
started = (add_swap 0 made).1

abbrev made-IsValid : IsValid made
made-IsValid = new_info-IsValid provides_xmr 3 4 5 expecting_keys 0 new_manager new_manager-IsValid

abbrev started-IsValid : IsValid started
started-IsValid = add_swap-IsValid 0 made made-IsValid

status_of-past_example :
    let after = complete_ongoing_swap (set_status 0 completed_success started) in
    (get_past_swap 0 after ≡ some 0) × (status_of (get_elem? after.heap 0) ≡ completed_success)
unfolding get_ongoing_swap add_swap new_info new_manager is_ongoing
status_of-past_example = status_of-past started 0 completed_success started-IsValid refl

-- The calls that take one swap through.
abbrev one_swap : List (Call ℕ)
one_swap =
    make provides_xmr 3 4 5 expecting_keys 0 ∷ add 0 ∷ set_to 0 completed_success ∷ complete ∷ []

run-IsValid_example : IsValid (run one_swap new_manager)
run-IsValid_example = run-IsValid one_swap

past_final_example : get_past_swap 0 (run one_swap (run one_swap new_manager)) ≡ some 0
unfolding run perform get_past_swap lookup insert set_status add_swap new_info new_manager
    complete_ongoing_swap is_ongoing id_of
past_final_example = past_final one_swap one_swap 0 0 refl (omega arith)
