-- ===== src/Manager.antt =====
-- protocol/swap/manager.go: the swaps of this process, past and ongoing. An `*Info` is shared by
-- the manager and the swap state that it describes, so infos live in a heap, and a pointer is a
-- position in it. `next_id` is the package's counter, a uint64. Every operation holds the
-- manager's lock throughout, so each is one step.
pub mod Invariant
pub mod Runs
pub mod History
mod Tests
use atomic_swap.Base.{
  ℕ, ◌+◌, ◌%◌, ◌^◌, true, false, Option, none, some, List, [], ◌∷◌, ◌++◌, Dict, lookup, insert,
  keys, get_elem?, set, length, Bytes,
}
use atomic_swap.Base.Outcome.{Outcome, ok, err, panic}
use atomic_swap.Types.Status.{Status, expecting_keys, is_ongoing}
use atomic_swap.Types.Provides.{ProvidesCoin}

-- `F` is float64. `status_ch` is the identity of the channel of status updates.
pub record Info (F : Type 0) : Type 0 where
  pub id : ℕ
  pub provides : ProvidesCoin
  pub provided_amount : F
  pub received_amount : F
  pub exchange_rate : F
  pub status : Status
  pub status_ch : ℕ

pub data Error : Type 0 where
  have_ongoing_swap : Error

-- `offers_taken` is made by NewManager, and nothing else touches it.
pub record Manager (F : Type 0) : Type 0 where
  pub heap : List (Info F)
  pub next_id : ℕ
  pub ongoing : Option ℕ
  pub past : Dict ℕ
  pub offers_taken : List (Bytes × ℕ)

module _ {F : Type 0} where
  -- `NewManager`, for the one manager of a process: the counter of the IDs is a variable of the package
  -- that begins at 0.
  unfoldable pub new_manager : Manager F
  new_manager = record { heap = []; next_id = 0; ongoing = none; past = []; offers_taken = [] }

  -- `NewInfo`: the pointer to the new info, and the heap and the counter after it.
  unfoldable pub new_info : ProvidesCoin → F → F → F → Status → ℕ → Manager F → ℕ × Manager F
  new_info provides provided received rate status ch m =
      let info : Info F = record {
        id = m.next_id;
        provides = provides;
        provided_amount = provided;
        received_amount = received;
        exchange_rate = rate;
        status = status;
        status_ch = ch;
      } in
      (length m.heap, record m { heap = m.heap ++ (info ∷ []); next_id = (m.next_id + 1) % 2 ^ 64 })

  -- `Status()` and `ID()`, which answer 0 for a nil pointer; 0 is the status ExpectingKeys.
  unfoldable pub status_of : Option (Info F) → Status
  status_of none = expecting_keys
  status_of (some i) = i.status

  unfoldable pub id_of : Option (Info F) → ℕ
  id_of none = 0
  id_of (some i) = i.id

  -- `SetStatus` through a pointer.
  unfoldable pub set_status : ℕ → Status → Manager F → Manager F
  set_status p s m = elim (get_elem? m.heap p) [
    | none ↦ m
    | some i ↦ record m { heap = set m.heap p (record i { status = s }) }
  ]

  add_ongoing : ℕ → Option ℕ → Manager F → Outcome Error (Unit {0}) × Manager F
  add_ongoing p none m = (ok tt, record m { ongoing = some p })
  add_ongoing p (some _) m = (err have_ongoing_swap, m)

  -- `AddSwap`; a nil pointer panics.
  unfoldable pub add_swap : ℕ → Manager F → Outcome Error (Unit {0}) × Manager F
  unfolding add_ongoing
  add_swap p m = elim (get_elem? m.heap p) [
    | none ↦ (panic, m)
    | some i ↦ elim (is_ongoing i.status) [
      | true ↦ add_ongoing p m.ongoing m
      | false ↦ (ok tt, record m { past = insert i.id p m.past })
    ]
  ]

  unfoldable pub get_past_ids : Manager F → List ℕ
  get_past_ids m = keys m.past

  -- `none` stands for nil.
  unfoldable pub get_past_swap : ℕ → Manager F → Option ℕ
  get_past_swap id m = lookup id m.past

  unfoldable pub get_ongoing_swap : Manager F → Option ℕ
  get_ongoing_swap m = m.ongoing

  unfoldable pub complete_ongoing_swap : Manager F → Manager F
  complete_ongoing_swap m = elim m.ongoing [
    | none ↦ m
    | some p ↦ record m { past = insert (id_of (get_elem? m.heap p)) p m.past; ongoing = none }
  ]
