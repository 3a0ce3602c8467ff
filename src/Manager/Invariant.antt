-- ===== src/Manager/Invariant.antt =====
-- What every operation of protocol/swap/manager.go keeps.
use atomic_swap.Base.{
  ℕ, ◌%◌, ◌^◌, ◌<◌, ◌≡◌, some, lookup, lookup-insert, get_elem?, get_elem?-snoc, get_elem?-set,
  lt_of-get_elem?, get_elem?-of_lt, length, length-append, length-set, arith, Option-cases, inl,
  inr,
}
use atomic_swap.Types.Status.{Status}
use atomic_swap.Types.Provides.{ProvidesCoin}
use atomic_swap.Manager.{
  Info, Manager, new_manager, new_info, set_status, add_swap, id_of, complete_ongoing_swap,
}

-- Infos are numbered in the order of their making, the ongoing swap is in the heap, and a past
-- swap is filed under its own ID.
pub record IsValid {F : Type 0} (m : Manager F) : Type 0 where
  pub counted : m.next_id ≡ length m.heap % 2 ^ 64
  pub stamped : (p : ℕ) (i : Info F) → get_elem? m.heap p ≡ some i → i.id ≡ p % 2 ^ 64
  pub live : (p : ℕ) → m.ongoing ≡ some p → p < length m.heap
  pub filed : (k p : ℕ) → lookup k m.past ≡ some p → (p < length m.heap) × (k ≡ p % 2 ^ 64)

module _ {F : Type 0} where
  pub new_manager-IsValid : IsValid (new_manager {F = F})
  unfolding new_manager lookup
  new_manager-IsValid = record {
    counted = omega arith;
    stamped = λ p i e. cc;
    live = λ p e. cc;
    filed = λ k p e. cc;
  }

  pub new_info-IsValid :
      (c : ProvidesCoin) (x y r : F) (s : Status) (ch : ℕ) (m : Manager F)
      → IsValid m
      → IsValid (new_info c x y r s ch m).1
  unfolding new_info
  new_info-IsValid c x y r s ch m v = record {
    counted = omega (arith, v.counted, length-append {0} m.heap);
    stamped = λ p i e. grind (arith, v.stamped p i, v.counted, get_elem?-snoc);
    live = λ p e. omega (arith, v.live p e, length-append {0} m.heap);
    filed = λ k p e. omega (arith, v.filed k p e, length-append {0} m.heap);
  }

  pub set_status-IsValid :
      (p : ℕ) (s : Status) (m : Manager F) → IsValid m → IsValid (set_status p s m)
  unfolding set_status
  set_status-IsValid p s m v = record {
    counted = grind (arith, v.counted, length-set);
    stamped = λ q j h. grind (arith, v.stamped q, v.stamped p, get_elem?-set, lt_of-get_elem?);
    live = λ q h. grind (arith, v.live q, length-set);
    filed = λ k q h. grind (arith, v.filed k q, length-set);
  }

  -- If the manager is well-formed, it is so after AddSwap of any pointer, which may fail: infos are
  -- numbered in order, the ongoing swap exists, and past swaps are filed under their own IDs.
  pub add_swap-IsValid : (p : ℕ) (m : Manager F) → IsValid m → IsValid (add_swap p m).1
  unfolding add_swap
  add_swap-IsValid p m v = record {
    counted = grind (arith, v.counted);
    stamped = λ q j h. grind (arith, v.stamped q);
    live = λ q h. grind (arith, v.live q, lt_of-get_elem?);
    filed = λ k q h. grind (arith, v.filed k q, v.stamped p, lookup-insert, lt_of-get_elem?);
  }

  -- A pointer into the heap stands for a swap whose ID is its place, in 64 bits.
  pub id_of-IsValid :
      (m : Manager F)
      → IsValid m
      → (p : ℕ) → p < length m.heap
      → id_of (get_elem? m.heap p) ≡ p % 2 ^ 64
  unfolding id_of
  id_of-IsValid m v p h = let (i, e) = get_elem?-of_lt m.heap p h in rw e (v.stamped p i e)

  filed_after :
      (m : Manager F)
      → IsValid m
      → (k q : ℕ) → lookup k (complete_ongoing_swap m).past ≡ some q
      → (q < length m.heap) × (k ≡ q % 2 ^ 64)
  unfolding complete_ongoing_swap
  filed_after m v k q h = elim (Option-cases m.ongoing) [
    | inl e ↦ ground (arith, v.filed k q)
    | inr (p, e) ↦ ground (
      arith,
      v.filed k q,
      v.live p e,
      id_of-IsValid m v p (v.live p e),
      lookup-insert (id_of (get_elem? m.heap p)) k p m.past,
    )
  ]

  -- If the manager is well-formed, it is so after CompleteOngoingSwap, with or without an ongoing
  -- swap.
  pub complete_ongoing_swap-IsValid :
      (m : Manager F) → IsValid m → IsValid (complete_ongoing_swap m)
  unfolding complete_ongoing_swap
  complete_ongoing_swap-IsValid m v = record {
    counted = grind (arith, v.counted);
    stamped = λ q j h. grind (arith, v.stamped q);
    live = λ q h. grind (arith, v.live q);
    filed = λ k q h. grind (arith, filed_after m v k q h);
  }
