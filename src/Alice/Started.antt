-- ===== src/Alice/Started.antt =====
-- What starting a swap does to the swap manager (protocol/alice/net.go and swap_state.go).
use atomic_swap.Base.{
  ℕ, ◌≡◌, ◌≢◌, ◌⊎◌, inl, inr, refl, sym, ap, ◌∙◌, true, not, none, some, is_some, get_elem?-snoc,
  length, arith, List, [], ◌∷◌,
}
use atomic_swap.Base.Outcome.{Outcome, ok, err}
use atomic_swap.Errors.{named, have_ongoing_swap, no_swap_contract_set}
use atomic_swap.Action.{Action, ◌>>=◌, fail_if, gets, modify, pure}
use atomic_swap.Action.Keeps.{Keeps, keeps, Keeps-bind, Keeps-pure}
use atomic_swap.Action.Inversion.{>>=-known, >>=-ok, past_fail_if, chained}
use atomic_swap.Types.Status.{expecting_keys, is_ongoing}
use atomic_swap.Types.Provides.{provides_eth}
use atomic_swap.Manager.{Info, Manager, new_info, add_swap}
use atomic_swap.Manager
use atomic_swap.Manager.History.{add_swap_exclusive}
use atomic_swap.World.{Platform, Io}
use atomic_swap.Alice.{Config, State}
use atomic_swap.Alice.Start.{
  Instance, outside, add_new, pointer_of, write_files, new_swap_state, initiate,
}

module _ {F : Type 0} where
  -- A swap that was just made is taken if and only if there is none.
  add_swap-new_info :
      (x y r : F) (ch : ℕ) (m : Manager F)
      → let (q, m') = new_info provides_eth x y r expecting_keys ch m in
        ((m.ongoing ≡ none) × (add_swap q m' ≡ (ok tt, record m' { ongoing = some q })))
        ⊎ ((m.ongoing ≢ none) × (add_swap q m' ≡ (err Manager.Error.have_ongoing_swap, m')))
  unfolding new_info is_ongoing
  add_swap-new_info x y r ch m =
      let i : Info F = record {
        id = m.next_id;
        provides = provides_eth;
        provided_amount = x;
        received_amount = y;
        exchange_rate = r;
        status = expecting_keys;
        status_ch = ch;
      } in
      add_swap_exclusive (length m.heap) i (new_info provides_eth x y r expecting_keys ch m).1
        (ground (arith, get_elem?-snoc m.heap i (length m.heap))) refl

ok-at : {E A : Type 0} {a b : A} → let x : Outcome E A = ok a in x ≡ ok b → a ≡ b
ok-at h = cc

module _ (p : Platform) (cfg : Config) where
  pub record IsTaken (q : ℕ) (s : Instance p cfg) : Type 0 where
    pub taken : s.manager.ongoing ≡ some q

  Taken-outside : {A : Type 0} {q : ℕ} (m : Io A) → Keeps (IsTaken q) (outside p cfg m)
  unfolding outside
  Taken-outside m = record { kept = λ s h. record { taken = h.taken } }

  write_files-IsTaken : {q : ℕ} (r : ℕ) → Keeps (IsTaken q) (write_files p cfg r)
  unfolding write_files
  write_files-IsTaken r = search (keeps, Taken-outside) depth 20

  -- Making a swap on the manager, with and without an ongoing one.
  added :
      (x y r : p.float.Carrier) (s : Instance p cfg)
      → let (q, m) = new_info provides_eth x y r expecting_keys 0 s.manager in
        ((s.manager.ongoing ≡ none)
          × (add_new p cfg x y r s ≡ (ok q, record s { manager = record m { ongoing = some q } })))
        ⊎ ((s.manager.ongoing ≢ none) × ((add_new p cfg x y r s).0 ≡ err (named have_ongoing_swap)))
  unfolding add_new pointer_of
  added x y r s = elim (add_swap-new_info x y r 0 s.manager) [
    | inl (h, e) ↦ inl (h, rw e refl)
    | inr (h, e) ↦ inr (h, rw e refl)
  ]

  new_swap_state-IsTaken :
      (wei : ℕ) (received rate : p.float.Carrier) (s : Instance p cfg)
      → is_some cfg.contract ≡ true
      → s.manager.ongoing ≡ none
      → IsTaken (length s.manager.heap) (new_swap_state p cfg wei received rate s).1
  unfolding new_swap_state fail_if new_info
  new_swap_state-IsTaken wei received rate s c free =
      elim (added (p.float.wei_to_ether wei) received rate s) [
        | inl (_, e) ↦
            let add : Action (Instance p cfg) ℕ =
              add_new p cfg (p.float.wei_to_ether wei) received rate in
            let begun =
              >>=-known (fail_if (not (is_some cfg.contract)) (named no_swap_contract_set))
                (λ _. add >>= write_files p cfg) s s tt (rw c refl) in
            rw (begun, >>=-known add (write_files p cfg) s _ (length s.manager.heap) e)
              ((write_files-IsTaken (length s.manager.heap)).kept _ (record { taken = refl }))
        | inr (ne, _) ↦ absurd (ne free)
      ]

  -- A call of new_swap_state that returns a swap found no ongoing swap.
  free_before :
      (wei : ℕ) (received rate : p.float.Carrier) (s : Instance p cfg) (st : State p)
      → (new_swap_state p cfg wei received rate s).0 ≡ ok st
      → s.manager.ongoing ≡ none
  unfolding new_swap_state
  free_before wei received rate s st e = elim (added (p.float.wei_to_ether wei) received rate s) [
    | inl (h, _) ↦ h
    | inr (ne, k) ↦
        let (_, e1) = past_fail_if _ _ _ s e in
        let (q, g2, e2) = >>=-ok (add_new p cfg (p.float.wei_to_ether wei) received rate) _ s e1 in
        cc (k, g2)
  ]

  pub free_before_initiate :
      (wei : ℕ) (received rate : p.float.Carrier) (s : Instance p cfg) (st : State p)
      → (initiate p cfg wei received rate s).0 ≡ ok st
      → s.manager.ongoing ≡ none
  unfolding initiate outside gets
  free_before_initiate wei received rate s st e =
      let (_, _, e0) = >>=-ok (gets (λ s. s.running)) _ s e in
      let (_, e1) = past_fail_if _ _ _ s e0 in
      let (_, _, e2) = >>=-ok _ _ s e1 in
      let (_, e3) = past_fail_if _ _ _ _ e2 in
      let (started, g, _) = >>=-ok _ _ _ e3 in free_before wei received rate _ started g

  Taken-modify :
      {q : ℕ} → Keeps (IsTaken q) (modify (λ (s : Instance p cfg). record s { running = true }))
  unfolding modify
  Taken-modify = record { kept = λ s h. record { taken = h.taken } }

  -- While there is an ongoing swap, it stays.
  add_new-Taken : {q : ℕ} (x y r : p.float.Carrier) → Keeps (IsTaken q) (add_new p cfg x y r)
  unfolding add_new new_info
  add_new-Taken {q} x y r = record {
    kept = λ s h. elim (add_swap-new_info x y r 0 s.manager) [
      | inl (e, _) ↦ cc (e, h.taken)
      | inr (_, e) ↦ record { taken = ap (λ z. z.1.ongoing) e ∙ h.taken }
    ];
  }

  pub initiate-Taken :
      {q : ℕ} (wei : ℕ) (received rate : p.float.Carrier)
      → Keeps (IsTaken q) (initiate p cfg wei received rate)
  unfolding initiate new_swap_state
  initiate-Taken wei received rate =
      search (keeps, Taken-outside, add_new-Taken, write_files-IsTaken, Taken-modify) depth 60 fits
        5000

  -- Calls of initiate with these arguments, one after the other, whatever they return.
  unfoldable pub attempts :
      List (ℕ × p.float.Carrier × p.float.Carrier) → Instance p cfg → Instance p cfg
  attempts [] s = s
  attempts ((wei, received, rate) ∷ l) s = attempts l (initiate p cfg wei received rate s).1

  attempts-IsTaken :
      {q : ℕ} (l : List (ℕ × p.float.Carrier × p.float.Carrier)) (s : Instance p cfg)
      → IsTaken q s
      → IsTaken q (attempts l s)
  unfolding attempts
  attempts-IsTaken [] s h = h
  attempts-IsTaken ((wei, received, rate) ∷ l) s h =
      attempts-IsTaken l (initiate p cfg wei received rate s).1
        ((initiate-Taken wei received rate).kept s h)

  -- A start that fails late blocks all later ones. The contract is set and no swap is ongoing. Then
  -- after newSwapState, also where it returns an error because a file cannot be written, the manager
  -- has the new swap as the ongoing one; it is still the ongoing one after any number of calls of
  -- initiate, and no call of initiate after them returns a swap.
  pub start_blocks :
      (wei : ℕ) (received rate : p.float.Carrier) (s : Instance p cfg)
      (calls : List (ℕ × p.float.Carrier × p.float.Carrier))
      → is_some cfg.contract ≡ true
      → s.manager.ongoing ≡ none
      → let after = attempts calls (new_swap_state p cfg wei received rate s).1 in
        (after.manager.ongoing ≡ some (length s.manager.heap))
        × ((wei' : ℕ) (received' rate' : p.float.Carrier) (st : State p)
            → (initiate p cfg wei' received' rate' after).0 ≢ ok st)
  start_blocks wei received rate s calls c free =
      let t = attempts-IsTaken calls _ (new_swap_state-IsTaken wei received rate s c free) in
      (
        t.taken,
        λ wei' received' rate' st e.
            cc (sym t.taken ∙ free_before_initiate wei' received' rate' _ st e),
      )

  add_new-IsTaken :
      (x y r : p.float.Carrier) (q : ℕ) (s t : Instance p cfg)
      → add_new p cfg x y r s ≡ (ok q, t)
      → IsTaken q t
  unfolding new_info
  add_new-IsTaken x y r q s t e = elim (added x y r s) [
    | inl (h, k) ↦
        let same = sym k ∙ e in
        let at : length s.manager.heap ≡ q = ok-at (ap (λ z. z.0) same) in
        rw (← at, ← ap (λ z. z.1) same) (record { taken = refl })
    | inr (ne, k) ↦ cc (k, ap (λ z. z.0) e)
  ]

  -- After a call of initiate that returns a swap, the manager has an ongoing one.
  pub initiate-IsTaken :
      (wei : ℕ) (received rate : p.float.Carrier) (s t : Instance p cfg) (st : State p)
      → initiate p cfg wei received rate s ≡ (ok st, t)
      → (q : ℕ) × IsTaken q t
  unfolding initiate new_swap_state
  initiate-IsTaken wei received rate s t st e = chained _ _ s e (λ _ s1 _ e1.
      chained _ _ s1 e1 (λ _ s2 _ e2. chained _ _ s2 e2 (λ _ s3 _ e3.
        chained _ _ s3 e3 (λ _ s4 _ e4. chained _ _ s4 e4 (λ st' s5 new e5.
          let (q, k) : (q : ℕ) × IsTaken q s5 = chained _ _ s4 new (λ _ s6 _ e6.
            chained _ _ s6 e6 (λ q s7 a e7. (
              q,
              rw (← ap (λ z. z.1) e7)
                  ((write_files-IsTaken q).kept s7 (add_new-IsTaken _ _ _ q s6 s7 a)),
            ))) in
          (
            q,
            rw (← ap (λ z. z.1) e5) (
                (Keeps-bind (modify (λ s. record s { running = true })) (λ _. pure st') Taken-modify
                    (λ _. Keeps-pure st')).kept
                  s5 k),
          ))))))
