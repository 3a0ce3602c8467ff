-- ===== src/Alice/Seen.antt =====
-- The balance that Alice's wallet reports for an address (protocol/alice/message_handler.go).
use atomic_swap.Base.{
  ℕ, ◌+◌, Bytes, true, bytes_eq, Option, none, some, List, [], ◌∷◌, ◌≡◌, ◌≢◌, inl, inr, Bool-cases,
  refl, sym, ap, ◌∙◌, suc, arith, get_elem?,
}
use atomic_swap.Base.Outcome.{ok}
use atomic_swap.Action.{pure, crash}
use atomic_swap.Action.Inversion.{chained, wrap-state, or_fail-state, pure-state, ok-injective}
use atomic_swap.World.{
  Platform, History, Answer, Call, get_accounts, value, failure, from_answer, GetBalanceResponse,
  get_balance, ask,
}
use atomic_swap.Alice.{Config, State, io}
use atomic_swap.Alice.Handler.{find_balance, locked_balance}

some_same : {A : Type 0} {x y : A} → some x ≡ some y → x ≡ y
some_same e = cc

module _ (p : Platform) (cfg : Config) where
  -- The balance of an account with this address, as the wallet reported it in the last of its calls
  -- so far: the account stands in the list of accounts from `i` on.
  record Reported (i : ℕ) (addr : Bytes) (accounts : List (Option Bytes)) (s t : State p)
      (b : GetBalanceResponse p.float.Carrier) : Type 0 where
    place : ℕ
    number : ℕ
    at_place : number ≡ i + place
    found_address : Bytes
    listed : get_elem? accounts place ≡ some (some found_address)
    same_address : bytes_eq found_address addr ≡ true
    asked : t.history ≡ get_balance number ∷ s.history
    answered : p.get_balance_answer (get_balance number ∷ s.history) ≡ value b

  reported : {A : Type 0} (a : Answer A) (b : A) → from_answer a ≡ ok b → a ≡ value b
  reported (value c) b e = ap value (ok-injective e)
  reported (failure t) b e = cc

  found_none :
      (b : GetBalanceResponse p.float.Carrier) (s t : State p)
      → pure {S = State p} none s ≢ (ok (some b), t)
  unfolding pure
  found_none b s t h = cc (ap (λ z. z.0) h)

  crashed : {A : Type 0} (a : A) (s t : State p) → crash {S = State p} s ≢ (ok a, t)
  unfolding crash
  crashed a s t h = cc (ap (λ z. z.0) h)

  just :
      {A : Type 0} (a b : A) (s t : State p)
      → pure {S = State p} (some a) s ≡ (ok (some b), t)
      → (a ≡ b) × (s ≡ t)
  just a b s t h = let (x, y) = pure-state (some a) s h in (some_same x, y)

  pub io-answered :
      {A : Type 0} (c : Call) (f : History → Answer A) (s t : State p) (a : A)
      → io p (ask c f) s ≡ (ok a, t)
      → (t.history ≡ c ∷ s.history) × (f (c ∷ s.history) ≡ value a)
  unfolding io ask
  io-answered c f s t a e = (sym (ap (λ z. z.1.history) e), reported _ a (ap (λ z. z.0) e))

  find_balance-Reported :
      (i : ℕ) (addr : Bytes) (accounts : List (Option Bytes)) (s t : State p)
      (b : GetBalanceResponse p.float.Carrier)
      → find_balance p cfg i addr accounts s ≡ (ok (some b), t)
      → Reported i addr accounts s t b
  unfolding find_balance
  find_balance-Reported i addr [] s t b e = absurd (found_none b s t e)
  find_balance-Reported i addr (none ∷ accounts) s t b e = absurd (crashed (some b) s t e)
  find_balance-Reported i addr (some acc ∷ accounts) s t b e =
      elim (Bool-cases (bytes_eq acc addr)) [
        | inl h ↦ chained _ _ s (rw h at e) (λ c s' e1 e2.
            let (c_b, same) = just c b s' t e2 in
            let (x, y) =
              io-answered (get_balance i) p.get_balance_answer s s' c (wrap-state _ _ s e1) in
            record {
              place = 0;
              number = i;
              at_place = omega arith;
              found_address = acc;
              listed = refl;
              same_address = h;
              asked = rw (← same) x;
              answered = y ∙ ap value c_b;
            })
        | inr h ↦
            let r = find_balance-Reported (i + 1) addr accounts s t b (rw h at e) in
            let next : r.number ≡ i + 1 + r.place = r.at_place in
            record {
              place = suc r.place;
              number = r.number;
              at_place = omega (arith, next);
              found_address = r.found_address;
              listed = r.listed;
              same_address = r.same_address;
              asked = r.asked;
              answered = r.answered;
            }
      ]

  -- The balance of an account with this address, as the wallet reported it in the last two of its
  -- calls so far.
  pub record Located (addr : Bytes) (t : State p) (b : GetBalanceResponse p.float.Carrier)
      : Type 0 where
    pub accounts : List (Option Bytes)
    pub account : ℕ
    pub earlier : History
    pub account_address : Bytes
    pub asked : t.history ≡ get_balance account ∷ get_accounts ∷ earlier
    pub accounts_answered : p.get_accounts_answer (get_accounts ∷ earlier) ≡ value accounts
    pub listed : get_elem? accounts account ≡ some (some account_address)
    pub same_address : bytes_eq account_address addr ≡ true
    pub answered : p.get_balance_answer (get_balance account ∷ get_accounts ∷ earlier) ≡ value b

  pub locked_balance-Located :
      (vk : p.curve.Scalar) (addr : Bytes) (s t : State p) (b : GetBalanceResponse p.float.Carrier)
      → locked_balance p cfg vk addr s ≡ (ok b, t)
      → Located addr t b
  unfolding locked_balance
  locked_balance-Located vk addr s t b e = chained _ _ s e (λ _ s1 _ e1.
      chained _ _ s1 e1 (λ _ s2 _ e2. chained _ _ s2 e2 (λ _ s3 _ e3.
        chained _ _ s3 e3 (λ accounts s4 a e4. chained _ _ s4 e4 (λ found s5 k e5.
          let (f, same) = or_fail-state found _ s5 e5 in
          let r = find_balance-Reported 0 addr accounts s4 s5 b (rw f at k) in
          let at : r.number ≡ 0 + r.place = r.at_place in
          let account_place : r.number ≡ r.place = omega (arith, at) in
          let (x, y) =
            io-answered get_accounts p.get_accounts_answer s3 s4 accounts (wrap-state _ _ s3 a) in
          record {
            accounts = accounts;
            account = r.number;
            earlier = s3.history;
            account_address = r.found_address;
            asked = ap (λ z. z.history) (sym same) ∙ r.asked ∙ ap (λ h. get_balance r.number ∷ h) x;
            accounts_answered = y;
            listed = ap (get_elem? accounts) account_place ∙ r.listed;
            same_address = r.same_address;
            answered =
                ap (λ h. p.get_balance_answer (get_balance r.number ∷ h)) (sym x) ∙ r.answered;
          })))))
