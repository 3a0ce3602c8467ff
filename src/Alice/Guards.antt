-- ===== src/Alice/Guards.antt =====
-- What Alice has checked before she lets Bob claim (protocol/alice/message_handler.go).
use atomic_swap.Base.{
  ℕ, ◌+◌, Bytes, Bool, true, false, not, bytes_eq, Option, none, some, List, [], ◌∷◌, ◌≡◌, ◌≢◌,
  refl, sym, ap, ◌∙◌, get_elem?,
}
use atomic_swap.Base.Outcome.{ok}
use atomic_swap.Action.{fail_if, wrap, ◌>>=◌}
use atomic_swap.Action.Keeps.{
  Keeps, keeps, Keeps-if, Keeps-bind, Keeps-wrap, Keeps-pure, Keeps-fail_if,
}
use atomic_swap.Action.Inversion.{
  reached, deref-ok, chained, followed, with_state, wrap-state, fail_if-state, deref-state,
  pure-state,
}
use atomic_swap.Crypto.Keys.{PublicKeyPair}
use atomic_swap.Crypto.Address.{address}
use atomic_swap.Message.{NotifyXmrLock}
use atomic_swap.Manager.{Info}
use atomic_swap.World.{
  Platform, History, Io, get_accounts, close_wallet, value, GetBalanceResponse, get_balance,
}
use atomic_swap.World.Calls.{count, set_ready_kind}
use atomic_swap.Alice.{Config, State, io}
use atomic_swap.Alice.Seen.{io-answered, locked_balance-Located}
use atomic_swap.Alice.Calls.{MadeBy, check_locked_xmr-Keeps}
use atomic_swap.Alice.Handler.{
  info_of, find_balance, shared_keys, await_blocks, locked_balance, expected_amount,
  check_locked_xmr, handle_notify_xmr_lock,
}

not-false : (b : Bool) → not b ≡ false → b ≡ true
not-false true h = refl
not-false false h = cc

module _ (p : Platform) (cfg : Config) where
  -- The state of a swap but for the calls made.
  record Same (s0 s : State p) : Type 0 where
    manager : s.manager ≡ s0.manager
    info : s.info ≡ s0.info

  module _ {s0 : State p} where
    Same-io : {A : Type 0} (m : Io A) → Keeps (Same s0) (io p m)
    unfolding io
    Same-io m = record { kept = λ s h. record { manager = h.manager; info = h.info } }

    find_balance-Same :
        (i : ℕ) (addr : Bytes) (accounts : List (Option Bytes))
        → Keeps (Same s0) (find_balance p cfg i addr accounts)
    unfolding find_balance
    find_balance-Same i addr [] = search keeps
    find_balance-Same i addr (none ∷ accounts) = search keeps
    find_balance-Same i addr (some acc ∷ accounts) =
        Keeps-if _ _ _ (Keeps-bind _ _ (Keeps-wrap _ _ (Same-io _)) (λ b. Keeps-pure _))
          (find_balance-Same (i + 1) addr accounts)

    await_blocks-Same : (b : Bool) → Keeps (Same s0) (await_blocks p cfg b)
    unfolding await_blocks
    await_blocks-Same true = search keeps
    await_blocks-Same false = search (keeps, Same-io) depth 20

    shared_keys-Same : Keeps (Same s0) (shared_keys p cfg)
    unfolding shared_keys
    shared_keys-Same = search keeps depth 20

    locked_balance-Same :
        (vk : p.curve.Scalar) (addr : Bytes) → Keeps (Same s0) (locked_balance p cfg vk addr)
    unfolding locked_balance
    locked_balance-Same vk addr =
        search (keeps, Same-io, await_blocks-Same, find_balance-Same) depth 30 fits 3000

    info_of-Same : Keeps (Same s0) (info_of p cfg)
    unfolding info_of
    info_of-Same = search keeps

  info_of-ok :
      (s : State p) (info : Info p.float.Carrier)
      → (info_of p cfg s).0 ≡ ok info
      → get_elem? s.manager.heap s.info ≡ some info
  unfolding info_of ◌>>=◌
  info_of-ok s info e = deref-ok (get_elem? s.manager.heap s.info) s e

  -- What stands behind a NotifyXMRLock message that was checked: the address is the one of both
  -- sides' keys; the last calls of the check were that for the wallet's accounts, that for the balance
  -- of one of them, which has this address, and the closing of the wallet; and the balance
  -- reported is not below the amount expected.
  pub record IsLocked (msg : NotifyXmrLock) (s : State p) : Type 0 where
    pub view_key : p.curve.Scalar
    pub keys : PublicKeyPair p.curve
    pub info : Info p.float.Carrier
    pub balance : GetBalanceResponse p.float.Carrier
    pub accounts : List (Option Bytes)
    pub account : ℕ
    pub account_address : Bytes
    pub earlier : History
    pub of_both : (shared_keys p cfg s).0 ≡ ok (view_key, keys)
    pub at_address : bytes_eq msg.address (address p.curve keys cfg.env) ≡ true
    pub of_swap : get_elem? s.manager.heap s.info ≡ some info
    pub asked :
        (check_locked_xmr p cfg msg s).1.history
        ≡ close_wallet ∷ get_balance account ∷ get_accounts ∷ earlier
    pub accounts_reported : p.get_accounts_answer (get_accounts ∷ earlier) ≡ value accounts
    pub listed : get_elem? accounts account ≡ some (some account_address)
    pub at_account : bytes_eq account_address (address p.curve keys cfg.env) ≡ true
    pub reported :
        p.get_balance_answer (get_balance account ∷ get_accounts ∷ earlier) ≡ value balance
    pub enough : p.float.lt balance.balance (expected_amount p cfg info) ≡ false

  info_of-state :
      (s t : State p) (info : Info p.float.Carrier) → info_of p cfg s ≡ (ok info, t) → s ≡ t
  unfolding info_of ◌>>=◌
  info_of-state s t info e = (deref-state (get_elem? s.manager.heap s.info) s e).1

  checked :
      (msg : NotifyXmrLock) (s t : State p) (u : Unit {0})
      → check_locked_xmr p cfg msg s ≡ (ok u, t)
      → IsLocked msg s
  unfolding check_locked_xmr
  checked msg s t u e =
      followed {P = Same s} (fail_if _ _) _ s (Keeps-fail_if _ _)
        (record { manager = refl; info = refl }) e
        (λ _ s0 a0 h0 e0.
          let (_, same0) = fail_if-state _ _ s a0 in
          followed {P = Same s} (shared_keys p cfg) _ s0 shared_keys-Same h0 e0 (λ keys s1 a1 h1 e1.
            followed {P = Same s} (fail_if _ _) _ s1 (Keeps-fail_if _ _) h1 e1 (λ _ s2 a2 h2 e2.
              let (at, _) = fail_if-state _ _ s1 a2 in
              followed {P = Same s} (locked_balance p cfg keys.0 _) _ s2
                (locked_balance-Same keys.0 _) h2 e2
                (λ b s3 a3 h3 e3.
                  let l = locked_balance-Located p cfg keys.0 _ s2 s3 b a3 in
                  followed {P = Same s} (info_of p cfg) _ s3 info_of-Same h3 e3 (λ info s4 a4 _ e4.
                    let same4 = info_of-state s3 s4 info a4 in
                    chained (fail_if _ _) _ s4 e4 (λ _ s5 a5 e5.
                      let (enough, same5) = fail_if-state _ _ s4 a5 in
                      chained (wrap _ _) _ s5 e5 (λ _ s6 a6 e6.
                        let (closed, _) =
                          io-answered p cfg close_wallet p.done_answer s5 s6 tt
                            (wrap-state _ _ s5 a6) in
                        let (_, same6) = pure-state tt s6 e6 in
                        record {
                          view_key = keys.0;
                          keys = keys.1;
                          info = info;
                          balance = b;
                          accounts = l.accounts;
                          account = l.account;
                          account_address = l.account_address;
                          earlier = l.earlier;
                          of_both = ap (λ z. (shared_keys p cfg z).0) same0 ∙ ap (λ z. z.0) a1;
                          at_address = not-false _ at;
                          of_swap =
                              rw (← h3.manager, ← h3.info) (info_of-ok s3 info (ap (λ z. z.0) a4));
                          asked =
                              ap (λ z. z.1.history) e
                              ∙ ap (λ z. z.history) (sym same6)
                              ∙ closed
                              ∙ ap (λ z. close_wallet ∷ z.history) (sym same5 ∙ sym same4)
                              ∙ ap (λ h. close_wallet ∷ h) l.asked;
                          accounts_reported = l.accounts_answered;
                          listed = l.listed;
                          at_account = l.same_address;
                          reported = l.answered;
                          enough = enough;
                        })))))))

  -- Alice tells the contract that she is ready only after she has seen the monero: if handling a
  -- NotifyXMRLock message makes a call of SetReady, however the handling ends, then the message
  -- names the address of both sides' keys; the check of the message asked the wallet for its accounts
  -- and then for the balance of one of them, which has this address; and the wallet reported for
  -- it a balance that is not below the amount that the swap's info expects.
  pub set_ready_guarded :
      (msg : NotifyXmrLock) (s : State p)
      → count set_ready_kind (handle_notify_xmr_lock p cfg msg s).1.history
        ≢ count set_ready_kind s.history
      → IsLocked msg s
  unfolding handle_notify_xmr_lock
  set_ready_guarded msg s d =
      let (u, e, _) =
        reached {P = MadeBy p set_ready_kind (count set_ready_kind s.history)}
          (check_locked_xmr p cfg msg) _ s (check_locked_xmr-Keeps p cfg msg)
          (record { made = record { times = refl } }) (λ m. d m.made.times) in
      checked msg s _ u (with_state (check_locked_xmr p cfg msg) s e)
