-- ===== src/Bob/Address.antt =====
-- Where the monero is that Bob locks and reclaims (protocol/bob/swap_state.go, `lockFunds` and
-- `reclaimMonero`).
use atomic_swap.Base.{ℕ, Bytes, Option, some, ◌≡◌, refl, sym, ◌∙◌}
use atomic_swap.Base.Outcome.{ok}
use atomic_swap.Action.{pure}
use atomic_swap.Action.Inversion.{passed, stepped, field-ok, or_fail-ok}
use atomic_swap.Action.Keeps.{Keeps-or_fail}
use atomic_swap.Bob.Fields.{Holds}
use atomic_swap.Crypto.Curve.{IsAdditive}
use atomic_swap.Crypto.Keys.{
  PrivateKeyPair, PublicKeyPair, public_key_pair, public_key_pair-sum, view, new_private_key_pair,
  sum_spend_and_view_keys, sum_private_spend_keys, sum_private_view_keys,
}
use atomic_swap.Crypto.Address.{address, private_address}
use atomic_swap.World.{Platform}
use atomic_swap.World.Monero.{create_monero_wallet}
use atomic_swap.Bob.{Config, State, io}
use atomic_swap.Bob.Chain.{shared_keys, lock_funds}
use atomic_swap.Bob.Settle.{reclaim_by_keys, reclaim_monero}

module _ (p : Platform) (cfg : Config) where
  pure-ok : {S A : Type 0} (a b : A) (s : S) → (pure a s).0 ≡ ok b → a ≡ b
  unfolding pure
  pure-ok a b s e = cc

  same_some : {A : Type 0} (o : Option A) (a b : A) → o ≡ some a → o ≡ some b → a ≡ b
  same_some o a b e1 e2 = cc

  shared_keys-ok :
      (s : State p) (theirs ours kp : PublicKeyPair p.curve)
      → s.alice_public_keys ≡ some theirs
      → s.pubkeys ≡ some ours
      → (shared_keys p cfg s).0 ≡ ok kp
      → kp ≡ sum_spend_and_view_keys p.curve theirs ours
  unfolding shared_keys
  shared_keys-ok s theirs ours kp h1 h2 e =
      let (a, k1, e1) = field-ok (λ s. s.alice_public_keys) _ s e in
      let (b, k2, e2) = field-ok (λ s. s.pubkeys) _ s e1 in
      rw (same_some _ theirs a h1 k1, same_some _ ours b h2 k2) (sym (pure-ok _ kp s e2))

  -- The monero goes to the account of both sides' keys.
  lock_funds-ok :
      (amount : ℕ) (s : State p) (theirs ours : PublicKeyPair p.curve) (addr : Bytes)
      → s.alice_public_keys ≡ some theirs
      → s.pubkeys ≡ some ours
      → (lock_funds p cfg amount s).0 ≡ ok addr
      → addr ≡ address p.curve (sum_spend_and_view_keys p.curve theirs ours) cfg.env
  unfolding lock_funds
  lock_funds-ok amount s theirs ours addr h1 h2 e = passed _ _ s e (λ kp s1 k1 e1.
      passed _ _ s1 e1 (λ _ s2 _ e2. passed _ _ s2 e2 (λ _ s3 _ e3. passed _ _ s3 e3 (λ _ s4 _ e4.
        passed _ _ s4 e4 (λ _ s5 _ e5. passed _ _ s5 e5 (λ _ s6 _ e6.
          rw (← shared_keys-ok s theirs ours kp h1 h2 k1) (sym (pure-ok _ addr s6 e6))))))))

  wallet-ok :
      (kp : PrivateKeyPair p.curve) (s : State p) (addr : Bytes)
      → (reclaim_by_keys p cfg kp s).0 ≡ ok addr
      → addr ≡ private_address p.curve kp cfg.env
  unfolding reclaim_by_keys io create_monero_wallet
  wallet-ok kp s addr e = passed _ _ s e (λ _ s1 _ e1. passed _ _ s1.history e1 (λ _ h2 _ e2.
      passed _ _ h2 e2 (λ _ h3 _ e3. passed _ _ h3 e3 (λ _ h4 _ e4. sym (pure-ok _ addr h4 e4)))))

  reclaim_monero-ok :
      (s : State p) (theirs : PrivateKeyPair p.curve) (ours : PrivateKeyPair p.curve) (out : Bytes)
      → view p.curve theirs.sk ≡ some theirs.vk
      → s.privkeys ≡ some ours
      → (reclaim_monero p cfg theirs.sk s).0 ≡ ok out
      → out
        ≡ private_address p.curve
            (new_private_key_pair p.curve
              (sum_private_spend_keys p.curve theirs.sk ours.sk)
              (sum_private_view_keys p.curve theirs.vk ours.vk))
            cfg.env
  unfolding reclaim_monero
  reclaim_monero-ok s theirs ours out h1 h2 e =
      stepped {P = Holds (λ s. s.privkeys) (some ours)} _ _ s (Keeps-or_fail _ _)
        (record { held = h2 }) e
        (λ vk s1 k1 h3 e1.
          let (own, k2, e2) = field-ok (λ s. s.privkeys) _ s1 e1 in
          let q1 = same_some _ theirs.vk vk h1 (or_fail-ok _ _ s k1) in
          let q2 = same_some _ ours own h3.held k2 in rw (q1, q2) (wallet-ok _ s1 out e2))

  private_address-sum :
      (theirs ours : PrivateKeyPair p.curve)
      → IsAdditive p.curve
      → private_address p.curve
          (new_private_key_pair p.curve
            (sum_private_spend_keys p.curve theirs.sk ours.sk)
            (sum_private_view_keys p.curve theirs.vk ours.vk))
          cfg.env
        ≡ address p.curve
            (sum_spend_and_view_keys p.curve
              (public_key_pair p.curve theirs)
              (public_key_pair p.curve ours))
            cfg.env
  unfolding private_address address
  private_address-sum theirs ours additive =
      rw (public_key_pair-sum p.curve additive theirs ours) refl

  -- Bob reclaims the monero that he locked. Base multiplication is additive, his public keys belong
  -- to his private keys, Alice's public keys belong to her private keys, and her private view key is
  -- the one that her spend key gives. If locking succeeds, and in a later state with the same
  -- private keys reclaiming with Alice's spend key succeeds, then the wallet that he made has the
  -- address to which he sent the monero.
  pub reclaim_monero-lock_funds :
      (amount : ℕ) (s later : State p) (theirs ours : PrivateKeyPair p.curve) (addr out : Bytes)
      → IsAdditive p.curve
      → view p.curve theirs.sk ≡ some theirs.vk
      → s.alice_public_keys ≡ some (public_key_pair p.curve theirs)
      → s.pubkeys ≡ some (public_key_pair p.curve ours)
      → later.privkeys ≡ some ours
      → (lock_funds p cfg amount s).0 ≡ ok addr
      → (reclaim_monero p cfg theirs.sk later).0 ≡ ok out
      → out ≡ addr
  reclaim_monero-lock_funds amount s later theirs ours addr out additive h1 h2 h3 h4 e1 e2 =
      reclaim_monero-ok later theirs ours out h1 h4 e2
      ∙ private_address-sum theirs ours additive
      ∙ sym (lock_funds-ok amount s _ _ addr h2 h3 e1)
