-- ===== src/Alice/Address.antt =====
-- Where the monero is that Alice claims (protocol/alice/swap_state.go, `claimMonero`, and
-- message_handler.go, `handleNotifyXMRLock`).
use atomic_swap.Base.{Bytes, Bool, true, false, not, some, ◌≡◌, refl, sym, ◌∙◌}
use atomic_swap.Base.Outcome.{ok}
use atomic_swap.Action.{pure, gets, ◌>>=◌}
use atomic_swap.Action.Inversion.{>>=-ok, past_fail_if}
use atomic_swap.Crypto.Curve.{IsAdditive}
use atomic_swap.Crypto.Keys.{
  PrivateSpendKey, PrivateKeyPair, PublicKeyPair, public_key_pair, public_spend,
  new_public_key_pair, new_private_key_pair, sum_public_keys, sum_private_spend_keys,
  sum_private_view_keys, public_view,
}
use atomic_swap.Crypto.Address.{address, private_address}
use atomic_swap.World.{Platform}
use atomic_swap.World.Monero.{create_monero_wallet}
use atomic_swap.Types.Status.{is_ongoing}
use atomic_swap.Alice.{Config, State, io, status}
use atomic_swap.Alice.Handler.{shared_keys}
use atomic_swap.Alice.Settle.{transfer_back, claim_by_keys, claim_by_secret, claim_monero}

module _ (p : Platform) (cfg : Config) where
  pure-ok : {S A : Type 0} (a b : A) (s : S) → (pure a s).0 ≡ ok b → a ≡ b
  unfolding pure
  pure-ok a b s e = cc

  transfer_back-ok :
      (b : Bool) (addr out : Bytes) (s : State p)
      → (transfer_back p cfg b addr s).0 ≡ ok out
      → addr ≡ out
  unfolding transfer_back
  transfer_back-ok false addr out s e = pure-ok addr out s e
  transfer_back-ok true addr out s e =
      let (u, _, e1) = >>=-ok _ _ s e in
      let (amounts, _, e2) = >>=-ok _ _ _ e1 in
      let (_, e3) = past_fail_if _ _ _ _ e2 in
      let (_, _, e4) = >>=-ok _ _ _ e3 in pure-ok addr out _ e4

  wallet-ok :
      (kp : PrivateKeyPair p.curve) (addr : Bytes) (s : State p)
      → (io p (create_monero_wallet p cfg.env kp) s).0 ≡ ok addr
      → addr ≡ private_address p.curve kp cfg.env
  unfolding io create_monero_wallet
  wallet-ok kp addr s e =
      let (_, _, e1) = >>=-ok _ _ s.history e in
      let (_, _, e2) = >>=-ok _ _ _ e1 in
      let (_, _, e3) = >>=-ok _ _ _ e2 in sym (pure-ok _ addr _ e3)

  claim_by_keys-ok :
      (kp : PrivateKeyPair p.curve) (s : State p) (out : Bytes)
      → (claim_by_keys p cfg kp s).0 ≡ ok out
      → private_address p.curve kp cfg.env ≡ out
  unfolding claim_by_keys
  claim_by_keys-ok kp s out e =
      let (_, _, e1) = >>=-ok _ _ s e in
      let (addr, g, e2) = >>=-ok _ _ _ e1 in
      sym (wallet-ok kp addr _ g) ∙ transfer_back-ok cfg.transfer_back addr out _ e2

  claim_monero-ok :
      (sk : PrivateSpendKey p.curve) (s : State p) (out : Bytes)
      → (claim_monero p cfg sk s).0 ≡ ok out
      → (claim_by_secret p cfg sk s).0 ≡ ok out
  unfolding claim_monero gets
  claim_monero-ok sk s out e =
      let (b, g, e1) = >>=-ok (gets (λ s. is_ongoing (status p s))) _ s e in
      (past_fail_if (not b) _ (claim_by_secret p cfg sk) s e1).1

  claim_by_secret-at :
      (sk : PrivateSpendKey p.curve) (s : State p) (ours : PrivateKeyPair p.curve)
      (vk : p.curve.Scalar)
      → s.privkeys ≡ some ours
      → s.bob_private_view_key ≡ some vk
      → claim_by_secret p cfg sk s
        ≡ claim_by_keys p cfg
            (new_private_key_pair p.curve
              (sum_private_spend_keys p.curve sk ours.sk)
              (sum_private_view_keys p.curve vk ours.vk))
            s
  unfolding claim_by_secret ◌>>=◌
  claim_by_secret-at sk s ours vk h1 h3 = rw (h1, h3) refl

  shared_keys-at :
      (s : State p) (ours : PrivateKeyPair p.curve) (vk : p.curve.Scalar) (theirs : p.curve.Point)
      (keys : PublicKeyPair p.curve)
      → s.privkeys ≡ some ours
      → s.pubkeys ≡ some keys
      → s.bob_private_view_key ≡ some vk
      → s.bob_public_spend_key ≡ some theirs
      → let shared = sum_private_view_keys p.curve vk ours.vk in
        (shared_keys p cfg s).0
        ≡ ok (
          shared,
          new_public_key_pair p.curve
              (sum_public_keys p.curve theirs keys.sk)
              (public_view p.curve shared),
        )
  unfolding shared_keys ◌>>=◌
  shared_keys-at s ours vk theirs keys h1 h2 h3 h4 = rw (h3, h1, h4, h2) refl

  -- The monero that Alice claims is where she saw it. Base multiplication is additive, her public
  -- keys belong to her private keys, and the public spend key that Bob sent belongs to the private
  -- key that his claim reveals. If claiming with that key succeeds, then the account of which she
  -- checks the balance has the address of the wallet that she made, which claiming returns.
  pub claim_monero_address :
      (s : State p) (ours : PrivateKeyPair p.curve) (theirs : PrivateSpendKey p.curve)
      (view_key : p.curve.Scalar) (out : Bytes)
      → IsAdditive p.curve
      → s.privkeys ≡ some ours
      → s.pubkeys ≡ some (public_key_pair p.curve ours)
      → s.bob_private_view_key ≡ some view_key
      → s.bob_public_spend_key ≡ some (public_spend p.curve theirs)
      → (claim_monero p cfg theirs s).0 ≡ ok out
      → (keys : p.curve.Scalar × PublicKeyPair p.curve) × ((shared_keys p cfg s).0 ≡ ok keys)
        × (address p.curve keys.1 cfg.env ≡ out)
  unfolding address private_address public_key_pair new_public_key_pair new_private_key_pair
      sum_public_keys sum_private_spend_keys sum_private_view_keys public_spend public_view
  claim_monero_address s ours theirs view_key out additive h1 h2 h3 h4 e =
      let e5 = claim_monero-ok theirs s out e in
      (
        _,
        shared_keys-at s ours view_key (public_spend p.curve theirs) (public_key_pair p.curve ours)
            h1 h2 h3 h4,
        rw (← additive theirs.key ours.sk.key)
            (claim_by_keys-ok _ s out (rw (claim_by_secret-at theirs s ours view_key h1 h3) at e5)),
      )
