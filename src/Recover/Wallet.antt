-- ===== src/Recover/Wallet.antt =====
-- The account that WalletFromSecrets opens (recover/recovery.go).
use atomic_swap.Base.{Bytes, some, ◌≡◌, refl, sym, ◌∙◌}
use atomic_swap.Base.Outcome.{ok}
use atomic_swap.Action.{pure, wrap, or_fail, ◌>>=◌}
use atomic_swap.Action.Inversion.{passed}
use atomic_swap.Types.Environment.{Environment}
use atomic_swap.Crypto.Hex.{decode_string}
use atomic_swap.Crypto.Curve.{IsAdditive}
use atomic_swap.Crypto.Keys.{
  PrivateSpendKey, PrivateKeyPair, new_private_spend_key, sum_private_spend_keys, sum_public_keys,
  public_spend, public_view, public_key_pair, as_private_key_pair, view,
}
use atomic_swap.Crypto.Address.{address, private_address}
use atomic_swap.World.{Platform, History}
use atomic_swap.World.Monero.{create_monero_wallet}
use atomic_swap.Recover.{wallet_from_secrets}

pure-ok : {S A : Type 0} (a b : A) (s : S) → (pure a s).0 ≡ ok b → a ≡ b
unfolding pure
pure-ok a b s e = cc

module _ (p : Platform) where
  wallet-ok :
      (env : Environment) (kp : PrivateKeyPair p.curve) (h : History) (out : Bytes)
      → (create_monero_wallet p env kp h).0 ≡ ok out
      → private_address p.curve kp env ≡ out
  unfolding create_monero_wallet
  wallet-ok env kp h out e = passed _ _ h e (λ _ h1 _ e1.
      passed _ _ h1 e1 (λ _ h2 _ e2. passed _ _ h2 e2 (λ _ h3 _ e3. pure-ok _ out h3 e3)))

  summed :
      (a b : PrivateSpendKey p.curve) (v : p.curve.Scalar) (env : Environment)
      → IsAdditive p.curve
      → private_address p.curve (record { sk = sum_private_spend_keys p.curve a b; vk = v }) env
        ≡ address p.curve
            (record {
              sk = sum_public_keys p.curve (public_spend p.curve a) (public_spend p.curve b);
              vk = public_view p.curve v;
            })
            env
  unfolding private_address address public_key_pair sum_private_spend_keys public_spend public_view
      sum_public_keys
  summed a b v env additive = rw (additive a.key b.key) refl

  -- The account of the wallet that WalletFromSecrets makes: the texts are the two sides' secrets in
  -- hex, base multiplication is additive, and the call succeeds. Then the wallet has the address of
  -- the sum of both sides' public spend keys, which is the spend key of the account that holds the
  -- swap's monero, but with the view key that the sum of the secrets gives, in place of the sum of
  -- the two view keys.
  pub wallet_from_secrets-address :
      (env : Environment) (alice_secret bob_secret a b : Bytes) (ak bk : PrivateSpendKey p.curve)
      → (v : p.curve.Scalar) (h : History) (out : Bytes) → IsAdditive p.curve
      → decode_string alice_secret ≡ some a
      → decode_string bob_secret ≡ some b
      → new_private_spend_key p.curve a ≡ some ak
      → new_private_spend_key p.curve b ≡ some bk
      → view p.curve (sum_private_spend_keys p.curve ak bk) ≡ some v
      → (wallet_from_secrets p env alice_secret bob_secret h).0 ≡ ok out
      → out
        ≡ address p.curve
            (record {
              sk = sum_public_keys p.curve (public_spend p.curve ak) (public_spend p.curve bk);
              vk = public_view p.curve v;
            })
            env
  unfolding wallet_from_secrets wrap or_fail ◌>>=◌ as_private_key_pair
  wallet_from_secrets-address env ta tb a b ak bk v h out additive da db na nb ev e =
      let kp : PrivateKeyPair p.curve = record {
        sk = sum_private_spend_keys p.curve ak bk;
        vk = v;
      } in
      let made : (create_monero_wallet p env kp h).0 ≡ ok out = rw (da, db, na, nb, ev) at e in
      sym (wallet-ok env kp h out made) ∙ summed ak bk v env additive
