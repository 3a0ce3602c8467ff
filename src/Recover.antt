-- ===== src/Recover.antt =====
-- recover/recovery.go: recovering the funds of a swap from secrets alone.
pub mod Wallet
mod Tests
use atomic_swap.Base.{ℕ, Bytes, codes, []}
use atomic_swap.Errors.{external}
use atomic_swap.Action.{Action, pure, or_fail, wrap, ◌>>=◌}
use atomic_swap.Types.Environment.{Environment}
use atomic_swap.Crypto.Hex.{decode_string}
use atomic_swap.Crypto.Keys.{
  new_private_spend_key, sum_private_spend_keys, as_private_key_pair, PrivateSpendKey,
}
use atomic_swap.Manager.{Manager}
use atomic_swap.World.{Platform, History, Io}
use atomic_swap.World.Monero.{create_monero_wallet}
use atomic_swap.Alice
use atomic_swap.Alice.Recovery as alice
use atomic_swap.Bob
use atomic_swap.Bob.Recovery as bob

module _ (p : Platform) where
  open p use {curve, float, hex_to_address}

  -- A secret in hex as a key; the message is that of a secret that is not hex.
  unfoldable pub read_secret : Bytes → Bytes → Io (PrivateSpendKey curve)
  read_secret message text = do
    b ← wrap message (or_fail (decode_string text) (external []))
    or_fail (new_private_spend_key curve b) (external [])

  -- `WalletFromSecrets`; the message on Alice's secret speaks of Bob's, as in the code.
  unfoldable pub wallet_from_secrets : Environment → Bytes → Bytes → Io Bytes
  wallet_from_secrets env alice_secret bob_secret = do
    a ←
        wrap (codes "failed to decode bob's secret")
          (or_fail (decode_string alice_secret) (external []))
    b ←
        wrap (codes "failed to decode bob's secret")
          (or_fail (decode_string bob_secret) (external []))
    ak ← or_fail (new_private_spend_key curve a) (external [])
    bk ← or_fail (new_private_spend_key curve b) (external [])
    kp ← or_fail (as_private_key_pair curve (sum_private_spend_keys curve ak bk)) (external [])
    create_monero_wallet p env kp

  -- `RecoverFromBobSecretAndContract`, for a process with these swaps.
  unfoldable pub recover_from_bob_secret_and_contract :
      Bob.Config → Manager float.Carrier → Bytes → Bytes → ℕ → Io bob.RecoveryResult
  unfolding read_secret
  recover_from_bob_secret_and_contract cfg manager bob_secret contract swap_id = do
    bk ← read_secret (codes "failed to decode Bob's secret") bob_secret
    kp ← or_fail (as_private_key_pair curve bk) (external [])
    λ history.
        let (r, s) =
          bob.claim_or_recover p cfg
            (bob.recovery_state p cfg manager history kp (hex_to_address contract) swap_id) in
        (r, s.history)

  -- `RecoverFromAliceSecretAndContract`
  unfoldable pub recover_from_alice_secret_and_contract :
      Alice.Config → Manager float.Carrier → Bytes → ℕ → Io alice.RecoveryResult
  unfolding read_secret
  recover_from_alice_secret_and_contract cfg manager alice_secret swap_id = do
    ak ← read_secret (codes "failed to decode Alice's secret") alice_secret
    kp ← or_fail (as_private_key_pair curve ak) (external [])
    λ history.
        let (r, s) =
          alice.recover p cfg (alice.recovery_state p cfg manager history kp.sk kp.vk swap_id) in
        (r, s.history)
