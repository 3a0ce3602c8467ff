-- ===== src/Recover/Tests.antt =====
-- A wallet from the secrets 4 and 3 of a toy curve on which every key has the view key 1.
use atomic_swap.Base.{Bytes, ◌≡◌, refl, [], ◌∷◌, replicate}
use atomic_swap.Action.{◌>>=◌}
use atomic_swap.Types.Environment.{development}
use atomic_swap.Crypto.Hex.{decode_string, encode_to_string}
use atomic_swap.Crypto.Keys.{
  new_private_spend_key, view, public_spend, public_view, sum_public_keys, sum_private_spend_keys,
  as_private_key_pair, public_key_pair,
}
use atomic_swap.Crypto.Address.{address, private_address}
use atomic_swap.World.{Platform, ask}
use atomic_swap.World.Toy.{hashed_curve, platform}
use atomic_swap.World.Monero.{create_monero_wallet}
use atomic_swap.Recover.{wallet_from_secrets}
use atomic_swap.Recover.Wallet.{wallet_from_secrets-address}

abbrev one_view : Platform
one_view = record platform { curve = record hashed_curve { keccak_256 = λ b. 1 ∷ [] } }

abbrev alice_secret : Bytes
alice_secret = encode_to_string (replicate 32 4)

abbrev bob_secret : Bytes
bob_secret = encode_to_string (replicate 32 3)

wallet_from_secrets-address_example :
    address one_view.curve (record { sk = 7; vk = 1 }) development
    ≡ address one_view.curve (record { sk = 7; vk = 1 }) development
unfolding ◌>>=◌ decode_string encode_to_string new_private_spend_key view public_spend public_view
    sum_public_keys sum_private_spend_keys as_private_key_pair public_key_pair address
    private_address ask create_monero_wallet wallet_from_secrets
wallet_from_secrets-address_example =
    wallet_from_secrets-address one_view development alice_secret bob_secret (replicate 32 4)
      (replicate 32 3) (record { seed = replicate 32 0; key = 4 })
      (record { seed = replicate 32 0; key = 3 }) 1 []
      (address one_view.curve (record { sk = 7; vk = 1 }) development) (λ a b. refl) refl refl refl
      refl refl refl
