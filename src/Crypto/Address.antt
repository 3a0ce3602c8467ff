-- ===== src/Crypto/Address.antt =====
-- crypto/monero/address.go: the address of a pair of keys.
use atomic_swap.Base.{ℕ, Bytes, ◌∷◌, ◌++◌, take}
use atomic_swap.Crypto.Curve.{Curve}
use atomic_swap.Crypto.Keys.{PublicKeyPair, PrivateKeyPair, public_key_pair}
use atomic_swap.Crypto.Base58.{encode_monero_base58}
use atomic_swap.Types.Environment.{Environment, mainnet, stagenet, development}

abbrev pub address_prefix : Environment → ℕ
address_prefix mainnet = 18
address_prefix development = 18
address_prefix stagenet = 24

module _ (c : Curve) where
  -- The network prefix, both public keys and four bytes of their hash.
  unfoldable pub address_bytes : PublicKeyPair c → Environment → Bytes
  address_bytes kp env =
      let keys = address_prefix env ∷ (c.point_bytes kp.sk ++ c.point_bytes kp.vk) in
      keys ++ take 4 (c.keccak_256 keys)

  unfoldable pub address : PublicKeyPair c → Environment → Bytes
  address kp env = encode_monero_base58 (address_bytes kp env)

  -- The address of a private pair is that of its public pair.
  unfoldable pub private_address : PrivateKeyPair c → Environment → Bytes
  private_address kp env = encode_monero_base58 (address_bytes (public_key_pair c kp) env)
