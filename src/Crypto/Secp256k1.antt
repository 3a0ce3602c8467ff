-- ===== src/Crypto/Secp256k1.antt =====
-- crypto/secp256k1/secp256k1.go: the public key that the contract's hashes commit to.
use atomic_swap.Base.{ℕ, Bytes, Option, none, some, ◌++◌, ◌==◌, if◌then◌else◌, length, take, drop}
use atomic_swap.Crypto.Hex.{encode_to_string, decode_string}
use atomic_swap.Crypto.BigInt.{bytes, copy_32}

pub record PublicKey : Type 0 where
  pub x : Bytes
  pub y : Bytes

unfoldable pub new_public_key : Bytes → Bytes → PublicKey
new_public_key x y = record { x = x; y = y }

-- `x.Bytes()` has no leading zeros, and is copied to the left end of the array.
unfoldable pub new_public_key_from_big_int : ℕ → ℕ → PublicKey
unfolding new_public_key
new_public_key_from_big_int x y = new_public_key (copy_32 (bytes x)) (copy_32 (bytes y))

abbrev from_decoded : Option Bytes → Option PublicKey
from_decoded none = none
from_decoded (some k) =
    if length k == 64 then some (record { x = take 32 k; y = drop 32 k }) else none

-- `none` stands for an error: no hex text, or not 64 bytes.
unfoldable pub new_public_key_from_hex : Bytes → Option PublicKey
new_public_key_from_hex s = from_decoded (decode_string s)

unfoldable pub to_string : PublicKey → Bytes
to_string k = encode_to_string (k.x ++ k.y)

-- `Keccak256` over the coordinates, for a given hash function.
unfoldable pub keccak : (Bytes → Bytes) → PublicKey → Bytes
keccak keccak_256 k = keccak_256 (k.x ++ k.y)
