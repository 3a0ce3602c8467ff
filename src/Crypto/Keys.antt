-- ===== src/Crypto/Keys.antt =====
-- crypto/monero/crypto.go: private and public spend and view keys, and their sums. `none` stands
-- for an error; nothing that the program does depends on which one.
use atomic_swap.Base.{
  Bytes, Option, none, some, ◌≡◌, length, ◌==◌, if◌then◌else◌, ◌||◌, not, replicate,
}
use atomic_swap.Crypto.Hex.{decode_string, encode_to_string}
use atomic_swap.Crypto.Curve.{Curve, IsAdditive}

infixl 5 ◌>>=◌
abbrev ◌>>=◌ : {A B : Type 0} → Option A → (A → Option B) → Option B
none >>= f = none
some a >>= f = f a

module _ (c : Curve) where
  open c use {
    Scalar, Point, add_scalars, add_points, base_mult, scalar_bytes, set_canonical_bytes,
    set_bytes_with_clamping, point_bytes, set_point_bytes, keccak_256,
  }

  -- A spend key that was read or summed has the zero seed.
  pub record PrivateSpendKey : Type 0 where
    pub seed : Bytes
    pub key : Scalar

  pub record PrivateKeyPair : Type 0 where
    pub sk : PrivateSpendKey
    pub vk : Scalar

  pub record PublicKeyPair : Type 0 where
    pub sk : Point
    pub vk : Point

  unfoldable pub new_private_key_pair : PrivateSpendKey → Scalar → PrivateKeyPair
  new_private_key_pair sk vk = record { sk = sk; vk = vk }

  abbrev zero_seed : Bytes
  zero_seed = replicate 32 0

  unfoldable pub new_private_key_pair_from_bytes : Bytes → Bytes → Option PrivateKeyPair
  new_private_key_pair_from_bytes sk_bytes vk_bytes =
      if not (length sk_bytes == 32) || not (length vk_bytes == 32) then none else (do
        sk ← set_canonical_bytes sk_bytes
        vk ← set_canonical_bytes vk_bytes
        some (record { sk = record { seed = zero_seed; key = sk }; vk = vk }))

  unfoldable pub new_private_spend_key : Bytes → Option PrivateSpendKey
  new_private_spend_key b =
      if not (length b == 32)
      then none
      else (do sk ← set_canonical_bytes b; some (record { seed = zero_seed; key = sk }))

  -- `PrivateSpendKey.Public` and `PrivateViewKey.Public`
  unfoldable pub public_spend : PrivateSpendKey → Point
  public_spend k = base_mult k.key

  unfoldable pub public_view : Scalar → Point
  public_view k = base_mult k

  unfoldable pub public_key_pair : PrivateKeyPair → PublicKeyPair
  unfolding public_spend public_view
  public_key_pair kp = record { sk = public_spend kp.sk; vk = public_view kp.vk }

  unfoldable pub view : PrivateSpendKey → Option Scalar
  view k = set_bytes_with_clamping (keccak_256 (scalar_bytes k.key))

  unfoldable pub as_private_key_pair : PrivateSpendKey → Option PrivateKeyPair
  unfolding view
  as_private_key_pair k = do vk ← view k; some (record { sk = k; vk = vk })

  unfoldable pub new_private_view_key_from_hex : Bytes → Option Scalar
  new_private_view_key_from_hex vk_hex = do
    vk_bytes ← decode_string vk_hex
    set_canonical_bytes vk_bytes

  unfoldable pub new_public_key_from_hex : Bytes → Option Point
  new_public_key_from_hex s = do b ← decode_string s; set_point_bytes b

  unfoldable pub new_public_key_pair_from_hex : Bytes → Bytes → Option PublicKeyPair
  new_public_key_pair_from_hex sk_hex vk_hex = do
    sk_bytes ← decode_string sk_hex
    vk_bytes ← decode_string vk_hex
    sk ← set_point_bytes sk_bytes
    vk ← set_point_bytes vk_bytes
    some (record { sk = sk; vk = vk })

  unfoldable pub new_public_key_pair : Point → Point → PublicKeyPair
  new_public_key_pair sk vk = record { sk = sk; vk = vk }

  -- The `Hex` methods.
  unfoldable pub private_hex : Scalar → Bytes
  private_hex k = encode_to_string (scalar_bytes k)

  unfoldable pub public_hex : Point → Bytes
  public_hex k = encode_to_string (point_bytes k)

  unfoldable pub sum_public_keys : Point → Point → Point
  sum_public_keys a b = add_points a b

  unfoldable pub sum_spend_and_view_keys : PublicKeyPair → PublicKeyPair → PublicKeyPair
  unfolding sum_public_keys
  sum_spend_and_view_keys a b = record {
    sk = sum_public_keys a.sk b.sk;
    vk = sum_public_keys a.vk b.vk;
  }

  unfoldable pub sum_private_spend_keys : PrivateSpendKey → PrivateSpendKey → PrivateSpendKey
  sum_private_spend_keys a b = record { seed = zero_seed; key = add_scalars a.key b.key }

  unfoldable pub sum_private_view_keys : Scalar → Scalar → Scalar
  sum_private_view_keys a b = add_scalars a b

  -- Where base multiplication is additive, the pair of the summed private keys has the sum of the
  -- public pairs: who holds both secrets holds the account that both sides could name before.
  pub public_key_pair-sum :
      IsAdditive c
      → (a b : PrivateKeyPair)
      → public_key_pair (
          new_private_key_pair (sum_private_spend_keys a.sk b.sk) (sum_private_view_keys a.vk b.vk))
        ≡ sum_spend_and_view_keys (public_key_pair a) (public_key_pair b)
  unfolding public_key_pair new_private_key_pair sum_private_spend_keys sum_private_view_keys
      sum_spend_and_view_keys
  public_key_pair-sum additive a b = rw (additive a.sk.key b.sk.key) (rw (additive a.vk b.vk))
