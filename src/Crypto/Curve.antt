-- ===== src/Crypto/Curve.antt =====
-- The curve library filippo.io/edwards25519, which crypto/monero/crypto.go calls: its scalars and
-- points with their encodings, and the hash function Keccak-256.
use atomic_swap.Base.{Bytes, Option, ◌≡◌}

pub record Curve : Type 1 where
  pub Scalar : Type 0
  pub Point : Type 0
  -- `NewScalar().Add` and `NewIdentityPoint().Add`
  pub add_scalars : Scalar → Scalar → Scalar
  pub add_points : Point → Point → Point
  -- `ScalarBaseMult`
  pub base_mult : Scalar → Point
  -- `Scalar.Bytes`, `SetCanonicalBytes`, `SetBytesWithClamping`
  pub scalar_bytes : Scalar → Bytes
  pub set_canonical_bytes : Bytes → Option Scalar
  pub set_bytes_with_clamping : Bytes → Option Scalar
  -- `Point.Bytes`, `Point.SetBytes`
  pub point_bytes : Point → Bytes
  pub set_point_bytes : Bytes → Option Point
  -- crypto.Keccak256, on the bytes that stand one after the other
  pub keccak_256 : Bytes → Bytes

-- What the protocol relies on: multiplying the base point turns a sum of scalars into the sum of
-- the points.
abbrev pub IsAdditive : Curve → Type 0
IsAdditive c =
    (a b : c.Scalar)
    → c.base_mult (c.add_scalars a b) ≡ c.add_points (c.base_mult a) (c.base_mult b)
