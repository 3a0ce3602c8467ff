-- ===== src/Crypto/BigInt.antt =====
-- math/big: the big-endian bytes of a number (`Bytes`, without leading zeros) and back
-- (`SetBytes`), and Go's `copy` into a 32-byte array.
use atomic_swap.Base.{
  ℕ, zero, suc, ◌+◌, ◌*◌, ◌/◌, ◌%◌, ◌≤◌, ◌≡◌, ◌≢◌, refl, Bytes, [], ◌∷◌, ◌++◌, ◌==◌, if◌then◌else◌,
  arith, take, replicate, Bool-cases, inl, inr, ==_iff,
}
use native.Mathlib.Decide.{ℕ_discrete}

-- The fuel is the number itself, and each round divides it by 256.
bytes_loop : ℕ → ℕ → Bytes → Bytes
bytes_loop zero n acc = acc
bytes_loop (suc f) n acc =
    let rest = bytes_loop f (n / 256) ((n % 256) ∷ acc) in if n == 0 then acc else rest

unfoldable pub bytes : ℕ → Bytes
unfolding bytes_loop
bytes n = bytes_loop n n []

from_bytes : ℕ → Bytes → ℕ
from_bytes acc [] = acc
from_bytes acc (b ∷ bs) = from_bytes (acc * 256 + b) bs

unfoldable pub set_bytes : Bytes → ℕ
unfolding from_bytes
set_bytes bs = from_bytes 0 bs

-- `var xb [32]byte; copy(xb[:], b)`: from the left, filled up with zeros on the right.
abbrev pub copy_32 : Bytes → Bytes
copy_32 b = take 32 (b ++ replicate 32 0)

from_bytes-bytes_loop :
    (f n : ℕ) (acc : Bytes) → n ≤ f → from_bytes 0 (bytes_loop f n acc) ≡ from_bytes n acc
unfolding from_bytes bytes_loop
from_bytes-bytes_loop zero n acc h = let e : n ≡ 0 = omega arith in rw e
from_bytes-bytes_loop (suc f) n acc h = elim (Bool-cases (n == 0)) [
  | inl e ↦ rw (e, (==_iff n 0).0 e)
  | inr e ↦ rw e (ground (arith, from_bytes-bytes_loop f (n / 256) ((n % 256) ∷ acc)))
]

-- The bytes of a number stand for that number.
pub set_bytes-bytes : (n : ℕ) → set_bytes (bytes n) ≡ n
unfolding set_bytes bytes from_bytes
set_bytes-bytes n = from_bytes-bytes_loop n n [] (omega arith)

bytes_loop-zero : (f : ℕ) (acc : Bytes) → bytes_loop f 0 acc ≡ acc
unfolding bytes_loop
bytes_loop-zero zero acc = refl
bytes_loop-zero (suc f) acc = refl

-- A text that the loop begins has a first byte other than 0.
bytes_loop-head :
    (f n : ℕ) (acc : Bytes)
    → n ≤ f
    → n ≢ 0
    → (d : ℕ) × (rest : Bytes) × (bytes_loop f n acc ≡ d ∷ rest) × (d ≢ 0)
unfolding bytes_loop
bytes_loop-head zero n acc h ne = absurd (omega arith)
bytes_loop-head (suc f) n acc h ne = elim (ℕ_discrete (n / 256) 0) [
  | yes last ↦ (n % 256, acc, ground (arith, bytes_loop-zero f ((n % 256) ∷ acc)), omega arith)
  | no more ↦
      let (d, rest, e, p) = bytes_loop-head f (n / 256) ((n % 256) ∷ acc) (omega arith) more in
      (d, rest, ground arith, p)
]

-- No number has bytes that begin with 0.
pub bytes-ne_zero_cons : (n : ℕ) (r : Bytes) → bytes n ≢ 0 ∷ r
unfolding bytes
bytes-ne_zero_cons n r e = elim (ℕ_discrete n 0) [
  | yes z ↦ cc (rw z at e, bytes_loop-zero 0 [])
  | no p ↦ let (d, rest, e', q) = bytes_loop-head n n [] (omega arith) p in ground arith
]
