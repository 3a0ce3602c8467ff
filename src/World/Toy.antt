-- ===== src/World/Toy.antt =====
-- A toy curve, on which keys and points are numbers, numbers for float64, and a toy platform: for
-- examples.
use atomic_swap.Base.{
  length, ℕ, ◌+◌, ◌++◌, codes, true, false, Bytes, Option, none, some, [], ◌∷◌, ltb, leb, ◌==◌,
  replicate,
}
use atomic_swap.Crypto.Curve.{Curve}
use atomic_swap.Types.Float64.{Float64}
use atomic_swap.World.{Platform, value, big_int, bytes_32}

abbrev to_bytes : ℕ → Bytes
to_bytes n = n ∷ replicate 31 0

abbrev of_bytes : Bytes → Option ℕ
of_bytes [] = none
of_bytes (n ∷ _) = some n

abbrev pub curve : Curve
curve = record {
  Scalar = ℕ;
  Point = ℕ;
  add_scalars = λ a b. a + b;
  add_points = λ a b. a + b;
  base_mult = λ a. a;
  scalar_bytes = to_bytes;
  set_canonical_bytes = of_bytes;
  set_bytes_with_clamping = of_bytes;
  point_bytes = λ n. n ∷ [];
  set_point_bytes = of_bytes;
  keccak_256 = λ b. [];
}

abbrev pub float : Float64
float = record {
  Carrier = ℕ;
  lt = ltb;
  le = leb;
  eq = λ a b. a == b;
  mul = λ a b. a;
  div = λ a b. a;
  of_u64 = λ n. n;
  to_u64 = λ n. n;
  ether_to_wei = λ n. n;
  wei_to_ether = λ n. n;
}

-- The same with a hash whose first byte is zero.
abbrev pub hashed_curve : Curve
hashed_curve = record curve { keccak_256 = λ b. 0 ∷ [] }

-- The secret that a refund reveals, in the order of the contract.
abbrev pub secret : Bytes
secret = replicate 31 0 ++ (4 ∷ [])

-- A node whose contract has the expected code, and logs that reveal the secret.
abbrev pub platform : Platform
platform = record {
  float = float;
  curve = hashed_curve;
  unpack = λ e b. some (big_int 1 ∷ bytes_32 secret ∷ []);
  parse_new = λ b. some (record { swap_id = 1; claim_key = 0 ∷ []; refund_key = 0 ∷ [] });
  hex_to_address = λ b. b;
  decompress_pubkey = λ b. some (1, 2);
  hash_of = λ o. replicate 32 7;
  expected_code = replicate 6149 0;
  balance_at_answer = λ h. value 100;
  code_at_answer = λ h. value (replicate 5995 0);
  receipt_answer = λ h. value (record { data_bytes = [] } ∷ []);
  filter_logs_answer = λ h. value [];
  transact_answer = λ h. value (codes "tx");
  is_ready_answer = λ h. value true;
  swaps_answer =
      λ h. value (record { timeout_0 = 10; timeout_1 = 20; is_ready = false; value = 300 });
  get_accounts_answer = λ h. value [];
  get_height_answer = λ h. value 1;
  get_address_answer = λ h. value [];
  get_balance_answer = λ h. value (record { balance = 50; unlocked_balance = 50 });
  transfer_answer = λ h. value [];
  sweep_all_answer = λ h. value [];
  done_answer = λ h. value tt;
  dleq_prove_answer = λ h. value ([], []);
  dleq_verify_answer = λ h. value ([], []);
  received_statuses = length;
  stream_is_free = λ h. true;
  clock = λ h. 5;
}
