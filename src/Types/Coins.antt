-- ===== src/Types/Coins.antt =====
-- common/coins.go: amounts of monero in its smallest unit. The conversions of ether go through
-- big.Float and are operations of the given float64.
use atomic_swap.Base.{ℕ}
use atomic_swap.Types.Float64.{Float64}

module _ (fl : Float64) where
  open fl use {Carrier, mul, div, of_u64, to_u64}

  abbrev num_monero_units : Carrier
  num_monero_units = of_u64 1_000_000_000_000

  -- `MoneroToPiconero`
  unfoldable pub monero_to_piconero : Carrier → ℕ
  monero_to_piconero amount = to_u64 (mul amount num_monero_units)

  -- `AsMonero`
  unfoldable pub as_monero : ℕ → Carrier
  as_monero a = div (of_u64 a) num_monero_units
