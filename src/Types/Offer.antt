-- ===== src/Types/Offer.antt =====
-- common/types/offer.go and exchange_rate.go: a swap offer, its ID and its exchange rate.
use atomic_swap.Base.{Bytes, Option, none, some, ◌++◌, take, replicate, bytes_eq, if◌then◌else◌}
use atomic_swap.Types.Provides.{ProvidesCoin}
use atomic_swap.Types.Float64.{Float64}
use atomic_swap.Crypto.Hex.{decode_string, encode_to_string}

-- `F` is float64, and the ID an array of 32 bytes.
pub record Offer (F : Type 0) : Type 0 where
  pub id : Bytes
  pub provides : ProvidesCoin
  pub minimum_amount : F
  pub maximum_amount : F
  pub exchange_rate : F

abbrev pub zero_hash : Bytes
zero_hash = replicate 32 0

abbrev to_hash : Option Bytes → Option Bytes
to_hash none = none
to_hash (some h) = some (take 32 (h ++ zero_hash))

-- `HexToHash`: what is longer is cut, what is shorter is filled with zeros; `none` is an error.
unfoldable pub hex_to_hash : Bytes → Option Bytes
hex_to_hash s = to_hash (decode_string s)

-- `Hash.String`
unfoldable pub hash_string : Bytes → Bytes
hash_string h = encode_to_string h

-- `GetID`: the ID once it is set, else the hash of the offer's JSON, which is then its ID.
-- `hash_of` is SHA3-256 after encoding/json.
unfoldable pub get_id : {F : Type 0} → (Offer F → Bytes) → Offer F → Bytes × Offer F
get_id hash_of o =
    if bytes_eq o.id zero_hash then (hash_of o, record o { id = hash_of o }) else (o.id, o)

module _ (fl : Float64) where
  open fl use {Carrier, mul, div}

  -- `ExchangeRate.ToXMR` and `ToETH`
  unfoldable pub to_xmr : Carrier → Carrier → Carrier
  to_xmr rate eth_amount = div eth_amount rate

  unfoldable pub to_eth : Carrier → Carrier → Carrier
  to_eth rate xmr_amount = mul rate xmr_amount
