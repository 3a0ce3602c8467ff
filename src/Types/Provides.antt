-- ===== src/Types/Provides.antt =====
-- common/types/provides.go: the coin that a side of a swap provides.
use atomic_swap.Base.{Bytes, ◌||◌, Option, none, some, codes, bytes_eq, if◌then◌else◌}

pub data ProvidesCoin : Type 0 where
  provides_xmr provides_eth : ProvidesCoin

-- `none` stands for errInvalidCoin.
unfoldable pub new_provides_coin : Bytes → Option ProvidesCoin
unfolding bytes_eq
new_provides_coin s =
    if bytes_eq s (codes "XMR") || bytes_eq s (codes "xmr")
    then some provides_xmr
    else (if bytes_eq s (codes "ETH") || bytes_eq s (codes "eth") then some provides_eth else none)
