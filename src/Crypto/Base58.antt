-- ===== src/Crypto/Base58.antt =====
-- crypto/monero/base58.go: Monero's base 58, which turns 8 bytes at a time into 11 characters.
pub mod Chunks
use atomic_swap.Base.{
  ℕ, zero, suc, ◌+◌, ◌-◌, ◌*◌, ◌/◌, ◌%◌, Bytes, List, [], ◌∷◌, ◌++◌, ◌==◌, ltb, codes, length, take,
  drop, replicate, if◌then◌else◌, get_elem?, Option, none, some,
}
use atomic_swap.Crypto.BigInt.{bytes, set_bytes}
use mathlib.Core.List.{reverse}

abbrev pub base58 : Bytes
base58 = codes "123456789ABCDEFGHJKLMNPQRSTUVWXYZabcdefghijkmnopqrstuvwxyz"

-- `BASE58[i]`
unfoldable pub or_zero : Option ℕ → ℕ
or_zero none = 0
or_zero (some c) = c

unfoldable pub character : ℕ → ℕ
unfolding or_zero
character d = or_zero (get_elem? base58 d)

index_from : ℕ → Bytes → ℕ → ℕ
index_from i [] c = 0
index_from i (d ∷ ds) c = if d == c then i else index_from (i + 1) ds c

-- `base58Lookup`, the position of a character; a missing key of the Go map reads as 0.
pub lookup : ℕ → ℕ
unfolding index_from
lookup c = index_from 0 base58 c

-- The division loop. The remainder falls with each round, so itself is enough fuel.
unfoldable pub digits_loop : ℕ → ℕ → Bytes → Bytes
digits_loop zero remainder result = result
digits_loop (suc f) remainder result =
    let rest = digits_loop f (remainder / 58) (character (remainder % 58) ∷ result) in
    if remainder == 0 then result else rest

unfoldable pub pad : Bytes → ℕ → Bytes
pad result padding = replicate (padding - length result) b'1' ++ result

-- Padding is only added to a shorter result, and `-` stops at 0.
unfoldable pub encode_chunk : Bytes → ℕ → Bytes
unfolding digits_loop pad
encode_chunk raw padding = pad (digits_loop (set_bytes raw) (set_bytes raw) []) padding

-- The loop over the characters from the last one: `value` is the sum so far, `multiplier` the
-- weight of the next one.
value_loop : Bytes → ℕ → ℕ → ℕ
value_loop [] value multiplier = value
value_loop (c ∷ before) value multiplier =
    value_loop before (value + multiplier * lookup c) (multiplier * 58)

pub decode_chunk : Bytes → Bytes
unfolding value_loop
decode_chunk encoded = bytes (value_loop (reverse encoded) 0 1)

-- `rounds` full chunks, and what remains.
unfoldable pub encode_rounds : ℕ → Bytes → Bytes
encode_rounds zero combined = if 0 == length combined then [] else encode_chunk combined 7
encode_rounds (suc rounds) combined =
    encode_chunk (take 8 combined) 11 ++ encode_rounds rounds (drop 8 combined)

unfoldable pub encode_monero_base58 : Bytes → Bytes
unfolding encode_rounds
encode_monero_base58 combined = encode_rounds (length combined / 8) combined

decode_rounds : ℕ → Bytes → Bytes
decode_rounds zero encoded = if 0 == length encoded then [] else decode_chunk encoded
decode_rounds (suc rounds) encoded =
    decode_chunk (take 11 encoded) ++ decode_rounds rounds (drop 11 encoded)

pub decode_monero_base58 : Bytes → Bytes
unfolding decode_rounds
decode_monero_base58 encoded = decode_rounds (length encoded / 11) encoded
