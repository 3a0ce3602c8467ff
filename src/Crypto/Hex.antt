-- ===== src/Crypto/Hex.antt =====
-- encoding/hex, as far as the program uses it: every key and proof travels as a hex text.
use atomic_swap.Base.{
  ℕ, ◌+◌, ◌-◌, ◌*◌, ◌/◌, ◌%◌, ◌<◌, ◌≡◌, refl, Bytes, IsByte, Option, none, some, [], ◌∷◌, ◌&&◌, ltb,
  leb, if◌then◌else◌, All, arith,
}

-- `hextable`
digit : ℕ → ℕ
digit d = if ltb d 10 then d + b'0' else d + b'a' - 10

unfoldable pub encode_to_string : Bytes → Bytes
unfolding digit
encode_to_string [] = []
encode_to_string (b ∷ bs) = digit (b / 16) ∷ digit (b % 16) ∷ encode_to_string bs

-- `none` for a character that is no hex digit; both cases are read.
from_hex_char : ℕ → Option ℕ
from_hex_char c =
    if leb b'0' c && leb c b'9'
    then some (c - b'0')
    else (if leb b'a' c && leb c b'f'
        then some (c - b'a' + 10)
        else (if leb b'A' c && leb c b'F' then some (c - b'A' + 10) else none))

abbrev cons_byte : Option ℕ → Option ℕ → Option Bytes → Option Bytes
cons_byte (some h) (some l) (some bs) = some ((h * 16 + l) ∷ bs)
cons_byte (some h) (some l) none = none
cons_byte (some h) none _ = none
cons_byte none _ _ = none

-- `none` stands for an error: a character that is no digit, or an odd length.
unfoldable pub decode_string : Bytes → Option Bytes
unfolding from_hex_char
decode_string [] = some []
decode_string (c ∷ []) = none
decode_string (c ∷ d ∷ s) = cons_byte (from_hex_char c) (from_hex_char d) (decode_string s)

from_hex_char-digit : (d : ℕ) → d < 16 → from_hex_char (digit d) ≡ some d
unfolding from_hex_char digit
from_hex_char-digit d h = ground arith

-- Every byte string survives its hex encoding.
pub decode_string-encode_to_string :
    (bs : Bytes) → All IsByte bs → decode_string (encode_to_string bs) ≡ some bs
unfolding decode_string encode_to_string
decode_string-encode_to_string [] h = refl
decode_string-encode_to_string (b ∷ bs) h = ground (
  arith,
  from_hex_char-digit (b / 16),
  from_hex_char-digit (b % 16),
  decode_string-encode_to_string bs h.1,
)
