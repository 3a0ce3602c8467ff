-- ===== src/Crypto/Tests.antt =====
-- Texts on concrete values.
use atomic_swap.Base.{◌≡◌, ◌≢◌, some, [], ◌∷◌, arith}
use atomic_swap.Crypto.Hex.{decode_string, encode_to_string, decode_string-encode_to_string}
use atomic_swap.Crypto.BigInt.{bytes, set_bytes, set_bytes-bytes}
use atomic_swap.Crypto.Base58.{decode_chunk, encode_chunk}
use atomic_swap.Crypto.Base58.Chunks.{decode_chunk-encode_chunk, decode_chunk-leading_zero}

decode_string-encode_to_string_example :
    decode_string (encode_to_string (31 ∷ 255 ∷ [])) ≡ some (31 ∷ 255 ∷ [])
decode_string-encode_to_string_example =
    decode_string-encode_to_string (31 ∷ 255 ∷ []) (omega arith, (omega arith, tt))

set_bytes-bytes_example : set_bytes (bytes 66_051) ≡ 66_051
set_bytes-bytes_example = set_bytes-bytes 66_051

decode_chunk-encode_chunk_example :
    decode_chunk (encode_chunk (18 ∷ 0 ∷ 200 ∷ []) 11) ≡ bytes 1_179_848
unfolding set_bytes
decode_chunk-encode_chunk_example = decode_chunk-encode_chunk (18 ∷ 0 ∷ 200 ∷ []) 11

decode_chunk-leading_zero_example : decode_chunk (encode_chunk (0 ∷ 5 ∷ []) 11) ≢ 0 ∷ 5 ∷ []
decode_chunk-leading_zero_example = decode_chunk-leading_zero (5 ∷ []) 11
