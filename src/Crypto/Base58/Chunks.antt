-- ===== src/Crypto/Base58/Chunks.antt =====
-- One chunk of crypto/monero/base58.go through its encoding and back.
use atomic_swap.Base.{
  if◌then◌else◌, false, ℕ, zero, suc, ◌+◌, ◌-◌, ◌*◌, ◌/◌, ◌%◌, ◌≤◌, ◌<◌, ◌≡◌, ◌≢◌, refl, sym, ap,
  ◌∙◌, Bytes, [], ◌∷◌, ◌++◌, ◌==◌, length, replicate, arith, Bool, true, Bool-cases, inl, inr,
  ==_iff,
}
use atomic_swap.Crypto.BigInt.{bytes, set_bytes, bytes-ne_zero_cons}
use atomic_swap.Crypto.Base58.{
  character, lookup, digits_loop, encode_chunk, value_loop, decode_chunk,
}
use mathlib.Core.List.{reverse, reverse-append, reverse-reverse}

-- Do the first digits all read back from their characters?
read_back : ℕ → Bool
read_back zero = true
read_back (suc d) = let before = read_back d in if lookup (character d) == d then before else false

read_back-first :
    (count d : ℕ) → d < count → read_back count ≡ true → (lookup (character d) == d) ≡ true
unfolding read_back
read_back-first zero d small all = absurd (omega arith)
read_back-first (suc last) d small all = ground (arith, read_back-first last d)

-- The alphabet has no character twice: its 58 digits are tried out.
alphabet_read_back : read_back 58 ≡ true
unfolding read_back lookup character
alphabet_read_back = refl

lookup-character : (d : ℕ) → d < 58 → lookup (character d) ≡ d
lookup-character d h = (==_iff _ d).0 (read_back-first 58 d h alphabet_read_back)

-- The value of a text, read from the left.
value : ℕ → Bytes → ℕ
value acc [] = acc
value acc (c ∷ s) = value (acc * 58 + lookup c) s

value-digits_loop :
    (f n : ℕ) (result : Bytes) → n ≤ f → value 0 (digits_loop f n result) ≡ value n result
unfolding value digits_loop
value-digits_loop zero n result h = let e : n ≡ 0 = omega arith in rw e
value-digits_loop (suc f) n result h = elim (Bool-cases (n == 0)) [
  | inl e ↦ rw (e, (==_iff n 0).0 e)
  | inr e ↦ rw e (
      ground (
        arith,
        lookup-character (n % 58),
        value-digits_loop f (n / 58) (character (n % 58) ∷ result),
      ))
]

value-pad : (k : ℕ) (s : Bytes) → value 0 (replicate k b'1' ++ s) ≡ value 0 s
unfolding value lookup
value-pad zero s = refl
value-pad (suc k) s = value-pad k s

value-encode_chunk :
    (raw : Bytes) (padding : ℕ) → value 0 (encode_chunk raw padding) ≡ set_bytes raw
unfolding encode_chunk value
value-encode_chunk raw padding =
    value-pad (padding - length (digits_loop (set_bytes raw) (set_bytes raw) []))
      (digits_loop (set_bytes raw) (set_bytes raw) [])
    ∙ value-digits_loop (set_bytes raw) (set_bytes raw) [] (omega arith)

value-snoc : (acc c : ℕ) (s : Bytes) → value acc (s ++ (c ∷ [])) ≡ value acc s * 58 + lookup c
unfolding value
value-snoc acc c [] = refl
value-snoc acc c (d ∷ s) = value-snoc (acc * 58 + lookup d) c s

value_loop-reverse : (s : Bytes) (v m : ℕ) → value_loop s v m ≡ v + m * value 0 (reverse s)
unfolding value_loop
value_loop-reverse [] v m = unfold value in omega arith
value_loop-reverse (c ∷ s) v m =
    value_loop-reverse s (v + m * lookup c) (m * 58)
    ∙ rw (reverse-append (c ∷ []) s, value-snoc 0 c (reverse s)) (omega arith)

-- Decoding an encoded chunk gives back its value, written without leading zeros: that is the chunk
-- itself where its first byte is not 0.
pub decode_chunk-encode_chunk :
    (raw : Bytes) (padding : ℕ) → decode_chunk (encode_chunk raw padding) ≡ bytes (set_bytes raw)
unfolding decode_chunk
decode_chunk-encode_chunk raw padding = ap bytes (
    value_loop-reverse (reverse (encode_chunk raw padding)) 0 1
    ∙ rw reverse-reverse (omega (arith, value-encode_chunk raw padding)))

-- A chunk that begins with a zero byte is not what its encoding decodes to.
pub decode_chunk-leading_zero :
    (raw : Bytes) (padding : ℕ) → decode_chunk (encode_chunk (0 ∷ raw) padding) ≢ 0 ∷ raw
decode_chunk-leading_zero raw padding e =
    bytes-ne_zero_cons (set_bytes (0 ∷ raw)) raw
      (sym (decode_chunk-encode_chunk (0 ∷ raw) padding) ∙ e)
