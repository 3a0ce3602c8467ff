-- ===== src/Net/Lengths.antt =====
-- The length before a message (net/utils.go): LEB128 of a uint64, and reading it off a stream.
use atomic_swap.Base.{
  ℕ, zero, suc, ◌+◌, ◌*◌, ◌/◌, ◌%◌, ◌^◌, ◌≤◌, ◌<◌, Bytes, true, false, [], ◌∷◌, ◌++◌, ◌≡◌, ◌≢◌,
  Bool-cases, inl, inr, refl, sym, ap, ◌∙◌, ◌==◌, ==_iff, ltb, if◌then◌else◌, arith,
}
use native.Mathlib.Nat.{div-add-mod}
use native.Mathlib.Numerals.{towards_suc}
use atomic_swap.Base.Outcome.{Outcome, ok}
use atomic_swap.Errors.{Err}
use atomic_swap.Action.{pure}
use atomic_swap.Action.Inversion.{>>=-known}
use atomic_swap.Net.{Stream, read, groups, uint64_to_leb128, leb128_loop, read_leb128_to_uint64}
use atomic_swap.Net.Streams.{flat, pieces, read-one}

-- After a byte is read.
next :
    (rounds shift out x : ℕ) (s s' : Stream)
    → read 1 s ≡ (ok (x ∷ []), s')
    → let value = out + x % 128 * 2 ^ shift % 2 ^ 64 in
      leb128_loop (suc rounds) shift out s
      ≡ (if ltb x 128 then pure value else leb128_loop rounds (shift + 7) value) s'
unfolding leb128_loop
next rounds shift out x s s' e = >>=-known _ _ s s' (x ∷ []) e

power_seven : (k : ℕ) → 2 ^ (k + 7) ≡ 128 * 2 ^ k
power_seven k = simp towards_suc (omega arith)

-- A number at a bit is its last seven bits there, and the rest seven bits up.
shifted : (n k : ℕ) → n % 128 * 2 ^ k + n / 128 * 2 ^ (k + 7) ≡ n * 2 ^ k
shifted n k = omega (
  arith,
  ap (λ (m : ℕ). n / 128 * m) (power_seven k),
  ap (λ (m : ℕ). m * 2 ^ k) (div-add-mod n 128),
)

-- What reading a number leaves.
pub record IsRead (value : ℕ) (rest : Bytes) (s : Stream) (r : Outcome Err ℕ × Stream)
    : Type 0 where
  pub result : r.0 ≡ ok value
  pub remaining : flat r.1 ≡ rest
  pub fewer : pieces r.1 ≤ pieces s

quotient_zero : (n : ℕ) → n / 128 ≡ 0 → n < 128
quotient_zero n h = omega arith

last_value :
    (out n k : ℕ)
    → n < 128
    → out + n * 2 ^ k < 2 ^ 64
    → out + n % 128 % 128 * 2 ^ k % 2 ^ 64 ≡ out + n * 2 ^ k
last_value out n k small fits = ground arith

low_bits : (n : ℕ) → (n % 128 + 128) % 128 ≡ n % 128
low_bits n = omega arith

inner_value :
    (out n k : ℕ)
    → out + n * 2 ^ k < 2 ^ 64
    → out + (n % 128 + 128) % 128 * 2 ^ k % 2 ^ 64 ≡ out + n % 128 * 2 ^ k
inner_value out n k fits = rw (low_bits n) (ground (arith, shifted n k))

-- The last group of a number.
last_group :
    (rounds shift out n : ℕ) (rest : Bytes) (s : Stream)
    → n / 128 ≡ 0
    → out + n * 2 ^ shift < 2 ^ 64
    → flat s ≡ groups (suc rounds) n ++ rest
    → IsRead (out + n * 2 ^ shift) rest s (leb128_loop (suc rounds) shift out s)
unfolding groups pure
last_group rounds shift out n rest s e fits h =
    let (s', r, left, fewer) = read-one s (n % 128) rest (rw ((==_iff (n / 128) 0).1 e) at h) in
    let low : ltb (n % 128) 128 ≡ true = ground arith in
    rw (next rounds shift out (n % 128) s s' r, low)
      (record {
        result = ap ok (last_value out n shift (quotient_zero n e) fits);
        remaining = left;
        fewer = fewer;
      })

-- The groups before it.
inner_group :
    (rounds shift out n : ℕ) (rest : Bytes) (s : Stream)
    → n / 128 ≢ 0
    → out + n * 2 ^ shift < 2 ^ 64
    → flat s ≡ groups (suc rounds) n ++ rest
    → (s' : Stream) × (flat s' ≡ groups rounds (n / 128) ++ rest)
      × (pieces s' ≤ pieces s)
      × (leb128_loop (suc rounds) shift out s
          ≡ leb128_loop rounds (shift + 7) (out + n % 128 * 2 ^ shift) s')
unfolding groups
inner_group rounds shift out n rest s e fits h =
    let more : (n / 128 == 0) ≡ false = ground (arith, e) in
    let (s', r, left, fewer) =
      read-one s (n % 128 + 128) (groups rounds (n / 128) ++ rest) (rw more at h) in
    let high : ltb (n % 128 + 128) 128 ≡ false = ground arith in
    (
      s',
      left,
      fewer,
      next rounds shift out (n % 128 + 128) s s' r ∙ rw (high, inner_value out n shift fits) refl,
    )

differ : false ≢ true
differ e = cc

pub leb128_loop-groups :
    (rounds shift out n : ℕ) (rest : Bytes) (s : Stream)
    → n < 128 ^ suc rounds
    → out + n * 2 ^ shift < 2 ^ 64
    → flat s ≡ groups (suc rounds) n ++ rest
    → IsRead (out + n * 2 ^ shift) rest s (leb128_loop (suc rounds) shift out s)
leb128_loop-groups zero shift out n rest s small fits h =
    last_group zero shift out n rest s (omega arith) fits h
leb128_loop-groups (suc rounds) shift out n rest s small fits h = elim (Bool-cases (n / 128 == 0)) [
  | inl e ↦ last_group (suc rounds) shift out n rest s ((==_iff (n / 128) 0).0 e) fits h
  | inr e ↦
      let (s', left, fewer, same) =
        inner_group (suc rounds) shift out n rest s (λ z. differ (sym e ∙ (==_iff (n / 128) 0).1 z))
          fits h in
      let total : out + n % 128 * 2 ^ shift + n / 128 * 2 ^ (shift + 7) ≡ out + n * 2 ^ shift =
        omega (arith, shifted n shift) in
      let r =
        leb128_loop-groups rounds (shift + 7) (out + n % 128 * 2 ^ shift) (n / 128) rest s'
          (omega arith) (omega (arith, total)) left in
      record {
        result = ap (λ x. x.0) same ∙ r.result ∙ ap ok total;
        remaining = ap (λ x. flat x.1) same ∙ r.remaining;
        fewer = omega (arith, ap (λ x. pieces x.1) same, r.fewer, fewer);
      }
]

-- A length below 2 ^ 64 is read back, in whatever pieces its bytes come, and what follows it is left
-- on the stream.
pub read_leb128_to_uint64-uint64_to_leb128 :
    (n : ℕ) (rest : Bytes) (s : Stream)
    → n < 2 ^ 64
    → flat s ≡ uint64_to_leb128 n ++ rest
    → IsRead n rest s (read_leb128_to_uint64 s)
unfolding read_leb128_to_uint64 uint64_to_leb128
read_leb128_to_uint64-uint64_to_leb128 n rest s small h =
    let r = leb128_loop-groups 9 0 0 n rest s (omega arith) (omega arith) h in
    record { result = r.result ∙ ap ok (omega arith); remaining = r.remaining; fewer = r.fewer }
