-- ===== src/Net/Streams.antt =====
-- What a read takes off a stream (net/host.go): the bytes come in order, and the pieces get fewer.
use atomic_swap.Base.{
  ℕ, zero, suc, ◌≤◌, ◌<◌, Bytes, Bool, true, false, [], ◌∷◌, ◌++◌, ◌≡◌, refl, ap, length, take,
  drop, length-append, arith,
}
use atomic_swap.Base.Outcome.{ok}
use atomic_swap.Action.{pure}
use atomic_swap.Net.{Stream, ended, silent, piece, read}

-- All that is still to come.
unfoldable pub flat : Stream → Bytes
flat ended = []
flat silent = []
flat (piece b s) = b ++ flat s

-- Whether the peer closes the stream, or the connection breaks, after the last piece.
unfoldable pub closes : Stream → Bool
closes ended = true
closes silent = false
closes (piece b s) = closes s

-- The number of pieces that are not empty.
unfoldable pub pieces : Stream → ℕ
pieces ended = 0
pieces silent = 0
pieces (piece [] s) = pieces s
pieces (piece (b ∷ bs) s) = suc (pieces s)

take_all : (n : ℕ) (xs : Bytes) → length xs ≤ n → (take n xs ≡ xs) × (drop n xs ≡ [])
take_all zero [] h = (refl, refl)
take_all zero (x ∷ xs) h = absurd (omega arith)
take_all (suc n) [] h = (refl, refl)
take_all (suc n) (x ∷ xs) h = let (a, b) = take_all n xs (omega arith) in (ap (λ ys. x ∷ ys) a, b)

pieces-rest : (b : Bytes) (s : Stream) → pieces (piece b s) ≤ suc (pieces s)
unfolding pieces
pieces-rest [] s = omega arith
pieces-rest (x ∷ b) s = omega arith

head_eq : {x y : ℕ} {xs ys : Bytes} → x ∷ xs ≡ y ∷ ys → x ≡ y
head_eq h = cc

tail_eq : {x y : ℕ} {xs ys : Bytes} → x ∷ xs ≡ y ∷ ys → xs ≡ ys
tail_eq h = cc

-- A read of one byte gives the next one.
pub read-one :
    (s : Stream) (x : ℕ) (xs : Bytes)
    → flat s ≡ x ∷ xs
    → (s' : Stream) × (read 1 s ≡ (ok (x ∷ []), s')) × (flat s' ≡ xs) × (pieces s' ≤ pieces s)
unfolding read flat pieces pure
read-one ended x xs h = cc
read-one silent x xs h = cc
read-one (piece [] s) x xs h = read-one s x xs h
read-one (piece (b ∷ bs) s) x xs h =
    (piece bs s, ap (λ (y : ℕ). (ok (y ∷ []), piece bs s)) (head_eq h), tail_eq h, pieces-rest bs s)

-- A read with room for all that is to come gives a whole piece.
pub read-piece :
    (room : ℕ) (s : Stream) (x : ℕ) (xs : Bytes)
    → flat s ≡ x ∷ xs
    → length (flat s) ≤ room
    → (c : Bytes) × (s' : Stream) × (read room s ≡ (ok c, s'))
      × (flat s ≡ c ++ flat s')
      × (pieces s' < pieces s)
unfolding read flat pieces pure
read-piece room ended x xs h fits = cc
read-piece room silent x xs h fits = cc
read-piece room (piece [] s) x xs h fits = read-piece room s x xs h fits
read-piece room (piece (b ∷ bs) s) x xs h fits =
    let (t, d) = take_all room (b ∷ bs) (omega (arith, length-append (b ∷ bs) (flat s))) in
    (b ∷ bs, piece [] s, rw (t, d) refl, refl, omega arith)

-- Where no piece is left, nothing is to come.
pub pieces_none : (s : Stream) → pieces s ≤ 0 → flat s ≡ []
unfolding pieces flat
pieces_none ended h = refl
pieces_none silent h = refl
pieces_none (piece [] s) h = pieces_none s h
pieces_none (piece (b ∷ bs) s) h = absurd (omega arith)
