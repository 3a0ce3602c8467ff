-- ===== src/Net/Overruns.antt =====
-- Two messages in one piece (net/host.go, `readStream`).
use atomic_swap.Base.{
  ℕ, zero, suc, ◌-◌, ◌<◌, Bytes, false, [], ◌∷◌, ◌++◌, ◌≡◌, ◌≢◌, ◌==◌, length, length-append, take,
  arith,
}
use atomic_swap.Base.Outcome.{ok}
use atomic_swap.Action.{pure, fail}
use atomic_swap.Action.Inversion.{passed, past_fail_if}
use atomic_swap.Net.{Stream, piece, read, finish, read_rounds, read_body}

past_length : (a b : ℕ) → b < a → (a == b) ≡ false
past_length a b h = ground (arith, h)

not_finished :
    (len : ℕ) (got v : Bytes) (s : Stream) → len < length got → (finish len got s).0 ≢ ok v
unfolding finish fail
not_finished len got v s h = rw (past_length (length got) len h) (λ e. cc)

-- Once more was read than the message has, reading on never succeeds.
too_much :
    (rounds size len : ℕ) (got v : Bytes) (s : Stream)
    → len < length got
    → (read_rounds rounds size len got s).0 ≢ ok v
unfolding read_rounds
too_much zero size len got v s h = not_finished len got v s h
too_much (suc rounds) size len got v s h = λ e.
    passed (read (size - length got)) _ s e (λ c s' _ e1.
      let longer : len < length (got ++ c) = omega (arith, length-append got c, h) in
      too_much rounds size len (got ++ c) v s' longer
        (rw (past_length (length (got ++ c)) len longer) at e1))

take_past :
    (size : ℕ) (b : Bytes) (x : ℕ) (xs : Bytes)
    → length b < size
    → length b < length (take size (b ++ (x ∷ xs)))
take_past zero b x xs h = absurd (omega arith)
take_past (suc size) [] x xs h = omega arith
take_past (suc size) (y ∷ b) x xs h =
    let r = take_past size b x xs (omega arith) in omega (arith, r)

not_zero : (n : ℕ) → (suc n == 0) ≡ false
not_zero n = ground arith

first_read :
    (room y : ℕ) (ys c : Bytes) (s : Stream)
    → (read room (piece (y ∷ ys) s)).0 ≡ ok c
    → take room (y ∷ ys) ≡ c
unfolding read pure
first_read room y ys c s e = cc

first_round :
    (rounds size y : ℕ) (ys : Bytes) (x : ℕ) (xs v : Bytes) (s : Stream)
    → length (y ∷ ys) < size
    → (read_rounds (suc rounds) size (length (y ∷ ys)) [] (piece (y ∷ (ys ++ (x ∷ xs))) s)).0 ≢ ok v
unfolding read_rounds
first_round rounds size y ys x xs v s room = λ e.
    passed (read (size - 0)) _ (piece (y ∷ (ys ++ (x ∷ xs))) s) e (λ c s' k e1.
      let whole = first_read (size - 0) y (ys ++ (x ∷ xs)) c s k in
      let longer : length (y ∷ ys) < length c =
        rw (← whole) (take_past (size - 0) (y ∷ ys) x xs (omega arith)) in
      too_much rounds size (length (y ∷ ys)) c v s' longer
        (rw (past_length (length c) (length (y ∷ ys)) longer) at e1))

-- Messages that come close together are lost: if the piece in which a message comes holds the
-- beginning of the next one too, and the buffer has room for a byte of it, then reading fails,
-- whatever comes later.
pub read_body_overrun :
    (size y : ℕ) (ys : Bytes) (x : ℕ) (xs v : Bytes) (s : Stream)
    → length (y ∷ ys) < size
    → (read_body size (length (y ∷ ys)) (piece (y ∷ ys ++ (x ∷ xs)) s)).0 ≢ ok v
unfolding read_body
read_body_overrun size y ys x xs v s room e =
    first_round 127 size y ys x xs v s room
      (past_fail_if _ _ _ _ (rw (not_zero (length ys)) at e)).1
