-- ===== src/Net/Reads.antt =====
-- Reading a message off a stream in whatever pieces it comes (net/host.go, `readStream`).
use atomic_swap.Base.{
  ℕ, zero, suc, ◌+◌, ◌-◌, ◌≤◌, Bytes, false, [], ◌∷◌, ◌++◌, ◌≡◌, ◌≢◌, refl, sym, ap, ◌∙◌, ◌==◌,
  ==_iff, ltb, if◌then◌else◌, length, length-append, arith,
}
use mathlib.Core.List.{append_assoc, append-nil}
use atomic_swap.Base.Outcome.{ok}
use atomic_swap.Action.{pure, fail_if, ◌>>=◌}
use atomic_swap.Action.Inversion.{>>=-known}
use atomic_swap.Net.{Stream, read, finish, read_rounds, read_body}
use atomic_swap.Net.Streams.{flat, pieces, read-piece, pieces_none}

ne_false : (a b : ℕ) → a ≢ b → (a == b) ≡ false
ne_false a b h = ground (arith, h)

finished : (len : ℕ) (got : Bytes) (s : Stream) → length got ≡ len → (finish len got s).0 ≡ ok got
unfolding finish pure
finished len got s h = rw ((==_iff (length got) len).1 h) refl

cons_nil : {x : ℕ} {xs : Bytes} → x ∷ xs ≢ []
cons_nil e = cc

-- A round of reads that gets a piece.
round :
    (rounds size len : ℕ) (got c : Bytes) (s s' : Stream)
    → read (size - length got) s ≡ (ok c, s')
    → read_rounds (suc rounds) size len got s
      ≡ (if length (got ++ c) == len
            then finish len (got ++ c)
            else read_rounds rounds size len (got ++ c))
          s'
unfolding read_rounds
round rounds size len got c s s' e = >>=-known _ _ s s' c e

-- All that is to come is read, where it is as much as is missing and the rounds suffice.
pub read_rounds-flat :
    (rounds size len : ℕ) (got : Bytes) (s : Stream) (x : ℕ) (xs : Bytes)
    → flat s ≡ x ∷ xs
    → length got + length (flat s) ≡ len
    → len ≤ size
    → pieces s ≤ rounds
    → (read_rounds rounds size len got s).0 ≡ ok (got ++ flat s)
read_rounds-flat zero size len got s x xs h total room left = cc (pieces_none s left)
read_rounds-flat (suc rounds) size len got s x xs h total room left =
    let (c, s', e, whole, fewer) = read-piece (size - length got) s x xs h (omega arith) in
    ap (λ r. r.0) (round rounds size len got c s s' e)
    ∙ go (λ acc t y ys. read_rounds-flat rounds size len acc t y ys) c s' (flat s') whole refl
        (omega arith)
  where
    go :
        ((acc : Bytes) (t : Stream) (y : ℕ) (ys : Bytes)
          → flat t ≡ y ∷ ys
          → length acc + length (flat t) ≡ len
          → len ≤ size
          → pieces t ≤ rounds
          → (read_rounds rounds size len acc t).0 ≡ ok (acc ++ flat t))
        → (c : Bytes) → (s' : Stream) → (rest : Bytes) → flat s ≡ c ++ flat s'
        → flat s' ≡ rest
        → pieces s' ≤ rounds
        → ((if length (got ++ c) == len
              then finish len (got ++ c)
              else read_rounds rounds size len (got ++ c))
            s').0
          ≡ ok (got ++ flat s)
    go again c s' [] whole e fewer =
        let all = whole ∙ ap (λ r. c ++ r) e ∙ append-nil c in
        let full : length (got ++ c) ≡ len = length-append got c ∙ (omega (arith, ap length all)) in
        rw ((==_iff (length (got ++ c)) len).1 full)
          (finished len (got ++ c) s' full ∙ ap (λ r. ok (got ++ r)) (sym all))
    go again c s' (y ∷ ys) whole e fewer =
        let sizes = ap length whole ∙ length-append c (flat s') in
        let more : length (got ++ c) + length (flat s') ≡ len =
          omega (arith, length-append got c, sizes) in
        let some_left = ap length e in
        rw (ne_false (length (got ++ c)) len (λ full. absurd (omega arith))) (
          again (got ++ c) s' y ys e more room fewer
          ∙ ap ok (append_assoc got c (flat s') ∙ ap (λ r. got ++ r) (sym whole)))

length_none : (len : ℕ) (xs : Bytes) → length xs ≡ len → xs ≢ [] → (len == 0) ≡ false
length_none len [] h d = absurd (d refl)
length_none len (x ∷ xs) h d = ne_false len 0 (λ e. absurd (omega arith))

fits_false : (size len : ℕ) → len ≤ size → ltb size len ≡ false
fits_false size len h = ground (arith, h)

-- A message that is no longer than the buffer, and comes in at most 128 pieces with nothing after
-- it, is read whole.
pub read_body-flat :
    (size len : ℕ) (s : Stream) (x : ℕ) (xs : Bytes)
    → flat s ≡ x ∷ xs
    → length (flat s) ≡ len
    → len ≤ size
    → pieces s ≤ 128
    → (read_body size len s).0 ≡ ok (flat s)
unfolding read_body ◌>>=◌ fail_if
read_body-flat size len s x xs h total room left =
    rw
      (
        length_none len (flat s) total (λ e. absurd (cons_nil (sym h ∙ e))),
        fits_false size len room,
      )
      (read_rounds-flat 128 size len [] s x xs h (omega (arith, total)) room left)
