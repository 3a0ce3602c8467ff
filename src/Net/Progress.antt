-- ===== src/Net/Progress.antt =====
-- Every message that is read takes bytes off the stream (net/host.go).
use atomic_swap.Base.{
  ℕ, zero, suc, ◌≤◌, Bytes, [], ◌∷◌, ◌++◌, ◌≡◌, ◌≢◌, refl, length, length-append, drop, arith, ◌==◌,
}
use atomic_swap.Base.Outcome.{Outcome, ok}
use atomic_swap.Errors.{Err}
use atomic_swap.Action.{Action, pure, fail, hang, wrap, ◌>>=◌}
use atomic_swap.Action.Keeps.{
  Keeps, Keeps-pure, Keeps-fail, Keeps-if, Keeps-bind, Keeps-fail_if, Keeps-wrap,
}
use atomic_swap.Action.Inversion.{passed, >>=-ok, >>=-known, wrap-ok}
use atomic_swap.Net.{
  Stream, ended, silent, piece, read, finish, read_rounds, read_body, leb128_loop,
  read_leb128_to_uint64, read_stream,
}
use atomic_swap.Net.Streams.{flat}

-- At most so many bytes are to come.
pub record Has (n : ℕ) (s : Stream) : Type 0 where
  pub at_most : length (flat s) ≤ n

length-drop : (n : ℕ) (xs : Bytes) → length (drop n xs) ≤ length xs
length-drop zero xs = omega arith
length-drop (suc n) [] = omega arith
length-drop (suc n) (x ∷ xs) = let r = length-drop n xs in omega (arith, r)

read-less : (size : ℕ) (s : Stream) → length (flat (read size s).1) ≤ length (flat s)
unfolding read flat pure fail hang
read-less size ended = omega arith
read-less size silent = omega arith
read-less size (piece [] s) = read-less size s
read-less size (piece (b ∷ bs) s) = omega (
  arith,
  length-append (drop size (b ∷ bs)) (flat s),
  length-append (b ∷ bs) (flat s),
  length-drop size (b ∷ bs),
)

read-Has : {n : ℕ} (size : ℕ) → Keeps (Has n) (read size)
read-Has size = record {
  kept = λ s h. record { at_most = omega (arith, h.at_most, read-less size s) };
}

-- A read of one byte takes it.
read-takes :
    (n : ℕ) (s : Stream) (c : Bytes)
    → (read 1 s).0 ≡ ok c
    → length (flat s) ≤ suc n
    → length (flat (read 1 s).1) ≤ n
unfolding read flat pure fail hang
read-takes n ended c e h = cc
read-takes n silent c e h = cc
read-takes n (piece [] s) c e h = read-takes n s c e h
read-takes n (piece (b ∷ bs) s) c e h = omega (arith, h)

finish-Has : {n : ℕ} (len : ℕ) (got : Bytes) → Keeps (Has n) (finish len got)
unfolding finish
finish-Has len got = Keeps-if _ _ _ (Keeps-pure _) (Keeps-fail _)

read_rounds-Has :
    {n : ℕ} (rounds size len : ℕ) (got : Bytes) → Keeps (Has n) (read_rounds rounds size len got)
unfolding read_rounds
read_rounds-Has zero size len got = finish-Has len got
read_rounds-Has (suc rounds) size len got = Keeps-bind _ _ (read-Has _) (λ c.
    Keeps-if (length (got ++ c) == len) _ _ (finish-Has len (got ++ c))
      (read_rounds-Has rounds size len (got ++ c)))

read_body-Has : {n : ℕ} (size len : ℕ) → Keeps (Has n) (read_body size len)
unfolding read_body
read_body-Has size len =
    Keeps-if _ _ _ (Keeps-pure _)
      (Keeps-bind _ _ (Keeps-fail_if _ _) (λ u. read_rounds-Has 128 size len []))

leb128_loop-Has : {n : ℕ} (rounds shift out : ℕ) → Keeps (Has n) (leb128_loop rounds shift out)
unfolding leb128_loop
leb128_loop-Has zero shift out = Keeps-fail _
leb128_loop-Has (suc rounds) shift out =
    Keeps-bind _ _ (read-Has _) (λ c. Keeps-if _ _ _ (Keeps-pure _) (leb128_loop-Has rounds _ _))

known : {S A : Type 0} (m : Action S A) (s : S) (a : A) → (m s).0 ≡ ok a → m s ≡ (ok a, (m s).1)
known m s a e = pair (m s) a e
  where
    pair : {S A : Type 0} (r : Outcome Err A × S) (a : A) → r.0 ≡ ok a → r ≡ (ok a, r.1)
    pair (x, t) a e = rw e refl

-- What a chain whose first call succeeds leaves, where the first call takes a byte and the rest adds
-- none.
taking :
    {A B : Type 0} (n : ℕ) (m : Action Stream A) (f : A → Action Stream B) (s : Stream) (b : B)
    → ((a : A) → (m s).0 ≡ ok a → Has n (m s).1)
    → ((a : A) → Keeps (Has n) (f a))
    → ((m >>= f) s).0 ≡ ok b
    → Has n ((m >>= f) s).1
taking n m f s b first rest e =
    let (a, e1, e2) = >>=-ok m f s e in
    rw (>>=-known m f s (m s).1 a (known m s a e1)) ((rest a).kept (m s).1 (first a e1))

leb128_loop-takes :
    (n rounds shift out v : ℕ) (s : Stream)
    → (leb128_loop rounds shift out s).0 ≡ ok v
    → Has (suc n) s
    → Has n (leb128_loop rounds shift out s).1
unfolding leb128_loop fail
leb128_loop-takes n zero shift out v s e h = cc
leb128_loop-takes n (suc rounds) shift out v s e h =
    taking n (read 1) _ s v (λ c k. record { at_most = read-takes n s c k h.at_most })
      (λ c. Keeps-if _ _ _ (Keeps-pure _) (leb128_loop-Has rounds _ _)) e

-- A message that is read takes at least a byte off the stream.
pub read_stream-takes :
    (n size : ℕ) (b : Bytes) (s : Stream)
    → (read_stream size s).0 ≡ ok b
    → Has (suc n) s
    → Has n (read_stream size s).1
unfolding read_stream wrap read_leb128_to_uint64
read_stream-takes n size b s e h =
    taking n (wrap _ read_leb128_to_uint64) (read_body size) s b
      (λ len k. leb128_loop-takes n 10 0 0 len s (wrap-ok _ read_leb128_to_uint64 s k) h)
      (λ len. read_body-Has size len) e

pub read_stream-Has : {n : ℕ} (size : ℕ) → Keeps (Has n) (read_stream size)
unfolding read_stream read_leb128_to_uint64
read_stream-Has size =
    Keeps-bind _ _ (Keeps-wrap _ _ (leb128_loop-Has 10 0 0)) (λ len. read_body-Has size len)

no_byte : (s : Stream) (c : Bytes) → length (flat s) ≤ 0 → (read 1 s).0 ≢ ok c
unfolding read flat fail hang
no_byte ended c h = λ e. cc
no_byte silent c h = λ e. cc
no_byte (piece [] s) c h = no_byte s c h
no_byte (piece (b ∷ bs) s) c h = absurd (omega arith)

no_length :
    (rounds shift out v : ℕ) (s : Stream)
    → length (flat s) ≤ 0
    → (leb128_loop (suc rounds) shift out s).0 ≢ ok v
unfolding leb128_loop
no_length rounds shift out v s h e = passed (read 1) _ s e (λ c s' k _. no_byte s c h k)

-- No message is read where nothing is to come.
pub no_message :
    (size : ℕ) (b : Bytes) (s : Stream) → length (flat s) ≤ 0 → (read_stream size s).0 ≢ ok b
unfolding read_stream read_leb128_to_uint64
no_message size b s h e =
    passed (wrap _ (leb128_loop 10 0 0)) (read_body size) s e
      (λ len s' k _. no_length 9 0 0 len s h (wrap-ok _ (leb128_loop 10 0 0) s k))
