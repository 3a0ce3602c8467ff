-- ===== src/Net/ReadEnds.antt =====
-- Reading a message ends where the peer closes the stream in the end (net/host.go and net/utils.go).
use atomic_swap.Base.{
  ℕ, zero, suc, Bytes, refl, Bool, true, false, [], ◌∷◌, ◌++◌, ◌==◌, ◌≡◌, ◌≢◌, length,
  if◌then◌else◌,
}
use atomic_swap.Base.Outcome.{Outcome, ok, err, panic, blocked}
use atomic_swap.Errors.{Err}
use atomic_swap.Action.{Action, pure, fail, fail_if, wrap, handle_outcome, ◌>>=◌}
use atomic_swap.Action.Returns.{Returns-wrap}
use atomic_swap.Net.{
  Stream, ended, silent, piece, read, finish, read_rounds, read_body, leb128_loop,
  read_leb128_to_uint64, read_stream,
}
use atomic_swap.Net.Streams.{closes}

-- A call on a stream ended, and the peer still closes it in the end.
pub record Ended {A : Type 0} (r : Outcome Err A × Stream) : Type 0 where
  pub ends : r.0 ≢ blocked
  pub still : closes r.1 ≡ true

-- A call ends on every stream that the peer closes in the end.
pub record Ends {A : Type 0} (m : Action Stream A) : Type 0 where
  pub from : (s : Stream) → closes s ≡ true → Ended (m s)

module _ {A : Type 0} where
  Ends-pure : (a : A) → Ends (pure a)
  unfolding pure
  Ends-pure a = record { from = λ s h. record { ends = λ e. cc; still = h } }

  Ends-fail : (x : Err) → Ends (fail {A = A} x)
  unfolding fail
  Ends-fail x = record { from = λ s h. record { ends = λ e. cc; still = h } }

  Ends-if : (b : Bool) (m n : Action Stream A) → Ends m → Ends n → Ends (if b then m else n)
  Ends-if true m n km kn = km
  Ends-if false m n km kn = kn

  bound :
      {B : Type 0} (r : Outcome Err A) (f : A → Action Stream B) (s : Stream)
      → r ≢ blocked
      → closes s ≡ true
      → ((a : A) → Ends (f a))
      → Ended (handle_outcome r f fail s)
  unfolding fail
  bound (ok a) f s n h k = (k a).from s h
  bound (err x) f s n h k = record { ends = λ e. cc; still = h }
  bound panic f s n h k = record { ends = λ e. cc; still = h }
  bound blocked f s n h k = absurd (n refl)

  Ends-bind :
      {B : Type 0} (m : Action Stream A) (f : A → Action Stream B)
      → Ends m
      → ((a : A) → Ends (f a))
      → Ends (m >>= f)
  unfolding ◌>>=◌
  Ends-bind m f k kf = record {
    from = λ s h. let d = k.from s h in bound (m s).0 f (m s).1 d.ends d.still kf;
  }

  Ends-wrap : (t : Bytes) (m : Action Stream A) → Ends m → Ends (wrap t m)
  unfolding wrap
  Ends-wrap t m k = record {
    from = λ s h. record {
      ends = (Returns-wrap t (λ _. m s) (record { from = λ _. (k.from s h).ends })).from s;
      still = (k.from s h).still;
    };
  }

Ends-fail_if : (b : Bool) (x : Err) → Ends (fail_if b x)
unfolding fail_if
Ends-fail_if true x = record { from = λ s h. record { ends = λ e. cc; still = h } }
Ends-fail_if false x = record { from = λ s h. record { ends = λ e. cc; still = h } }

read_ends : (size : ℕ) (s : Stream) → closes s ≡ true → Ended (read size s)
unfolding read fail pure closes
read_ends size ended h = record { ends = λ e. cc; still = refl }
read_ends size silent h = cc
read_ends size (piece [] s) h = read_ends size s h
read_ends size (piece (b ∷ bs) s) h = record { ends = λ e. cc; still = h }

read-Ends : (size : ℕ) → Ends (read size)
read-Ends size = record { from = read_ends size }

finish-Ends : (len : ℕ) (got : Bytes) → Ends (finish len got)
unfolding finish
finish-Ends len got = Ends-if _ _ _ (Ends-pure _) (Ends-fail _)

read_rounds-Ends : (rounds size len : ℕ) (got : Bytes) → Ends (read_rounds rounds size len got)
unfolding read_rounds
read_rounds-Ends zero size len got = finish-Ends len got
read_rounds-Ends (suc rounds) size len got = Ends-bind _ _ (read-Ends _) (λ c.
    Ends-if (length (got ++ c) == len) _ _ (finish-Ends len (got ++ c))
      (read_rounds-Ends rounds size len (got ++ c)))

read_body-Ends : (size len : ℕ) → Ends (read_body size len)
unfolding read_body
read_body-Ends size len =
    Ends-if _ _ _ (Ends-pure _)
      (Ends-bind _ _ (Ends-fail_if _ _) (λ u. read_rounds-Ends 128 size len []))

leb128_loop-Ends : (rounds shift out : ℕ) → Ends (leb128_loop rounds shift out)
unfolding leb128_loop
leb128_loop-Ends zero shift out = Ends-fail _
leb128_loop-Ends (suc rounds) shift out =
    Ends-bind _ _ (read-Ends _) (λ c. Ends-if _ _ _ (Ends-pure _) (leb128_loop-Ends rounds _ _))

-- Reading a message ends, whatever comes, where the peer closes the stream in the end.
read_stream-Ends : (size : ℕ) → Ends (read_stream size)
unfolding read_stream read_leb128_to_uint64
read_stream-Ends size =
    Ends-bind _ _ (Ends-wrap _ _ (leb128_loop-Ends 10 0 0)) (λ len. read_body-Ends size len)

pub read_stream_ends :
    (size : ℕ) (s : Stream)
    → closes s ≡ true
    → ((read_stream size s).0 ≢ blocked) × (closes (read_stream size s).1 ≡ true)
read_stream_ends size s h = let d = (read_stream-Ends size).from s h in (d.ends, d.still)
