-- ===== src/Net/Closed.antt =====
-- How a swap stream is left (net/initiate.go, `handleProtocolStreamInner`).
use atomic_swap.Base.{
  ℕ, zero, suc, ◌<◌, Bytes, Bool, true, false, List, ◌≡◌, ◌≢◌, ◌⊎◌, inl, inr, refl, length, arith,
}
use atomic_swap.Base.Outcome.{Outcome, ok, err, panic, blocked}
use atomic_swap.Errors.{Err}
use atomic_swap.Action.{Action, pure, fail, modify, ignore, handle_outcome, ◌>>=◌}
use atomic_swap.Message.{JsonCodec}
use atomic_swap.Net.Loop.{
  Handlers, Host, Next, go_on, leave, on_side, serve, after, serve_loop, close_stream, closing,
  handle_protocol_stream_inner,
}
use atomic_swap.Net.Streams.{flat}
use atomic_swap.Net.Ends.{serve-takes, serve_stops}
use atomic_swap.Net.Serving.{Ending, Sound, Served, serve-Served}

module _ {F St : Type 0} (json : JsonCodec F) (h : Handlers F St)
    (write_fails : Bool → List Bytes → Bool) where
  -- A round after which the loop goes on leaves fewer bytes to come.
  serve-less :
      (n : ℕ) (s : Host St)
      → length (flat s.incoming) < suc n
      → (serve json h write_fails s).0 ≡ ok go_on
      → length (flat (serve json h write_fails s).1.incoming) < n
  serve-less zero s fits e = absurd (serve_stops json h write_fails s (omega arith) e)
  serve-less (suc n) s fits e =
      let k =
        serve-takes json h write_fails n s (record { left = record { at_most = omega arith } }) e in
      omega (arith, k.left.at_most)

  module _ {Q : St → Type 0} {E : St → St → Type 0} (ending : Ending Q E h) where
    looped :
        (rest : Action (Host St) (Unit {0})) (r : Outcome Err Next) (s : Host St)
        → r ≢ blocked
        → Sound Q s
        → (r ≡ ok go_on → Served Q (rest s))
        → Served Q (handle_outcome r (λ n. after json h write_fails n rest) fail s)
    unfolding pure fail
    looped rest (ok go_on) s n k next = next refl
    looped rest (ok leave) s n k next = record { ended = λ e. cc; so = k }
    looped rest (err e) s n k next = record { ended = λ e. cc; so = k }
    looped rest panic s n k next = record { ended = λ e. cc; so = k }
    looped rest blocked s n k next = absurd (n refl)

    loop-Served :
        (rounds : ℕ) (s : Host St)
        → Sound Q s
        → length (flat s.incoming) < rounds
        → Served Q (serve_loop json h write_fails rounds s)
    unfolding serve_loop ◌>>=◌
    loop-Served zero s k fits = absurd (omega arith)
    loop-Served (suc rounds) s k fits =
        let r = serve json h write_fails s in
        let served = serve-Served json h write_fails ending s k in
        looped (serve_loop json h write_fails rounds) r.0 r.1 served.ended served.so
          (λ e. loop-Served rounds r.1 served.so (serve-less rounds s fits e))

  -- What holds when a stream was left: `had` tells whether there was a swap before, which was then left
  -- through Exit.
  pub record IsClosed (E : St → Type 0) (had : Bool) (r : Outcome Err (Unit {0})) (s : Host St)
      : Type 0 where
    pub returned : r ≢ blocked
    pub closed : s.is_open ≡ false
    pub left : (r ≡ panic) ⊎ (s.busy ≡ false)
    pub exited : had ≡ true → E s.side

  -- The stream is closed, and the result stands.
  abbrev leaving : Outcome Err (Unit {0}) → Action (Host St) (Unit {0})
  leaving r = close_stream json h write_fails >>= λ _ t. (r, t)

  module _ {E : St → Type 0} where
    exited-IsClosed :
        (r x : Outcome Err (Unit {0})) (s : Host St) (t : St)
        → r ≢ blocked
        → x ≢ blocked
        → E t
        → s.busy ≡ true
        → h.exit s.side ≡ (x, t)
        → IsClosed E true (leaving r s).0 (leaving r s).1
    unfolding close_stream on_side ◌>>=◌ ignore modify
    exited-IsClosed r (ok u) s t k kx q busy e =
        rw (busy, e) (record { returned = k; closed = refl; left = inr refl; exited = λ _. q })
    exited-IsClosed r (err y) s t k kx q busy e =
        rw (busy, e) (record { returned = k; closed = refl; left = inr refl; exited = λ _. q })
    exited-IsClosed r panic s t k kx q busy e =
        rw (busy, e)
          (record { returned = λ h. cc; closed = refl; left = inl refl; exited = λ _. q })
    exited-IsClosed r blocked s t k kx q busy e = absurd (kx refl)

    idle-IsClosed :
        (r : Outcome Err (Unit {0})) (s : Host St)
        → r ≢ blocked
        → s.busy ≡ false
        → IsClosed E false (leaving r s).0 (leaving r s).1
    unfolding close_stream ◌>>=◌ modify
    idle-IsClosed r s k idle =
        rw idle (record { returned = k; closed = refl; left = inr refl; exited = λ e. cc })

  module _ {Q : St → Type 0} {E : St → St → Type 0} (ending : Ending Q E h) where
    leaving-IsClosed :
        (b : Bool) (r : Outcome Err (Unit {0})) (s : Host St)
        → s.busy ≡ b
        → r ≢ blocked
        → Sound Q s
        → IsClosed (E s.side) b (leaving r s).0 (leaving r s).1
    leaving-IsClosed true r s e k q =
        let held = q.sound e in
        exited-IsClosed r (h.exit s.side).0 s (h.exit s.side).1 k (ending.exit_ends s.side held)
          (ending.left s.side held) e refl
    leaving-IsClosed false r s e k q = idle-IsClosed r s k e

    closing-IsClosed :
        (r : Outcome Err (Unit {0})) (s : Host St)
        → r ≢ blocked
        → Sound Q s
        → IsClosed
            (E s.side)
            s.busy
            (closing json h write_fails (r, s)).0
            (closing json h write_fails (r, s)).1
    unfolding closing
    closing-IsClosed (ok u) s k q = leaving-IsClosed s.busy (ok u) s refl k q
    closing-IsClosed (err e) s k q = leaving-IsClosed s.busy (err e) s refl k q
    closing-IsClosed panic s k q = leaving-IsClosed s.busy panic s refl k q
    closing-IsClosed blocked s k q = absurd (k refl)

    -- A swap stream ends, whatever the peer sends on it and in whatever pieces, where the peer closes it
    -- or the connection breaks in the end. The handlers of the side end where `Q` holds of the side,
    -- which beginning a swap brings about and messages keep, and `E` relates the side before Exit to the side after it; `Q`
    -- holds now if there is a swap; and the loop has more rounds than there are bytes to come. Then handleProtocolStreamInner returns, our side of the
    -- stream is closed, no swap is left unless a handler panicked, and if there was a swap when
    -- the loop was left, `E` holds from the side as it was then.
    pub handle_protocol_stream_inner-IsClosed :
        (rounds : ℕ) (s : Host St)
        → Sound Q s
        → length (flat s.incoming) < rounds
        → IsClosed
            (E (serve_loop json h write_fails rounds s).1.side)
            (serve_loop json h write_fails rounds s).1.busy
            (handle_protocol_stream_inner json h write_fails rounds s).0
            (handle_protocol_stream_inner json h write_fails rounds s).1
    unfolding handle_protocol_stream_inner
    handle_protocol_stream_inner-IsClosed rounds s k fits =
        let r = serve_loop json h write_fails rounds s in
        let served = loop-Served ending rounds s k fits in
        closing-IsClosed r.0 r.1 served.ended served.so
