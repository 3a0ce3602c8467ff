-- ===== src/Net/Serving.antt =====
-- What a round of the loop of a swap stream keeps of the side that handles its messages
-- (net/initiate.go).
use atomic_swap.Base.{
  if◌then◌else◌, Bytes, Bool, true, false, Option, none, some, List, ◌≡◌, ◌≢◌, refl,
}
use atomic_swap.Base.Outcome.{Outcome, ok, err, panic, blocked}
use atomic_swap.Errors.{Err}
use atomic_swap.Action.{pure, handle, handle_outcome, modify, ◌>>=◌, ◌>>◌}
use atomic_swap.Action.Keeps.{
  Keeps, Keeps-pure, Keeps-fail, Keeps-gets, Keeps-bind, Keeps-fail_if, Keeps-modify, Keeps-handle,
}
use atomic_swap.Action.Returns.{
  Returns, Returns-pure, Returns-fail, Returns-gets, Returns-bind, Returns-fail_if, Returns-modify,
  Returns-handle,
}
use atomic_swap.Message.{
  Message, SendKeysMessage, JsonCodec, send_keys, notify_eth_locked, notify_xmr_lock, notify_ready,
  notify_claimed, notify_refund, query_response, decode_message,
}
use atomic_swap.Net.{read_stream}
use atomic_swap.Net.Loop.{
  Handlers, Host, leave, on_stream, on_side, write, respond, serve_first, serve_next, serve_message,
  serve,
}
use atomic_swap.Net.Streams.{closes}
use atomic_swap.Net.ReadEnds.{read_stream_ends}

-- The handlers of a side end where `Q` holds of it, which a swap that was begun and every message
-- keeps; `E` relates the side before Exit to the side after it.
pub record Ending {F St : Type 0} (Q : St → Type 0) (E : St → St → Type 0) (h : Handlers F St)
    : Type 0 where
  pub initiate_ends : (m : Option (SendKeysMessage F)) (t : St) → (h.initiate m t).0 ≢ blocked
  pub begun :
      (m : Option (SendKeysMessage F)) (t : St) (a : SendKeysMessage F)
      → (h.initiate m t).0 ≡ ok a
      → Q (h.initiate m t).1
  pub protocol_ends : (m : Message F) (t : St) → Q t → (h.protocol m t).0 ≢ blocked
  pub kept : (m : Message F) (t : St) → Q t → Q (h.protocol m t).1
  pub exit_ends : (t : St) → Q t → (h.exit t).0 ≢ blocked
  pub left : (t : St) → Q t → E t (h.exit t).1

-- What the host keeps: `Q` holds of the side while there is a swap, and the peer closes the stream
-- in the end.
pub record Sound {St : Type 0} (Q : St → Type 0) (s : Host St) : Type 0 where
  pub sound : s.busy ≡ true → Q s.side
  pub breaks : closes s.incoming ≡ true

-- A call ended, and left the host so.
pub record Served {A St : Type 0} (Q : St → Type 0) (r : Outcome Err A × Host St) : Type 0 where
  pub ended : r.0 ≢ blocked
  pub so : Sound Q r.1

module _ {F St : Type 0} (json : JsonCodec F) (h : Handlers F St)
    (write_fails : Bool → List Bytes → Bool) where
  write-Returns : (o : Option Bytes) → Returns (write json h write_fails o)
  unfolding write
  write-Returns none = Returns-fail _
  write-Returns (some b) =
      Returns-bind _ _ (Returns-modify _)
        (λ u. Returns-bind _ _ (Returns-gets _) (λ x. Returns-fail_if _ _))

  respond-Returns :
      (o : Option (Message F)) (done : Bool) → Returns (respond json h write_fails o done)
  unfolding respond
  respond-Returns none done = Returns-pure _
  respond-Returns (some m) done =
      Returns-handle _ _ _ (write-Returns _) (λ a. Returns-pure _) (λ e. Returns-pure _)

  module _ {Q : St → Type 0} {E : St → St → Type 0} (ending : Ending Q E h) where
    Sound-write : (o : Option Bytes) → Keeps (Sound Q) (write json h write_fails o)
    unfolding write
    Sound-write none = Keeps-fail _
    Sound-write (some b) =
        Keeps-bind _ _ (Keeps-modify _ (λ s k. record { sound = k.sound; breaks = k.breaks }))
          (λ u. Keeps-bind _ _ (Keeps-gets _) (λ x. Keeps-fail_if _ _))

    Sound-respond :
        (o : Option (Message F)) (done : Bool) → Keeps (Sound Q) (respond json h write_fails o done)
    unfolding respond
    Sound-respond none done = Keeps-pure _
    Sound-respond (some m) done =
        Keeps-handle _ _ _ (Sound-write _) (λ a. Keeps-pure _) (λ e. Keeps-pure _)

    responded :
        (o : Option (Message F)) (done : Bool) (s : Host St)
        → Sound Q s
        → Served Q (respond json h write_fails o done s)
    responded o done s k = record {
      ended = (respond-Returns o done).from s;
      so = (Sound-respond o done).kept s k;
    }

    left_loop : (s : Host St) → Sound Q s → Served Q (pure leave s)
    unfolding pure
    left_loop s k = record { ended = λ e. cc; so = k }

    next-Served :
        (r : Outcome Err (Option (Message F) × Bool)) (s : Host St)
        → r ≢ blocked
        → Sound Q s
        → Served Q (handle_outcome r (λ (o, d). respond json h write_fails o d) (λ _. pure leave) s)
    next-Served (ok (o, d)) s b k = responded o d s k
    next-Served (err e) s b k = left_loop s k
    next-Served panic s b k = record { ended = λ e. cc; so = k }
    next-Served blocked s b k = absurd (b refl)

    serve_next-Served :
        (m : Message F) (s : Host St)
        → Q s.side
        → closes s.incoming ≡ true
        → Served Q (serve_next json h write_fails m s)
    unfolding serve_next handle on_side
    serve_next-Served m s k c =
        next-Served (h.protocol m s.side).0 (record s { side = (h.protocol m s.side).1 })
          (ending.protocol_ends m s.side k)
          (record { sound = λ _. ending.kept m s.side k; breaks = c })

    first-Served :
        (r : Outcome Err (SendKeysMessage F)) (s : Host St)
        → r ≢ blocked
        → s.busy ≡ false
        → closes s.incoming ≡ true
        → ((a : SendKeysMessage F) → r ≡ ok a → Q s.side)
        → Served Q (
            handle_outcome r
              (λ resp.
                modify (λ s. record s { busy = true })
                >> respond json h write_fails (some (send_keys (some resp))) false)
              (λ _. pure leave)
              s)
    unfolding ◌>>=◌ modify
    first-Served (ok a) s b idle c k =
        responded (some (send_keys (some a))) false (record s { busy = true })
          (record { sound = λ _. k a refl; breaks = c })
    first-Served (err e) s b idle c k = left_loop s (record { sound = λ busy. cc; breaks = c })
    first-Served panic s b idle c k = record {
      ended = λ e. cc;
      so = record { sound = λ busy. cc; breaks = c };
    }
    first-Served blocked s b idle c k = absurd (b refl)

    serve_first-Served :
        (m : Message F) (s : Host St)
        → s.busy ≡ false
        → closes s.incoming ≡ true
        → Served Q (serve_first json h write_fails m s)
    unfolding serve_first handle on_side
    serve_first-Served (send_keys m) s idle c =
        first-Served (h.initiate m s.side).0 (record s { side = (h.initiate m s.side).1 })
          (ending.initiate_ends m s.side) idle c (ending.begun m s.side)
    serve_first-Served (query_response m) s idle c =
        left_loop s (record { sound = λ busy. cc; breaks = c })
    serve_first-Served (notify_eth_locked m) s idle c =
        left_loop s (record { sound = λ busy. cc; breaks = c })
    serve_first-Served (notify_xmr_lock m) s idle c =
        left_loop s (record { sound = λ busy. cc; breaks = c })
    serve_first-Served (notify_ready m) s idle c =
        left_loop s (record { sound = λ busy. cc; breaks = c })
    serve_first-Served (notify_claimed m) s idle c =
        left_loop s (record { sound = λ busy. cc; breaks = c })
    serve_first-Served (notify_refund m) s idle c =
        left_loop s (record { sound = λ busy. cc; breaks = c })

    by_busy :
        (b : Bool) (m : Message F) (s : Host St)
        → s.busy ≡ b
        → Sound Q s
        → Served Q
            ((if b then serve_next json h write_fails m else serve_first json h write_fails m) s)
    by_busy true m s e k = serve_next-Served m s (k.sound e) k.breaks
    by_busy false m s e k = serve_first-Served m s e k.breaks

    serve_message-Served :
        (o : Option (Message F)) (s : Host St)
        → Sound Q s
        → Served Q (serve_message json h write_fails o s)
    unfolding serve_message ◌>>=◌ pure
    serve_message-Served none s k = record { ended = λ e. cc; so = k }
    serve_message-Served (some m) s k = by_busy s.busy m s refl k

    read-Served :
        (r : Outcome Err Bytes) (s : Host St)
        → r ≢ blocked
        → Sound Q s
        → Served Q (
            handle_outcome r
              (λ b. serve_message json h write_fails (decode_message json b))
              (λ _. pure leave)
              s)
    read-Served (ok b) s n k = serve_message-Served (decode_message json b) s k
    read-Served (err e) s n k = left_loop s k
    read-Served panic s n k = record { ended = λ e. cc; so = k }
    read-Served blocked s n k = absurd (n refl)

    -- A round of the loop ends, and keeps what holds of the side.
    pub serve-Served : (s : Host St) → Sound Q s → Served Q (serve json h write_fails s)
    unfolding serve handle on_stream
    serve-Served s k =
        let d = read_stream_ends 131_072 s.incoming k.breaks in
        read-Served (read_stream 131_072 s.incoming).0
          (record s { incoming = (read_stream 131_072 s.incoming).1 }) d.0
          (record { sound = k.sound; breaks = d.1 })
