-- ===== src/Net/Ends.antt =====
-- Each round of the loop of a swap stream takes bytes off it (net/initiate.go).
use atomic_swap.Base.{
  ℕ, suc, ◌≤◌, Bytes, Bool, false, Option, none, some, List, ◌≡◌, ◌≢◌, refl, length,
}
use atomic_swap.Base.Outcome.{Outcome, ok, err, panic, blocked}
use atomic_swap.Errors.{Err}
use atomic_swap.Action.{Action, pure, handle, handle_outcome}
use atomic_swap.Action.Keeps.{
  Keeps, Keeps-pure, Keeps-fail, Keeps-gets, Keeps-if, Keeps-bind, Keeps-fail_if, Keeps-modify,
  Keeps-handle,
}
use atomic_swap.Message.{
  Message, JsonCodec, send_keys, notify_eth_locked, notify_xmr_lock, notify_ready, notify_claimed,
  notify_refund, query_response, decode_message,
}
use atomic_swap.Net.{read_stream}
use atomic_swap.Net.Loop.{
  Handlers, Host, go_on, leave, on_stream, on_side, write, respond, serve_first, serve_next,
  serve_message, serve,
}
use atomic_swap.Net.Streams.{flat}
use atomic_swap.Net.Progress.{Has, no_message, read_stream-takes}

-- At most so many bytes are still to come to the host.
pub record Left {St : Type 0} (n : ℕ) (s : Host St) : Type 0 where
  pub left : Has n s.incoming

module _ {F St : Type 0} (json : JsonCodec F) (h : Handlers F St)
    (write_fails : Bool → List Bytes → Bool) where
  on_side-Left :
      {A : Type 0} {n : ℕ} (m : Action St A) → Keeps (Left n) (on_side json h write_fails m)
  unfolding on_side
  on_side-Left m = record { kept = λ s k. record { left = k.left } }

  write-Left : {n : ℕ} (o : Option Bytes) → Keeps (Left n) (write json h write_fails o)
  unfolding write
  write-Left none = Keeps-fail _
  write-Left (some b) =
      Keeps-bind _ _ (Keeps-modify _ (λ s k. record { left = k.left }))
        (λ u. Keeps-bind _ _ (Keeps-gets _) (λ x. Keeps-fail_if _ _))

  respond-Left :
      {n : ℕ} (o : Option (Message F)) (done : Bool)
      → Keeps (Left n) (respond json h write_fails o done)
  unfolding respond
  respond-Left none done = Keeps-pure _
  respond-Left (some m) done =
      Keeps-handle _ _ _ (write-Left _) (λ a. Keeps-pure _) (λ e. Keeps-pure _)

  serve_next-Left : {n : ℕ} (m : Message F) → Keeps (Left n) (serve_next json h write_fails m)
  unfolding serve_next
  serve_next-Left m =
      Keeps-handle _ _ _ (on_side-Left _) (λ (r, d). respond-Left r d) (λ e. Keeps-pure _)

  serve_first-Left : {n : ℕ} (m : Message F) → Keeps (Left n) (serve_first json h write_fails m)
  unfolding serve_first
  serve_first-Left (send_keys m) =
      Keeps-handle _ _ _ (on_side-Left _)
        (λ r.
          Keeps-bind _ _ (Keeps-modify _ (λ s k. record { left = k.left }))
            (λ u. respond-Left (some (send_keys (some r))) false))
        (λ e. Keeps-pure _)
  serve_first-Left (query_response m) = Keeps-pure _
  serve_first-Left (notify_eth_locked m) = Keeps-pure _
  serve_first-Left (notify_xmr_lock m) = Keeps-pure _
  serve_first-Left (notify_ready m) = Keeps-pure _
  serve_first-Left (notify_claimed m) = Keeps-pure _
  serve_first-Left (notify_refund m) = Keeps-pure _

  serve_message-Left :
      {n : ℕ} (o : Option (Message F)) → Keeps (Left n) (serve_message json h write_fails o)
  unfolding serve_message
  serve_message-Left none = Keeps-pure _
  serve_message-Left (some m) =
      Keeps-bind _ _ (Keeps-gets _) (λ b. Keeps-if _ _ _ (serve_next-Left m) (serve_first-Left m))

  went_on :
      (n : ℕ) (r : Outcome Err Bytes) (s : Host St)
      → ((b : Bytes) → r ≡ ok b → Left n s)
      → (handle_outcome r
          (λ b. serve_message json h write_fails (decode_message json b))
          (λ _. pure leave)
          s).0
        ≡ ok go_on
      → Left n
          (handle_outcome r
            (λ b. serve_message json h write_fails (decode_message json b))
            (λ _. pure leave)
            s).1
  unfolding pure
  went_on n (ok b) s k e = (serve_message-Left (decode_message json b)).kept s (k b refl)
  went_on n (err x) s k e = cc
  went_on n panic s k e = cc
  went_on n blocked s k e = cc

  -- A round after which the loop goes on takes at least a byte off the stream.
  pub serve-takes :
      (n : ℕ) (s : Host St)
      → Left (suc n) s
      → (serve json h write_fails s).0 ≡ ok go_on
      → Left n (serve json h write_fails s).1
  unfolding serve handle on_stream
  serve-takes n s k e =
      went_on n (read_stream 131_072 s.incoming).0
        (record s { incoming = (read_stream 131_072 s.incoming).1 })
        (λ b r. record { left = read_stream-takes n 131_072 b s.incoming r k.left }) e

  no_round :
      (r : Outcome Err Bytes) (s : Host St)
      → ((b : Bytes) → r ≢ ok b)
      → (handle_outcome r
          (λ b. serve_message json h write_fails (decode_message json b))
          (λ _. pure leave)
          s).0
        ≢ ok go_on
  unfolding pure
  no_round (ok b) s k = absurd (k b refl)
  no_round (err x) s k = λ e. cc
  no_round panic s k = λ e. cc
  no_round blocked s k = λ e. cc

  -- Where nothing is to come the loop does not go on.
  pub serve_stops :
      (s : Host St) → length (flat s.incoming) ≤ 0 → (serve json h write_fails s).0 ≢ ok go_on
  unfolding serve handle on_stream
  serve_stops s k =
      no_round (read_stream 131_072 s.incoming).0
        (record s { incoming = (read_stream 131_072 s.incoming).1 })
        (λ b. no_message 131_072 b s.incoming k)
