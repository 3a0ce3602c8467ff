-- ===== src/Net/Loop.antt =====
-- The loop of a swap stream (net/initiate.go): messages of the peer go to the handlers of the swap,
-- and their responses go back. When the loop is left, the stream is closed and the swap is left.
use atomic_swap.Base.{
  ℕ, zero, suc, Bytes, codes, Bool, true, false, not, Option, none, some, List, ◌∷◌, if◌then◌else◌,
}
use atomic_swap.Base.Outcome.{Outcome, blocked}
use atomic_swap.Errors.{Err, plain}
use atomic_swap.Types.Offer.{Offer}
use atomic_swap.Action.{
  Action, pure, fail, fail_if, hang, gets, modify, handle, ignore, ◌>>=◌, ◌>>◌,
}
use atomic_swap.Message.{
  Message, SendKeysMessage, JsonCodec, send_keys, query_response, decode_message,
}
use atomic_swap.Net.{Stream, read_stream, write_to_stream}

-- The interfaces Handler and SwapState, on the state of the swap's side: HandleInitiateMessage,
-- HandleProtocolMessage and Exit.
pub record Handlers (F St : Type 0) : Type 0 where
  pub initiate : Option (SendKeysMessage F) → Action St (SendKeysMessage F)
  pub protocol : Message F → Action St (Option (Message F) × Bool)
  pub exit : Action St (Unit {0})

-- `busy` tells that `h.swapState` is not nil. `incoming` is what the peer sends on the stream, and
-- `written` what was written to it, newest first; `has_stream`
-- tells that `h.swapStream` is not nil.
pub record Host (St : Type 0) : Type 0 where
  pub incoming : Stream
  pub written : List Bytes
  pub is_open : Bool
  pub has_stream : Bool
  pub busy : Bool
  pub side : St

-- Whether the loop goes on.
pub data Next : Type 0 where
  go_on leave : Next

-- `write_fails` tells whether the write fails, for whether our side of the stream is open and what
-- was written so far, the last of it included.
module _ {F St : Type 0} (json : JsonCodec F) (h : Handlers F St)
    (write_fails : Bool → List Bytes → Bool) where
  unfoldable pub on_stream : {A : Type 0} → Action Stream A → Action (Host St) A
  on_stream m s = let (r, t) = m s.incoming in (r, record s { incoming = t })

  unfoldable pub on_side : {A : Type 0} → Action St A → Action (Host St) A
  on_side m s = let (r, t) = m s.side in (r, record s { side = t })

  unfoldable pub write : Option Bytes → Action (Host St) (Unit {0})
  write none = fail (plain (codes "failed to encode"))
  write (some b) = do
    modify (λ s. record s { written = b ∷ s.written })
    fails ← gets (λ s. write_fails s.is_open s.written)
    fail_if fails (plain (codes "failed to write"))

  -- The response is sent, and after it the loop is left if the protocol is done; without a response
  -- nobody asks whether it is.
  unfoldable pub respond : Option (Message F) → Bool → Action (Host St) Next
  unfolding write
  respond none done = pure go_on
  respond (some resp) done =
      handle (write (write_to_stream json resp)) (λ _. pure (if done then leave else go_on))
        (λ _. pure leave)

  -- A message where there is no swap state: the peer wants to start a swap.
  unfoldable pub serve_first : Message F → Action (Host St) Next
  unfolding respond on_side
  serve_first (send_keys m) =
      handle (on_side (h.initiate m))
        (λ resp.
          modify (λ s. record s { busy = true }) >> respond (some (send_keys (some resp))) false)
        (λ _. pure leave)
  serve_first _ = pure leave

  unfoldable pub serve_next : Message F → Action (Host St) Next
  unfolding respond on_side
  serve_next msg = handle (on_side (h.protocol msg)) (λ (r, done). respond r done) (λ _. pure leave)

  -- What could not be decoded is passed over.
  unfoldable pub serve_message : Option (Message F) → Action (Host St) Next
  unfolding serve_first serve_next
  serve_message none = pure go_on
  serve_message (some msg) = do
    busy ← gets (λ s. s.busy)
    if busy then serve_next msg else serve_first msg

  -- A round of the loop; the buffer has 2 ^ 17 bytes.
  unfoldable pub serve : Action (Host St) Next
  unfolding serve_message on_stream
  serve =
      handle (on_stream (read_stream 131_072)) (λ b. serve_message (decode_message json b))
        (λ _. pure leave)

  abbrev pub after : Next → Action (Host St) (Unit {0}) → Action (Host St) (Unit {0})
  after go_on rest = rest
  after leave rest = pure tt

  -- The loop, for so many rounds.
  unfoldable pub serve_loop : ℕ → Action (Host St) (Unit {0})
  unfolding serve
  serve_loop zero = hang
  serve_loop (suc rounds) = let rest = serve_loop rounds in serve >>= λ next. after next rest

  -- The deferred function: the swap is left, an error of that is logged.
  unfoldable pub close_stream : Action (Host St) (Unit {0})
  unfolding on_side
  close_stream = do
    modify (λ s. record s { is_open = false })
    busy ← gets (λ s. s.busy)
    if busy then (ignore (on_side h.exit) >> modify (λ s. record s { busy = false })) else pure tt

  unfoldable pub closing : Outcome Err (Unit {0}) × Host St → Outcome Err (Unit {0}) × Host St
  closing (blocked, s) = (blocked, s)
  closing (r, s) = (do close_stream; λ t. (r, t)) s

  -- `handleProtocolStreamInner`
  unfoldable pub handle_protocol_stream_inner : ℕ → Action (Host St) (Unit {0})
  unfolding serve_loop close_stream closing
  handle_protocol_stream_inner rounds s = closing (serve_loop rounds s)

  unfoldable pub take_stream : Bool → ℕ → Stream → Action (Host St) (Unit {0})
  unfolding handle_protocol_stream_inner
  take_stream true rounds incoming = hang
  take_stream false rounds incoming =
      modify (λ s. record s { incoming = incoming; is_open = true; has_stream = true })
      >> handle_protocol_stream_inner rounds

  -- `handleProtocolStream`, for a host with a handler or without one, and for a mutex `swapMu` that is
  -- held or free. A mutex that is held belongs to another stream that a peer opened, and is waited
  -- for until that one is closed. The stream takes the place of the one that there is, also while
  -- a swap is ongoing, which is only logged.
  unfoldable pub handle_protocol_stream : Bool → Bool → ℕ → Stream → Action (Host St) (Unit {0})
  unfolding take_stream
  handle_protocol_stream false held rounds incoming = pure tt
  handle_protocol_stream true held rounds incoming = take_stream held rounds incoming

  -- `SendSwapMessage`
  unfoldable pub send_swap_message : Message F → Action (Host St) (Unit {0})
  send_swap_message msg = do
    has ← gets (λ s. s.has_stream)
    fail_if (not has) (plain (codes "no swap currently happening"))
    write (write_to_stream json msg)

  -- `Initiate` up to the start of the loop, for a peer that can be connected and gives a stream, or
  -- not; the side's state is the one of the new swap.
  unfoldable pub initiate : Bool → Bool → SendKeysMessage F → St → Action (Host St) (Unit {0})
  initiate connects opens msg st = do
    busy ← gets (λ s. s.busy)
    fail_if busy (plain (codes "already have ongoing swap"))
    fail_if (not connects) (plain (codes "failed to connect"))
    fail_if (not opens) (plain (codes "failed to open stream with peer"))
    write (write_to_stream json (send_keys (some msg)))
    modify (λ s. record s { busy = true; side = st; is_open = true; has_stream = true })

  -- `handleQueryStream`: what is written before the stream is closed.
  unfoldable pub handle_query_stream : List (Offer F) → Option Bytes
  handle_query_stream offers =
      write_to_stream json (query_response (some (record { offers = offers })))
