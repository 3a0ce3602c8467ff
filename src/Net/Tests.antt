-- ===== src/Net/Tests.antt =====
-- Streams with concrete bytes, and a side that counts how often it was left.
use atomic_swap.Base.{
  ◌<◌, ℕ, suc, ◌≤◌, Bytes, Bool, true, false, Option, none, some, List, [], ◌∷◌, ◌≡◌, ◌≢◌, refl,
  arith,
}
use atomic_swap.Base.Outcome.{ok}
use atomic_swap.Action.{pure, crash}
use atomic_swap.Message.{Message, QueryResponse, notify_claimed, encode, decode_message}
use atomic_swap.Message.Toy.{json}
use atomic_swap.Net.{
  receive_query_response, Stream, ended, silent, piece, read_leb128_to_uint64, uint64_to_leb128,
  read_body, read_stream, write_to_stream,
}
use atomic_swap.Net.Streams.{flat, closes, pieces}
use atomic_swap.Net.Framing.{decode_message-read_stream, receive_query_response-write_to_stream}
use atomic_swap.Net.Overruns.{read_body_overrun}
use atomic_swap.Net.Lengths.{IsRead, read_leb128_to_uint64-uint64_to_leb128}
use atomic_swap.Net.Loop.{Handlers, Host, serve_loop, handle_protocol_stream_inner}
use atomic_swap.Net.Serving.{Ending}
use atomic_swap.Net.Closed.{IsClosed, handle_protocol_stream_inner-IsClosed}

-- The message on the wire is its length, its type, and what the codec makes of it.
abbrev message : Message ℕ
message = notify_claimed (some (record { tx_hash = 4 ∷ 2 ∷ [] }))

abbrev wire : Stream
wire = piece (4 ∷ 5 ∷ []) (piece (1 ∷ []) (piece [] (piece (4 ∷ 2 ∷ []) ended)))

decode_message-read_stream_example :
    (got : Bytes) × ((read_stream 131_072 wire).0 ≡ ok got)
    × (decode_message json got ≡ some message)
unfolding encode write_to_stream uint64_to_leb128 flat pieces
decode_message-read_stream_example =
    decode_message-read_stream json 131_072 message (5 ∷ 1 ∷ 4 ∷ 2 ∷ []) wire refl refl
      (omega arith) (omega arith) (omega arith)

abbrev response : Option (QueryResponse ℕ)
response = some (record { offers = [] })

-- A message of two bytes with the next one's length in the same piece.
read_body_overrun_example :
    (read_body 131_072 2 (piece (5 ∷ 1 ∷ 4 ∷ []) (piece (5 ∷ 1 ∷ 4 ∷ 2 ∷ []) silent))).0
    ≢ ok (5 ∷ 1 ∷ [])
read_body_overrun_example =
    read_body_overrun 131_072 5 (1 ∷ []) 4 [] (5 ∷ 1 ∷ []) (piece (5 ∷ 1 ∷ 4 ∷ 2 ∷ []) silent)
      (omega arith)

receive_query_response-write_to_stream_example :
    (receive_query_response json (piece (2 ∷ 0 ∷ []) (piece (1 ∷ []) silent))).0 ≡ ok response
unfolding encode write_to_stream uint64_to_leb128 flat pieces
receive_query_response-write_to_stream_example =
    receive_query_response-write_to_stream json response (0 ∷ 1 ∷ [])
      (piece (2 ∷ 0 ∷ []) (piece (1 ∷ []) silent)) refl refl (omega arith) (omega arith)

-- The length 300 in two bytes, which come apart, and a byte of the message.
read_leb128_to_uint64-uint64_to_leb128_example :
    IsRead 300
      (7 ∷ [])
      (piece (172 ∷ []) (piece [] (piece (2 ∷ 7 ∷ []) silent)))
      (read_leb128_to_uint64 (piece (172 ∷ []) (piece [] (piece (2 ∷ 7 ∷ []) silent))))
unfolding uint64_to_leb128 flat
read_leb128_to_uint64-uint64_to_leb128_example =
    read_leb128_to_uint64-uint64_to_leb128 300 (7 ∷ [])
      (piece (172 ∷ []) (piece [] (piece (2 ∷ 7 ∷ []) silent))) (omega arith) refl

-- The side's state counts how often Exit was called; its handlers answer nothing.
abbrev handlers : Handlers ℕ ℕ
handlers = record {
  initiate = λ _. crash;
  protocol = λ _. pure (none, false);
  exit = λ n. (ok tt, suc n);
}

abbrev Counted : ℕ → ℕ → Type 0
Counted m n = m < n

ending : Ending (λ n. 0 ≤ n) Counted handlers
unfolding pure crash
ending = record {
  initiate_ends = λ m t e. cc;
  begun = λ m t a e. omega arith;
  protocol_ends = λ m t k e. cc;
  kept = λ m t k. omega arith;
  exit_ends = λ t k e. cc;
  left = λ t k. omega arith;
}

abbrev no_failures : Bool → List Bytes → Bool
no_failures _ _ = false

abbrev host : Host ℕ
host = record {
  incoming = wire;
  written = [];
  is_open = true;
  has_stream = true;
  busy = true;
  side = 0;
}

handle_protocol_stream_inner-IsClosed_example :
    IsClosed json handlers no_failures
      (Counted (serve_loop json handlers no_failures 6 host).1.side)
      (serve_loop json handlers no_failures 6 host).1.busy
      (handle_protocol_stream_inner json handlers no_failures 6 host).0
      (handle_protocol_stream_inner json handlers no_failures 6 host).1
unfolding flat closes
handle_protocol_stream_inner-IsClosed_example =
    handle_protocol_stream_inner-IsClosed json handlers no_failures ending 6 host
      (record { sound = λ _. omega arith; breaks = refl }) (omega arith)
