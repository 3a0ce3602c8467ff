-- ===== src/Net.antt =====
-- net: how messages go over a stream of libp2p (net/host.go and net/utils.go). A stream is what is
-- still to come from the peer, in pieces: a read gives at most one piece, since libp2p may hand
-- over fewer bytes than there is room for. After the last piece the stream is closed or broken, and
-- reads fail, or the peer is silent, and a read waits for ever, since no deadline is set.
pub mod Streams
pub mod Reads
pub mod Lengths
pub mod Framing
pub mod Overruns
pub mod Loop
pub mod Progress
pub mod ReadEnds
pub mod Ends
pub mod Serving
pub mod Closed
mod Tests
use atomic_swap.Base.{
  ℕ, zero, suc, ◌+◌, ◌*◌, ◌/◌, ◌%◌, ◌^◌, ◌-◌, Bytes, codes, Bool, Option, none, some, [], ◌∷◌, ◌++◌,
  if◌then◌else◌, ltb, ◌==◌, length, take, drop,
}
use atomic_swap.Errors.{external, plain}
use atomic_swap.Action.{Action, pure, fail, hang, fail_if, or_fail, wrap, ◌>>=◌, ◌>>◌}
use atomic_swap.Message.{Message, JsonCodec, QueryResponse, encode}

pub data Stream : Type 0 where
  ended silent : Stream
  piece : Bytes → Stream → Stream

-- `stream.Read` into so many bytes.
unfoldable pub read : ℕ → Action Stream Bytes
read size ended = fail (external []) ended
read size silent = hang silent
read size (piece [] s) = read size s
read size (piece (b ∷ bs) s) = pure (take size (b ∷ bs)) (piece (drop size (b ∷ bs)) s)

-- The loop of `uint64ToLEB128`: a number of 64 bits has at most ten groups of seven.
unfoldable pub groups : ℕ → ℕ → Bytes
groups zero n = []
groups (suc rounds) n =
    let rest = groups rounds (n / 128) in
    if n / 128 == 0 then n % 128 ∷ [] else (n % 128 + 128) ∷ rest

-- `uint64ToLEB128`
unfoldable pub uint64_to_leb128 : ℕ → Bytes
unfolding groups
uint64_to_leb128 n = groups 10 n

abbrev pub byte_of : Bytes → ℕ
byte_of [] = 0
byte_of (b ∷ _) = b

-- The loop of `readLEB128ToUint64`, for so many bytes more. The groups stand apart, so that the
-- bitwise or adds them; a shift of a uint64 drops what is past 64 bits.
unfoldable pub leb128_loop : ℕ → ℕ → ℕ → Action Stream ℕ
leb128_loop zero shift out = fail (plain (codes "invalid LEB128 encoded data"))
leb128_loop (suc rounds) shift out = do
  got ← read 1
  let b = byte_of got
  let value = out + b % 128 * 2 ^ shift % 2 ^ 64
  if ltb b 128 then pure value else leb128_loop rounds (shift + 7) value

-- `readLEB128ToUint64`, but for the number of bytes that were read.
unfoldable pub read_leb128_to_uint64 : Action Stream ℕ
unfolding leb128_loop
read_leb128_to_uint64 = leb128_loop 10 0 0

unfoldable pub finish : ℕ → Bytes → Action Stream Bytes
finish len got =
    if length got == len then pure got else fail (plain (codes "failed to read entire message"))

-- The reads of `readStream` into a buffer of so many bytes, `got` of which are read.
unfoldable pub read_rounds : ℕ → ℕ → ℕ → Bytes → Action Stream Bytes
unfolding finish
read_rounds zero size len got = finish len got
read_rounds (suc rounds) size len got = do
  more ← read (size - length got)
  if length (got ++ more) == len
      then finish len (got ++ more)
      else read_rounds rounds size len (got ++ more)

abbrev pub max_reads : ℕ
max_reads = 128

unfoldable pub read_body : ℕ → ℕ → Action Stream Bytes
unfolding read_rounds
read_body size len =
    if len == 0
    then pure []
    else (fail_if (ltb size len)
          (plain (codes "message size greater than allocated message buffer"))
        >> read_rounds max_reads size len [])

-- `readStream`: what is then in the buffer.
unfoldable pub read_stream : ℕ → Action Stream Bytes
unfolding read_body
read_stream size = do
  len ← wrap (codes "failed to read length") read_leb128_to_uint64
  read_body size len

abbrev framed : Option Bytes → Option Bytes
framed none = none
framed (some b) = some (uint64_to_leb128 (length b) ++ b)

-- `writeToStream`: what is written; `none` is an error of the encoder.
unfoldable pub write_to_stream : {F : Type 0} → JsonCodec F → Message F → Option Bytes
write_to_stream json msg = framed (encode json msg)

-- What follows the first byte of a response; nobody looks at that byte.
unfoldable pub unmarshal_response :
    {F : Type 0} → JsonCodec F → Bytes → Action Stream (Option (QueryResponse F))
unmarshal_response json [] = fail (plain (codes "received empty message"))
unmarshal_response json (_ ∷ b) = or_fail (json.query_response_json.unmarshal b) (external [])

-- `receiveQueryResponse`; its buffer has 2048 bytes.
unfoldable pub receive_query_response :
    {F : Type 0} → JsonCodec F → Action Stream (Option (QueryResponse F))
unfolding unmarshal_response
receive_query_response json = do
  b ← wrap (codes "read stream error") (read_stream 2048)
  unmarshal_response json b
