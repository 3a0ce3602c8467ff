-- ===== src/Net/Framing.antt =====
-- Messages over a stream (net/host.go): what was written is read.
use atomic_swap.Base.{
  ℕ, ◌≤◌, ◌<◌, ◌^◌, Bytes, codes, Option, none, some, [], ◌∷◌, ◌++◌, ◌≡◌, refl, sym, ap, ◌∙◌,
  length, arith,
}
use atomic_swap.Base.Outcome.{ok}
use atomic_swap.Action.{Action, wrap, or_fail}
use atomic_swap.Action.Inversion.{>>=-known}
use atomic_swap.Message.{
  Message, MessageType, send_keys, notify_eth_locked, notify_xmr_lock, notify_ready, notify_claimed,
  notify_refund, send_keys_type, notify_eth_locked_type, notify_xmr_lock_type, notify_ready_type,
  notify_claimed_type, notify_refund_type, decode_message, JsonCodec, QueryResponse, query_response,
  query_response_type, encode, tagged, byte,
}
use atomic_swap.Message.Codec.{decode_message-encode}
use atomic_swap.Net.{
  Stream, framed, uint64_to_leb128, read_leb128_to_uint64, read_body, read_stream, write_to_stream,
  unmarshal_response, receive_query_response,
}
use atomic_swap.Net.Streams.{flat, pieces}
use atomic_swap.Net.Lengths.{read_leb128_to_uint64-uint64_to_leb128}
use atomic_swap.Net.Reads.{read_body-flat}

wrap-known :
    {S A : Type 0} (t : Bytes) (m : Action S A) (s : S) (a : A)
    → (m s).0 ≡ ok a
    → wrap t m s ≡ (ok a, (m s).1)
unfolding wrap
wrap-known t m s a e = rw e refl

some_same : {A : Type 0} {x y : A} → some x ≡ some y → x ≡ y
some_same e = cc

-- The frame of a message is its length and the message.
framed-inversion :
    (o : Option Bytes) (w : Bytes)
    → framed o ≡ some w
    → (b : Bytes) × (o ≡ some b) × (w ≡ uint64_to_leb128 (length b) ++ b)
framed-inversion none w h = cc
framed-inversion (some b) w h = (b, refl, sym (some_same h))

-- A message that was written, is not empty and fits the buffer, is read as it was, where it comes in
-- at most 128 pieces and nothing has come after it.
pub read_stream-framed :
    (size : ℕ) (x : ℕ) (xs : Bytes) (s : Stream)
    → flat s ≡ uint64_to_leb128 (length (x ∷ xs)) ++ (x ∷ xs)
    → length (x ∷ xs) ≤ size
    → length (x ∷ xs) < 2 ^ 64
    → pieces s ≤ 128
    → (read_stream size s).0 ≡ ok (x ∷ xs)
unfolding read_stream
read_stream-framed size x xs s h room small few =
    let len = length (x ∷ xs) in
    let r = read_leb128_to_uint64-uint64_to_leb128 len (x ∷ xs) s small h in
    let s' = (read_leb128_to_uint64 s).1 in
    ap (λ r. r.0)
      (>>=-known (wrap (codes "failed to read length") read_leb128_to_uint64) (read_body size) s s'
        len (wrap-known _ read_leb128_to_uint64 s len r.result))
    ∙ read_body-flat size len s' x xs r.remaining (ap length r.remaining) room
        (omega (arith, r.fewer, few))
    ∙ ap ok r.remaining

-- What is written is not empty.
tagged-known :
    (t : MessageType) (o : Option Bytes) (b : Bytes)
    → tagged t o ≡ some b
    → (xs : Bytes) × (o ≡ some xs) × (b ≡ byte t ∷ xs)
tagged-known t none b h = cc
tagged-known t (some r) b h = (r, refl, sym (some_same h))

tagged-cons :
    (t : MessageType) (o : Option Bytes) (b : Bytes)
    → tagged t o ≡ some b
    → (x : ℕ) × (xs : Bytes) × (b ≡ x ∷ xs)
tagged-cons t o b h = let (xs, _, e) = tagged-known t o b h in (byte t, xs, e)

module _ {F : Type 0} (json : JsonCodec F) where
  encode-cons :
      (m : Message F) (b : Bytes) → encode json m ≡ some b → (x : ℕ) × (xs : Bytes) × (b ≡ x ∷ xs)
  unfolding encode
  encode-cons (query_response p) b h = tagged-cons query_response_type _ b h
  encode-cons (send_keys p) b h = tagged-cons send_keys_type _ b h
  encode-cons (notify_eth_locked p) b h = tagged-cons notify_eth_locked_type _ b h
  encode-cons (notify_xmr_lock p) b h = tagged-cons notify_xmr_lock_type _ b h
  encode-cons (notify_ready p) b h = tagged-cons notify_ready_type _ b h
  encode-cons (notify_claimed p) b h = tagged-cons notify_claimed_type _ b h
  encode-cons (notify_refund p) b h = tagged-cons notify_refund_type _ b h

  read_frame :
      (size : ℕ) (b : Bytes) (s : Stream) (x : ℕ) (xs : Bytes)
      → b ≡ x ∷ xs
      → flat s ≡ uint64_to_leb128 (length b) ++ b
      → length b ≤ size
      → size < 2 ^ 64
      → pieces s ≤ 128
      → (read_stream size s).0 ≡ ok b
  read_frame size [] s x xs e h room small few = cc
  read_frame size (y ∷ ys) s x xs e h room small few =
      read_stream-framed size y ys s h room (omega arith) few

  -- A message arrives as it was sent: if what writeToStream wrote comes over the stream in at most
  -- 128 pieces, with nothing after it, and the encoded message is not longer than the buffer, then
  -- readStream gives bytes that decode to the message.
  pub decode_message-read_stream :
      (size : ℕ) (m : Message F) (b : Bytes) (s : Stream)
      → encode json m ≡ some b
      → write_to_stream json m ≡ some (flat s)
      → length b ≤ size
      → size < 2 ^ 64
      → pieces s ≤ 128
      → (got : Bytes) × ((read_stream size s).0 ≡ ok got) × (decode_message json got ≡ some m)
  unfolding write_to_stream
  decode_message-read_stream size m b s e w room small few =
      let (c, e1, h) = framed-inversion (encode json m) (flat s) w in
      let same : c ≡ b = some_same (sym e1 ∙ e) in
      let (x, xs, cons) = encode-cons m b e in
      (
        b,
        read_frame size b s x xs cons (rw same at h) room small few,
        decode_message-encode json m b e,
      )

  unmarshalled :
      (b xs : Bytes) (r : Option (QueryResponse F)) (s : Stream) (t : ℕ)
      → b ≡ t ∷ xs
      → json.query_response_json.unmarshal xs ≡ some r
      → (unmarshal_response json b s).0 ≡ ok r
  unfolding unmarshal_response or_fail
  unmarshalled [] xs r s t e u = cc
  unmarshalled (y ∷ ys) xs r s t e u = let tails : ys ≡ xs = cc in rw (tails, u) refl

  -- A response to a query arrives as it was sent, where its encoding has at most 2048 bytes, and it
  -- comes in at most 128 pieces with nothing after it.
  pub receive_query_response-write_to_stream :
      (r : Option (QueryResponse F)) (b : Bytes) (s : Stream)
      → encode json (query_response r) ≡ some b
      → write_to_stream json (query_response r) ≡ some (flat s)
      → length b ≤ 2048
      → pieces s ≤ 128
      → (receive_query_response json s).0 ≡ ok r
  unfolding receive_query_response encode write_to_stream
  receive_query_response-write_to_stream r b s e w room few =
      let j = json.query_response_json in
      let (c, e1, h) = framed-inversion (tagged query_response_type (j.marshal r)) (flat s) w in
      let same : c ≡ b = some_same (sym e1 ∙ e) in
      let (xs, m, cons) = tagged-known query_response_type (j.marshal r) b e in
      let got = wrap-known (codes "read stream error") (read_stream 2048) s b (
        read_frame 2048 b s (byte query_response_type) xs cons (rw same at h) room (omega arith)
          few) in
      ap (λ x. x.0)
        (>>=-known (wrap (codes "read stream error") (read_stream 2048)) (unmarshal_response json) s
          (read_stream 2048 s).1 b got)
      ∙ unmarshalled b xs r (read_stream 2048 s).1 (byte query_response_type) cons
          (j.unmarshal-marshal r xs m)
