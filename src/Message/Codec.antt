-- ===== src/Message/Codec.antt =====
-- The wire form of net/message/message.go and back.
use atomic_swap.Base.{◌≡◌, Bytes, Option, some, Option-cases, inl, inr, ◌∷◌}
use atomic_swap.Message.{
  query_response_type, send_keys_type, notify_eth_locked_type, notify_xmr_lock_type,
  notify_ready_type, notify_claimed_type, notify_refund_type, Message, JsonCodec, Json, MessageType,
  query_response, send_keys, notify_eth_locked, notify_xmr_lock, notify_ready, notify_claimed,
  notify_refund, encode, decode_message, tagged, decoded, byte,
}

-- A tagged encoding is the tag and what decodes to the value again.
tagged-inversion :
    {A M : Type 0} (j : Json A) (f : Option A → M) (t : MessageType) (p : Option A) (b : Bytes)
    → tagged t (j.marshal p) ≡ some b
    → (rest : Bytes) × (b ≡ byte t ∷ rest) × (decoded f (j.unmarshal rest) ≡ some (f p))
tagged-inversion j f t p b h = elim (Option-cases (j.marshal p)) [
  | inl e ↦ cc (rw e at h)
  | inr (rest, e) ↦ (rest, cc (rw e at h), rw (j.unmarshal-marshal p rest e))
]

module _ {F : Type 0} (json : JsonCodec F) where
  -- A message that can be encoded, also one whose pointer is nil, is decoded from its wire form.
  pub decode_message-encode :
      (m : Message F) (b : Bytes) → encode json m ≡ some b → decode_message json b ≡ some m
  unfolding encode decode_message
  decode_message-encode (query_response p) b h =
      let (rest, e, d) =
        tagged-inversion json.query_response_json query_response query_response_type p b h in
      rw e d
  decode_message-encode (send_keys p) b h =
      let (rest, e, d) = tagged-inversion json.send_keys_json send_keys send_keys_type p b h in
      rw e d
  decode_message-encode (notify_eth_locked p) b h =
      let (rest, e, d) =
        tagged-inversion json.notify_eth_locked_json notify_eth_locked notify_eth_locked_type p b
          h in
      rw e d
  decode_message-encode (notify_xmr_lock p) b h =
      let (rest, e, d) =
        tagged-inversion json.notify_xmr_lock_json notify_xmr_lock notify_xmr_lock_type p b h in
      rw e d
  decode_message-encode (notify_ready p) b h =
      let (rest, e, d) =
        tagged-inversion json.notify_ready_json notify_ready notify_ready_type p b h in
      rw e d
  decode_message-encode (notify_claimed p) b h =
      let (rest, e, d) =
        tagged-inversion json.notify_claimed_json notify_claimed notify_claimed_type p b h in
      rw e d
  decode_message-encode (notify_refund p) b h =
      let (rest, e, d) =
        tagged-inversion json.notify_refund_json notify_refund notify_refund_type p b h in
      rw e d
