-- ===== src/WsClient.antt =====
-- rpcclient/wsclient/wsclient.go: the client of the websocket.
pub mod Wire
pub mod Served
pub mod Requests
pub mod Replies
pub mod Delivery
use atomic_swap.Base.{ℕ, Bool, Bytes, codes, Option, none, some, List, [], ◌∷◌, ◌++◌, if◌then◌else◌}
use atomic_swap.Base.Outcome.{Outcome, ok, err}
use atomic_swap.Errors.{Err, plain, external, wrapped}
use atomic_swap.Action.{
  Action, pure, fail, fail_if, gets, modify, or_fail, deref, wrap, handle, ◌>>=◌, ◌>>◌,
}
use atomic_swap.Types.Status.{Status, new_status, is_ongoing}
use atomic_swap.Types.Offer.{Offer}
use atomic_swap.Types.Provides.{ProvidesCoin}
use atomic_swap.Rpc.Wire.{
  Codec, WsJson, RpcError, Response, default_version, net_discover, net_query_peer,
  subscribe_make_offer, subscribe_take_offer, subscribe_swap_status,
}

-- A connection to the server: the messages that come from it, and those that were sent, oldest
-- first.
pub record Link : Type 0 where
  pub incoming : List Bytes
  pub sent : List Bytes

-- What the goroutine of a subscription sent on the channels that the caller has: the IDs of swaps
-- taken, and the statuses, both oldest first.
pub record Delivered : Type 0 where
  pub taken : List ℕ
  pub statuses : List Status

abbrev pub nothing : Delivered
nothing = record { taken = []; statuses = [] }

-- An error is put into the text of another with `%s`.
unfoldable pub reword : {S A : Type 0} → Bytes → Action S A → Action S A
reword t m = handle m pure (λ _. fail (plain t))

-- `ReadMessage`
unfoldable pub first_of : List Bytes → Link → Outcome Err Bytes × Link
first_of [] l = (err (external []), l)
first_of (m ∷ ms) l = (ok m, record l { incoming = ms })

unfoldable pub read : Action Link Bytes
unfolding first_of
read l = first_of l.incoming l

-- `resp.Error.Error()`
unfoldable pub error_text : RpcError → Bytes
error_text e = codes "message=" ++ e.message ++ codes "; code=0; data=map[]"

module _ {S : Type 0} where
  unfoldable pub check_error : Option RpcError → Action S (Unit {0})
  unfolding error_text
  check_error none = pure tt
  check_error (some e) =
      fail (wrapped (codes "websocket server returned error") (external (error_text e)))

unfoldable pub id_or_zero : Option ℕ → ℕ
id_or_zero none = 0
id_or_zero (some id) = id

module _ {F : Type 0} (json : WsJson F) (write_fails : List Bytes → Bool) where
  -- A message, decoded down to its result, with the text of the error on a bad result.
  unfoldable pub result_in : {S A : Type 0} → Bytes → Codec A → Bytes → Action S (Option A)
  unfolding check_error reword
  result_in t c message = do
    resp ←
        wrap (codes "failed to unmarshal response")
          (or_fail (json.response.unmarshal message) (external []))
    r ← deref resp
    check_error r.error
    reword t (or_fail (c.unmarshal r.result) (external []))

  -- `writeJSON` of a request with these parameters.
  unfoldable pub post : {A : Type 0} → Bytes → Codec A → A → Action Link (Unit {0})
  post method c params = do
    bz ← or_fail (c.marshal params) (external [])
    b ←
        or_fail
          (json.request.marshal
            (record { jsonrpc = default_version; method = method; params = bz; id = 0 }))
          (external [])
    modify (λ l. record l { sent = l.sent ++ (b ∷ []) })
    fails ← gets (λ l. write_fails l.sent)
    fail_if fails (external [])

  unfoldable pub read_result : {A : Type 0} → Bytes → Codec A → Action Link (Option A)
  unfolding read reword result_in
  read_result t c = do
    message ← reword (codes "failed to read websockets message") read
    result_in t c message

  -- `Discover`
  unfoldable pub discover : ProvidesCoin → ℕ → Action Link (List (List Bytes))
  unfolding post read_result
  discover provides search_time = do
    post net_discover json.discover_request
        (record { provides = provides; search_time = search_time })
    resp ← read_result (codes "failed to unmarshal swap ID response") json.discover_response
    deref resp

  -- `Query`
  unfoldable pub query : Bytes → Action Link (Option (List (Offer F)))
  unfolding post read_result
  query maddr = do
    post net_query_peer json.query_peer_request maddr
    read_result (codes "failed to unmarshal swap ID response") json.query_peer_response

  -- `SubscribeSwapStatus`, before its goroutine, which is `follow`.
  unfoldable pub subscribe_status : ℕ → Action Link (Unit {0})
  unfolding post
  subscribe_status id = post subscribe_swap_status json.status_request id

  -- `TakeOfferAndSubscribe`, before its goroutine, which is `follow`.
  unfoldable pub take_offer_and_subscribe : Bytes → Bytes → F → Action Link ℕ
  unfolding post read_result
  take_offer_and_subscribe multiaddr offer_id provides_amount = do
    post subscribe_take_offer json.take_offer_request
        (record { multiaddr = multiaddr; offer_id = offer_id; provides_amount = provides_amount })
    resp ← read_result (codes "failed to unmarshal swap ID response") json.take_offer_response
    deref resp

  -- `MakeOfferAndSubscribe`, before its goroutine, which is `follow_offer`.
  unfoldable pub make_offer_and_subscribe : F → F → F → Action Link Bytes
  unfolding post read_result
  make_offer_and_subscribe min max rate = do
    post subscribe_make_offer json.make_offer_request
        (record { minimum_amount = min; maximum_amount = max; exchange_rate = rate })
    resp ← read_result (codes "failed to unmarshal response") json.make_offer_response
    deref resp

  unfoldable pub status_in : Bytes → Action Delivered Status
  unfolding result_in
  status_in message = do
    status ← result_in (codes "failed to unmarshal response") json.status_response message
    s ← deref status
    pure (new_status s)

  -- The loop of the goroutines, for the messages that come before the connection fails. An error is
  -- logged and ends it.
  unfoldable pub follow : List Bytes → Action Delivered (Unit {0})
  unfolding status_in
  follow [] = pure tt
  follow (m ∷ ms) =
      let rest = follow ms in
      handle (status_in m)
        (λ s.
          modify (λ d. record d { statuses = d.statuses ++ (s ∷ []) })
          >> (if is_ongoing s then rest else pure tt))
        (λ _. pure tt)

  -- The goroutine of MakeOfferAndSubscribe: first the ID of the swap. A nil ID message goes to the
  -- channel as nil, and counts as zero here.
  unfoldable pub follow_offer : List Bytes → Action Delivered (Unit {0})
  unfolding result_in follow id_or_zero
  follow_offer [] = pure tt
  follow_offer (m ∷ ms) =
      handle (result_in (codes "failed to unmarshal response") json.id_message m)
        (λ taken.
          modify (λ d. record d { taken = d.taken ++ (id_or_zero taken ∷ []) }) >> follow ms)
        (λ _. pure tt)
