-- ===== src/Rpc/Websocket.antt =====
-- rpc/ws.go: requests over a websocket, with subscriptions to the statuses of a swap.
use atomic_swap.Base.{
  ℕ, Bytes, codes, Bool, Option, none, some, List, [], ◌∷◌, ◌++◌, get_elem?, bytes_eq,
  if◌then◌else◌,
}
use atomic_swap.Errors.{Err, plain, external, error}
use atomic_swap.Action.{
  Action, pure, fail, fail_if, crash, hang, gets, modify, or_fail, deref, wrap, handle, ignore,
  ◌>>=◌, ◌>>◌,
}
use atomic_swap.Types.Status.{Status, to_string, is_ongoing}
use atomic_swap.Manager.{get_ongoing_swap, get_past_swap}
use atomic_swap.World.{Platform}
use atomic_swap.Alice.{Config}
use atomic_swap.Rpc.Wire.{
  Codec, WsJson, Request, Response, default_version, subscribe_new_peer, net_discover,
  net_query_peer,
}
use atomic_swap.Rpc.Wire
use atomic_swap.Rpc.NetService.{
  Network, Seller, Node, past_status, discover, query_peer, take_offer, make_offer, on_network,
}

-- What a `select` on a channel and on the context gets: a value, that the channel is closed, or that
-- the context is done.
pub data Received (A : Type 0) : Type 0 where
  received : A → Received A
  closed cancelled : Received A

-- What the channels will give, in order, to who receives from them.
pub record Channels : Type 0 where
  pub statuses : ℕ → List (Received Status)
  pub ids : ℕ → List (Received ℕ)

-- A connection of a node: what was written to it, oldest first.
pub record Conn (N : Type 0) : Type 0 where
  pub node : N
  pub written : List Bytes

-- `write_fails` tells whether a write fails, for what was written so far, the last of it included.
module _ {F N : Type 0} (json : WsJson F) (write_fails : List Bytes → Bool) where
  -- `conn.WriteJSON`
  unfoldable pub write_json : Response → Action (Conn N) (Unit {0})
  write_json r = do
    b ← or_fail (json.response.marshal r) (external [])
    modify (λ s. record s { written = s.written ++ (b ∷ []) })
    fails ← gets (λ s. write_fails s.written)
    fail_if fails (external [])

  -- `writeResponse`
  unfoldable pub write_response : {A : Type 0} → Codec A → A → Action (Conn N) (Unit {0})
  unfolding write_json
  write_response c a = do
    bz ← or_fail (c.marshal a) (external [])
    write_json (record { version = default_version; result = bz; error = none })

  -- `writeError`
  unfoldable pub write_error : Err → Action (Conn N) (Unit {0})
  unfolding write_json
  write_error e = write_json (record {
    version = default_version;
    result = codes "null";
    error = some (record { message = error e });
  })

  -- The loop over the status channel, for what it gets there; then it waits.
  unfoldable pub subscribe : List (Received Status) → Action (Conn N) (Unit {0})
  unfolding write_response
  subscribe [] = hang
  subscribe (received st ∷ es) =
      let rest = subscribe es in
      write_response json.status_response (to_string st)
      >> (if is_ongoing st then rest else pure tt)
  subscribe (closed ∷ es) = pure tt
  subscribe (cancelled ∷ es) = pure tt

  -- `subscribeTakeOffer`
  unfoldable pub subscribe_take_offer : ℕ → List (Received Status) → Action (Conn N) (Unit {0})
  unfolding write_response subscribe
  subscribe_take_offer id es = do write_response json.take_offer_response id; subscribe es

  -- The wait until the offer is taken; a closed channel gives zero.
  unfoldable pub await_taken :
      List (Received ℕ) → Action (Conn N) (Unit {0}) → Action (Conn N) (Unit {0})
  unfolding write_response
  await_taken [] rest = hang
  await_taken (received id ∷ es) rest = write_response json.id_message id >> rest
  await_taken (closed ∷ es) rest = write_response json.id_message 0 >> rest
  await_taken (cancelled ∷ es) rest = pure tt

  -- `subscribeMakeOffer`
  unfoldable pub subscribe_make_offer :
      Bytes → List (Received ℕ) → List (Received Status) → Action (Conn N) (Unit {0})
  unfolding write_response await_taken subscribe
  subscribe_make_offer offer_id ids es = do
    write_response json.make_offer_response offer_id
    await_taken ids (subscribe es)

module _ (p : Platform) (cfg : Config) {W B : Type 0} (net : Network p.float.Carrier W)
    (bob : Seller p.float.Carrier B) (json : WsJson p.float.Carrier) (channels : Channels)
    (write_fails : List Bytes → Bool) where
  abbrev pub Server : Type 0
  Server = Conn (Node p cfg net bob)

  unfoldable pub on_node : {A : Type 0} → Action (Node p cfg net bob) A → Action Server A
  on_node m s = let (r, n) = m s.node in (r, record s { node = n })

  -- `writeSwapExitStatus`
  unfoldable pub write_swap_exit_status : ℕ → Action Server (Unit {0})
  unfolding write_response
  write_swap_exit_status id = do
    found ← gets (λ s. get_past_swap id s.node.alice.manager)
    done ← gets (λ s. past_status found s.node.alice.manager)
    st ← or_fail done (plain (codes "unable to find swap with given ID"))
    write_response json write_fails json.status_response (to_string st)

  -- `subscribeSwapStatus`, for the pointer to the ongoing swap.
  unfoldable pub subscribe_to : Option ℕ → ℕ → Action Server (Unit {0})
  unfolding write_swap_exit_status subscribe
  subscribe_to none id = write_swap_exit_status id
  subscribe_to (some q) id = do
    info ← deref (← gets (λ s. get_elem? s.node.alice.manager.heap q))
    subscribe json write_fails (channels.statuses info.status_ch)

  -- `subscribeSwapStatus`
  unfoldable pub subscribe_swap_status : ℕ → Action Server (Unit {0})
  unfolding subscribe_to
  subscribe_swap_status id = do
    q ← gets (λ s. get_ongoing_swap s.node.alice.manager)
    subscribe_to q id

  -- `json.Unmarshal(req.Params, &params)`; the pointer is dereferenced later.
  unfoldable pub params_of : {A : Type 0} → Codec A → Request → Action Server A
  params_of c req = do
    params ←
        wrap (codes "failed to unmarshal parameters")
          (or_fail (c.unmarshal req.params) (external []))
    deref params

  unfoldable pub handle_discover : Request → Action Server (Unit {0})
  unfolding params_of on_node write_response
  handle_discover req = do
    params ← params_of json.discover_request req
    peers ← on_node (discover p cfg net bob params.provides params.search_time)
    write_response json write_fails json.discover_response peers

  unfoldable pub handle_query_peer : Request → Action Server (Unit {0})
  unfolding params_of on_node write_response
  handle_query_peer req = do
    multiaddr ← params_of json.query_peer_request req
    offers ← on_node (query_peer p cfg net bob multiaddr)
    write_response json write_fails json.query_peer_response offers

  unfoldable pub handle_swap_status : Request → Action Server (Unit {0})
  unfolding params_of subscribe_swap_status
  handle_swap_status req = do id ← params_of json.status_request req; subscribe_swap_status id

  unfoldable pub handle_take_offer : Request → Action Server (Unit {0})
  unfolding params_of on_node subscribe_take_offer
  handle_take_offer req = do
    params ← params_of json.take_offer_request req
    r ← on_node (take_offer p cfg net bob params.multiaddr params.offer_id params.provides_amount)
    subscribe_take_offer json write_fails r.id (channels.statuses r.status_ch)

  unfoldable pub handle_make_offer : Request → Action Server (Unit {0})
  unfolding params_of on_node on_network subscribe_make_offer
  handle_make_offer req = do
    params ← params_of json.make_offer_request req
    made ←
        on_node (
          make_offer p cfg net bob params.minimum_amount params.maximum_amount params.exchange_rate)
    on_node (on_network p cfg net bob net.advertise)
    subscribe_make_offer json write_fails made.0 (channels.ids made.1.id_ch)
        (channels.statuses made.1.status_ch)

  -- `handleRequest`; a nil request is dereferenced.
  unfoldable pub handle_request : Option Request → Action Server (Unit {0})
  unfolding handle_discover handle_query_peer handle_swap_status handle_take_offer handle_make_offer
  handle_request none = crash
  handle_request (some req) =
      if bytes_eq req.method subscribe_new_peer
      then fail (plain (codes "unimplemented"))
      else (if bytes_eq req.method net_discover
          then handle_discover req
          else (if bytes_eq req.method net_query_peer
              then handle_query_peer req
              else (if bytes_eq req.method Wire.subscribe_swap_status
                  then handle_swap_status req
                  else (if bytes_eq req.method Wire.subscribe_take_offer
                      then handle_take_offer req
                      else (if bytes_eq req.method Wire.subscribe_make_offer
                          then handle_make_offer req
                          else fail (plain (codes "invalid method")))))))

  -- One round of the loop of `ServeHTTP`; a failure to write an error is dropped.
  unfoldable pub serve_message : Option (Option Request) → Action Server (Unit {0})
  unfolding handle_request write_error
  serve_message none = ignore (write_error json write_fails (external []))
  serve_message (some req) =
      handle (handle_request req) pure (λ e. ignore (write_error json write_fails e))

  -- `ServeHTTP`, for the messages that come before the connection fails.
  unfoldable pub serve_http : List Bytes → Action Server (Unit {0})
  unfolding serve_message
  serve_http [] = pure tt
  serve_http (m ∷ ms) = let rest = serve_http ms in serve_message (json.request.unmarshal m) >> rest
