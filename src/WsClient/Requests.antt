-- ===== src/WsClient/Requests.antt =====
-- What the server does with a request that comes to it (rpc/ws.go).
use atomic_swap.Base.{ℕ, Bytes, Bool, false, some, List, [], ◌∷◌, ◌≡◌, ◌≢◌, refl, ap, ◌∙◌, bytes_eq}
use atomic_swap.Base.Outcome.{Outcome, ok, err, panic, blocked}
use atomic_swap.Errors.{Err}
use atomic_swap.Action.{Action, pure, fail, handle, handle_outcome, ignore, ◌>>=◌, ◌>>◌}
use atomic_swap.Action.Inversion.{>>=-known}
use atomic_swap.Types.Provides.{ProvidesCoin}
use atomic_swap.World.{Platform}
use atomic_swap.Alice.{Config}
use atomic_swap.Rpc.Wire.{Codec, WsJson, Request, net_discover, subscribe_take_offer}
use atomic_swap.Rpc.Wire
use atomic_swap.Rpc.NetService.{Network, Seller, Node, OfferChannels, TakeOfferResponse, on_network}
use atomic_swap.Rpc.NetService
use atomic_swap.Rpc.Websocket.{
  Channels, Received, received, await_taken, handle_make_offer, Conn, Server, on_node, params_of,
  write_json, write_response, write_error, handle_discover, handle_take_offer, handle_request,
  serve_message, serve_http,
}
use atomic_swap.Rpc.Websocket
use atomic_swap.WsClient.Wire.{Asks, Answers, Reported, reply, request_of, refusal_of}
use atomic_swap.WsClient.Served.{
  heard, said, Says, StatusAnswers, status_messages, write_json-says, write_response-says,
  subscribe-Says, Says-more,
}

quiet_handled :
    {S : Type 0} (r : Outcome Err (Unit {0})) (g : Err → Action S (Unit {0})) (s : S)
    → ((e : Err) → r ≢ err e)
    → (handle_outcome r pure g s).1 ≡ s
unfolding pure
quiet_handled (ok u) g s k = refl
quiet_handled (err e) g s k = absurd (k e refl)
quiet_handled panic g s k = refl
quiet_handled blocked g s k = refl

ended :
    {S : Type 0} (r : Outcome Err (Unit {0})) (s : S)
    → (handle_outcome r (λ _. pure tt) fail s).1 ≡ s
unfolding pure fail
ended (ok u) s = refl
ended (err e) s = refl
ended panic s = refl
ended blocked s = refl

last_call : {S : Type 0} (m : Action S (Unit {0})) (s : S) → ((m >> pure tt) s).1 ≡ (m s).1
unfolding ◌>>=◌
last_call m s = ended (m s).0 (m s).1

module _ (p : Platform) (cfg : Config) {W B : Type 0} (net : Network p.float.Carrier W)
    (bob : Seller p.float.Carrier B) (json : WsJson p.float.Carrier) (channels : Channels)
    (write_fails : List Bytes → Bool) (writes : (ws : List Bytes) → write_fails ws ≡ false) where
  abbrev S : Type 0
  S = Server p cfg net bob json channels write_fails

  params_of-known :
      {A : Type 0} (c : Codec A) (method : Bytes) (a : A) (k : Asks json c method a) (s : S)
      → params_of p cfg net bob json channels write_fails c (request_of method k.params.text) s
        ≡ (ok a, s)
  unfolding params_of ◌>>=◌
  params_of-known c method a k s = rw k.params.unmarshalled refl

  -- The server's answer to one message.
  pub serve_http-Says :
      (m : Bytes) (req : Request) (ts : List Bytes) (s s' : S)
      → json.request.unmarshal m ≡ some (some req)
      → Says json write_fails writes ts s'
          (handle_request p cfg net bob json channels write_fails (some req) s)
      → (serve_http p cfg net bob json channels write_fails (m ∷ []) s).1
        ≡ said json write_fails writes ts s'
  unfolding serve_http serve_message handle
  serve_http-Says m req ts s s' known k =
      last_call (serve_message p cfg net bob json channels write_fails (json.request.unmarshal m)) s
      ∙ rw known (quiet_handled _ _ _ k.quiet ∙ k.written)

  Says-handled :
      {A : Type 0} (m : Action S A) (f : A → Action S (Unit {0})) (a : A) (ts : List Bytes)
      (s s' t : S)
      → m s ≡ (ok a, s')
      → Says json write_fails writes ts t (f a s')
      → Says json write_fails writes ts t ((m >>= f) s)
  Says-handled m f a ts s s' t e k = rw (>>=-known m f s s' a e) k

  -- A take that succeeds is answered with the ID of the swap, and then with what its status channel
  -- gives.
  pub handle_take_offer-Says :
      (multiaddr offer_id : Bytes) (amount : p.float.Carrier)
      (k : Asks json json.take_offer_request subscribe_take_offer
        (record { multiaddr = multiaddr; offer_id = offer_id; provides_amount = amount }))
      (r : TakeOfferResponse) (answer : Answers json json.take_offer_response r.id)
      (statuses : StatusAnswers json) (s : S) (n : Node p cfg net bob)
      → NetService.take_offer p cfg net bob multiaddr offer_id amount s.node ≡ (ok r, n)
      → Says json write_fails writes
          (answer.response.text
            ∷ status_messages json statuses (heard (channels.statuses r.status_ch)))
          (record s { node = n })
          (handle_request p cfg net bob json channels write_fails
            (some (request_of subscribe_take_offer k.params.text))
            s)
  unfolding handle_request handle_take_offer on_node Websocket.subscribe_take_offer bytes_eq
  handle_take_offer-Says multiaddr offer_id amount k r answer statuses s n e =
      Says-handled _ _ _ _ s s (record s { node = n })
        (params_of-known json.take_offer_request subscribe_take_offer _ k s)
        (Says-handled _ _ r _ s (record s { node = n }) (record s { node = n }) (rw e refl)
          (Says-handled _ _ tt _ (record s { node = n }) _ (record s { node = n })
            (write_response-says json write_fails writes json.take_offer_response r.id answer
              (record s { node = n }))
            (Says-more json write_fails writes (answer.response.text ∷ []) _ (record s { node = n })
              _
              (subscribe-Says json write_fails writes statuses (channels.statuses r.status_ch) _))))

  answered :
      {A : Type 0} (c : Codec A) (r : Outcome Err A) (k : Reported json c r) (s : S)
      → (handle_outcome
          (handle_outcome r (write_response json write_fails c) fail s).0
          pure
          (λ e. ignore (write_error json write_fails e))
          (handle_outcome r (write_response json write_fails c) fail s).1).1
        ≡ said json write_fails writes (reply json c r k ∷ []) s
  unfolding Reported reply fail write_error ignore handle pure
  answered c (ok a) k s = rw (write_response-says json write_fails writes c a k s) refl
  answered c (err e) k s = rw (write_json-says json write_fails writes (refusal_of e) k s) refl
  answered c panic k s = absurd k
  answered c blocked k s = absurd k

  -- The answer to a request that runs one call of the service.
  called :
      {A R : Type 0} (c : Codec A) (c' : Codec R) (svc : A → Action (Node p cfg net bob) R)
      (method : Bytes) (a : A) (k : Asks json c method a) (r : Outcome Err R)
      (reported : Reported json c' r) (s : S) (n : Node p cfg net bob)
      → svc a s.node ≡ (r, n)
      → (handle
          (params_of p cfg net bob json channels write_fails c (request_of method k.params.text)
            >>= λ v.
                on_node p cfg net bob json channels write_fails (svc v)
                >>= write_response json write_fails c')
          pure
          (λ e. ignore (write_error json write_fails e))
          s).1
        ≡ said json write_fails writes (reply json c' r reported ∷ []) (record s { node = n })
  unfolding handle on_node ◌>>=◌
  called c c' svc method a k r reported s n e =
      rw (params_of-known c method a k s, e) (answered c' r reported (record s { node = n }))

  -- A request to discover peers is answered with what the service returns, also an error.
  pub serve_http-discover :
      (provides : ProvidesCoin) (time : ℕ)
      (k : Asks json json.discover_request net_discover
        (record { provides = provides; search_time = time }))
      (r : Outcome Err (List (List Bytes))) (reported : Reported json json.discover_response r)
      (s : S) (n : Node p cfg net bob)
      → NetService.discover p cfg net bob provides time s.node ≡ (r, n)
      → (serve_http p cfg net bob json channels write_fails (k.request.text ∷ []) s).1
        ≡ said json write_fails writes
            (reply json json.discover_response r reported ∷ [])
            (record s { node = n })
  unfolding serve_http serve_message handle_request handle_discover bytes_eq
  serve_http-discover provides time k r reported s n e =
      last_call
        (serve_message p cfg net bob json channels write_fails
          (json.request.unmarshal k.request.text))
        s
      ∙ rw k.request.unmarshalled (
          called json.discover_request json.discover_response
            (λ v. NetService.discover p cfg net bob v.provides v.search_time) net_discover _ k r
            reported s n e)

  -- An offer that was made is answered with its ID, then with the ID of the swap that takes it, and
  -- then with what its status channel gives.
  pub handle_make_offer-Says :
      (min max rate : p.float.Carrier)
      (k : Asks json json.make_offer_request Wire.subscribe_make_offer
        (record { minimum_amount = min; maximum_amount = max; exchange_rate = rate }))
      (offer_id : Bytes) (extra : OfferChannels) (q : ℕ) (ids : List (Received ℕ))
      (answer : Answers json json.make_offer_response offer_id)
      (taken : Answers json json.id_message q) (statuses : StatusAnswers json) (s : S)
      (n1 n2 : Node p cfg net bob)
      → NetService.make_offer p cfg net bob min max rate s.node ≡ (ok (offer_id, extra), n1)
      → on_network p cfg net bob net.advertise n1 ≡ (ok tt, n2)
      → channels.ids extra.id_ch ≡ received q ∷ ids
      → Says json write_fails writes
          (answer.response.text
            ∷ taken.response.text
            ∷ status_messages json statuses (heard (channels.statuses extra.status_ch)))
          (record s { node = n2 })
          (handle_request p cfg net bob json channels write_fails
            (some (request_of Wire.subscribe_make_offer k.params.text))
            s)
  unfolding handle_request handle_make_offer on_node Websocket.subscribe_make_offer await_taken
      bytes_eq
  handle_make_offer-Says min max rate k offer_id extra q ids answer taken statuses s n1 n2 e a i =
      let s2 : S = record s { node = n2 } in
      let s3 = said json write_fails writes (answer.response.text ∷ []) s2 in
      Says-handled _ _ _ _ s s s2
        (params_of-known json.make_offer_request Wire.subscribe_make_offer _ k s)
        (Says-handled _ _ (offer_id, extra) _ s (record s { node = n1 }) s2 (rw e refl)
          (Says-handled _ _ tt _ (record s { node = n1 }) s2 s2
            (ap (λ z. (z.0, record s { node = z.1 })) a)
            (Says-handled _ _ tt _ s2 s3 s2
              (write_response-says json write_fails writes json.make_offer_response offer_id answer
                s2)
              (Says-more json write_fails writes (answer.response.text ∷ []) _ s2 _ (
                rw i (
                  Says-handled _ _ tt _ s3 _ s3
                    (write_response-says json write_fails writes json.id_message q taken s3)
                    (Says-more json write_fails writes (taken.response.text ∷ []) _ s3 _ (
                      subscribe-Says json write_fails writes statuses
                        (channels.statuses extra.status_ch) _))))))))
