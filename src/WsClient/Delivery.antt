-- ===== src/WsClient/Delivery.antt =====
-- Client and server together (rpcclient/wsclient/wsclient.go on rpc/ws.go): the client sends its
-- request, the server answers it, and the client reads the answers.
mod Tests
use atomic_swap.Base.{
  ℕ, Bytes, codes, Bool, false, Option, none, some, List, [], ◌∷◌, ◌≡◌, refl, ap,
}
use atomic_swap.Base.Outcome.{Outcome, ok, err, panic, blocked}
use atomic_swap.Errors.{Err}
use atomic_swap.Action.{Action, pure, fail, deref, handle_outcome, ◌>>=◌, ◌>>◌}
use atomic_swap.Action.Inversion.{>>=-known}
use atomic_swap.Types.Provides.{ProvidesCoin}
use atomic_swap.Manager.{Manager, get_ongoing_swap}
use atomic_swap.World.{Platform}
use atomic_swap.Alice.{Config}
use atomic_swap.Rpc.Wire.{WsJson, net_discover, subscribe_take_offer, subscribe_make_offer}
use atomic_swap.Rpc.NetService.{Network, Seller, Node, OfferChannels, TakeOfferResponse, on_network}
use atomic_swap.Rpc.NetService
use atomic_swap.Rpc.Websocket.{
  Channels, Received, received, Conn, Server, serve_http, subscribe_to, subscribe_swap_status,
}
use atomic_swap.WsClient.{
  Link, Delivered, nothing, post, read_result, discover, take_offer_and_subscribe,
  make_offer_and_subscribe, follow, follow_offer,
}
use atomic_swap.WsClient.Wire.{Asks, Answers, Reported, reply}
use atomic_swap.WsClient.Served.{heard, StatusAnswers, status_messages}
use atomic_swap.WsClient.Requests.{
  handle_take_offer-Says, handle_make_offer-Says, serve_http-Says, serve_http-discover,
}
use atomic_swap.WsClient.Replies.{
  told, pointed, post-known, read_result-pointed, follow-heard, follow_offer-heard,
}

dereferenced :
    {S A : Type 0} (r : Outcome Err A) (s : S)
    → handle_outcome (pointed r) (λ v. deref v) fail s ≡ (told r, s)
unfolding pointed told deref fail
dereferenced (ok a) s = refl
dereferenced (err e) s = refl
dereferenced panic s = refl
dereferenced blocked s = refl

module _ (p : Platform) (cfg : Config) {W B : Type 0} (net : Network p.float.Carrier W)
    (bob : Seller p.float.Carrier B) (json : WsJson p.float.Carrier) (channels : Channels)
    (write_fails : List Bytes → Bool) (writes : (ws : List Bytes) → write_fails ws ≡ false) where
  -- What the server writes after it was sent these messages.
  abbrev answers : List Bytes → Node p cfg net bob → List Bytes
  answers sent n =
      (serve_http p cfg net bob json channels write_fails sent
        (record { node = n; written = [] })).1.written

  -- The client's Discover returns what the service does. The request, and the result or the text of
  -- the error, come over the websocket as they are, and no write fails. Then, on the messages
  -- that the server writes for the one that the client sends, Discover of the client returns the
  -- peers that Discover of the service returns, or an error with the text of the service's error;
  -- and it has read all that the server wrote.
  pub discover-serve_http :
      (provides : ProvidesCoin) (time : ℕ)
      (k : Asks json json.discover_request net_discover
        (record { provides = provides; search_time = time }))
      (r : Outcome Err (List (List Bytes))) (reported : Reported json json.discover_response r)
      (n n' : Node p cfg net bob)
      → NetService.discover p cfg net bob provides time n ≡ (r, n')
      → discover json write_fails provides time
          (record { incoming = answers (k.request.text ∷ []) n; sent = [] })
        ≡ (told r, record { incoming = []; sent = k.request.text ∷ [] })
  unfolding discover ◌>>=◌
  discover-serve_http provides time k r reported n n' e =
      let m = k.request.text in
      rw
        (
          ap (λ s. s.written)
              (serve_http-discover p cfg net bob json channels write_fails writes provides time k r
                reported (record { node = n; written = [] }) n' e),
          post-known json write_fails writes json.discover_request net_discover _ k
              (record { incoming = reply json json.discover_response r reported ∷ []; sent = [] }),
          read_result-pointed json write_fails writes (codes "failed to unmarshal swap ID response")
              json.discover_response r reported [] (m ∷ []),
        )
        (dereferenced r (record { incoming = []; sent = m ∷ [] }))

  -- A taken offer is followed to its end. The request and the answers come over the websocket as
  -- they are, and no write fails. If the service takes the offer, then, on the messages that the
  -- server writes for the one that the client sends, TakeOfferAndSubscribe of the client returns the
  -- ID of the swap, and its goroutine delivers exactly the statuses that come through the channel
  -- of the swap, up to and with the first one of a swap that is over.
  pub take_offer_and_subscribe-serve_http :
      (multiaddr offer_id : Bytes) (amount : p.float.Carrier)
      (k : Asks json json.take_offer_request subscribe_take_offer
        (record { multiaddr = multiaddr; offer_id = offer_id; provides_amount = amount }))
      (r : TakeOfferResponse) (answer : Answers json json.take_offer_response r.id)
      (statuses : StatusAnswers json) (n n' : Node p cfg net bob)
      → NetService.take_offer p cfg net bob multiaddr offer_id amount n ≡ (ok r, n')
      → let (res, l) =
          take_offer_and_subscribe json write_fails multiaddr offer_id amount
            (record { incoming = answers (k.request.text ∷ []) n; sent = [] }) in
        (res ≡ ok r.id)
        × (l.sent ≡ k.request.text ∷ [])
        × ((follow json write_fails l.incoming nothing).1.statuses
            ≡ heard (channels.statuses r.status_ch))
  unfolding take_offer_and_subscribe ◌>>=◌ pointed deref Reported reply
  take_offer_and_subscribe-serve_http multiaddr offer_id amount k r answer statuses n n' e =
      let m = k.request.text in
      let ms = status_messages json statuses (heard (channels.statuses r.status_ch)) in
      let s : Server p cfg net bob json channels write_fails = record { node = n; written = [] } in
      rw
        (
          ap (λ s. s.written)
              (serve_http-Says p cfg net bob json channels write_fails writes m _ _ s
                (record { node = n'; written = [] }) k.request.unmarshalled
                (handle_take_offer-Says p cfg net bob json channels write_fails writes multiaddr
                  offer_id amount k r answer statuses s n' e)),
          post-known json write_fails writes json.take_offer_request subscribe_take_offer _ k
              (record { incoming = answer.response.text ∷ ms; sent = [] }),
          read_result-pointed json write_fails writes (codes "failed to unmarshal swap ID response")
              json.take_offer_response (ok r.id) answer ms (m ∷ []),
        )
        (
          refl,
          refl,
          ap (λ z. z.1.statuses)
              (follow-heard json write_fails writes statuses (channels.statuses r.status_ch)
                nothing),
        )

  -- An offer that was made is followed to the end of its swap. The request and the answers come
  -- over the websocket as they are, and no write fails. If the service makes the offer, and advertising
  -- it returns, and then the channel for IDs gives the ID of a swap, then, on the messages that
  -- the server writes for the one that the client sends, MakeOfferAndSubscribe of the client returns
  -- the ID of the offer, and its goroutine delivers the ID of the swap and exactly the statuses that
  -- come through the status channel of the offer, up to and with the first one of a swap that is over.
  pub make_offer_and_subscribe-serve_http :
      (min max rate : p.float.Carrier)
      (k : Asks json json.make_offer_request subscribe_make_offer
        (record { minimum_amount = min; maximum_amount = max; exchange_rate = rate }))
      (offer_id : Bytes) (extra : OfferChannels) (q : ℕ) (ids : List (Received ℕ))
      (answer : Answers json json.make_offer_response offer_id)
      (taken : Answers json json.id_message q) (statuses : StatusAnswers json)
      (n n1 n2 : Node p cfg net bob)
      → NetService.make_offer p cfg net bob min max rate n ≡ (ok (offer_id, extra), n1)
      → on_network p cfg net bob net.advertise n1 ≡ (ok tt, n2)
      → channels.ids extra.id_ch ≡ received q ∷ ids
      → let (res, l) =
          make_offer_and_subscribe json write_fails min max rate
            (record { incoming = answers (k.request.text ∷ []) n; sent = [] }) in
        (res ≡ ok offer_id)
        × (l.sent ≡ k.request.text ∷ [])
        × ((follow_offer json write_fails l.incoming nothing).1
            ≡ record { taken = q ∷ []; statuses = heard (channels.statuses extra.status_ch) })
  unfolding make_offer_and_subscribe ◌>>=◌ pointed deref Reported reply
  make_offer_and_subscribe-serve_http min max rate k offer_id extra q ids answer taken statuses n n1
        n2 e a i =
      let m = k.request.text in
      let ms =
        taken.response.text
        ∷ status_messages json statuses (heard (channels.statuses extra.status_ch)) in
      let s : Server p cfg net bob json channels write_fails = record { node = n; written = [] } in
      rw
        (
          ap (λ s. s.written)
              (serve_http-Says p cfg net bob json channels write_fails writes m _ _ s
                (record { node = n2; written = [] }) k.request.unmarshalled
                (handle_make_offer-Says p cfg net bob json channels write_fails writes min max rate
                  k offer_id extra q ids answer taken statuses s n1 n2 e a i)),
          post-known json write_fails writes json.make_offer_request subscribe_make_offer _ k
              (record { incoming = answer.response.text ∷ ms; sent = [] }),
          read_result-pointed json write_fails writes (codes "failed to unmarshal response")
              json.make_offer_response (ok offer_id) answer ms (m ∷ []),
        )
        (
          refl,
          refl,
          ap (λ z. z.1)
              (follow_offer-heard json write_fails writes q taken statuses
                (channels.statuses extra.status_ch) nothing),
        )
