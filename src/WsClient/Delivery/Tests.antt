-- ===== src/WsClient/Delivery/Tests.antt =====
-- A client of a toy node, over a toy JSON that knows one request at a time.
use atomic_swap.Base.{
  ℕ, Bytes, Bool, false, ◌≡◌, refl, none, some, List, [], ◌∷◌, codes, replicate, bytes_eq,
}
use atomic_swap.Base.Outcome.{ok}
use atomic_swap.Action.{◌>>=◌, fail_if, modify}
use atomic_swap.Types.Offer.{get_id, hash_string, to_xmr}
use atomic_swap.Types.Provides.{provides_xmr}
use atomic_swap.Types.Status.{
  expecting_keys, keys_exchanged, completed_success, is_ongoing, to_string,
}
use atomic_swap.Crypto.Hex.{encode_to_string}
use atomic_swap.Crypto.Keys.{new_private_spend_key, as_private_key_pair}
use atomic_swap.Manager.{new_manager, new_info, add_swap, get_ongoing_swap, id_of}
use atomic_swap.World.{ask}
use atomic_swap.World.Toy.{platform}
use atomic_swap.Alice.{io}
use atomic_swap.Alice.Chain.{generate_and_set_keys}
use atomic_swap.Alice.Handler.{send_keys_message}
use atomic_swap.Alice.Start.{
  initiate_protocol, initiate, new_swap_state, add_new, pointer_of, write_files, outside,
  fresh_state,
}
use atomic_swap.Protocol.{generate_keys_and_proof, prove, verify}
use atomic_swap.Rpc.Wire.{Codec, WsJson, Request, Response, net_discover, subscribe_take_offer}
use atomic_swap.Rpc.Wire
use atomic_swap.Rpc.NetService.{
  Node, take_offer, find_offer, on_swap, on_network, on_seller, make_offer, on_alice, begin_swap,
  discover, search_time, addr_info_to_strings,
}
use atomic_swap.Rpc.Websocket.{Channels, received}
use atomic_swap.Rpc.Toy.{config, network, seller, id}
use atomic_swap.WsClient
use atomic_swap.WsClient.{
  nothing, take_offer_and_subscribe, make_offer_and_subscribe, follow, follow_offer,
}
use atomic_swap.WsClient.Wire.{Travels, Asks, Answers, Reported, request_of, answer_of}
use atomic_swap.WsClient.Served.{heard, StatusAnswers}
use atomic_swap.WsClient.Replies.{told}
use atomic_swap.WsClient.Delivery.{
  answers, discover-serve_http, take_offer_and_subscribe-serve_http,
  make_offer_and_subscribe-serve_http,
}

abbrev node : Node platform config network seller
node = record {
  alice = record { history = []; running = false; manager = new_manager };
  swap = none;
  network = tt;
  seller = tt;
  alice_gas_price = none;
  bob_gas_price = none;
}

-- It reads every text as this value.
abbrev only : {A : Type 0} → A → Codec A
only a = record { marshal = λ _. some (1 ∷ []); unmarshal = λ b. some (some a) }

abbrev raw : Codec Bytes
raw = record { marshal = λ b. some b; unmarshal = λ b. some (some b) }

abbrev peers : List (List Bytes)
peers = (codes "/ip4/p2p/q" ∷ []) ∷ []

abbrev json : Bytes → WsJson ℕ
json method = record {
  request = record {
    marshal = λ r. some r.params;
    unmarshal = λ b. some (some (request_of method b));
  };
  response = record { marshal = λ r. some r.result; unmarshal = λ b. some (some (answer_of b)) };
  discover_request = only (record { provides = provides_xmr; search_time = 3 });
  discover_response = only peers;
  query_peer_request = raw;
  query_peer_response = only [];
  status_request = only 0;
  status_response = raw;
  take_offer_request = only (record { multiaddr = []; offer_id = id; provides_amount = 3 });
  take_offer_response = only 0;
  make_offer_request = only (record { minimum_amount = 1; maximum_amount = 2; exchange_rate = 1 });
  make_offer_response = raw;
  id_message = only 0;
}

abbrev channels : Channels
channels = record {
  statuses =
      λ ch. received keys_exchanged ∷ received completed_success ∷ received expecting_keys ∷ [];
  ids = λ ch. received 0 ∷ [];
}

abbrev never : List Bytes → Bool
never ws = false

abbrev as_it_is : (method b : Bytes) → Travels (json method).response (answer_of b)
as_it_is method b = record { text = b; marshalled = refl; unmarshalled = refl }

abbrev asked :
    Asks
      (json net_discover)
      (json net_discover).discover_request
      net_discover
      (record { provides = provides_xmr; search_time = 3 })
asked = record {
  params = record { text = 1 ∷ []; marshalled = refl; unmarshalled = refl };
  request = record { text = 1 ∷ []; marshalled = refl; unmarshalled = refl };
}

found : Answers (json net_discover) (json net_discover).discover_response peers
found = record {
  result = record { text = 1 ∷ []; marshalled = refl; unmarshalled = refl };
  response = as_it_is net_discover (1 ∷ []);
}

discover-serve_http_example :
    WsClient.discover (json net_discover) never provides_xmr 3 (record {
      incoming =
          answers platform config network seller
            (json net_discover)
            channels
            never
            (λ ws. refl)
            ((1 ∷ []) ∷ [])
            node;
      sent = [];
    })
    ≡ (told (ok peers), record { incoming = []; sent = (1 ∷ []) ∷ [] })
unfolding Reported discover search_time addr_info_to_strings on_network ◌>>=◌
discover-serve_http_example =
    discover-serve_http platform config network seller (json net_discover) channels never
      (λ ws. refl) provides_xmr 3 asked (ok peers) found node node refl

abbrev taking : WsJson ℕ
taking = json subscribe_take_offer

abbrev taken :
    Asks taking taking.take_offer_request subscribe_take_offer
      (record { multiaddr = []; offer_id = id; provides_amount = 3 })
taken = record {
  params = record { text = 1 ∷ []; marshalled = refl; unmarshalled = refl };
  request = record { text = 1 ∷ []; marshalled = refl; unmarshalled = refl };
}

abbrev told_statuses : StatusAnswers taking
told_statuses st = record {
  result = record { text = to_string st; marshalled = refl; unmarshalled = refl };
  response = as_it_is subscribe_take_offer (to_string st);
}

take_offer_and_subscribe-serve_http_example :
    let (res, l) = take_offer_and_subscribe taking never [] id 3 (record {
      incoming =
          answers platform config network seller taking channels never
            (λ ws. refl)
            ((1 ∷ []) ∷ [])
            node;
      sent = [];
    }) in
    (res ≡ ok 0)
    × (l.sent ≡ (1 ∷ []) ∷ [])
    × ((follow taking never l.incoming nothing).1.statuses
        ≡ keys_exchanged ∷ completed_success ∷ [])
unfolding ◌>>=◌ fail_if modify is_ongoing new_manager new_info add_swap bytes_eq get_id hash_string
    encode_to_string find_offer on_swap on_network on_alice begin_swap take_offer initiate_protocol
    initiate new_swap_state add_new pointer_of write_files outside ask io send_keys_message
    generate_and_set_keys generate_keys_and_proof prove verify to_xmr fresh_state get_ongoing_swap
    id_of heard new_private_spend_key as_private_key_pair
take_offer_and_subscribe-serve_http_example =
    take_offer_and_subscribe-serve_http platform config network seller taking channels never
      (λ ws. refl) [] id 3 taken (record { id = 0; status_ch = 0 })
      (record {
        result = record { text = 1 ∷ []; marshalled = refl; unmarshalled = refl };
        response = as_it_is subscribe_take_offer (1 ∷ []);
      })
      told_statuses node _ refl

abbrev making : WsJson ℕ
making = json Wire.subscribe_make_offer

make_offer_and_subscribe-serve_http_example :
    let (res, l) = make_offer_and_subscribe making never 1 2 1 (record {
      incoming =
          answers platform config network seller making channels never
            (λ ws. refl)
            ((1 ∷ []) ∷ [])
            node;
      sent = [];
    }) in
    (res ≡ ok (hash_string (replicate 32 7)))
    × (l.sent ≡ (1 ∷ []) ∷ [])
    × ((follow_offer making never l.incoming nothing).1
        ≡ record { taken = 0 ∷ []; statuses = keys_exchanged ∷ completed_success ∷ [] })
unfolding ◌>>=◌ is_ongoing on_network on_seller make_offer get_id hash_string bytes_eq heard
make_offer_and_subscribe-serve_http_example =
    make_offer_and_subscribe-serve_http platform config network seller making channels never
      (λ ws. refl) 1 2 1
      (record {
        params = record { text = 1 ∷ []; marshalled = refl; unmarshalled = refl };
        request = record { text = 1 ∷ []; marshalled = refl; unmarshalled = refl };
      })
      (hash_string (replicate 32 7)) (record { id_ch = 0; status_ch = 1 }) 0 []
      (record {
        result = record {
          text = hash_string (replicate 32 7);
          marshalled = refl;
          unmarshalled = refl;
        };
        response = as_it_is Wire.subscribe_make_offer (hash_string (replicate 32 7));
      })
      (record {
        result = record { text = 1 ∷ []; marshalled = refl; unmarshalled = refl };
        response = as_it_is Wire.subscribe_make_offer (1 ∷ []);
      })
      (λ st. record {
        result = record { text = to_string st; marshalled = refl; unmarshalled = refl };
        response = as_it_is Wire.subscribe_make_offer (to_string st);
      })
      node _ _ refl refl refl
