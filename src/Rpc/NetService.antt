-- ===== src/Rpc/NetService.antt =====
-- rpc/net.go: what a user asks of the network and of Alice and Bob over JSON-RPC.
pub mod Keyless
use atomic_swap.Base.{
  ℕ, zero, suc, ◌*◌, ◌^◌, Bytes, codes, Bool, Option, none, some, List, [], ◌∷◌, map, get_elem?,
  ltb, ◌==◌, bytes_eq, if◌then◌else◌, is_some, ◌++◌,
}
use atomic_swap.Base.Outcome.{Outcome}
use atomic_swap.Errors.{Err, plain, external}
use atomic_swap.Action.{
  Action, pure, fail, hang, gets, modify, or_fail, deref, handle, ignore, ◌>>=◌, ◌>>◌,
}
use atomic_swap.Types.Status.{Status, to_string}
use atomic_swap.Types.Provides.{ProvidesCoin, provides_xmr}
use atomic_swap.Types.Offer.{Offer, get_id, hash_string, zero_hash}
use atomic_swap.Message.{SendKeysMessage, QueryResponse}
use atomic_swap.Manager.{Manager, get_ongoing_swap, get_past_swap, id_of, status_of}
use atomic_swap.World.{Platform}
use atomic_swap.Alice.{Config, State}
use atomic_swap.Alice.Start.{Instance, initiate_protocol}
use atomic_swap.Alice.Handler.{send_keys_message}
use atomic_swap.Alice.Settle.{exit}

-- The interface Net, on the state `W` of the network: `net.StringToAddrInfo`, Query, Initiate,
-- Discover with a search time in nanoseconds, Advertise and Addresses. A peer is an ID with its
-- addresses.
pub record Network (F W : Type 0) : Type 0 where
  pub string_to_addr_info : Bytes → Option (Bytes × List Bytes)
  pub query : Bytes × List Bytes → Action W (Option (QueryResponse F))
  pub initiate : Bytes × List Bytes → SendKeysMessage F → Action W (Unit {0})
  pub discover : ProvidesCoin → ℕ → Action W (List (Bytes × List Bytes))
  pub advertise : Action W (Unit {0})
  pub addresses : W → List Bytes

-- The channels of types.OfferExtra; the path of the info file is left out.
pub record OfferChannels : Type 0 where
  pub id_ch : ℕ
  pub status_ch : ℕ

-- The part of the interface Bob that makes offers.
pub record Seller (F B : Type 0) : Type 0 where
  pub make_offer : Offer F → Action B OfferChannels

pub record TakeOfferResponse : Type 0 where
  pub id : ℕ
  pub status_ch : ℕ

-- `addrInfoToStrings`
unfoldable pub addr_info_to_strings : Bytes × List Bytes → List Bytes
addr_info_to_strings (id, addrs) = map (λ addr. addr ++ codes "/p2p/" ++ id) addrs

-- The time to search, from seconds: `time.ParseDuration` refuses what does not fit 63 bits of
-- nanoseconds, and zero stands for twelve seconds.
unfoldable pub search_time : ℕ → Option ℕ
search_time seconds =
    if ltb (seconds * 10 ^ 9) (2 ^ 63)
    then some (if seconds == 0 then 12 * 10 ^ 9 else seconds * 10 ^ 9)
    else none

-- The first offer with this ID.
unfoldable pub find_offer :
    {F : Type 0} → (Offer F → Bytes) → Bytes → List (Offer F) → Option (Offer F)
find_offer hash_of id [] = none
find_offer hash_of id (o ∷ os) =
    let rest = find_offer hash_of id os in
    if bytes_eq (hash_string (get_id hash_of o).0) id then some (get_id hash_of o).1 else rest

-- `info.Status()` of what GetPastSwap returned, unless that is nil.
unfoldable pub past_status : {F : Type 0} → Option ℕ → Manager F → Option Status
past_status none m = none
past_status (some q) m = some (status_of (get_elem? m.heap q))

module _ (p : Platform) (cfg : Config) {W B : Type 0} (net : Network p.float.Carrier W)
    (bob : Seller p.float.Carrier B) where
  open p use {float, hash_of}

  -- `swap` is the swap state that Alice's instance points to, or pointed to last. The gas prices
  -- are those of both instances, nil until they are set.
  pub record Node : Type 0 where
    pub alice : Instance p cfg
    pub swap : Option (State p)
    pub network : W
    pub seller : B
    pub alice_gas_price : Option ℕ
    pub bob_gas_price : Option ℕ

  unfoldable pub on_network : {A : Type 0} → Action W A → Action Node A
  on_network m n = let (r, w) = m n.network in (r, record n { network = w })

  unfoldable pub on_seller : {A : Type 0} → Action B A → Action Node A
  on_seller m n = let (r, b) = m n.seller in (r, record n { seller = b })

  unfoldable pub on_alice : {A : Type 0} → Action (Instance p cfg) A → Action Node A
  on_alice m n = let (r, a) = m n.alice in (r, record n { alice = a })

  -- A call on the swap state, which shares the history and the manager with the instance. The
  -- instance's pointer is nil once the swap was left.
  unfoldable pub on_swap : {A : Type 0} → Action (State p) A → State p → Action Node A
  on_swap m st n =
      let (r, st') = m (record st { history = n.alice.history; manager = n.alice.manager }) in
      (
        r,
        record n {
          alice = record { history = st'.history; running = st'.current; manager = st'.manager };
          swap = some st';
        },
      )

  -- The swap state as the calls so far left it.
  unfoldable pub current_swap : Action Node (State p)
  current_swap = do st ← gets (λ n. n.swap); deref st

  -- `net.Initiate`; if it fails the swap is left.
  unfoldable pub begin_swap :
      Bytes × List Bytes → SendKeysMessage float.Carrier → Action Node (Unit {0})
  unfolding on_network on_swap current_swap
  begin_swap who msg =
      handle (on_network (net.initiate who msg)) pure
        (λ e. do st ← current_swap; ignore (on_swap (exit p cfg) st); fail e)

  -- `takeOffer`, but for the path of the info file.
  unfoldable pub take_offer : Bytes → Bytes → float.Carrier → Action Node TakeOfferResponse
  unfolding on_network on_alice on_swap begin_swap
  take_offer multiaddr offer_id amount = do
    who ← or_fail (net.string_to_addr_info multiaddr) (external [])
    answer ← on_network (net.query who)
    resp ← deref answer
    offer ←
        or_fail (find_offer hash_of offer_id resp.offers)
          (plain (codes "peer does not have offer with given ID"))
    st ← on_alice (initiate_protocol p cfg amount offer.exchange_rate)
    msg ← on_swap (send_keys_message p cfg) st
    begin_swap who (record msg { offer_id = offer_id; provided_amount = amount })
    q ← gets (λ n. get_ongoing_swap n.alice.manager)
    at ← or_fail q (plain (codes "failed to get swap info after initiating"))
    info ← deref (← gets (λ n. get_elem? n.alice.manager.heap at))
    id ← gets (λ n. id_of (get_elem? n.alice.manager.heap st.info))
    pure (record { id = id; status_ch = info.status_ch })

  unfoldable pub status_or : Option Status → Action Node Bytes → Action Node Bytes
  status_or none rest = rest
  status_or (some status) rest = pure (to_string status)

  -- The loop of `TakeOfferSync`, for so many rounds; `sleep` is what happens in 100 milliseconds.
  unfoldable pub sync_loop : Action Node (Unit {0}) → ℕ → ℕ → Action Node Bytes
  unfolding status_or
  sync_loop sleep zero id = hang
  sync_loop sleep (suc rounds) id =
      let rest = sync_loop sleep rounds id in
      do
        sleep
        found ← gets (λ n. get_past_swap id n.alice.manager)
        done ← gets (λ n. past_status found n.alice.manager)
        status_or done rest

  -- `TakeOfferSync`: the status of the swap once it is a past one.
  unfoldable pub take_offer_sync :
      Action Node (Unit {0}) → ℕ → Bytes → Bytes → float.Carrier → Action Node Bytes
  unfolding take_offer sync_loop
  take_offer_sync sleep rounds multiaddr offer_id amount = do
    r ← take_offer multiaddr offer_id amount
    sync_loop sleep rounds r.id

  -- `makeOffer`
  unfoldable pub make_offer :
      float.Carrier → float.Carrier → float.Carrier → Action Node (Bytes × OfferChannels)
  unfolding on_seller
  make_offer minimum maximum rate =
      let o : Offer float.Carrier = record {
        id = zero_hash;
        provides = provides_xmr;
        minimum_amount = minimum;
        maximum_amount = maximum;
        exchange_rate = rate;
      } in
      do extra ← on_seller (bob.make_offer o); pure (hash_string (get_id hash_of o).0, extra)

  -- `MakeOffer`: the ID of the new offer.
  unfoldable pub make_and_advertise :
      float.Carrier → float.Carrier → float.Carrier → Action Node Bytes
  unfolding on_network make_offer
  make_and_advertise minimum maximum rate = do
    made ← make_offer minimum maximum rate
    on_network net.advertise
    pure made.0

  -- `QueryPeer`
  unfoldable pub query_peer : Bytes → Action Node (List (Offer float.Carrier))
  unfolding on_network
  query_peer multiaddr = do
    who ← or_fail (net.string_to_addr_info multiaddr) (external [])
    answer ← on_network (net.query who)
    resp ← deref answer
    pure resp.offers

  -- `Discover`
  unfoldable pub discover : ProvidesCoin → ℕ → Action Node (List (List Bytes))
  unfolding on_network addr_info_to_strings
  discover provides seconds = do
    time ← or_fail (search_time seconds) (external [])
    peers ← on_network (net.discover provides time)
    pure (map addr_info_to_strings peers)

  -- `SetGasPrice`, of the service and of both instances.
  unfoldable pub set_gas_price : ℕ → Action Node (Unit {0})
  set_gas_price price =
      modify (λ n. record n { alice_gas_price = some price; bob_gas_price = some price })

  -- `Addresses`
  unfoldable pub listening_on : Action Node (List Bytes)
  listening_on = gets (λ n. net.addresses n.network)
