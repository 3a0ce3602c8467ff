-- ===== src/Rpc/Wire.antt =====
-- common/rpctypes: what goes over the websocket, and its JSON.
use atomic_swap.Base.{ℕ, Bytes, codes, Option, List}
use atomic_swap.Types.Provides.{ProvidesCoin}
use atomic_swap.Types.Offer.{Offer}

-- `Params` is JSON.
pub record Request : Type 0 where
  pub jsonrpc : Bytes
  pub method : Bytes
  pub params : Bytes
  pub id : ℕ

-- The server leaves the code and the data of an error at zero.
pub record RpcError : Type 0 where
  pub message : Bytes

-- `Result` is JSON; a nil one is written as null and read as the text null. The ID is nil.
pub record Response : Type 0 where
  pub version : Bytes
  pub result : Bytes
  pub error : Option RpcError

pub record DiscoverRequest : Type 0 where
  pub provides : ProvidesCoin
  pub search_time : ℕ

pub record TakeOfferRequest (F : Type 0) : Type 0 where
  pub multiaddr : Bytes
  pub offer_id : Bytes
  pub provides_amount : F

pub record MakeOfferRequest (F : Type 0) : Type 0 where
  pub minimum_amount : F
  pub maximum_amount : F
  pub exchange_rate : F

abbrev pub default_version : Bytes
default_version = codes "2.0"

-- encoding/json at one type: `json.Marshal`, and `json.Unmarshal` into a pointer, which JSON's null
-- makes nil; `none` is an error.
pub record Codec (A : Type 0) : Type 0 where
  pub marshal : A → Option Bytes
  pub unmarshal : Bytes → Option (Option A)

-- encoding/json at the types of the requests and responses. One with a single field stands as that
-- field.
pub record WsJson (F : Type 0) : Type 0 where
  pub request : Codec Request
  pub response : Codec Response
  pub discover_request : Codec DiscoverRequest
  pub discover_response : Codec (List (List Bytes))
  pub query_peer_request : Codec Bytes
  pub query_peer_response : Codec (List (Offer F))
  pub status_request : Codec ℕ
  pub status_response : Codec Bytes
  pub take_offer_request : Codec (TakeOfferRequest F)
  pub take_offer_response : Codec ℕ
  pub make_offer_request : Codec (MakeOfferRequest F)
  pub make_offer_response : Codec Bytes
  pub id_message : Codec ℕ

-- The methods.
abbrev pub subscribe_new_peer : Bytes
subscribe_new_peer = codes "net_subscribeNewPeer"

abbrev pub net_discover : Bytes
net_discover = codes "net_discover"

abbrev pub net_query_peer : Bytes
net_query_peer = codes "net_queryPeer"

abbrev pub subscribe_make_offer : Bytes
subscribe_make_offer = codes "net_makeOfferAndSubscribe"

abbrev pub subscribe_take_offer : Bytes
subscribe_take_offer = codes "net_takeOfferAndSubscribe"

abbrev pub subscribe_swap_status : Bytes
subscribe_swap_status = codes "swap_subscribeStatus"
