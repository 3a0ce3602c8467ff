-- ===== src/Message.antt =====
-- net/message/message.go: the messages that two nodes exchange, and their wire form, a byte for the
-- type and the JSON of the message. A Go message is a pointer: JSON `null` decodes to a message of
-- its type whose pointer is nil, which is `none` here.
pub mod Toy
pub mod Codec
use atomic_swap.Base.{ℕ, ◌≡◌, Bytes, codes, Option, none, some, List, [], ◌∷◌, ◌==◌, if◌then◌else◌}
use atomic_swap.Types.Offer.{Offer}

pub data MessageType : Type 0 where
  query_response_type send_keys_type notify_eth_locked_type notify_xmr_lock_type : MessageType
  notify_ready_type notify_claimed_type notify_refund_type nil_type : MessageType

-- The order of the constants.
unfoldable pub byte : MessageType → ℕ
byte query_response_type = 0
byte send_keys_type = 1
byte notify_eth_locked_type = 2
byte notify_xmr_lock_type = 3
byte notify_ready_type = 4
byte notify_claimed_type = 5
byte notify_refund_type = 6
byte nil_type = 7

unfoldable pub type_string : MessageType → Bytes
type_string query_response_type = codes "QueryResponse"
type_string send_keys_type = codes "SendKeysMessage"
type_string notify_eth_locked_type = codes "NotifyETHLocked"
type_string notify_xmr_lock_type = codes "NotifyXMRLock"
type_string notify_ready_type = codes "NotifyReady"
type_string notify_claimed_type = codes "NotifyClaimed"
type_string notify_refund_type = codes "NotifyRefund"
type_string nil_type = codes "unknown"

pub record QueryResponse (F : Type 0) : Type 0 where
  pub offers : List (Offer F)

pub record SendKeysMessage (F : Type 0) : Type 0 where
  pub offer_id : Bytes
  pub provided_amount : F
  pub public_spend_key : Bytes
  pub public_view_key : Bytes
  pub private_view_key : Bytes
  pub dleq_proof : Bytes
  pub secp256k1_public_key : Bytes
  pub eth_address : Bytes

-- The contract's swap ID is a *big.Int.
pub record NotifyEthLocked : Type 0 where
  pub address : Bytes
  pub tx_hash : Bytes
  pub contract_swap_id : Option ℕ

pub record NotifyXmrLock : Type 0 where
  pub address : Bytes

pub record NotifyReady : Type 0 where

pub record NotifyClaimed : Type 0 where
  pub tx_hash : Bytes

pub record NotifyRefund : Type 0 where
  pub tx_hash : Bytes

pub data Message (F : Type 0) : Type 0 where
  query_response : Option (QueryResponse F) → Message F
  send_keys : Option (SendKeysMessage F) → Message F
  notify_eth_locked : Option NotifyEthLocked → Message F
  notify_xmr_lock : Option NotifyXmrLock → Message F
  notify_ready : Option NotifyReady → Message F
  notify_claimed : Option NotifyClaimed → Message F
  notify_refund : Option NotifyRefund → Message F

-- `msg.Type()`
unfoldable pub type_of : {F : Type 0} → Message F → MessageType
type_of (query_response _) = query_response_type
type_of (send_keys _) = send_keys_type
type_of (notify_eth_locked _) = notify_eth_locked_type
type_of (notify_xmr_lock _) = notify_xmr_lock_type
type_of (notify_ready _) = notify_ready_type
type_of (notify_claimed _) = notify_claimed_type
type_of (notify_refund _) = notify_refund_type

-- encoding/json at one Go struct, through a pointer: `none` is an error.
pub record Json (A : Type 0) : Type 0 where
  pub marshal : Option A → Option Bytes
  pub unmarshal : Bytes → Option (Option A)
  -- what was encoded is decoded again, nil too
  pub unmarshal-marshal : (a : Option A) (b : Bytes) → marshal a ≡ some b → unmarshal b ≡ some a

-- encoding/json at the structs of this file.
pub record JsonCodec (F : Type 0) : Type 0 where
  pub query_response_json : Json (QueryResponse F)
  pub send_keys_json : Json (SendKeysMessage F)
  pub notify_eth_locked_json : Json NotifyEthLocked
  pub notify_xmr_lock_json : Json NotifyXmrLock
  pub notify_ready_json : Json NotifyReady
  pub notify_claimed_json : Json NotifyClaimed
  pub notify_refund_json : Json NotifyRefund

abbrev pub tagged : MessageType → Option Bytes → Option Bytes
tagged t none = none
tagged t (some b) = some (byte t ∷ b)

abbrev decoded : {A M : Type 0} → (Option A → M) → Option (Option A) → Option M
decoded f none = none
decoded f (some a) = some (f a)

module _ {F : Type 0} (json : JsonCodec F) where
  -- The seven `Encode` methods.
  unfoldable pub encode : Message F → Option Bytes
  unfolding byte
  encode (query_response m) = tagged query_response_type (json.query_response_json.marshal m)
  encode (send_keys m) = tagged send_keys_type (json.send_keys_json.marshal m)
  encode (notify_eth_locked m) =
      tagged notify_eth_locked_type (json.notify_eth_locked_json.marshal m)
  encode (notify_xmr_lock m) = tagged notify_xmr_lock_type (json.notify_xmr_lock_json.marshal m)
  encode (notify_ready m) = tagged notify_ready_type (json.notify_ready_json.marshal m)
  encode (notify_claimed m) = tagged notify_claimed_type (json.notify_claimed_json.marshal m)
  encode (notify_refund m) = tagged notify_refund_type (json.notify_refund_json.marshal m)

  -- The `switch` on the first byte; `none` is an error.
  unfoldable pub decode_message : Bytes → Option (Message F)
  decode_message [] = none
  decode_message (t ∷ b) =
      if t == 0
      then decoded query_response (json.query_response_json.unmarshal b)
      else (if t == 1
          then decoded send_keys (json.send_keys_json.unmarshal b)
          else (if t == 2
              then decoded notify_eth_locked (json.notify_eth_locked_json.unmarshal b)
              else (if t == 3
                  then decoded notify_xmr_lock (json.notify_xmr_lock_json.unmarshal b)
                  else (if t == 4
                      then decoded notify_ready (json.notify_ready_json.unmarshal b)
                      else (if t == 5
                          then decoded notify_claimed (json.notify_claimed_json.unmarshal b)
                          else (if t == 6
                              then decoded notify_refund (json.notify_refund_json.unmarshal b)
                              else none))))))
