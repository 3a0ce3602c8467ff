-- ===== src/Bob.antt =====
-- protocol/bob: the side that provides monero. This file has the state of a swap
-- (protocol/bob/swap_state.go and instance.go) and its messages' bookkeeping
-- (protocol/bob/message_handler.go).
pub mod Offers
pub mod Chain
pub mod Settle
pub mod Handler
pub mod Watch
pub mod Recovery
pub mod Start
pub mod Calls
pub mod Claims
pub mod Checks
pub mod Guards
pub mod Exits
pub mod Leave
pub mod Fields
pub mod Address
pub mod Refunded
pub mod Taken
pub mod Keyless
pub mod Stays
pub mod Ends
pub mod Peer
pub mod Begins
pub mod Locked
pub mod Streams
pub mod Locks
mod Tests
use atomic_swap.Base.{
  ℕ, ◌-◌, Bytes, Bool, true, false, Option, none, some, List, ◌==◌, if◌then◌else◌, get_elem?, leb,
  length,
}
use atomic_swap.Base.Outcome.{Outcome, ok, panic, blocked}
use atomic_swap.Errors.{Err, named, nil_message, incorrect_message_type}
use atomic_swap.Action.{Action, pure, fail}
use atomic_swap.Types.Status.{Status}
use atomic_swap.Types.Environment.{Environment}
use atomic_swap.Types.Offer.{Offer}
use atomic_swap.Message.{Message, MessageType, type_of, byte, notify_refund}
use atomic_swap.Manager.{Manager, set_status, status_of}
use atomic_swap.Crypto.Keys.{PrivateKeyPair, PublicKeyPair}
use atomic_swap.Crypto.Secp256k1.{PublicKey}
use atomic_swap.Protocol.{Proof, get_status}
use atomic_swap.World.{Platform, History, Io}
use atomic_swap.Alice.{send}
use Offers.{OfferMap}

-- What the instance was made with: the environment, and the Ethereum address as text.
pub record Config : Type 0 where
  pub env : Environment
  pub eth_address : Bytes

module _ (p : Platform) where
  open p use {curve, float}

  -- `none` stands for nil and for the zero time. `locked` is the mutex, `cancelled` the context,
  -- `current` tells that the instance points to this swap state; `offers` are those of the instance.
  -- The info is a pointer into the manager's heap; a nil info is a pointer outside. `status_ch` lists
  -- what was sent to the channel, newest first. `contract` is the address of the contract once it
  -- is set, `ready_ch` tells whether that channel is closed, and `t0_watch` whether the goroutine
  -- that waits for t0 has been started.
  pub record State : Type 0 where
    pub history : History
    pub locked : Bool
    pub cancelled : Bool
    pub current : Bool
    pub manager : Manager float.Carrier
    pub offers : OfferMap float.Carrier
    pub info : ℕ
    pub offer : Option (Offer float.Carrier)
    pub status_ch : Option (List Status)
    pub dleq_proof : Option Proof
    pub secp256k1_pub : Option PublicKey
    pub privkeys : Option (PrivateKeyPair curve)
    pub pubkeys : Option (PublicKeyPair curve)
    pub contract : Option Bytes
    pub contract_swap_id : Option ℕ
    pub t0 : Option ℕ
    pub t1 : Option ℕ
    pub alice_public_keys : Option (PublicKeyPair curve)
    pub alice_secp256k1_public_key : Option PublicKey
    pub next_expected : Option MessageType
    pub ready_ch : Bool
    pub monero_reclaim_address : Bytes
    pub t0_watch : Bool

  -- `s.info.Status()`
  abbrev pub status : State → Status
  status s = status_of (get_elem? s.manager.heap s.info)

  -- A call outside, from a swap state.
  unfoldable pub io : {A : Type 0} → Io A → Action State A
  io m s = let (r, h) = m s.history in (r, record s { history = h })

  unfoldable pub release : {A : Type 0} → Outcome Err A × State → Outcome Err A × State
  release (blocked, s) = (blocked, s)
  release (r, s) = (r, record s { locked = false })

  -- `s.Lock(); defer s.Unlock()`: a mutex that is held is waited for, in vain if the holder waits.
  unfoldable pub with_lock : {A : Type 0} → Action State A → Action State A
  unfolding release
  with_lock m s =
      let (r, s') = m (record s { locked = true }) in
      if s.locked then (blocked, s) else release (r, s')

  -- The status channel has room for seven statuses that nobody has received yet.
  unfoldable pub is_full : Option (List Status) → Bool
  is_full none = false
  is_full (some sent) = leb 7 (length sent - p.received_statuses sent)

  -- `if s.statusCh != nil { s.statusCh <- status }`: sending waits while the channel is full.
  unfoldable pub send_status : Bool → Status → Action State (Unit {0})
  send_status true st s = (blocked, s)
  send_status false st s = (ok tt, record s { status_ch = send st s.status_ch })

  -- `clearNextExpectedMessage`
  unfoldable pub clear_next_expected_message : Status → Action State (Unit {0})
  unfolding send_status
  clear_next_expected_message st s =
      send_status (is_full s.status_ch) st
        (record s { next_expected = none; manager = set_status s.info st s.manager })

  unfoldable pub expect : Option MessageType → MessageType → Action State (Unit {0})
  unfolding send_status
  expect none t s = (panic, s)
  expect (some u) t s =
      if byte t == byte u
      then (ok tt, s)
      else send_status (is_full s.status_ch) (get_status t) (record s { next_expected = some t })

  -- `setNextExpectedMessage`: it asks the type of the message expected so far, which panics where
  -- there is none. The status of the info is not set.
  unfoldable pub set_next_expected_message : MessageType → Action State (Unit {0})
  unfolding expect
  set_next_expected_message t s = expect s.next_expected t s

  unfoldable pub check_type : Option MessageType → Message float.Carrier → Action State (Unit {0})
  check_type none msg = pure tt
  check_type (some u) (notify_refund _) = pure tt
  check_type (some u) msg =
      if byte (type_of msg) == byte u then pure tt else fail (named incorrect_message_type)

  -- `checkMessageType`: Alice may refund at any time.
  unfoldable pub check_message_type : Option (Message float.Carrier) → Action State (Unit {0})
  unfolding check_type
  check_message_type none s = fail (named nil_message) s
  check_message_type (some msg) s = check_type s.next_expected msg s
