-- ===== src/Alice.antt =====
-- protocol/alice: the side that provides ether. This file has the state of a swap
-- (protocol/alice/swap_state.go and instance.go) and its messages' bookkeeping
-- (protocol/alice/message_handler.go).
pub mod Chain
pub mod Settle
pub mod Handler
pub mod Watch
pub mod Recovery
pub mod Calls
pub mod Refunds
pub mod Exits
pub mod Deadlock
pub mod Seen
pub mod Guards
pub mod Address
pub mod Start
pub mod Started
mod Tests
use atomic_swap.Base.{
  ℕ, ◌+◌, ◌≡◌, refl, Bytes, Bool, true, false, not, Option, none, some, List, [], ◌∷◌, ◌++◌, ◌==◌,
  if◌then◌else◌, get_elem?,
}
use atomic_swap.Base.Outcome.{Outcome, ok, err, panic, blocked}
use atomic_swap.Errors.{Err, named, nil_message, incorrect_message_type}
use atomic_swap.Action.{Action, pure, fail, ◌>>=◌, ◌>>◌}
use atomic_swap.Types.Status.{Status, is_ongoing}
use atomic_swap.Types.Environment.{Environment}
use atomic_swap.Message.{Message, MessageType, type_of, byte}
use atomic_swap.Manager.{Manager, Info, set_status, status_of}
use atomic_swap.Crypto.Keys.{PrivateKeyPair, PublicKeyPair}
use atomic_swap.Crypto.Secp256k1.{PublicKey}
use atomic_swap.Protocol.{Proof, get_status}
use atomic_swap.World.{Platform, History, Io}

-- What the instance was made with. `contract` is the contract's address, none where it is not set.
-- `patience` is no part of the program: loops with no end of their own are followed for that many
-- rounds, and count as blocked after that.
pub record Config : Type 0 where
  pub env : Environment
  pub transfer_back : Bool
  pub wallet_address : Bytes
  pub contract : Option Bytes
  pub swap_timeout : ℕ
  pub patience : ℕ

-- `if s.statusCh != nil { s.statusCh <- status }`
abbrev pub send : Status → Option (List Status) → Option (List Status)
send st none = none
send st (some sent) = some (st ∷ sent)

module _ (p : Platform) where
  open p use {curve, float}

  -- `none` stands for nil and for the zero time. `locked` is the mutex, `cancelled` the context,
  -- `current` tells that the instance points to this swap state. The info is a pointer into the
  -- manager's heap; a nil info is a pointer outside. `status_ch` lists what was sent to the channel, newest first. The two `_ch`
  -- after it tell whether a channel is closed, and the two `_watch` whether the goroutine that
  -- waits for t0 and for t1 has been started.
  pub record State : Type 0 where
    pub history : History
    pub locked : Bool
    pub cancelled : Bool
    pub current : Bool
    pub manager : Manager float.Carrier
    pub info : ℕ
    pub status_ch : Option (List Status)
    pub dleq_proof : Option Proof
    pub secp256k1_pub : Option PublicKey
    pub privkeys : Option (PrivateKeyPair curve)
    pub pubkeys : Option (PublicKeyPair curve)
    pub bob_public_spend_key : Option curve.Point
    pub bob_private_view_key : Option curve.Scalar
    pub bob_secp256k1_public_key : Option PublicKey
    pub bob_address : Bytes
    pub contract_swap_id : Option ℕ
    pub t0 : Option ℕ
    pub t1 : Option ℕ
    pub tx_value : Option ℕ
    pub next_expected : Option MessageType
    pub xmr_locked_ch : Bool
    pub claimed_ch : Bool
    pub t0_watch : Bool
    pub t1_watch : Bool

  -- `s.info.Status()`
  abbrev pub status : State → Status
  status s = status_of (get_elem? s.manager.heap s.info)

  -- A call outside, from a swap state.
  unfoldable pub io : {A : Type 0} → Io A → Action State A
  io m s = let (r, h) = m s.history in (r, record s { history = h })

  unfoldable pub release : {A : Type 0} → Outcome Err A × State → Outcome Err A × State
  release (blocked, s) = (blocked, s)
  release (r, s) = (r, record s { locked = false })

  -- `s.Lock(); defer s.Unlock()`: a mutex that is held is waited for, in vain if the holder waits.
  unfoldable pub with_lock : {A : Type 0} → Action State A → Action State A
  unfolding release
  with_lock m s =
      let (r, s') = m (record s { locked = true }) in
      if s.locked then (blocked, s) else release (r, s')

  -- `clearNextExpectedMessage`
  unfoldable pub clear_next_expected_message : Status → Action State (Unit {0})
  clear_next_expected_message st s = (
    ok tt,
    record s {
      next_expected = none;
      manager = set_status s.info st s.manager;
      status_ch = send st s.status_ch;
    },
  )

  unfoldable pub expect : Option MessageType → MessageType → State → State
  expect none t s = s
  expect (some u) t s =
      if byte t == byte u
      then s
      else record s { next_expected = some t; status_ch = send (get_status t) s.status_ch }

  -- `setNextExpectedMessage`; the status of the info is not set.
  unfoldable pub set_next_expected_message : MessageType → Action State (Unit {0})
  unfolding expect
  set_next_expected_message t s = (ok tt, expect s.next_expected t s)

  unfoldable pub check_type : Option MessageType → MessageType → Action State (Unit {0})
  check_type none t = pure tt
  check_type (some u) t = if byte t == byte u then pure tt else fail (named incorrect_message_type)

  -- `checkMessageType`
  unfoldable pub check_message_type : Option (Message float.Carrier) → Action State (Unit {0})
  unfolding check_type
  check_message_type none s = fail (named nil_message) s
  check_message_type (some msg) s = check_type s.next_expected (type_of msg) s
