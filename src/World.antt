-- ===== src/World.antt =====
-- What surrounds the program: an Ethereum node, a Monero wallet, the DLEq library, files, the peer
-- and the clock. None of it is in the repository, so a platform is given: it answers each call as
-- a function of all calls made so far, newest first, so its answers may change with time and with
-- what the program did. Theorems hold for every platform. The calls made are what the
-- outside sees of a node.
pub mod Ethereum
pub mod Monero
pub mod Calls
pub mod Returns
pub mod Receipts
pub mod Logs
pub mod Toy
use atomic_swap.Base.{ℕ, Bytes, Bool, Option, none, some, List, ◌∷◌}
use atomic_swap.Base.Outcome.{Outcome, ok, err}
use atomic_swap.Errors.{Err, external}
use atomic_swap.Action.{Action}
use atomic_swap.Types.Float64.{Float64}
use atomic_swap.Types.Status.{Status}
use atomic_swap.Types.Offer.{Offer}
use atomic_swap.Crypto.Curve.{Curve}

-- The calls that leave the program, with what they send.
pub data Call : Type 0 where
  -- go-ethereum
  balance_at : Call
  code_at : Bytes → Call
  transaction_receipt : Bytes → Call
  filter_logs : Bytes → Call
  -- the bindings of the contract: NewSwap with both key hashes, the claimer, the timeout and the
  -- ether sent with it; SetReady, Claim and Refund with the swap ID and the secret; and its views
  new_swap : Bytes → Bytes → Bytes → ℕ → ℕ → Call
  set_ready : ℕ → Call
  claim : ℕ → Bytes → Call
  refund : ℕ → Bytes → Call
  is_ready : ℕ → Call
  swaps : ℕ → Call
  -- monero-wallet-rpc; keys are in hex, the spend key is none in a view-only wallet
  get_accounts get_height refresh close_wallet : Call
  get_address : ℕ → Call
  get_balance : ℕ → Call
  transfer : Bytes → ℕ → Call
  sweep_all : Bytes → Call
  generate_from_keys : Option Bytes → Bytes → Bytes → Call
  generate_blocks : Bytes → ℕ → Call
  -- the info file
  write_keys : Bytes → Bytes → Call
  write_shared_keys : Bytes → Bytes → Call
  write_contract_address : Bytes → Call
  write_swap_id : ℕ → Call
  -- the peer
  send_notify_refund : Bytes → Call
  send_notify_claimed : Bytes → Call
  -- github.com/noot/cgo-dleq
  dleq_prove : Call
  dleq_verify : Bytes → Call
  -- the clock: reading it, and waiting until a time or for a number of seconds
  read_clock : Call
  wait_until : ℕ → Call
  sleep : ℕ → Call

abbrev pub History : Type 0
History = List Call

pub data Answer (A : Type 0) : Type 0 where
  value : A → Answer A
  failure : Bytes → Answer A

-- A log of a transaction: its data, in the contract's ABI encoding.
pub record EthLog : Type 0 where
  pub data_bytes : Bytes

pub data AbiValue : Type 0 where
  big_int : ℕ → AbiValue
  bytes_32 : Bytes → AbiValue

-- What the Go bindings return for the mapping `swaps`, as far as it is read.
pub record SwapInfo : Type 0 where
  pub timeout_0 : ℕ
  pub timeout_1 : ℕ
  pub is_ready : Bool
  pub value : ℕ

-- The fields of a New event.
pub record NewEvent : Type 0 where
  pub swap_id : ℕ
  pub claim_key : Bytes
  pub refund_key : Bytes

pub record GetBalanceResponse (F : Type 0) : Type 0 where
  pub balance : F
  pub unlocked_balance : F

-- Answers to calls that return nothing but an error are answers of `Unit`.
pub record Platform : Type 1 where
  pub float : Float64
  pub curve : Curve
  -- pure functions of the libraries: go-ethereum's ABI decoder for an event of the contract, the
  -- parser of a New log, HexToAddress, and DecompressPubkey
  pub unpack : Bytes → Bytes → Option (List AbiValue)
  pub parse_new : Bytes → Option NewEvent
  pub hex_to_address : Bytes → Bytes
  pub decompress_pubkey : Bytes → Option (ℕ × ℕ)
  -- SHA3-256 of the JSON of an offer
  pub hash_of : Offer float.Carrier → Bytes
  -- the bytes of SwapFactoryBin in the generated bindings
  pub expected_code : Bytes
  pub balance_at_answer : History → Answer ℕ
  pub code_at_answer : History → Answer Bytes
  pub receipt_answer : History → Answer (List EthLog)
  pub filter_logs_answer : History → Answer (List EthLog)
  -- a transaction's hash
  pub transact_answer : History → Answer Bytes
  pub is_ready_answer : History → Answer Bool
  pub swaps_answer : History → Answer SwapInfo
  -- the base addresses of the wallet's accounts; `none` where it is no string
  pub get_accounts_answer : History → Answer (List (Option Bytes))
  pub get_height_answer : History → Answer ℕ
  pub get_address_answer : History → Answer Bytes
  pub get_balance_answer : History → Answer (GetBalanceResponse float.Carrier)
  -- a transaction's hash; the amounts that were swept
  pub transfer_answer : History → Answer Bytes
  pub sweep_all_answer : History → Answer (List ℕ)
  -- wallet calls, writes to the info file and messages to the peer
  pub done_answer : History → Answer (Unit {0})
  -- a proof and its secret; the two public keys of a proof
  pub dleq_prove_answer : History → Answer (Bytes × Bytes)
  pub dleq_verify_answer : History → Answer (Bytes × Bytes)
  -- how many of the statuses that were sent to a status channel, newest first, those who read it
  -- have received, or will receive before anything else is sent
  pub received_statuses : List Status → ℕ
  -- whether the mutex of the host's swap stream gets free for the node's goroutine that sends next
  pub stream_is_free : History → Bool
  -- seconds since 1970
  pub clock : History → ℕ

-- A call that the program makes outside any swap state works on the history alone.
abbrev pub Io : Type 0 → Type 0
Io A = Action History A

abbrev pub from_answer : {A : Type 0} → Answer A → Outcome Err A
from_answer (value a) = ok a
from_answer (failure t) = err (external t)

-- To make a call is to record it and to get the answer.
unfoldable pub ask : {A : Type 0} → Call → (History → Answer A) → Io A
ask c answer h = (from_answer (answer (c ∷ h)), c ∷ h)

-- `time.Now()` in seconds
unfoldable pub now : (History → ℕ) → Io ℕ
now clock h = (ok (clock (read_clock ∷ h)), read_clock ∷ h)

-- `time.Sleep` and `<-time.After(…)`
unfoldable pub wait : Call → Io (Unit {0})
wait c h = (ok tt, c ∷ h)
