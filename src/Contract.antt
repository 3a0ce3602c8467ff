-- ===== src/Contract.antt =====
-- ethereum/contracts/SwapFactory.sol: the contract in which Alice locks her ether. A call carries
-- its sender, the ether sent with it and the timestamp of its block. A call that reverts leaves the
-- contract as it was. Only `new_swap` takes ether, so other calls carry none. `ecrecover` is the precompiled contract (hash, v, r and s to an address) on
-- which ethereum/contracts/Secp256k1.sol rests, and `accepts a` tells whether the address `a` takes ether that a
-- `transfer` sends. The gas of a `transfer` is too little to call the contract again.
pub mod Steps
pub mod Windows
pub mod Funds
pub mod Secrets
pub mod Spec
pub mod Phases
pub mod Refine
pub mod Guards
pub mod Enabled
pub mod Once
mod Tests
use atomic_swap.Base.{
  ℕ, ◌+◌, ◌-◌, ◌*◌, ◌%◌, ◌^◌, Bool, true, false, not, ◌&&◌, ◌||◌, List, [], ◌∷◌, Dict, lookup,
  insert, Option, none, some, ltb, leb, ◌==◌, Bytes, codes,
}
use atomic_swap.Base.Outcome.{Outcome, ok, err}

pub record Swap : Type 0 where
  pub owner : ℕ
  pub claimer : ℕ
  pub pub_key_claim : ℕ
  pub pub_key_refund : ℕ
  pub timeout_0 : ℕ
  pub timeout_1 : ℕ
  pub is_ready : Bool
  pub completed : Bool
  pub value : ℕ

pub data Log : Type 0 where
  new : ℕ → ℕ → ℕ → Log
  ready : ℕ → Log
  claimed : ℕ → ℕ → Log
  refunded : ℕ → ℕ → Log

-- `balance` is the ether that the contract holds, `paid` the transfers that it made, newest first,
-- and `logs` the logs that it emitted, newest first.
pub record Contract : Type 0 where
  pub next_id : ℕ
  pub swaps : Dict Swap
  pub balance : ℕ
  pub paid : List (ℕ × ℕ)
  pub logs : List Log

-- `msg.sender`, `msg.value`, `block.timestamp`
pub record Msg : Type 0 where
  pub sender : ℕ
  pub value : ℕ
  pub timestamp : ℕ

pub data Revert : Type 0 where
  already_completed not_owner already_ready not_claimer too_early too_late : Revert
  refund_by_other counterparty_turn wrong_secret arithmetic transfer_failed no_funds : Revert

unfoldable pub reason : Revert → Bytes
reason already_completed = codes "swap is already completed"
reason not_owner = codes "only the swap owner can call set_ready"
reason already_ready = codes "swap was already set to ready"
reason not_claimer = codes "only claimer can claim!"
reason too_early = codes "too early to claim!"
reason too_late = codes "too late to claim!"
reason refund_by_other = codes "refund must be called by the swap owner"
reason counterparty_turn = codes "it's the counterparty's turn, unable to refund, try again later"
reason wrong_secret = codes "provided secret does not match the expected public key"
reason arithmetic = codes ""
reason transfer_failed = codes ""
reason no_funds = codes ""

abbrev pub Call {ℓ} : Type ℓ → Type ℓ
Call A = Contract → Outcome Revert A × Contract

-- A checked uint256 result.
abbrev pub fits : ℕ → Bool
fits n = ltb n (2 ^ 256)

abbrev pub require {ℓ} : {A : Type ℓ} → Bool → Revert → Call A → Call A
require true e k c = k c
require false e k c = (err e, c)

-- A key of the mapping that was never written reads as zeros.
abbrev pub no_swap : Swap
no_swap = record {
  owner = 0;
  claimer = 0;
  pub_key_claim = 0;
  pub_key_refund = 0;
  timeout_0 = 0;
  timeout_1 = 0;
  is_ready = false;
  completed = false;
  value = 0;
}

abbrev or_no_swap : Option Swap → Swap
or_no_swap none = no_swap
or_no_swap (some s) = s

unfoldable pub swap_at : ℕ → Contract → Swap
swap_at id c = or_no_swap (lookup id c.swaps)

-- The swap that `new_swap` builds in memory.
abbrev pub created : ℕ → ℕ → ℕ → ℕ → Msg → Swap
created claim_key refund_key claimer duration msg = record {
  owner = msg.sender;
  claimer = claimer;
  pub_key_claim = claim_key;
  pub_key_refund = refund_key;
  timeout_0 = msg.timestamp + duration;
  timeout_1 = msg.timestamp + duration * 2;
  is_ready = false;
  completed = false;
  value = msg.value;
}

unfoldable pub new_swap : ℕ → ℕ → ℕ → ℕ → Msg → Call ℕ
new_swap claim_key refund_key claimer duration msg c =
    require (fits (duration * 2) && fits (msg.timestamp + duration * 2) && fits (c.next_id + 1))
      arithmetic
      (λ _. (
        ok c.next_id,
        record {
          next_id = c.next_id + 1;
          swaps = insert c.next_id (created claim_key refund_key claimer duration msg) c.swaps;
          balance = c.balance + msg.value;
          paid = c.paid;
          logs = new c.next_id claim_key refund_key ∷ c.logs;
        },
      ))
      c

-- No call of `set_ready`, `claim` and `refund` sends ether: the compiler has a call that
-- does reverted before the body, and no such call is followed, so their `msg.value` is not read.
unfoldable pub set_ready : ℕ → Msg → Call (Unit {0})
set_ready id msg c =
    let swap = swap_at id c in
    require (not swap.completed) already_completed
      (require (swap.owner == msg.sender) not_owner (
        require (not swap.is_ready) already_ready (λ _. (
          ok tt,
          record c {
            swaps = insert id (record swap { is_ready = true }) c.swaps;
            logs = ready id ∷ c.logs;
          },
        ))))
      c

unfoldable pub is_ready : ℕ → Contract → Bool
is_ready id c = (swap_at id c).is_ready

-- Secp256k1.sol: the curve's generator and order.
abbrev pub gx : ℕ
gx = 0x79be667ef9dcbbac55a06295ce870b07029bfcdb2dce28d959f2815b16f81798

abbrev pub order : ℕ
order = 0xfffffffffffffffffffffffffffffffebaaedce6af48a03bbfd25e8cd0364141

module _ (ecrecover : ℕ → ℕ → ℕ → ℕ → ℕ) where
  -- `mulVerify`: is `q_keccak` the address of `scalar * G`?
  unfoldable pub mul_verify : ℕ → ℕ → Bool
  mul_verify scalar q_keccak =
      q_keccak % 2 ^ 160 == ecrecover 0 27 gx (scalar * gx % order) % 2 ^ 160

module _ (ecrecover : ℕ → ℕ → ℕ → ℕ → ℕ) (accepts : ℕ → Bool) where
  -- `to.transfer(swap.value); swaps[id].completed = true`, behind the log.
  settle : ℕ → Swap → ℕ → Log → Call (Unit {0})
  settle id swap to log c =
      require (leb swap.value c.balance) no_funds
        (require (accepts to) transfer_failed (λ _. (
          ok tt,
          record c {
            swaps = insert id (record swap { completed = true }) c.swaps;
            balance = c.balance - swap.value;
            paid = (to, swap.value) ∷ c.paid;
            logs = log ∷ c.logs;
          },
        )))
        c

  unfoldable pub claim : ℕ → ℕ → Msg → Call (Unit {0})
  unfolding settle
  claim id s msg c =
      let swap = swap_at id c in
      require (not swap.completed) already_completed
        (require (msg.sender == swap.claimer) not_claimer (
          require (leb swap.timeout_0 msg.timestamp || swap.is_ready) too_early (
            require (ltb msg.timestamp swap.timeout_1) too_late (
              require (mul_verify ecrecover s swap.pub_key_claim) wrong_secret
                (settle id swap swap.claimer (claimed id s))))))
        c

  unfoldable pub refund : ℕ → ℕ → Msg → Call (Unit {0})
  unfolding settle
  refund id s msg c =
      let swap = swap_at id c in
      require (not swap.completed) already_completed
        (require (msg.sender == swap.owner) refund_by_other (
          require
            (leb swap.timeout_1 msg.timestamp
              || (ltb msg.timestamp swap.timeout_0 && not swap.is_ready))
            counterparty_turn
            (require (mul_verify ecrecover s swap.pub_key_refund) wrong_secret
              (settle id swap swap.owner (refunded id s)))))
        c
