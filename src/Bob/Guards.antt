-- ===== src/Bob/Guards.antt =====
-- What Bob has checked before he locks his monero (protocol/bob/message_handler.go).
use atomic_swap.Base.{Bytes, some, ◌≡◌, ◌≢◌, refl}
use atomic_swap.Base.Outcome.{ok}
use atomic_swap.Action.{Action, modify, ◌>>=◌}
use atomic_swap.Action.Keeps.{Keeps-wrap}
use atomic_swap.Action.Inversion.{stepped, reached, past_fail_if}
use atomic_swap.Message.{NotifyEthLocked}
use atomic_swap.World.{Platform}
use atomic_swap.World.Calls.{count, transfer_kind}
use atomic_swap.Bob.{Config, State}
use atomic_swap.Bob.Chain.{check_contract_code}
use atomic_swap.Bob.Handler.{check_eth_locked, handle_notify_eth_locked}
use atomic_swap.Bob.Calls.{MadeBy, check_eth_locked-Keeps}
use atomic_swap.Bob.Checks.{
  Same, same, Same-io, check_contract_code-Same, HasCode, check_contract_code-ok, IsFunded,
  check_contract-ok, HasKeys-back, HasValue-back,
}

module _ (p : Platform) (cfg : Config) where
  -- The swap state once the swap's ID in the contract is known.
  abbrev pub named : NotifyEthLocked → State p → State p
  named msg s = record s { contract_swap_id = msg.contract_swap_id }

  -- What stands behind a NotifyETHLocked message that was checked: the code at the address it names
  -- is the contract's, and the transaction it names made a swap with the keys of both sides and
  -- what Bob is to receive.
  pub record IsChecked (msg : NotifyEthLocked) (s : State p) : Type 0 where
    pub code : HasCode p cfg (p.hex_to_address msg.address)
    pub funded : IsFunded p cfg msg.tx_hash (named msg s)

  IsFunded-back :
      {tx : Bytes} {s0 s : State p} → Same p cfg s0 s → IsFunded p cfg tx s → IsFunded p cfg tx s0
  IsFunded-back h f = record {
    log = f.log;
    logs = f.logs;
    receipt = f.receipt;
    event = f.event;
    parsed = f.parsed;
    keys = HasKeys-back p cfg h f.keys;
    value = HasValue-back p cfg h f.value;
  }

  modified :
      {B : Type 0} (f : State p → State p) (k : Unit {0} → Action (State p) B) (s : State p) {b : B}
      → ((modify f >>= k) s).0 ≡ ok b
      → (k tt (f s)).0 ≡ ok b
  unfolding modify ◌>>=◌
  modified f k s e = e

  checked :
      (msg : NotifyEthLocked) (s : State p) (u : Unit {0})
      → (check_eth_locked p cfg msg s).0 ≡ ok u
      → IsChecked msg s
  unfolding check_eth_locked
  checked msg s u e =
      let (_, e1) = past_fail_if _ _ _ s e in
      let (_, e2) = past_fail_if _ _ _ s e1 in
      let s1 = named msg s in
      stepped {P = Same p cfg s1} (check_contract_code p cfg _) _ s1
        (check_contract_code-Same p cfg _) (same p cfg s1) (modified _ _ s e2)
        (λ v s2 k2 h2 e3.
          let s3 : State p = record s2 { contract = some (p.hex_to_address msg.address) } in
          let h3 : Same p cfg s1 s3 = record {
            manager = h2.manager;
            info = h2.info;
            ours = h2.ours;
            theirs = h2.theirs;
            swap_id = h2.swap_id;
          } in
          stepped {P = Same p cfg s1} _ _ s3 (Keeps-wrap _ _ (Same-io p cfg _)) h3
            (modified _ _ s2 e3)
            (λ w s4 k4 h4 e4. record {
              code = check_contract_code-ok p cfg _ s1 v k2;
              funded = IsFunded-back h4 (check_contract-ok p cfg msg.tx_hash s4 u e4);
            }))

  -- Bob sends his monero only after he has checked the contract: if handling a NotifyETHLocked
  -- message makes a call of Transfer, however the handling ends, then the node answered that the
  -- code at the contract's address is the expected one, the first log of the transaction's receipt is
  -- a New event for the swap's ID with the hash of Bob's key for the claim and the hash of Alice's
  -- key for the refund, and the contract holds for the swap at least what Bob is to receive.
  pub lock_guarded :
      (msg : NotifyEthLocked) (s : State p)
      → count transfer_kind (handle_notify_eth_locked p cfg msg s).1.history
        ≢ count transfer_kind s.history
      → IsChecked msg s
  unfolding handle_notify_eth_locked
  lock_guarded msg s d =
      let (u, e, _) =
        reached {P = MadeBy p transfer_kind (count transfer_kind s.history)}
          (check_eth_locked p cfg msg) _ s (check_eth_locked-Keeps p cfg msg)
          (record { made = record { times = refl } }) (λ m. d m.made.times) in
      checked msg s u e
