-- ===== src/Bob/Recovery.antt =====
-- protocol/bob/recovery.go: settling a swap from Bob's secret alone.
use atomic_swap.Base.{ℕ, Bytes, false, none, some, [], length, if◌then◌else◌}
use atomic_swap.Errors.{external, is_no_refund_logs_found}
use atomic_swap.Action.{Action, pure, fail, modify, or_fail, handle, ◌>>=◌, ◌>>◌}
use atomic_swap.Crypto.BigInt.{copy_32}
use atomic_swap.Crypto.Keys.{PrivateSpendKey, PrivateKeyPair, as_private_key_pair, public_key_pair}
use atomic_swap.Manager.{Manager}
use atomic_swap.Protocol.{new_proof_with_secret}
use atomic_swap.World.{Platform, History}
use atomic_swap.Bob.{Config, State}
use atomic_swap.Bob.Chain.{set_timeouts, try_claim}
use atomic_swap.Bob.Settle.{filter_for_refund, reclaim_monero}

-- `Claimed`, `Recovered` and what belongs to each.
pub data RecoveryResult : Type 0 where
  claimed : Bytes → RecoveryResult
  recovered : Bytes → RecoveryResult

module _ (p : Platform) (cfg : Config) where
  open p use {curve, float}

  -- The swap state of `NewRecoveryState` for the key pair of the secret: it has no info, no offer and
  -- no channels.
  unfoldable pub recovery_state :
      Manager float.Carrier → History → PrivateKeyPair curve → Bytes → ℕ → State p
  recovery_state manager history kp contract swap_id = record {
    history = history;
    locked = false;
    cancelled = false;
    current = false;
    manager = manager;
    offers = [];
    info = length manager.heap;
    offer = none;
    status_ch = none;
    dleq_proof = some (new_proof_with_secret (copy_32 (curve.scalar_bytes kp.sk.key)));
    secp256k1_pub = none;
    privkeys = some kp;
    pubkeys = some (public_key_pair curve kp);
    contract = some contract;
    contract_swap_id = some swap_id;
    t0 = none;
    t1 = none;
    alice_public_keys = none;
    alice_secp256k1_public_key = none;
    next_expected = none;
    ready_ch = false;
    monero_reclaim_address = [];
    t0_watch = false;
  }

  -- Alice refunded: her secret is known.
  unfoldable pub recover_with : PrivateSpendKey curve → Action (State p) RecoveryResult
  recover_with sk_a = do
    kp_a ← or_fail (as_private_key_pair curve sk_a) (external [])
    modify (λ s. record s {
      alice_public_keys = some (public_key_pair curve kp_a);
      alice_secp256k1_public_key = none;
    })
    addr ← reclaim_monero p cfg sk_a
    pure (recovered addr)

  unfoldable pub claim_otherwise : Action (State p) RecoveryResult
  claim_otherwise = do tx ← try_claim p cfg; pure (claimed tx)

  -- `ClaimOrRecover`
  unfoldable pub claim_or_recover : Action (State p) RecoveryResult
  unfolding recover_with claim_otherwise
  claim_or_recover = do
    set_timeouts p cfg
    handle (filter_for_refund p cfg) recover_with
        (λ e. if is_no_refund_logs_found e then claim_otherwise else fail e)
