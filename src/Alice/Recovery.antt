-- ===== src/Alice/Recovery.antt =====
-- protocol/alice/recovery.go: settling a swap from Alice's secret alone.
use atomic_swap.Base.{ℕ, Bytes, false, none, some, [], length, if◌then◌else◌}
use atomic_swap.Errors.{external, is_no_claim_logs_found}
use atomic_swap.Action.{Action, pure, fail, modify, or_fail, handle, ◌>>=◌, ◌>>◌}
use atomic_swap.Crypto.BigInt.{copy_32}
use atomic_swap.Crypto.Keys.{PrivateSpendKey, PrivateKeyPair, view, public_spend, public_key_pair}
use atomic_swap.Manager.{Manager}
use atomic_swap.Protocol.{new_proof_with_secret}
use atomic_swap.World.{Platform, History}
use atomic_swap.Alice.{Config, State}
use atomic_swap.Alice.Chain.{set_timeouts, try_refund}
use atomic_swap.Alice.Settle.{filter_for_claim, claim_monero}

-- `Refunded`, `Claimed` and what belongs to each.
pub data RecoveryResult : Type 0 where
  refunded : Bytes → RecoveryResult
  claimed : Bytes → RecoveryResult

module _ (p : Platform) (cfg : Config) where
  open p use {curve, float}

  -- The swap state of `NewRecoveryState`: it has no info and no status channel. `secret_bytes`
  -- keeps the order of the bytes of the key.
  unfoldable pub recovery_state :
      Manager float.Carrier → History → PrivateSpendKey curve → curve.Scalar → ℕ → State p
  recovery_state manager history secret vk swap_id =
      let kp : PrivateKeyPair curve = record { sk = secret; vk = vk } in
      record {
        history = history;
        locked = false;
        cancelled = false;
        current = false;
        manager = manager;
        info = length manager.heap;
        status_ch = none;
        dleq_proof = some (new_proof_with_secret (copy_32 (curve.scalar_bytes secret.key)));
        secp256k1_pub = none;
        privkeys = some kp;
        pubkeys = some (public_key_pair curve kp);
        bob_public_spend_key = none;
        bob_private_view_key = none;
        bob_secp256k1_public_key = none;
        bob_address = [];
        contract_swap_id = some swap_id;
        t0 = none;
        t1 = none;
        tx_value = none;
        next_expected = none;
        xmr_locked_ch = false;
        claimed_ch = false;
        t0_watch = false;
        t1_watch = false;
      }

  -- Bob claimed: his secret is known.
  claim_with : PrivateSpendKey curve → Action (State p) RecoveryResult
  claim_with sk_b = do
    vk_b ← or_fail (view curve sk_b) (external [])
    modify (λ s. record s {
      bob_public_spend_key = some (public_spend curve sk_b);
      bob_private_view_key = some vk_b;
      bob_secp256k1_public_key = none;
    })
    addr ← claim_monero p cfg sk_b
    pure (claimed addr)

  refund_instead : Action (State p) RecoveryResult
  refund_instead = do tx ← try_refund p cfg; pure (refunded tx)

  -- `ClaimOrRefund`
  unfoldable pub claim_or_refund : Action (State p) RecoveryResult
  unfolding claim_with refund_instead
  claim_or_refund =
      handle (filter_for_claim p cfg) claim_with
        (λ e. if is_no_claim_logs_found e then refund_instead else fail e)

  -- `NewRecoveryState` and then `ClaimOrRefund`.
  unfoldable pub recover : Action (State p) RecoveryResult
  unfolding claim_or_refund
  recover = do set_timeouts p cfg; claim_or_refund
