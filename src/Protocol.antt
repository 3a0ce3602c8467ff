-- ===== src/Protocol.antt =====
-- protocol/stage.go, protocol/common.go and dleq: what both sides of the protocol share.
use atomic_swap.Base.{Bytes, codes, bytes_eq, not, replicate, []}
use atomic_swap.Errors.{named, plain, external, invalid_secp256k1_key}
use atomic_swap.Action.{pure, fail_if, or_fail, ◌>>=◌, ◌>>◌}
use atomic_swap.Types.Status.{
  Status, expecting_keys, keys_exchanged, eth_locked, xmr_locked, contract_ready, unknown_status,
}
use atomic_swap.Message.{
  MessageType, send_keys_type, notify_eth_locked_type, notify_xmr_lock_type, notify_ready_type,
  notify_claimed_type,
}
use atomic_swap.Crypto.Hex.{decode_string}
use atomic_swap.Crypto.BigInt.{copy_32}
use atomic_swap.Crypto.Keys.{
  PrivateKeyPair, PublicKeyPair, new_private_spend_key, as_private_key_pair, public_key_pair,
}
use atomic_swap.Crypto.Secp256k1.{
  PublicKey, new_public_key_from_big_int, new_public_key_from_hex, to_string,
}
use atomic_swap.World.{Platform, Io, dleq_prove, dleq_verify, ask}

-- `GetStatus`: the status that belongs to a next expected message.
unfoldable pub get_status : MessageType → Status
get_status send_keys_type = expecting_keys
get_status notify_eth_locked_type = keys_exchanged
get_status notify_xmr_lock_type = eth_locked
get_status notify_ready_type = xmr_locked
get_status notify_claimed_type = contract_ready
get_status _ = unknown_status

-- dleq.Proof; a proof made without a secret has the zero secret.
pub record Proof : Type 0 where
  pub secret : Bytes
  pub proof : Bytes

unfoldable pub new_proof_without_secret : Bytes → Proof
new_proof_without_secret b = record { secret = replicate 32 0; proof = b }

unfoldable pub new_proof_with_secret : Bytes → Proof
new_proof_with_secret s = record { secret = s; proof = [] }

pub record VerifyResult : Type 0 where
  pub ed25519_pub : Bytes
  pub secp256k1_pub : PublicKey

module _ (p : Platform) where
  open p use {curve, decompress_pubkey, dleq_prove_answer, dleq_verify_answer}

  pub record KeysAndProof : Type 0 where
    pub dleq_proof : Proof
    pub secp256k1_public_key : PublicKey
    pub private_key_pair : PrivateKeyPair curve
    pub public_keys : PublicKeyPair curve

  -- `CGODLEq.Prove`
  unfoldable pub prove : Io Proof
  prove = do
    (proof, pk) ← ask dleq_prove dleq_prove_answer
    pure (record { secret = copy_32 pk; proof = proof })

  -- `CGODLEq.Verify`
  unfoldable pub verify : Proof → Io VerifyResult
  verify proof = do
    (ed25519_pub, secp256k1_pub) ← ask (dleq_verify proof.proof) dleq_verify_answer
    (x, y) ←
        or_fail (decompress_pubkey secp256k1_pub)
          (plain (codes "failed to decompress secp256k1 public key"))
    pure (record {
      ed25519_pub = copy_32 ed25519_pub;
      secp256k1_pub = new_public_key_from_big_int x y;
    })

  -- `GenerateKeysAndProof`
  unfoldable pub generate_keys_and_proof : Io KeysAndProof
  unfolding prove verify
  generate_keys_and_proof = do
    proof ← prove
    res ← verify proof
    sk ← or_fail (new_private_spend_key curve proof.secret) (external [])
    kp ← or_fail (as_private_key_pair curve sk) (external [])
    pure (record {
      dleq_proof = proof;
      secp256k1_public_key = res.secp256k1_pub;
      private_key_pair = kp;
      public_keys = public_key_pair curve kp;
    })

  -- `VerifyKeysAndProof`: the proof must hold, and the key that it proves be the one that was sent.
  unfoldable pub verify_keys_and_proof : Bytes → Bytes → Io PublicKey
  unfolding verify
  verify_keys_and_proof proof_text secp256k1_text = do
    pb ← or_fail (decode_string proof_text) (external [])
    res ← verify (new_proof_without_secret pb)
    fail_if (not (bytes_eq (to_string res.secp256k1_pub) secp256k1_text))
        (named invalid_secp256k1_key)
    or_fail (new_public_key_from_hex secp256k1_text) (external [])
