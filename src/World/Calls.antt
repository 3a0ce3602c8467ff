-- ===== src/World/Calls.antt =====
-- How often a call that moves funds or reveals a secret was made: such calls are counted by kind.
use atomic_swap.Base.{
  ℕ, zero, suc, ◌≡◌, refl, Bytes, Bool, true, false, Option, none, some, [], ◌∷◌, if◌then◌else◌,
}
use atomic_swap.Action.Keeps.{
  Keeps, keeps, Keeps-pure, Keeps-fail, Keeps-or_fail, Keeps-if, Keeps-wrap, Keeps-handle,
  Keeps-bind,
}
use atomic_swap.Types.Environment.{Environment}
use atomic_swap.Crypto.Keys.{PrivateKeyPair}
use atomic_swap.World.{
  Platform, History, Call, Answer, Io, ask, now, wait, new_swap, set_ready, claim, refund, transfer,
  read_clock,
}
use atomic_swap.World.Ethereum.{receipt_loop, wait_for_receipt}
use atomic_swap.World.Monero.{tries_loop, blocks_loop, wait_for_blocks, create_monero_wallet}
use atomic_swap.Protocol.{
  Proof, new_proof_without_secret, prove, verify, generate_keys_and_proof, verify_keys_and_proof,
}

pub data Kind : Type 0 where
  new_swap_kind set_ready_kind claim_kind refund_kind transfer_kind : Kind

abbrev pub kind_of : Call → Option Kind
kind_of (new_swap _ _ _ _ _) = some new_swap_kind
kind_of (set_ready _) = some set_ready_kind
kind_of (claim _ _) = some claim_kind
kind_of (refund _ _) = some refund_kind
kind_of (transfer _ _) = some transfer_kind
kind_of _ = none

abbrev pub same : Kind → Kind → Bool
same new_swap_kind new_swap_kind = true
same set_ready_kind set_ready_kind = true
same claim_kind claim_kind = true
same refund_kind refund_kind = true
same transfer_kind transfer_kind = true
same _ _ = false

abbrev pub has_kind : Kind → Option Kind → Bool
has_kind k none = false
has_kind k (some j) = same k j

unfoldable pub count : Kind → History → ℕ
count k [] = 0
count k (c ∷ h) = if has_kind k (kind_of c) then suc (count k h) else count k h

-- So many calls of the kind were made.
pub record Made (k : Kind) (n : ℕ) (h : History) : Type 0 where
  pub times : count k h ≡ n

module _ {k : Kind} {n : ℕ} where
  Made-cons :
      (c : Call) (h : History) → has_kind k (kind_of c) ≡ false → Made k n h → Made k n (c ∷ h)
  unfolding count
  Made-cons c h e m = record { times = rw e m.times }

  pub Keeps-ask :
      {A : Type 0} (c : Call) (answer : History → Answer A)
      → has_kind k (kind_of c) ≡ false
      → Keeps (Made k n) (ask c answer)
  unfolding ask
  Keeps-ask c answer e = record { kept = λ h m. Made-cons c h e m }

  pub Keeps-now : (clock : History → ℕ) → Keeps (Made k n) (now clock)
  unfolding now
  Keeps-now clock = record { kept = λ h m. Made-cons read_clock h refl m }

  pub Keeps-wait : (c : Call) → has_kind k (kind_of c) ≡ false → Keeps (Made k n) (wait c)
  unfolding wait
  Keeps-wait c e = record { kept = λ h m. Made-cons c h e m }

  module _ (p : Platform) where
    receipt_loop-Keeps : (tries : ℕ) (tx : Bytes) → Keeps (Made k n) (receipt_loop p tries tx)
    unfolding receipt_loop
    receipt_loop-Keeps zero tx = search keeps
    receipt_loop-Keeps (suc tries) tx =
        Keeps-handle _ _ _ (Keeps-ask _ _ refl) Keeps-pure
          (λ e. Keeps-bind _ _ (Keeps-wait _ refl) (λ u. receipt_loop-Keeps tries tx))

    -- Waiting for a receipt moves no funds.
    pub wait_for_receipt-Keeps : (tx : Bytes) → Keeps (Made k n) (wait_for_receipt p tx)
    unfolding wait_for_receipt
    wait_for_receipt-Keeps tx = receipt_loop-Keeps 360 tx

    tries_loop-Keeps :
        (tries prev : ℕ) (next : Io ℕ)
        → Keeps (Made k n) next
        → Keeps (Made k n) (tries_loop p tries prev next)
    unfolding tries_loop
    tries_loop-Keeps zero prev next h = h
    tries_loop-Keeps (suc tries) prev next h = Keeps-bind _ _ (Keeps-ask _ _ refl) (λ u.
        Keeps-handle _ _ _ (Keeps-ask _ _ refl)
          (λ height.
            Keeps-if _ _ _ (Keeps-pure _)
              (Keeps-bind _ _ (Keeps-wait _ refl) (λ v. tries_loop-Keeps tries prev next h)))
          (λ e. tries_loop-Keeps tries prev next h))

    blocks_loop-Keeps : (count prev : ℕ) → Keeps (Made k n) (blocks_loop p count prev)
    unfolding blocks_loop
    blocks_loop-Keeps zero prev = Keeps-fail _
    blocks_loop-Keeps (suc count) prev = tries_loop-Keeps 360 prev _ (blocks_loop-Keeps count prev)

    -- Nor does waiting for blocks.
    pub wait_for_blocks-Keeps : (count : ℕ) → Keeps (Made k n) (wait_for_blocks p count)
    unfolding wait_for_blocks
    wait_for_blocks-Keeps count =
        Keeps-bind _ _ (Keeps-wrap _ _ (Keeps-ask _ _ refl)) (blocks_loop-Keeps count)

    pub create_monero_wallet-Keeps :
        (env : Environment) (kp : PrivateKeyPair p.curve)
        → Keeps (Made k n) (create_monero_wallet p env kp)
    unfolding create_monero_wallet
    create_monero_wallet-Keeps env kp = Keeps-bind _ _ (Keeps-ask _ _ refl) (λ a.
        Keeps-bind _ _ (Keeps-ask _ _ refl)
          (λ b. Keeps-bind _ _ (Keeps-ask _ _ refl) (λ c. Keeps-pure _)))

    verify-Keeps : (proof : Proof) → Keeps (Made k n) (verify p proof)
    unfolding verify
    verify-Keeps proof = Keeps-bind _ _ (Keeps-ask _ _ refl) (λ a. search keeps)

    pub generate_keys_and_proof-Keeps : Keeps (Made k n) (generate_keys_and_proof p)
    unfolding generate_keys_and_proof prove
    generate_keys_and_proof-Keeps =
        Keeps-bind _ _ (Keeps-bind _ _ (Keeps-ask _ _ refl) (λ a. Keeps-pure _))
          (λ proof. Keeps-bind _ _ (verify-Keeps proof) (λ res. search keeps))

    pub verify_keys_and_proof-Keeps :
        (proof secp : Bytes) → Keeps (Made k n) (verify_keys_and_proof p proof secp)
    unfolding verify_keys_and_proof
    verify_keys_and_proof-Keeps proof secp =
        Keeps-bind _ _ (Keeps-or_fail _ _)
          (λ pb. Keeps-bind _ _ (verify-Keeps (new_proof_without_secret pb)) (λ res. search keeps))
