-- ===== src/World/Monero.antt =====
-- monero/utils.go: waiting for blocks, and making a wallet from keys.
use atomic_swap.Base.{ℕ, zero, suc, Bytes, codes, some, ltb, if◌then◌else◌}
use atomic_swap.Errors.{plain}
use atomic_swap.Action.{pure, fail, handle, wrap, ◌>>=◌, ◌>>◌}
use atomic_swap.Types.Environment.{Environment}
use atomic_swap.Crypto.Keys.{PrivateKeyPair, private_hex}
use atomic_swap.Crypto.Address.{private_address}
use atomic_swap.World.{
  Platform, Io, get_height, refresh, get_balance, generate_from_keys, sleep, ask, wait,
}

abbrev pub max_retries : ℕ
max_retries = 360

module _ (p : Platform) where
  open p use {curve, get_height_answer, done_answer, get_balance_answer}

  -- The inner loop: the height once it is past `prev_height`, or what follows when all tries are
  -- used up.
  unfoldable pub tries_loop : ℕ → ℕ → Io ℕ → Io ℕ
  tries_loop zero prev_height next = next
  tries_loop (suc tries) prev_height next =
      ask refresh done_answer
      >> handle (ask get_height get_height_answer)
          (λ height.
            if ltb prev_height height
            then pure height
            else (wait (sleep 10) >> tries_loop tries prev_height next))
          (λ _. tries_loop tries prev_height next)

  -- The outer loop, over `count`.
  unfoldable pub blocks_loop : ℕ → ℕ → Io ℕ
  unfolding tries_loop
  blocks_loop zero prev_height = fail (plain (codes "timed out waiting for blocks"))
  blocks_loop (suc count) prev_height =
      tries_loop max_retries prev_height (blocks_loop count prev_height)

  -- `WaitForBlocks`
  unfoldable pub wait_for_blocks : ℕ → Io ℕ
  wait_for_blocks count =
      wrap (codes "failed to get height") (ask get_height get_height_answer) >>= blocks_loop count

  -- `CreateMoneroWallet`; the wallet's file is named by the time, which is left out.
  unfoldable pub create_monero_wallet : Environment → PrivateKeyPair curve → Io Bytes
  create_monero_wallet env kp = do
    ask
        (generate_from_keys (some (private_hex curve kp.sk.key)) (private_hex curve kp.vk)
          (private_address curve kp env))
        done_answer
    ask refresh done_answer
    ask (get_balance 0) get_balance_answer
    pure (private_address curve kp env)
