-- ===== src/Bob/Watch.antt =====
-- The goroutine of protocol/bob/message_handler.go that waits for t0. When its timer fires is up to
-- the clock, so it is an operation that may run once it was started.
use atomic_swap.Base.{Bytes, false, if◌then◌else◌}
use atomic_swap.Base.Outcome.{blocked}
use atomic_swap.Action.{Action, pure, gets, modify, ignore, handle, ◌>>=◌, ◌>>◌}
use atomic_swap.Types.Status.{completed_success, is_ongoing}
use atomic_swap.World.{Platform, send_notify_claimed, ask}
use atomic_swap.Bob.{Config, State, io, status, with_lock, clear_next_expected_message}
use atomic_swap.Bob.Chain.{claim_funds}
use atomic_swap.Bob.Settle.{exit_locked}

module _ (p : Platform) (cfg : Config) where
  open p use {done_answer, stream_is_free}

  -- `SendSwapMessage`: it takes the mutex of the host's stream, which is held as long as a stream that
  -- the peer opened is served; an error is logged.
  unfoldable pub send_claimed : Bytes → Action (State p) (Unit {0})
  send_claimed tx s =
      if stream_is_free s.history
      then ignore (io p (ask (send_notify_claimed tx) done_answer)) s
      else (blocked, s)

  -- What follows a claim of that goroutine.
  unfoldable pub after_claim : Bytes → Action (State p) (Unit {0})
  unfolding send_claimed
  after_claim tx = do clear_next_expected_message p completed_success; send_claimed tx

  -- A second after t0: the ether is claimed; if that fails, the swap is left, for which the lock is
  -- held already.
  unfoldable pub claim_late : Action (State p) (Unit {0})
  unfolding after_claim
  claim_late = do
    modify (λ s. record s { t0_watch = false })
    ongoing ← gets (λ s. is_ongoing (status p s))
    if ongoing
        then handle (claim_funds p cfg) after_claim (λ _. ignore (exit_locked p cfg))
        else pure tt

  unfoldable pub t0_fires : Action (State p) (Unit {0})
  unfolding claim_late
  t0_fires = with_lock p claim_late
