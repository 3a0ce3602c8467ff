-- ===== src/Alice/Watch.antt =====
-- The goroutines of protocol/alice/message_handler.go that wait for the contract's timeouts. When
-- their timers fire is up to the clock, so each is an operation that may run once it was started.
use atomic_swap.Base.{Bytes, false, if◌then◌else◌}
use atomic_swap.Action.{Action, pure, gets, modify, ignore, handle, ◌>>=◌, ◌>>◌}
use atomic_swap.Types.Status.{completed_refund, is_ongoing}
use atomic_swap.World.{Platform, send_notify_refund, ask}
use atomic_swap.Alice.{Config, State, io, status, with_lock, clear_next_expected_message}
use atomic_swap.Alice.Chain.{refund_call}
use atomic_swap.Alice.Settle.{exit}

module _ (p : Platform) (cfg : Config) where
  open p use {done_answer}

  unfoldable pub notify_refund : Bytes → Action (State p) (Unit {0})
  notify_refund tx = ignore (io p (ask (send_notify_refund tx) done_answer))

  -- The goroutine of handleSendKeysMessage, when the time is five seconds short of t0: Bob has not
  -- locked, so the ether is taken back. Errors are logged.
  unfoldable pub t0_fires : Action (State p) (Unit {0})
  unfolding notify_refund
  t0_fires = with_lock p (do
    modify (λ s. record s { t0_watch = false })
    ongoing ← gets (λ s. is_ongoing (status p s))
    if ongoing then handle (refund_call p cfg) notify_refund (λ _. pure tt) else pure tt)

  -- What follows the refund of that goroutine.
  unfoldable pub after_refund : Bytes → Action (State p) (Unit {0})
  after_refund tx = do
    clear_next_expected_message p completed_refund
    notify_refund tx
    ignore (exit p cfg)

  unfoldable pub refund_late : Action (State p) (Unit {0})
  unfolding after_refund
  refund_late = do
    modify (λ s. record s { t1_watch = false })
    ongoing ← gets (λ s. is_ongoing (status p s))
    if ongoing then handle (refund_call p cfg) after_refund (λ _. pure tt) else pure tt

  -- The goroutine of handleNotifyXMRLock, a second after t1: Bob has not claimed. `Exit` is called
  -- with the lock held.
  unfoldable pub t1_fires : Action (State p) (Unit {0})
  unfolding refund_late
  t1_fires = with_lock p refund_late
