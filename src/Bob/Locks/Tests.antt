-- ===== src/Bob/Locks/Tests.antt =====
-- The peer's message and t0 come at the same time.
use atomic_swap.Base.{true, ◌≡◌, ◌≢◌, refl}
use atomic_swap.Bob.Locks.{
  System, at, Step, Steps, here, on, start, stream, timer, is_open, reading, locking, sending,
  open_stream, get_message, enter, start_timer, handled, fire, lock_state, claim, sending_stuck,
}

abbrev claimed : Steps start (at reading sending true true)
claimed =
    on
      (on (on (on (on (on (on (on here open_stream) get_message) enter) start_timer) handled) fire)
        lock_state)
      claim

sending_stuck_example :
    (timer (at locking sending true true) ≡ sending)
    × (stream (at locking sending true true) ≢ reading
        → (c : System) → ¬ Step (at locking sending true true) c)
unfolding stream timer is_open
sending_stuck_example =
    sending_stuck (at reading sending true true) (at locking sending true true) claimed refl refl
      (on here get_message)
