-- ===== src/Bob/Locks.antt =====
-- The two mutexes that Bob's goroutines share on a swap stream: swapMu of the network host, which
-- handleProtocolStream holds until the stream is over (net/initiate.go), and that of the swap state,
-- which every handler takes. The goroutine that claims after t0 takes the second, and then, to send
-- NotifyClaimed, the first (protocol/bob/message_handler.go, SendSwapMessage of net/host.go). A step
-- is what one goroutine does from one operation on a mutex to the next; two unlocks in a row are one
-- step. Exit on a request over JSON-RPC, and later streams, are left out.
mod Tests
use atomic_swap.Base.{Bool, true, false, ◌||◌, ◌&&◌, ◌≡◌, ◌≢◌, refl, arith}

-- Where the goroutine of the stream is: before it has swapMu, at its loop, at the lock of a handler,
-- in the handler, at the lock of Exit, in Exit, and at the end.
pub data StreamAt : Type 0 where
  opening reading locking handling leaving exiting over : StreamAt

-- Where the goroutine of the timer is: not started, waiting for t0, at its lock, claiming, at the
-- lock of SendSwapMessage, writing the message, and at the end.
pub data TimerAt : Type 0 where
  absent waiting fired claiming sending writing returned : TimerAt

-- Both goroutines, and whether swapMu and the mutex of the swap state are locked.
pub data System : Type 0 where
  at : StreamAt → TimerAt → Bool → Bool → System

pub data Step : System → System → Type 0 where
  open_stream : {t : TimerAt} {l : Bool} → Step (at opening t false l) (at reading t true l)
  -- what is not decoded, and the message that begins the swap
  pass : {t : TimerAt} {m l : Bool} → Step (at reading t m l) (at reading t m l)
  get_message : {t : TimerAt} {m l : Bool} → Step (at reading t m l) (at locking t m l)
  end_stream : {t : TimerAt} {m l : Bool} → Step (at reading t m l) (at leaving t m l)
  -- the peer ends the stream before a swap has begun
  end_idle : {m l : Bool} → Step (at reading absent m l) (at over absent false l)
  enter : {t : TimerAt} {m : Bool} → Step (at locking t m false) (at handling t m true)
  start_timer : {m l : Bool} → Step (at handling absent m l) (at handling waiting m l)
  handled : {t : TimerAt} {m l : Bool} → Step (at handling t m l) (at reading t m false)
  failed : {t : TimerAt} {m l : Bool} → Step (at handling t m l) (at leaving t m false)
  enter_exit : {t : TimerAt} {m : Bool} → Step (at leaving t m false) (at exiting t m true)
  close : {t : TimerAt} {m l : Bool} → Step (at exiting t m l) (at over t false false)
  cancel_timer : {s : StreamAt} {m l : Bool} → Step (at s waiting m l) (at s returned m l)
  fire : {s : StreamAt} {m l : Bool} → Step (at s waiting m l) (at s fired m l)
  lock_state : {s : StreamAt} {m : Bool} → Step (at s fired m false) (at s claiming m true)
  -- the swap is over, or the claim failed
  give_up : {s : StreamAt} {m l : Bool} → Step (at s claiming m l) (at s returned m false)
  claim : {s : StreamAt} {m l : Bool} → Step (at s claiming m l) (at s sending m l)
  lock_swap : {s : StreamAt} {l : Bool} → Step (at s sending false l) (at s writing true l)
  sent : {s : StreamAt} {m l : Bool} → Step (at s writing m l) (at s returned false false)

-- Any number of steps, of both goroutines in any order.
pub data Steps (a : System) : System → Type 0 where
  here : Steps a a
  on : {b c : System} → Steps a b → Step b c → Steps a c

abbrev pub start : System
start = at opening absent false false

unfoldable pub stream : System → StreamAt
stream (at s t m l) = s

unfoldable pub timer : System → TimerAt
timer (at s t m l) = t

-- The stream's goroutine has swapMu.
unfoldable pub is_open : StreamAt → Bool
is_open opening = false
is_open over = false
is_open _ = true

unfoldable pub in_handler : StreamAt → Bool
in_handler handling = true
in_handler exiting = true
in_handler _ = false

unfoldable pub is_writing : TimerAt → Bool
is_writing writing = true
is_writing _ = false

unfoldable pub has_state : TimerAt → Bool
has_state claiming = true
has_state sending = true
has_state writing = true
has_state _ = false

-- A mutex is locked when one of two goroutines has it, and never have both.
abbrev pub IsHeld : Bool → Bool → Bool → Type 0
IsHeld m a b = (m ≡ (a || b)) × ((a && b) ≡ false)

unfoldable pub Consistent : System → Type 0
Consistent (at s t m l) =
    IsHeld m (is_open s) (is_writing t) × IsHeld l (in_handler s) (has_state t)

step-Consistent : (a b : System) → Step a b → Consistent a → Consistent b
unfolding Consistent is_open in_handler is_writing has_state
step-Consistent _ _ open_stream (m, l) = (ground (arith, m), ground (arith, l))
step-Consistent _ _ pass (m, l) = (ground (arith, m), ground (arith, l))
step-Consistent _ _ get_message (m, l) = (ground (arith, m), ground (arith, l))
step-Consistent _ _ end_stream (m, l) = (ground (arith, m), ground (arith, l))
step-Consistent _ _ end_idle (m, l) = (ground (arith, m), ground (arith, l))
step-Consistent _ _ enter (m, l) = (ground (arith, m), ground (arith, l))
step-Consistent _ _ start_timer (m, l) = (ground (arith, m), ground (arith, l))
step-Consistent _ _ handled (m, l) = (ground (arith, m), ground (arith, l))
step-Consistent _ _ failed (m, l) = (ground (arith, m), ground (arith, l))
step-Consistent _ _ enter_exit (m, l) = (ground (arith, m), ground (arith, l))
step-Consistent _ _ close (m, l) = (ground (arith, m), ground (arith, l))
step-Consistent _ _ cancel_timer (m, l) = (ground (arith, m), ground (arith, l))
step-Consistent _ _ fire (m, l) = (ground (arith, m), ground (arith, l))
step-Consistent _ _ lock_state (m, l) = (ground (arith, m), ground (arith, l))
step-Consistent _ _ give_up (m, l) = (ground (arith, m), ground (arith, l))
step-Consistent _ _ claim (m, l) = (ground (arith, m), ground (arith, l))
step-Consistent _ _ lock_swap (m, l) = (ground (arith, m), ground (arith, l))
step-Consistent _ _ sent (m, l) = (ground (arith, m), ground (arith, l))

steps-Consistent : (b : System) → Steps start b → Consistent b
unfolding Consistent is_open in_handler is_writing has_state
steps-Consistent b here = ((refl, refl), (refl, refl))
steps-Consistent _ (on {b = d} {c = b} path s) = step-Consistent d b s (steps-Consistent d path)

-- The timer's goroutine waits for swapMu with the mutex of the swap state locked, and the stream's
-- has swapMu and not the other.
data Waits : System → Type 0 where
  at_loop : Waits (at reading sending true true)
  at_handler : Waits (at locking sending true true)
  at_exit : Waits (at leaving sending true true)

sending-Waits :
    (s : StreamAt) (m l : Bool)
    → Consistent (at s sending m l)
    → is_open s ≡ true
    → Waits (at s sending m l)
unfolding Consistent is_open in_handler is_writing has_state
sending-Waits opening m l c o = cc o
sending-Waits reading m l ((e, _), (f, _)) o = rw (e, f) at_loop
sending-Waits locking m l ((e, _), (f, _)) o = rw (e, f) at_handler
sending-Waits handling m l (_, (_, f)) o = cc f
sending-Waits leaving m l ((e, _), (f, _)) o = rw (e, f) at_exit
sending-Waits exiting m l (_, (_, f)) o = cc f
sending-Waits over m l c o = cc o

step-Waits : (a b : System) → Waits a → Step a b → Waits b
step-Waits _ _ at_loop pass = at_loop
step-Waits _ _ at_loop get_message = at_handler
step-Waits _ _ at_loop end_stream = at_exit
step-Waits _ _ at_handler s = elim s [ ]
step-Waits _ _ at_exit s = elim s [ ]

steps-Waits : (a b : System) → Waits a → Steps a b → Waits b
steps-Waits a _ w here = w
steps-Waits a _ w (on {b = d} {c = b} path s) = step-Waits d b (steps-Waits a d w path) s

Waits-sending : (a : System) → Waits a → timer a ≡ sending
unfolding timer
Waits-sending _ at_loop = refl
Waits-sending _ at_handler = refl
Waits-sending _ at_exit = refl

Waits-stuck : (a b : System) → Waits a → stream a ≢ reading → ¬ Step a b
unfolding stream
Waits-stuck _ _ at_loop n s = n refl
Waits-stuck _ _ at_handler n s = elim s [ ]
Waits-stuck _ _ at_exit n s = elim s [ ]

reached-Waits :
    (a : System) → Consistent a → timer a ≡ sending → is_open (stream a) ≡ true → Waits a
unfolding timer stream
reached-Waits (at s t m l) c e o = rw e (sending-Waits s m l (rw e at c) o)

-- The two goroutines lock each other out. In every state that they reach in any order of steps, if
-- the timer's goroutine wants to send NotifyClaimed while the stream is open, then it
-- waits for ever: in no later state has it gone on. And once the stream's goroutine has left its
-- wait for the peer, for the next message or for the end of the stream, neither goroutine takes a
-- step any more.
pub sending_stuck :
    (a b : System)
    → Steps start a
    → timer a ≡ sending
    → is_open (stream a) ≡ true
    → Steps a b
    → (timer b ≡ sending) × (stream b ≢ reading → (c : System) → ¬ Step b c)
sending_stuck a b path e o more =
    let w = steps-Waits a b (reached-Waits a (steps-Consistent a path) e o) more in
    (Waits-sending b w, λ n c. Waits-stuck b c w n)
