-- ===== src/Bob/Peer.antt =====
-- Bob as the network host sees him: HandleInitiateMessage of the instance, and HandleProtocolMessage
-- and Exit of the swap state that it returned (net/initiate.go on protocol/bob).
use atomic_swap.Base.{Bool, Option, none, some}
use atomic_swap.Base.Outcome.{Outcome, ok, err, panic, blocked}
use atomic_swap.Errors.{Err}
use atomic_swap.Action.{Action}
use atomic_swap.Message.{Message, SendKeysMessage}
use atomic_swap.Net.Loop.{Handlers}
use atomic_swap.World.{Platform}
use atomic_swap.Bob.{Config, State}
use atomic_swap.Bob.Settle.{exit}
use atomic_swap.Bob.Handler.{handle_protocol_message}
use atomic_swap.Bob.Start.{Instance, attach, absorb, handle_initiate_message}

module _ (p : Platform) (cfg : Config) where
  open p use {float}

  -- `swap` is the swap state that HandleInitiateMessage returned last.
  pub record Side : Type 0 where
    pub bob : Instance p cfg
    pub swap : Option (State p)

  unfoldable pub begin_swap :
      Outcome Err (SendKeysMessage float.Carrier × State p) × Instance p cfg
      → Side
      → Outcome Err (SendKeysMessage float.Carrier) × Side
  begin_swap (ok (resp, st), i) s = (ok resp, record { bob = i; swap = some st })
  begin_swap (err e, i) s = (err e, record s { bob = i })
  begin_swap (panic, i) s = (panic, record s { bob = i })
  begin_swap (blocked, i) s = (blocked, record s { bob = i })

  -- A nil message is dereferenced.
  unfoldable pub initiate :
      Option (SendKeysMessage float.Carrier) → Action Side (SendKeysMessage float.Carrier)
  unfolding begin_swap
  initiate none s = (panic, s)
  initiate (some msg) s = begin_swap (handle_initiate_message p cfg msg s.bob) s

  -- The instance's pointer to the swap state is nil once the swap was left.
  unfoldable pub store :
      {A : Type 0} → Outcome Err A × State p → Instance p cfg → Outcome Err A × Side
  unfolding absorb
  store (r, st) i =
      let (r', i') = absorb p cfg (r, st) i in
      (r', record { bob = record i' { running = st.current }; swap = some st })

  -- A call on the swap state; without one the pointer is nil.
  unfoldable pub on_swap : {A : Type 0} → Action (State p) A → Option (State p) → Action Side A
  unfolding store attach
  on_swap m none s = (panic, s)
  on_swap m (some st) s = store (m (attach p cfg st s.bob)) s.bob

  unfoldable pub protocol :
      Message float.Carrier → Action Side (Option (Message float.Carrier) × Bool)
  unfolding on_swap
  protocol msg s = on_swap (handle_protocol_message p cfg (some msg)) s.swap s

  unfoldable pub leave_swap : Action Side (Unit {0})
  unfolding on_swap
  leave_swap s = on_swap (exit p cfg) s.swap s

  abbrev pub handlers : Handlers float.Carrier Side
  handlers = record { initiate = initiate; protocol = protocol; exit = leave_swap }
