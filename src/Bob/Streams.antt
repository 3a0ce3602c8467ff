-- ===== src/Bob/Streams.antt =====
-- Bob on a swap stream: what a peer can do to him (net/initiate.go with protocol/bob).
mod Tests
use atomic_swap.Base.{true, false, none, some, ◌≡◌, ◌⊎◌, sym, ap, ◌∙◌}
use atomic_swap.Base.Outcome.{Outcome}
use atomic_swap.Action.{Action, fail_if, ◌>>=◌, ◌>>◌}
use atomic_swap.Action.Keeps.{Keeps, keeps, Keeps-pure, Keeps-fail, Keeps-if, Keeps-bind}
use atomic_swap.Action.Returns.{
  Returns, returns, Returns-pure, Returns-fail, Returns-if, Returns-bind,
}
use atomic_swap.Message.{
  Message, MessageType, send_keys, notify_eth_locked, notify_xmr_lock, notify_ready, notify_claimed,
  notify_refund, query_response,
}
use atomic_swap.Types.Offer.{Offer, get_id}
use atomic_swap.Types.Status.{Status}
use atomic_swap.World.{Platform}
use atomic_swap.Net.Serving.{Sound}
use atomic_swap.Bob.{Config, State, with_lock, release, status, check_message_type, check_type}
use atomic_swap.Bob.Offers.{entry, find}
use atomic_swap.Bob.Settle.{is_success}
use atomic_swap.Bob.Handler.{check_running, dispatch}
use atomic_swap.Bob.Stays.{Stays, dispatch-Stays}
use atomic_swap.Bob.Ends.{dispatch-Returns}
use atomic_swap.Bob.Leave.{IsLeft}
use atomic_swap.Bob.Peer.{Side}

module _ (p : Platform) (cfg : Config) where
  -- Bob has a swap state for an offer, whose mutex is free.
  pub record Ready (t : Side p cfg) : Type 0 where
    pub offer : Offer p.float.Carrier
    pub state : State p
    pub found : t.swap ≡ some state
    pub free : Stays p (some offer) false state

  -- Bob has left the swap, from the side `t0`: the instance runs no swap, its manager has none, and
  -- unless the swap was a success, the offer itself stands among the offers again with a new extra, or
  -- else what stood under its ID already.
  pub record Over (t0 t : Side p cfg) : Type 0 where
    pub offer : Offer p.float.Carrier
    pub state : State p
    pub found : t.swap ≡ some state
    pub cancelled : state.cancelled ≡ true
    pub idle : t.bob.running ≡ false
    pub completed : t.bob.manager.ongoing ≡ none
    pub offered_again :
        is_success p cfg (status p state) ≡ false
        → find (get_id p.hash_of offer).0 t.bob.offers
          ≡ some (entry (find (get_id p.hash_of offer).0 t0.bob.offers) (get_id p.hash_of offer).1)
