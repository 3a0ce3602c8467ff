-- ===== src/Rpc.antt =====
-- rpc/swap.go: what a user asks of the swap service over JSON-RPC.
pub mod NetService
pub mod Wire
pub mod Toy
pub mod Websocket
use atomic_swap.Base.{ℕ, Bytes, codes, Option, none, some, List, get_elem?}
use atomic_swap.Errors.{named, nil_swap_state, plain}
use atomic_swap.Action.{Action, pure, fail, gets, or_fail, deref, wrap, ◌>>=◌, ◌>>◌}
use atomic_swap.Types.Status.{Status, to_string, info}
use atomic_swap.Types.Provides.{ProvidesCoin, provides_xmr, provides_eth}
use atomic_swap.Types.Offer.{Offer}
use atomic_swap.Manager.{
  Info, Manager, get_past_ids, get_past_swap, get_ongoing_swap, id_of, status_of,
}

-- What the service calls, on the state of a node: the swap manager, the Refund of Alice, Exit of the
-- swap states of Alice and Bob, where they have one, the offers of Bob, and CloseProtocolStream.
pub record Services (F N : Type 0) : Type 0 where
  pub manager : N → Manager F
  pub refund : Action N Bytes
  pub alice_exit : N → Option (Action N (Unit {0}))
  pub bob_exit : N → Option (Action N (Unit {0}))
  pub get_offers : N → List (Offer F)
  pub close_protocol_stream : Action N (Unit {0})

pub record GetPastResponse (F : Type 0) : Type 0 where
  pub provided : ProvidesCoin
  pub provided_amount : F
  pub received_amount : F
  pub exchange_rate : F
  pub status : Bytes

pub record GetOngoingResponse (F : Type 0) : Type 0 where
  pub id : ℕ
  pub provided : ProvidesCoin
  pub provided_amount : F
  pub received_amount : F
  pub exchange_rate : F
  pub status : Bytes

pub record GetStageResponse : Type 0 where
  pub stage : Bytes
  pub info : Bytes

module _ {F N : Type 0} (services : Services F N) where
  -- The info behind a pointer.
  unfoldable pub info_at : ℕ → N → Option (Info F)
  info_at p n = get_elem? (services.manager n).heap p

  abbrev info_behind : Option ℕ → N → Option (Info F)
  info_behind none n = none
  info_behind (some p) n = info_at p n

  -- `sm.GetOngoingSwap()`, where there is one.
  unfoldable pub ongoing : Action N ℕ
  ongoing = do
    p ← gets (λ n. get_ongoing_swap (services.manager n))
    or_fail p (plain (codes "no current ongoing swap"))

  unfoldable pub ongoing_info : Action N (Info F)
  unfolding ongoing info_at
  ongoing_info = do p ← ongoing; i ← gets (info_at p); deref i

  -- `GetPastIDs`
  unfoldable pub past_ids : N → List ℕ
  past_ids n = get_past_ids (services.manager n)

  -- `GetPast`
  unfoldable pub get_past : ℕ → Action N (GetPastResponse F)
  unfolding info_at
  get_past id = do
    p ← gets (λ n. get_past_swap id (services.manager n))
    at ← or_fail p (plain (codes "unable to find swap with given ID"))
    found ← gets (info_at at)
    i ← deref found
    pure (record {
      provided = i.provides;
      provided_amount = i.provided_amount;
      received_amount = i.received_amount;
      exchange_rate = i.exchange_rate;
      status = to_string i.status;
    })

  -- `GetOngoing`
  unfoldable pub get_ongoing : Action N (GetOngoingResponse F)
  unfolding ongoing_info
  get_ongoing = do
    i ← ongoing_info
    pure (record {
      id = i.id;
      provided = i.provides;
      provided_amount = i.provided_amount;
      received_amount = i.received_amount;
      exchange_rate = i.exchange_rate;
      status = to_string i.status;
    })

  abbrev refund_by : ProvidesCoin → Action N Bytes
  refund_by provides_eth = wrap (codes "failed to refund") services.refund
  refund_by provides_xmr = fail (plain (codes "cannot refund if not the ETH provider"))

  -- `Refund`
  unfoldable pub refund : Action N Bytes
  unfolding ongoing_info
  refund = do i ← ongoing_info; refund_by i.provides

  -- `GetStage`
  unfoldable pub get_stage : Action N GetStageResponse
  unfolding ongoing_info
  get_stage = do
    i ← ongoing_info
    pure (record { stage = to_string i.status; info = info i.status })

  -- `GetOffers`
  unfoldable pub get_offers : N → List (Offer F)
  get_offers n = services.get_offers n

  -- Exit of the swap state of the side that provides this coin. Where there is none, Bob's returns an
  -- error, and Alice's dereferences the nil pointer.
  unfoldable pub exit_of : ProvidesCoin → Action N (Unit {0})
  exit_of provides_eth = do leave ← deref (← gets services.alice_exit); leave
  exit_of provides_xmr = do leave ← or_fail (← gets services.bob_exit) (named nil_swap_state); leave

  -- The status of the past swap with the ID of the one behind a pointer.
  unfoldable pub status_of_past : ℕ → N → Status
  unfolding info_at
  status_of_past p n =
      status_of (info_behind (get_past_swap (id_of (info_at p n)) (services.manager n)) n)

  -- `Cancel`
  unfoldable pub cancel : Action N Status
  unfolding ongoing info_at status_of_past exit_of
  cancel = do
    p ← ongoing
    i ← deref (← gets (info_at p))
    exit_of i.provides
    services.close_protocol_stream
    gets (status_of_past p)
