-- ===== src/Bob/Taken.antt =====
-- What a take of an offer leaves behind (protocol/bob/net.go, `HandleInitiateMessage`).
use atomic_swap.Base.{
  Bool-cases, inl, inr, ◌==◌, ℕ, Bytes, Bool, true, false, Option, none, some, ◌≡◌, refl, ◌∙◌, ◌==◌,
}
use atomic_swap.Action.{modify, ◌>>=◌}
use atomic_swap.Action.Keeps.{Keeps, keeps}
use atomic_swap.Message.{SendKeysMessage, MessageType, byte}
use atomic_swap.Types.Offer.{Offer, hex_to_hash}
use atomic_swap.World.{Platform, Io}
use atomic_swap.Protocol.{get_status}
use atomic_swap.Types.Status.{Status}
use atomic_swap.Bob.{Config, State, io, set_next_expected_message, expect, send_status, is_full}
use atomic_swap.Bob.Offers.{
  OfferExtra, OfferMap, OfferWithExtra, find, remove, find-remove, get_and_delete_offer,
}
use atomic_swap.Bob.Chain.{info_of, generate_and_set_keys}
use atomic_swap.Bob.Handler.{accept_keys, handle_send_keys_message, send_keys_message}
use atomic_swap.Bob.Start.{
  Instance, outside, add_new, new_swap_state, initiate, take_offer, announce, attach, absorb,
  exchange_keys, take_up, handle_initiate_message,
}

module _ (p : Platform) (cfg : Config) where
  -- The offers of the instance, and those of the swap state.
  record Has (os : OfferMap p.float.Carrier) (s : Instance p cfg) : Type 0 where
    offers : s.offers ≡ os

  record HasState (os : OfferMap p.float.Carrier) (s : State p) : Type 0 where
    held : s.offers ≡ os

  module _ {os : OfferMap p.float.Carrier} where
    HasState-io : {A : Type 0} (m : Io A) → Keeps (HasState os) (io p m)
    unfolding io
    HasState-io m = record { kept = λ s h. record { held = h.held } }

    HasState-set :
        (g : State p → State p)
        → ((s : State p) → (g s).offers ≡ s.offers)
        → Keeps (HasState os) (modify g)
    unfolding modify
    HasState-set g e = record { kept = λ s h. record { held = e s ∙ h.held } }

    accept_keys-Has :
        (msg : SendKeysMessage p.float.Carrier) → Keeps (HasState os) (accept_keys p cfg msg)
    unfolding accept_keys
    accept_keys-Has msg = search (keeps, HasState-io, HasState-set) depth 40 fits 3000

    generate_and_set_keys-Has : Keeps (HasState os) (generate_and_set_keys p cfg)
    unfolding generate_and_set_keys
    generate_and_set_keys-Has = search (keeps, HasState-io, HasState-set) depth 40 fits 3000

    HasState-send_status :
        (b : Bool) (st : Status) (s : State p)
        → HasState os s
        → HasState os (send_status p b st s).1
    unfolding send_status
    HasState-send_status true st s h = h
    HasState-send_status false st s h = record { held = h.held }

    expect-Has : (t : MessageType) → Keeps (HasState os) (set_next_expected_message p t)
    unfolding set_next_expected_message expect
    expect-Has t = record { kept = λ s g. by_old s.next_expected s g }
      where
        by_old :
            (o : Option MessageType) (s : State p) → HasState os s → HasState os (expect p o t s).1
        by_old none s g = g
        by_old (some u) s g = elim (Bool-cases (byte t == byte u)) [
          | inl e ↦ rw e g
          | inr e ↦ rw e (
              HasState-send_status (is_full p s.status_ch) (get_status t) _
                (record { held = g.held }))
        ]

    exchange_keys-Has :
        (msg : SendKeysMessage p.float.Carrier) → Keeps (HasState os) (exchange_keys p cfg msg)
    unfolding exchange_keys handle_send_keys_message send_keys_message info_of
    exchange_keys-Has msg =
        search (keeps, generate_and_set_keys-Has, expect-Has, accept_keys-Has) depth 60 fits 5000

    Has-outside : {A : Type 0} (m : Io A) → Keeps (Has os) (outside p cfg m)
    unfolding outside
    Has-outside m = record { kept = λ s h. record { offers = h.offers } }

    Has-set :
        (g : Instance p cfg → Instance p cfg)
        → ((s : Instance p cfg) → (g s).offers ≡ s.offers)
        → Keeps (Has os) (modify g)
    unfolding modify
    Has-set g e = record { kept = λ s h. record { offers = e s ∙ h.offers } }

    add_new-Has : (x y r : p.float.Carrier) → Keeps (Has os) (add_new p cfg x y r)
    unfolding add_new
    add_new-Has x y r = record { kept = λ s h. record { offers = h.offers } }

    initiate-Has :
        (o : Offer p.float.Carrier) (e : OfferExtra) (x y : ℕ)
        → Keeps (Has os) (initiate p cfg o e x y)
    unfolding initiate new_swap_state
    initiate-Has o e x y = search (keeps, Has-outside, Has-set, add_new-Has) depth 60 fits 5000

    announce-Has : (q : ℕ) → Keeps (Has os) (announce p cfg q)
    unfolding announce
    announce-Has q = Has-set _ (λ s. refl)

    exchange-Has :
        (msg : SendKeysMessage p.float.Carrier) (st : State p)
        → Keeps (Has os) (λ s. absorb p cfg (exchange_keys p cfg msg (attach p cfg st s)) s)
    unfolding absorb attach
    exchange-Has msg st = record {
      kept = λ s h. record {
        offers =
            ((exchange_keys-Has msg).kept (attach p cfg st s) (record { held = h.offers })).held;
      };
    }

    take_up-Has :
        (msg : SendKeysMessage p.float.Carrier) (taken : Option (OfferWithExtra p.float.Carrier))
        → Keeps (Has os) (take_up p cfg msg taken)
    unfolding take_up
    take_up-Has msg taken =
        search (keeps, initiate-Has, announce-Has, exchange-Has) depth 40 fits 3000

  -- Whoever names an offer takes it off the list, whatever comes of the take: after
  -- HandleInitiateMessage for the ID of an offer, with success or with any error, no offer has that
  -- ID any more.
  pub take_loses_offer :
      (msg : SendKeysMessage p.float.Carrier) (id : Bytes) (s : Instance p cfg)
      → hex_to_hash msg.offer_id ≡ some id
      → find id (handle_initiate_message p cfg msg s).1.offers ≡ none
  unfolding handle_initiate_message take_offer get_and_delete_offer ◌>>=◌
  take_loses_offer msg id s e =
      let s1 : Instance p cfg = record s { offers = remove id s.offers } in
      let h =
        (take_up-Has {os = remove id s.offers} msg (find id s.offers)).kept s1
          (record { offers = refl }) in
      rw (e, h.offers) (find-remove id s.offers)
