-- ===== src/Bob/Begins.antt =====
-- The swap state that Bob returns for a message that starts a swap (protocol/bob/net.go).
use atomic_swap.Types.Status.{Status}
use atomic_swap.Base.{arith, List, ℕ, Bytes, false, Option, some, ◌≡◌, ◌≢◌, refl, ap}
use atomic_swap.Base.Outcome.{Outcome, ok, err, panic, blocked}
use atomic_swap.Action.{pure, gets}
use atomic_swap.Action.Returns.{Returns, returns}
use atomic_swap.Action.Inversion.{passed, stepped}
use atomic_swap.Manager.{Manager, Error, add_swap}
use atomic_swap.Message.{SendKeysMessage}
use atomic_swap.Types.Offer.{Offer}
use atomic_swap.World.{Platform, Io}
use atomic_swap.World.Returns.{Returns-ask}
use atomic_swap.Bob.{Config, State, is_full}
use atomic_swap.Bob.Offers.{OfferExtra, OfferWithExtra}
use atomic_swap.Bob.Stays.{Stays, Stays-expect, send_keys-Stays, send_keys_message-Stays}
use atomic_swap.Bob.Ends.{Returns-expect, send_keys-Returns, send_keys_message-Returns}
use atomic_swap.Bob.Start.{
  Instance, outside, pointer_of, add_new, fresh_state, new_swap_state, initiate, take_offer,
  announce, attach, absorb, exchange_keys, take_up, handle_initiate_message,
}

module _ (p : Platform) (cfg : Config) where
  pure-ok : {S A : Type 0} (a b : A) (s : S) → (pure a s).0 ≡ ok b → a ≡ b
  unfolding pure
  pure-ok a b s e = cc

  gets-ok : {S A : Type 0} (f : S → A) (b : A) (s : S) → (gets f s).0 ≡ ok b → f s ≡ b
  unfolding gets
  gets-ok f b s e = cc

  -- A swap state for this offer whose mutex is free.
  abbrev IsFree : Offer p.float.Carrier → State p → Type 0
  IsFree o = Stays p (some o) false

  fresh_state-IsFree :
      (q : ℕ) (o : Offer p.float.Carrier) (e : OfferExtra) (x y : ℕ) (s : Instance p cfg)
      (st : State p)
      → (new_swap_state p cfg o e x y s).0 ≡ ok st
      → IsFree o st
  unfolding new_swap_state fresh_state
  fresh_state-IsFree q o e x y s st h = passed _ _ s h (λ q s1 _ h1. passed _ _ s1 h1 (λ m s2 _ h2.
      passed _ _ s2 h2 (λ _ s3 _ h3.
        rw (← gets-ok (fresh_state p cfg q o e.status_ch) st s3 h3)
          (record { offered = refl; held = refl }))))

  initiate-IsFree :
      (o : Offer p.float.Carrier) (e : OfferExtra) (x y : ℕ) (s : Instance p cfg) (st : State p)
      → (initiate p cfg o e x y s).0 ≡ ok st
      → IsFree o st
  unfolding initiate
  initiate-IsFree o e x y s st h = passed _ _ s h (λ _ s1 _ h1. passed _ _ s1 h1 (λ _ s2 _ h2.
      passed _ _ s2 h2 (λ _ s3 _ h3. passed _ _ s3 h3 (λ _ s4 _ h4. passed _ _ s4 h4 (λ st' s5 k h5.
        passed _ _ s5 h5
          (λ _ s6 _ h6. rw (← pure-ok st' st s6 h6) (fresh_state-IsFree 0 o e x y s4 st' k)))))))

  exchange_keys-IsFree :
      (o : Offer p.float.Carrier) (msg : SendKeysMessage p.float.Carrier) (s : State p)
      (resp : SendKeysMessage p.float.Carrier) (st : State p)
      → IsFree o s
      → (exchange_keys p cfg msg s).0 ≡ ok (resp, st)
      → IsFree o st
  unfolding exchange_keys
  exchange_keys-IsFree o msg s resp st k h =
      stepped _ _ s (send_keys-Stays p cfg msg) k h (λ _ s1 _ k1 h1.
        stepped _ _ s1 (send_keys_message-Stays p cfg) k1 h1 (λ r s2 _ k2 h2.
          stepped _ _ s2 (Stays-expect p cfg _) k2 h2 (λ _ s3 _ k3 h3.
            passed _ _ s3 h3 (λ t s4 e4 h4.
              let same : t ≡ st =
                ap (λ (x : SendKeysMessage p.float.Carrier × State p). x.1)
                  (pure-ok (r, t) (resp, st) s4 h4) in
              rw (← same, ← gets-ok (λ (s : State p). s) t s3 e4) k3))))

  -- The same from the instance: what is absorbed is the result.
  exchanged :
      (o : Offer p.float.Carrier) (msg : SendKeysMessage p.float.Carrier) (st : State p)
      (s : Instance p cfg) (resp : SendKeysMessage p.float.Carrier) (st' : State p)
      → IsFree o st
      → (absorb p cfg (exchange_keys p cfg msg (attach p cfg st s)) s).0 ≡ ok (resp, st')
      → IsFree o st'
  unfolding absorb attach
  exchanged o msg st s resp st' k h =
      exchange_keys-IsFree o msg (attach p cfg st s) resp st'
        (record { offered = k.offered; held = k.held }) h

  take_up-IsFree :
      (msg : SendKeysMessage p.float.Carrier) (taken : Option (OfferWithExtra p.float.Carrier))
      (s : Instance p cfg) (resp : SendKeysMessage p.float.Carrier) (st : State p)
      → (take_up p cfg msg taken s).0 ≡ ok (resp, st)
      → (o : Offer p.float.Carrier) × IsFree o st
  unfolding take_up
  take_up-IsFree msg taken s resp st h = passed _ _ s h (λ o s1 _ h1. passed _ _ s1 h1 (λ _ s2 _ h2.
      passed _ _ s2 h2 (λ _ s3 _ h3. passed _ _ s3 h3 (λ st1 s4 k h4. passed _ _ s4 h4 (λ _ s5 _ h5.
        (
          o.offer,
          exchanged o.offer msg st1 s5 resp st (initiate-IsFree o.offer o.extra _ _ s3 st1 k) h5,
        ))))))

  -- The swap state that HandleInitiateMessage returns is for an offer, and its mutex is free.
  pub handle_initiate_message-IsFree :
      (msg : SendKeysMessage p.float.Carrier) (s : Instance p cfg)
      (resp : SendKeysMessage p.float.Carrier) (st : State p)
      → (handle_initiate_message p cfg msg s).0 ≡ ok (resp, st)
      → (o : Offer p.float.Carrier) × IsFree o st
  unfolding handle_initiate_message
  handle_initiate_message-IsFree msg s resp st h =
      passed _ _ s h
        (λ id s1 _ h1. passed _ _ s1 h1 (λ taken s2 _ h2. take_up-IsFree msg taken s2 resp st h2))

  -- The status channel has room whenever a status is sent.
  module _ (room : (o : Option (List Status)) → is_full p o ≡ false) where
    Returns-outside : {A : Type 0} (m : Io A) → Returns m → Returns (outside p cfg m)
    unfolding outside
    Returns-outside m k = record { from = λ s. k.from s.history }

    pointer_of_ends :
        (q : ℕ) (r : Outcome Error (Unit {0})) → r ≢ blocked → pointer_of p cfg q r ≢ blocked
    unfolding pointer_of
    pointer_of_ends q (ok u) k h = cc
    pointer_of_ends q (err e) k h = cc
    pointer_of_ends q panic k h = cc
    pointer_of_ends q blocked k h = k refl

    add_swap_ends : (q : ℕ) (m : Manager p.float.Carrier) → (add_swap q m).0 ≢ blocked
    unfolding add_swap
    add_swap_ends q m = ground arith

    add_new-Returns : (x y r : p.float.Carrier) → Returns (add_new p cfg x y r)
    unfolding add_new
    add_new-Returns x y r = record { from = λ s. pointer_of_ends _ _ (add_swap_ends _ _) }

    initiate-Returns :
        (o : Offer p.float.Carrier) (e : OfferExtra) (x y : ℕ) → Returns (initiate p cfg o e x y)
    unfolding initiate new_swap_state
    initiate-Returns o e x y =
        search (returns, Returns-outside, Returns-ask, add_new-Returns) depth 60 fits 5000

    exchange_keys-Returns :
        (msg : SendKeysMessage p.float.Carrier) → Returns (exchange_keys p cfg msg)
    unfolding exchange_keys
    exchange_keys-Returns msg =
        search (returns, send_keys-Returns, send_keys_message-Returns, Returns-expect) depth 40 fits
          3000

    exchanged-Returns :
        (msg : SendKeysMessage p.float.Carrier) (st : State p)
        → Returns (λ s. absorb p cfg (exchange_keys p cfg msg (attach p cfg st s)) s)
    unfolding absorb
    exchanged-Returns msg st = record {
      from = λ s. (exchange_keys-Returns msg).from (attach p cfg st s);
    }

    take_up-Returns :
        (msg : SendKeysMessage p.float.Carrier) (taken : Option (OfferWithExtra p.float.Carrier))
        → Returns (take_up p cfg msg taken)
    unfolding take_up announce
    take_up-Returns msg taken =
        search (returns, initiate-Returns, exchanged-Returns) depth 60 fits 5000

    take_offer-Returns : (id : Bytes) → Returns (take_offer p cfg id)
    unfolding take_offer
    take_offer-Returns id = record { from = λ s e. cc }

    -- HandleInitiateMessage ends.
    pub handle_initiate_message-Returns :
        (msg : SendKeysMessage p.float.Carrier) → Returns (handle_initiate_message p cfg msg)
    unfolding handle_initiate_message
    handle_initiate_message-Returns msg =
        search (returns, take_offer-Returns, take_up-Returns) depth 40 fits 3000
