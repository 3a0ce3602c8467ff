-- ===== src/Bob/Keyless.antt =====
-- An offer that is taken without keys (protocol/bob/net.go, `HandleInitiateMessage`).
use atomic_swap.Base.{
  ℕ, Bytes, Bool, true, false, ◌||◌, Option, some, List, [], ◌∷◌, ◌≡◌, ◌≢◌, refl, sym, ap, ◌∙◌,
  is_empty,
}
use atomic_swap.Base.Outcome.{ok}
use atomic_swap.Errors.{Err}
use atomic_swap.Action.{Action, pure, gets, or_fail, fail_if, modify, ◌>>=◌, ◌>>◌}
use atomic_swap.Action.Keeps.{Keeps, keeps, Keeps-or_fail, Keeps-bind}
use atomic_swap.Action.Inversion.{passed, stepped, chained, past_fail_if, with_state}
use atomic_swap.Message.{SendKeysMessage}
use atomic_swap.Types.Offer.{Offer, hex_to_hash, to_xmr}
use atomic_swap.Types.Coins.{monero_to_piconero}
use atomic_swap.World.{Platform, Io}
use atomic_swap.Bob.{Config, State}
use atomic_swap.Bob.Offers.{OfferExtra, OfferWithExtra, find, remove, get_and_delete_offer}
use atomic_swap.Bob.Handler.{accept_keys, handle_send_keys_message}
use atomic_swap.Bob.Start.{
  Instance, outside, add_new, new_swap_state, initiate, take_offer, announce, attach, absorb,
  exchange_keys, take_up, handle_initiate_message,
}

module _ (p : Platform) (cfg : Config) where
  open p use {float}

  differ : true ≢ false
  differ e = cc

  running_known :
      {A : Type 0} (b : Bool) (x : Err) (m : Action (Instance p cfg) A) (s : Instance p cfg) (a : A)
      → b ≡ true
      → ((fail_if b x >> m) s).0 ≢ ok a
  unfolding fail_if ◌>>=◌
  running_known true x m s a h = λ e. cc
  running_known false x m s a h = cc

  initiate_running :
      (o : Offer p.float.Carrier) (x : OfferExtra) (a b : ℕ) (s : Instance p cfg) (st : State p)
      → s.running ≡ true
      → (initiate p cfg o x a b s).0 ≢ ok st
  unfolding initiate gets ◌>>=◌
  initiate_running o x a b s st up e = running_known s.running _ _ s st up e

  -- An instance with a swap state.
  record IsRunning (s : Instance p cfg) : Type 0 where
    up : s.running ≡ true

  take_offer-IsRunning : (id : Bytes) → Keeps IsRunning (take_offer p cfg id)
  unfolding take_offer
  take_offer-IsRunning id = record { kept = λ s h. record { up = h.up } }

  take_up_refused :
      (msg : SendKeysMessage p.float.Carrier) (o : Option (OfferWithExtra p.float.Carrier))
      (s : Instance p cfg) (r : SendKeysMessage p.float.Carrier × State p)
      → IsRunning s
      → (take_up p cfg msg o s).0 ≢ ok r
  unfolding take_up
  take_up_refused msg o s r h e =
      stepped {P = IsRunning} _ _ s (Keeps-or_fail _ _) h e (λ offer s1 _ h1 e1.
        let (_, e2) = past_fail_if _ _ _ s1 e1 in
        let (_, e3) = past_fail_if _ _ _ s1 e2 in
        passed _ _ s1 e3 (λ st _ k _. initiate_running _ _ _ _ s1 st h1.up k))

  refused :
      (msg : SendKeysMessage p.float.Carrier) (s : Instance p cfg)
      (r : SendKeysMessage p.float.Carrier × State p)
      → IsRunning s
      → (handle_initiate_message p cfg msg s).0 ≢ ok r
  unfolding handle_initiate_message
  refused msg s r h e = stepped {P = IsRunning} _ _ s (Keeps-or_fail _ _) h e (λ id s1 _ h1 e1.
      stepped {P = IsRunning} _ _ s1 (take_offer-IsRunning id) h1 e1
        (λ o s2 _ h2 e2. take_up_refused msg o s2 r h2 e2))

  keyless :
      (msg : SendKeysMessage p.float.Carrier) (st : State p)
      (r : SendKeysMessage p.float.Carrier × State p)
      → (is_empty msg.public_spend_key || is_empty msg.public_view_key) ≡ true
      → (exchange_keys p cfg msg st).0 ≢ ok r
  unfolding exchange_keys handle_send_keys_message accept_keys
  keyless msg st r h e = passed _ _ st e (λ _ _ k _.
      passed _ _ st k (λ _ _ k1 _. let (b, _) = past_fail_if _ _ _ st k1 in differ (sym h ∙ b)))

  take_up_keyless :
      (msg : SendKeysMessage p.float.Carrier) (o : Option (OfferWithExtra p.float.Carrier))
      (s : Instance p cfg) (r : SendKeysMessage p.float.Carrier × State p)
      → (is_empty msg.public_spend_key || is_empty msg.public_view_key) ≡ true
      → (take_up p cfg msg o s).0 ≢ ok r
  unfolding take_up absorb
  take_up_keyless msg o s r h e = passed _ _ s e (λ offer s1 _ e1.
      let (_, e2) = past_fail_if _ _ _ s1 e1 in
      let (_, e3) = past_fail_if _ _ _ s1 e2 in
      passed _ _ s1 e3
        (λ st s2 _ e4. passed _ _ s2 e4 (λ _ s3 _ e5. keyless msg (attach p cfg st s3) r h e5)))

  Running-outside : {A : Type 0} (m : Io A) → Keeps IsRunning (outside p cfg m)
  unfolding outside
  Running-outside m = record { kept = λ s h. record { up = h.up } }

  Running-add_new : (x y r : float.Carrier) → Keeps IsRunning (add_new p cfg x y r)
  unfolding add_new
  Running-add_new x y r = record { kept = λ s h. record { up = h.up } }

  Running-start : Keeps IsRunning (modify (λ (s : Instance p cfg). record s { running = true }))
  unfolding modify
  Running-start = record { kept = λ s h. record { up = refl } }

  initiate-IsRunning :
      (o : Offer float.Carrier) (e : OfferExtra) (x y : ℕ)
      → Keeps IsRunning (initiate p cfg o e x y)
  unfolding initiate new_swap_state
  initiate-IsRunning o e x y =
      search (keeps, Running-outside, Running-add_new, Running-start) depth 60 fits 5000

  announce-IsRunning : (q : ℕ) → Keeps IsRunning (announce p cfg q)
  unfolding announce modify
  announce-IsRunning q = record { kept = λ s h. record { up = h.up } }

  exchange-IsRunning :
      (msg : SendKeysMessage float.Carrier) (st : State p)
      → Keeps IsRunning (λ s. absorb p cfg (exchange_keys p cfg msg (attach p cfg st s)) s)
  unfolding absorb
  exchange-IsRunning msg st = record { kept = λ s h. record { up = h.up } }

  take_up-IsRunning :
      (msg : SendKeysMessage float.Carrier) (taken : Option (OfferWithExtra float.Carrier))
      → Keeps IsRunning (take_up p cfg msg taken)
  unfolding take_up
  take_up-IsRunning msg taken =
      search (keeps, initiate-IsRunning, announce-IsRunning, exchange-IsRunning) depth 40 fits 3000

  handle_initiate_message-IsRunning :
      (msg : SendKeysMessage float.Carrier) → Keeps IsRunning (handle_initiate_message p cfg msg)
  unfolding handle_initiate_message
  handle_initiate_message-IsRunning msg =
      Keeps-bind _ _ (Keeps-or_fail _ _)
        (λ id. Keeps-bind _ _ (take_offer-IsRunning id) (λ o. take_up-IsRunning msg o))

  -- Messages that start a swap, one after the other, whatever comes of them.
  unfoldable pub attempts : List (SendKeysMessage float.Carrier) → Instance p cfg → Instance p cfg
  attempts [] s = s
  attempts (msg ∷ l) s = attempts l (handle_initiate_message p cfg msg s).1

  attempts-IsRunning :
      (l : List (SendKeysMessage float.Carrier)) (s : Instance p cfg)
      → IsRunning s
      → IsRunning (attempts l s)
  unfolding attempts
  attempts-IsRunning [] s h = h
  attempts-IsRunning (msg ∷ l) s h =
      attempts-IsRunning l (handle_initiate_message p cfg msg s).1
        ((handle_initiate_message-IsRunning msg).kept s h)

  up_after :
      (st0 st : State p) (s5 s6 t : Instance p cfg)
      → modify (λ (s : Instance p cfg). record s { running = true }) s5 ≡ (ok tt, s6)
      → pure st0 s6 ≡ (ok st, t)
      → IsRunning t
  unfolding modify pure
  up_after st0 st s5 s6 t set e = record {
    up = sym (ap (λ z. z.1.running) e) ∙ sym (ap (λ z. z.1.running) set);
  }

  started :
      (o : Offer float.Carrier) (x : OfferExtra) (a b : ℕ) (s t : Instance p cfg) (st : State p)
      → initiate p cfg o x a b s ≡ (ok st, t)
      → IsRunning t
  unfolding initiate gets
  started o x a b s t st e = chained _ _ s e (λ _ s1 _ e1. chained _ _ s1 e1 (λ _ s2 _ e2.
      chained _ _ s2 e2 (λ _ s3 _ e3. chained _ _ s3 e3 (λ _ s4 _ e4.
        chained _ _ s4 e4
          (λ _ s5 _ e5. chained _ _ s5 e5 (λ _ s6 set e6. up_after _ st s5 s6 t set e6))))))

  unfoldable pub provided : Offer float.Carrier → SendKeysMessage float.Carrier → float.Carrier
  provided o msg = to_xmr float o.exchange_rate msg.provided_amount

  begun_by :
      (msg : SendKeysMessage float.Carrier) (o : OfferWithExtra float.Carrier)
      (s t : Instance p cfg) (st : State p)
      → float.lt (provided o.offer msg) o.offer.minimum_amount ≡ false
      → float.lt o.offer.maximum_amount (provided o.offer msg) ≡ false
      → initiate p cfg o.offer o.extra
          (monero_to_piconero float (provided o.offer msg))
          (float.ether_to_wei msg.provided_amount)
          s
        ≡ (ok st, t)
      → IsRunning t
      → IsRunning (take_up p cfg msg (some o) s).1
  unfolding take_up provided or_fail fail_if ◌>>=◌
  begun_by msg o s t st low high e h =
      rw (low, high, e)
        ((Keeps-bind _ _ (announce-IsRunning st.info) (λ _. exchange-IsRunning msg st)).kept t h)

  left_by :
      (msg : SendKeysMessage float.Carrier) (id : Bytes) (o : OfferWithExtra float.Carrier)
      (s : Instance p cfg)
      → hex_to_hash msg.offer_id ≡ some id
      → find id s.offers ≡ some o
      → IsRunning (take_up p cfg msg (some o) (record s { offers = remove id s.offers })).1
      → IsRunning (handle_initiate_message p cfg msg s).1
  unfolding handle_initiate_message take_offer get_and_delete_offer or_fail ◌>>=◌
  left_by msg id o s named listed running = rw (named, listed) running

  -- A peer can block Bob by taking an offer without keys. The message lacks a key, but it names an
  -- offer of Bob, the amount is within the bounds of the offer, and Bob's instance starts the swap.
  -- Then the message is not answered with success, the instance keeps its swap state, and no later take
  -- of any offer succeeds, after any number of further takes.
  pub keyless_take_blocks :
      (msg : SendKeysMessage float.Carrier) (id : Bytes) (o : OfferWithExtra float.Carrier)
      (s : Instance p cfg) (st : State p) (calls : List (SendKeysMessage float.Carrier))
      → (is_empty msg.public_spend_key || is_empty msg.public_view_key) ≡ true
      → hex_to_hash msg.offer_id ≡ some id
      → find id s.offers ≡ some o
      → float.lt (provided o.offer msg) o.offer.minimum_amount ≡ false
      → float.lt o.offer.maximum_amount (provided o.offer msg) ≡ false
      → (initiate p cfg o.offer o.extra
          (monero_to_piconero float (provided o.offer msg))
          (float.ether_to_wei msg.provided_amount)
          (record s { offers = remove id s.offers })).0
        ≡ ok st
      → let (result, after) = handle_initiate_message p cfg msg s in
        ((r : SendKeysMessage float.Carrier × State p) → result ≢ ok r)
        × (after.running ≡ true)
        × ((next : SendKeysMessage float.Carrier) (r : SendKeysMessage float.Carrier × State p)
            → (handle_initiate_message p cfg next (attempts calls after)).0 ≢ ok r)
  unfolding handle_initiate_message
  keyless_take_blocks msg id o s st calls h named listed low high begins =
      let s1 : Instance p cfg = record s { offers = remove id s.offers } in
      let e = with_state (initiate p cfg o.offer o.extra _ _) s1 begins in
      let running = begun_by msg o s1 _ st low high e (started o.offer o.extra _ _ s1 _ st e) in
      let after = left_by msg id o s named listed running in
      (
        λ r e.
            passed _ _ s e
              (λ id s1 _ e1. passed _ _ s1 e1 (λ o s2 _ e2. take_up_keyless msg o s2 r h e2)),
        after.up,
        λ next r. refused next _ r (attempts-IsRunning calls _ after),
      )
