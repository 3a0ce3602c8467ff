-- ===== src/Rpc/NetService/Keyless.antt =====
-- An offer that is taken when Alice cannot make her keys (rpc/net.go, takeOffer).
mod Tests
use atomic_swap.Base.{ℕ, Bytes, ◌≡◌, ◌≢◌, sym, ap, ◌∙◌, refl, Option, none, some, List, [], ◌∷◌}
use atomic_swap.Base.Outcome.{Outcome, ok, err}
use atomic_swap.Errors.{Err, plain, external}
use atomic_swap.Action.{Action, gets, or_fail, deref, fail_if, modify, ◌>>=◌}
use atomic_swap.Action.Keeps.{Keeps, keeps, Keeps-or_fail, Keeps-deref, Keeps-bind, Keeps-modify}
use atomic_swap.Action.Inversion.{stepped, passed, Keeps-stop, >>=-known}
use atomic_swap.Types.Offer.{Offer}
use atomic_swap.Message.{QueryResponse, SendKeysMessage}
use atomic_swap.Protocol.{KeysAndProof}
use atomic_swap.World.{Platform, Io}
use atomic_swap.Alice.{Config, State, io}
use atomic_swap.Alice.Chain.{generate_and_set_keys}
use atomic_swap.Alice.Handler.{send_keys_message}
use atomic_swap.Alice.Start.{Instance, initiate_protocol}
use atomic_swap.Alice.Started.{IsTaken, initiate-IsTaken, initiate-Taken, free_before_initiate}
use atomic_swap.Rpc.NetService.{
  Network, Seller, Node, TakeOfferResponse, on_network, on_alice, on_swap, find_offer, take_offer,
  begin_swap,
}

module _ (p : Platform) (cfg : Config) where
  record Owns (q : ℕ) (s : State p) : Type 0 where
    owned : s.manager.ongoing ≡ some q

  Owns-io : {A : Type 0} {q : ℕ} (m : Io A) → Keeps (Owns q) (io p m)
  unfolding io
  Owns-io m = record { kept = λ s h. record { owned = h.owned } }

  Owns-keys :
      {q : ℕ} (k : KeysAndProof p)
      → Keeps (Owns q) (
          modify (λ s. record s {
            dleq_proof = some k.dleq_proof;
            secp256k1_pub = some k.secp256k1_public_key;
            privkeys = some k.private_key_pair;
            pubkeys = some k.public_keys;
          }))
  unfolding modify
  Owns-keys k = record { kept = λ s h. record { owned = h.owned } }

  generate_and_set_keys-Owns : {q : ℕ} → Keeps (Owns q) (generate_and_set_keys p cfg)
  unfolding generate_and_set_keys
  generate_and_set_keys-Owns = search (keeps, Owns-io, Owns-keys) depth 20

  send_keys_message-Owns : {q : ℕ} → Keeps (Owns q) (send_keys_message p cfg)
  unfolding send_keys_message
  send_keys_message-Owns = search (keeps, generate_and_set_keys-Owns) depth 20

module _ (p : Platform) (cfg : Config) {W B : Type 0} (net : Network p.float.Carrier W)
    (bob : Seller p.float.Carrier B) where
  open p use {float, hash_of}

  abbrev N : Type 0
  N = Node p cfg net bob

  -- The node's manager has an ongoing swap.
  record IsBusy (q : ℕ) (n : N) : Type 0 where
    busy : IsTaken p cfg q n.alice

  Busy-network :
      {A : Type 0} {q : ℕ} (m : Action W A) → Keeps (IsBusy q) (on_network p cfg net bob m)
  unfolding on_network
  Busy-network m = record { kept = λ n h. record { busy = h.busy } }

  Busy-swap :
      {A : Type 0} {q : ℕ} (m : Action (State p) A) (st : State p)
      → Keeps (Owns p cfg q) m
      → Keeps (IsBusy q) (on_swap p cfg net bob m st)
  unfolding on_swap
  Busy-swap m st k = record {
    kept = λ n h. record {
      busy = record { taken = (k.kept _ (record { owned = h.busy.taken })).owned };
    };
  }

  -- While there is an ongoing swap no offer is taken.
  take_offer_busy :
      {q : ℕ} (multiaddr offer_id : Bytes) (amount : float.Carrier) (n : N) (r : TakeOfferResponse)
      → IsBusy q n
      → (take_offer p cfg net bob multiaddr offer_id amount n).0 ≢ ok r
  unfolding take_offer on_alice initiate_protocol
  take_offer_busy {q} multiaddr offer_id amount n r b e =
      stepped {P = IsBusy q} _ _ n (Keeps-or_fail _ _) b e (λ who n1 _ b1 e1.
        stepped {P = IsBusy q} _ _ n1 (Busy-network (net.query who)) b1 e1 (λ answer n2 _ b2 e2.
          stepped {P = IsBusy q} _ _ n2 (Keeps-deref _) b2 e2 (λ resp n3 _ b3 e3.
            stepped {P = IsBusy q} _ _ n3 (Keeps-or_fail _ _) b3 e3 (λ offer n4 _ b4 e4.
              passed _ _ n4 e4 (λ st n5 started _.
                cc (sym b4.busy.taken ∙ free_before_initiate p cfg _ _ _ n4.alice st started))))))

  on_alice-Busy :
      {A : Type 0} {q : ℕ} (m : Action (Instance p cfg) A)
      → Keeps (IsTaken p cfg q) m
      → Keeps (IsBusy q) (on_alice p cfg net bob m)
  unfolding on_alice
  on_alice-Busy m k = record { kept = λ n h. record { busy = k.kept n.alice h.busy } }

  started_none :
      {q : ℕ} (amount rate : float.Carrier) (n : N) (st : State p)
      → IsBusy q n
      → (on_alice p cfg net bob (initiate_protocol p cfg amount rate) n).0 ≢ ok st
  unfolding on_alice initiate_protocol
  started_none amount rate n st b e =
      cc (sym b.busy.taken ∙ free_before_initiate p cfg _ _ _ n.alice st e)

  initiate_protocol-Busy :
      {q : ℕ} (amount rate : float.Carrier)
      → Keeps (IsBusy q) (on_alice p cfg net bob (initiate_protocol p cfg amount rate))
  unfolding initiate_protocol
  initiate_protocol-Busy amount rate = on_alice-Busy _ (initiate-Taken p cfg _ _ _)

  take_offer-Busy :
      {q : ℕ} (multiaddr offer_id : Bytes) (amount : float.Carrier)
      → Keeps (IsBusy q) (take_offer p cfg net bob multiaddr offer_id amount)
  unfolding take_offer
  take_offer-Busy multiaddr offer_id amount = Keeps-bind _ _ (Keeps-or_fail _ _) (λ who.
      Keeps-bind _ _ (Busy-network (net.query who)) (λ answer.
        Keeps-bind _ _ (Keeps-deref _) (λ resp. Keeps-bind _ _ (Keeps-or_fail _ _) (λ offer.
          Keeps-stop _ _ (initiate_protocol-Busy amount offer.exchange_rate)
            (λ n st b. started_none amount offer.exchange_rate n st b)))))

  -- Calls of takeOffer with these arguments, one after the other, whatever they return.
  unfoldable pub attempts : List (Bytes × Bytes × float.Carrier) → N → N
  attempts [] n = n
  attempts ((multiaddr, offer_id, amount) ∷ l) n =
      attempts l (take_offer p cfg net bob multiaddr offer_id amount n).1

  attempts-Busy :
      {q : ℕ} (l : List (Bytes × Bytes × float.Carrier)) (n : N)
      → IsBusy q n
      → IsBusy q (attempts l n)
  unfolding attempts
  attempts-Busy [] n b = b
  attempts-Busy ((multiaddr, offer_id, amount) ∷ l) n b =
      attempts-Busy l (take_offer p cfg net bob multiaddr offer_id amount n).1
        ((take_offer-Busy multiaddr offer_id amount).kept n b)

  -- The node after Alice's part of the start.
  abbrev begun : W → Instance p cfg → N → N
  begun w a n = record n { network = w; alice = a }

  take_offer_known :
      (multiaddr offer_id : Bytes) (amount : float.Carrier) (n : N) (who : Bytes × List Bytes)
      (w : W) (resp : QueryResponse float.Carrier) (o : Offer float.Carrier) (a : Instance p cfg)
      (st : State p) (e : Err)
      → net.string_to_addr_info multiaddr ≡ some who
      → net.query who n.network ≡ (ok (some resp), w)
      → find_offer hash_of offer_id resp.offers ≡ some o
      → initiate_protocol p cfg amount o.exchange_rate n.alice ≡ (ok st, a)
      → (on_swap p cfg net bob (send_keys_message p cfg) st (begun w a n)).0 ≡ err e
      → take_offer p cfg net bob multiaddr offer_id amount n
        ≡ (err e, (on_swap p cfg net bob (send_keys_message p cfg) st (begun w a n)).1)
  unfolding take_offer on_network on_alice ◌>>=◌
  take_offer_known multiaddr offer_id amount n who w resp o a st e h1 h2 h3 h4 h5 =
      rw (h1, h2, h3, h4, h5) refl

  -- Alice's swap is not left when her keys cannot be made. The peer answers, has the offer, and
  -- Alice's instance starts the swap, but SendKeysMessage returns an error. Then TakeOffer returns
  -- this error, and from the node that it leaves no TakeOffer succeeds, after any number of further
  -- calls of TakeOffer.
  pub take_offer_keyless :
      (multiaddr offer_id : Bytes) (amount : float.Carrier) (n : N) (who : Bytes × List Bytes)
      (w : W) (resp : QueryResponse float.Carrier) (o : Offer float.Carrier) (a : Instance p cfg)
      (st : State p) (e : Err) (calls : List (Bytes × Bytes × float.Carrier))
      → net.string_to_addr_info multiaddr ≡ some who
      → net.query who n.network ≡ (ok (some resp), w)
      → find_offer hash_of offer_id resp.offers ≡ some o
      → initiate_protocol p cfg amount o.exchange_rate n.alice ≡ (ok st, a)
      → (on_swap p cfg net bob (send_keys_message p cfg) st (begun w a n)).0 ≡ err e
      → let (r, n') = take_offer p cfg net bob multiaddr offer_id amount n in
        (r ≡ err e)
        × ((multiaddr' offer_id' : Bytes) (amount' : float.Carrier) (r' : TakeOfferResponse)
            → (take_offer p cfg net bob multiaddr' offer_id' amount' (attempts calls n')).0 ≢ ok r')
  unfolding initiate_protocol
  take_offer_keyless multiaddr offer_id amount n who w resp o a st e calls h1 h2 h3 h4 h5 =
      let known = take_offer_known multiaddr offer_id amount n who w resp o a st e h1 h2 h3 h4 h5 in
      let (q, t) = initiate-IsTaken p cfg _ _ _ n.alice a st h4 in
      let after =
        (Busy-swap {q = q} (send_keys_message p cfg) st (send_keys_message-Owns p cfg)).kept
          (begun w a n) (record { busy = t }) in
      (
        ap (λ z. z.0) known,
        λ multiaddr' offer_id' amount' r'.
            take_offer_busy {q = q} multiaddr' offer_id' amount' _ r'
              (attempts-Busy {q = q} calls _ (rw known after)),
      )
