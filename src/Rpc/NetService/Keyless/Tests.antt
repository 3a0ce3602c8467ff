-- ===== src/Rpc/NetService/Keyless/Tests.antt =====
-- Taking the offer of a toy peer, on a platform where the DLEq prover fails.
use atomic_swap.Base.{ℕ, Bytes, false, ◌≡◌, ◌≢◌, refl, none, [], ◌∷◌, codes, bytes_eq}
use atomic_swap.Base.Outcome.{ok, err}
use atomic_swap.Errors.{external}
use atomic_swap.Action.{◌>>=◌, fail_if, modify}
use atomic_swap.Types.Offer.{get_id, hash_string, to_xmr}
use atomic_swap.Types.Status.{is_ongoing}
use atomic_swap.Crypto.Hex.{encode_to_string}
use atomic_swap.Manager.{new_manager, new_info, add_swap}
use atomic_swap.World.{Platform, failure, ask}
use atomic_swap.World.Toy
use atomic_swap.Alice.{io}
use atomic_swap.Alice.Chain.{generate_and_set_keys}
use atomic_swap.Alice.Handler.{send_keys_message}
use atomic_swap.Alice.Start.{
  initiate_protocol, initiate, new_swap_state, add_new, pointer_of, write_files, outside,
  fresh_state,
}
use atomic_swap.Protocol.{generate_keys_and_proof, prove}
use atomic_swap.Rpc.Toy.{config, offer, peer, network, seller, id}
use atomic_swap.Rpc.NetService.{Node, TakeOfferResponse, take_offer, find_offer, on_swap}
use atomic_swap.Rpc.NetService.Keyless.{attempts, take_offer_keyless}

abbrev platform : Platform
platform = record Toy.platform { dleq_prove_answer = λ h. failure (codes "dleq") }

abbrev node : Node platform config network seller
node = record {
  alice = record { history = []; running = false; manager = new_manager };
  swap = none;
  network = tt;
  seller = tt;
  alice_gas_price = none;
  bob_gas_price = none;
}

take_offer_keyless_example :
    let (r, n') = take_offer platform config network seller [] id 3 node in
    (r ≡ err (external (codes "dleq")))
    × ((multiaddr offer_id : Bytes) (amount : ℕ) (r' : TakeOfferResponse)
        → (take_offer platform config network seller multiaddr offer_id amount
            (attempts platform config network seller (([], id, 3) ∷ []) n')).0
          ≢ ok r')
unfolding ◌>>=◌ fail_if modify is_ongoing new_manager new_info add_swap bytes_eq get_id hash_string
    encode_to_string find_offer on_swap initiate_protocol initiate new_swap_state add_new pointer_of
    write_files outside ask io send_keys_message generate_and_set_keys generate_keys_and_proof prove
    to_xmr fresh_state
take_offer_keyless_example =
    take_offer_keyless platform config network seller [] id 3 node peer tt
      (record { offers = offer ∷ [] }) offer _ _ (external (codes "dleq")) (([], id, 3) ∷ []) refl
      refl refl refl refl
