-- ===== src/Rpc/Toy.antt =====
-- A toy network with one peer, who has one offer, and a toy Bob: for examples.
use atomic_swap.Base.{ℕ, Bytes, List, [], ◌∷◌, some, codes, replicate, false}
use atomic_swap.Action.{pure}
use atomic_swap.Types.Environment.{development}
use atomic_swap.Types.Offer.{Offer, hash_string}
use atomic_swap.Types.Provides.{provides_xmr}
use atomic_swap.Alice.{Config}
use atomic_swap.Rpc.NetService.{Network, Seller}

abbrev pub config : Config
config = record {
  env = development;
  transfer_back = false;
  wallet_address = [];
  contract = some (codes "contract");
  swap_timeout = 10;
  patience = 3;
}

abbrev pub offer : Offer ℕ
offer = record {
  id = replicate 32 9;
  provides = provides_xmr;
  minimum_amount = 1;
  maximum_amount = 9;
  exchange_rate = 1;
}

abbrev pub peer : Bytes × List Bytes
peer = (codes "q", codes "/ip4" ∷ [])

abbrev pub network : Network ℕ (Unit {0})
network = record {
  string_to_addr_info = λ b. some peer;
  query = λ who. pure (some (record { offers = offer ∷ [] }));
  initiate = λ who msg. pure tt;
  discover = λ provides time. pure (peer ∷ []);
  advertise = pure tt;
  addresses = λ w. [];
}

abbrev pub seller : Seller ℕ (Unit {0})
seller = record { make_offer = λ o. pure (record { id_ch = 0; status_ch = 1 }) }

abbrev pub id : Bytes
id = hash_string (replicate 32 9)
