-- ===== src/Bob/Streams/Tests.antt =====
-- A peer takes an offer of Bob over a stream, and then hangs up. The codec knows one SendKeys message.
use atomic_swap.Types.Status.{Status}
use atomic_swap.Base.{
  ℕ, ◌≡◌, Bytes, Bool, false, true, Option, none, some, List, [], ◌∷◌, replicate, codes, sym, ap,
}
use atomic_swap.Crypto.Hex.{encode_to_string}
use atomic_swap.Types.Environment.{development}
use atomic_swap.Types.Provides.{provides_xmr}
use atomic_swap.Types.Offer.{Offer}
use atomic_swap.Manager.{new_manager}
use atomic_swap.Message.{SendKeysMessage, JsonCodec}
use atomic_swap.Message.Toy.{json}
use atomic_swap.World.Toy.{platform}
use atomic_swap.Net.{piece, ended}
use atomic_swap.Net.Loop.{Host}
use atomic_swap.Bob.{Config}
use atomic_swap.Bob.Offers.{new_extra}
use atomic_swap.Bob.Peer.{Side}

abbrev config : Config
config = record { env = development; eth_address = codes "0x01" }

abbrev offer : Offer ℕ
offer = record {
  id = replicate 32 9;
  provides = provides_xmr;
  minimum_amount = 1;
  maximum_amount = 100;
  exchange_rate = 1;
}

abbrev keys : SendKeysMessage ℕ
keys = record {
  offer_id = encode_to_string (replicate 32 9);
  provided_amount = 3;
  public_spend_key = codes "04";
  public_view_key = codes "00";
  private_view_key = [];
  dleq_proof = [];
  secp256k1_public_key = [];
  eth_address = [];
}

abbrev write : Option (SendKeysMessage ℕ) → Option Bytes
write none = some []
write (some m) = none

abbrev read : Bytes → Option (Option (SendKeysMessage ℕ))
read [] = some none
read (_ ∷ _) = some (some keys)

read-write : (a : Option (SendKeysMessage ℕ)) (b : Bytes) → write a ≡ some b → read b ≡ some a
read-write none b h = let e : [] ≡ b = cc in ap read (sym e)
read-write (some m) b h = cc

abbrev codec : JsonCodec ℕ
codec = record json {
  send_keys_json = record { marshal = write; unmarshal = read; unmarshal-marshal = read-write };
}

abbrev no_failures : Bool → List Bytes → Bool
no_failures _ _ = false

-- A SendKeys message of two bytes, and then the end of the stream.
abbrev host : Host (Side platform config)
host = record {
  incoming = piece (2 ∷ 1 ∷ []) (piece (1 ∷ []) ended);
  written = [];
  is_open = true;
  has_stream = true;
  busy = false;
  side = record {
    bob = record {
      history = [];
      running = false;
      manager = new_manager;
      offers = (replicate 32 9, record { offer = offer; extra = new_extra }) ∷ [];
      announced = [];
    };
    swap = none;
  };
}
