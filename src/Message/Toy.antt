-- ===== src/Message/Toy.antt =====
-- A JSON codec for tests: it encodes what tells of a claim, and responses without offers.
use atomic_swap.Base.{ℕ, ◌≡◌, sym, ap, Bytes, Option, none, some, List, [], ◌∷◌}
use atomic_swap.Types.Offer.{Offer}
use atomic_swap.Message.{Json, JsonCodec, NotifyClaimed, QueryResponse}

pub nothing : {A : Type 0} (a : Option A) (b : Bytes) → none ≡ some b → none ≡ some a
nothing a b h = cc

abbrev no_json : {A : Type 0} → Json A
no_json = record { marshal = λ a. none; unmarshal = λ b. none; unmarshal-marshal = nothing }

abbrev write : Option NotifyClaimed → Option Bytes
write none = some []
write (some m) = some (1 ∷ m.tx_hash)

abbrev read : Bytes → Option (Option NotifyClaimed)
read [] = some none
read (_ ∷ b) = some (some (record { tx_hash = b }))

pub read-write : (a : Option NotifyClaimed) (b : Bytes) → write a ≡ some b → read b ≡ some a
read-write none b h = let e : [] ≡ b = cc in ap read (sym e)
read-write (some m) b h = let e : 1 ∷ m.tx_hash ≡ b = cc in ap read (sym e)

abbrev write_offers : List (Offer ℕ) → Option Bytes
write_offers [] = some (1 ∷ [])
write_offers (_ ∷ _) = none

abbrev write_response : Option (QueryResponse ℕ) → Option Bytes
write_response none = some []
write_response (some r) = write_offers r.offers

abbrev read_response : Bytes → Option (Option (QueryResponse ℕ))
read_response [] = some none
read_response (_ ∷ _) = some (some (record { offers = [] }))

with_offers :
    (offers : List (Offer ℕ)) (b : Bytes)
    → write_offers offers ≡ some b
    → read_response b ≡ some (some (record { offers = offers }))
with_offers [] b h = let e : 1 ∷ [] ≡ b = cc in ap read_response (sym e)
with_offers (_ ∷ _) b h = cc

pub read_response-write :
    (a : Option (QueryResponse ℕ)) (b : Bytes)
    → write_response a ≡ some b
    → read_response b ≡ some a
read_response-write none b h = let e : [] ≡ b = cc in ap read_response (sym e)
read_response-write (some r) b h = with_offers r.offers b h

abbrev pub json : JsonCodec ℕ
json = record {
  query_response_json = record {
    marshal = write_response;
    unmarshal = read_response;
    unmarshal-marshal = read_response-write;
  };
  send_keys_json = no_json;
  notify_eth_locked_json = no_json;
  notify_xmr_lock_json = no_json;
  notify_ready_json = no_json;
  notify_claimed_json = record {
    marshal = write;
    unmarshal = read;
    unmarshal-marshal = read-write;
  };
  notify_refund_json = no_json;
}
