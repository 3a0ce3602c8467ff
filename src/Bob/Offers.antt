-- ===== src/Bob/Offers.antt =====
-- protocol/bob/offers.go: the offers that nobody has taken, a Go map from an offer's ID to the offer
-- and what belongs to it. IDs are arrays of 32 bytes.
use atomic_swap.Base.{
  Bytes, bytes_eq, bytes_eq_iff, Option, none, some, List, [], ◌∷◌, map, ◌≡◌, refl, if◌then◌else◌,
  arith,
}
use atomic_swap.Types.Status.{Status}
use atomic_swap.Types.Offer.{Offer, get_id}

-- types.OfferExtra: what was sent to its status channel, newest first. What goes through the other
-- channel, the ID of the swap, stands with the instance; the path of the info file is left out.
pub record OfferExtra : Type 0 where
  pub status_ch : List Status

pub record OfferWithExtra (F : Type 0) : Type 0 where
  pub offer : Offer F
  pub extra : OfferExtra

abbrev pub new_extra : OfferExtra
new_extra = record { status_ch = [] }

abbrev pub OfferMap : Type 0 → Type 0
OfferMap F = List (Bytes × OfferWithExtra F)

module _ {F : Type 0} where
  unfoldable pub find : Bytes → OfferMap F → Option (OfferWithExtra F)
  find id [] = none
  find id ((k, o) ∷ os) = if bytes_eq k id then some o else find id os

  -- `delete(om.offers, id)`
  unfoldable pub remove : Bytes → OfferMap F → OfferMap F
  remove id [] = []
  remove id ((k, o) ∷ os) = if bytes_eq k id then remove id os else (k, o) ∷ remove id os

  unfoldable pub put_new :
      Option (OfferWithExtra F) → Bytes → Offer F → OfferMap F → OfferExtra × OfferMap F
  put_new (some o) id offer os = (o.extra, os)
  put_new none id offer os = (new_extra, (id, record { offer = offer; extra = new_extra }) ∷ os)

  -- `putOffer`: GetID sets the offer's ID if it has none. `hash_of` is the hash of an offer.
  unfoldable pub put_offer : (Offer F → Bytes) → Offer F → OfferMap F → OfferExtra × OfferMap F
  unfolding put_new
  put_offer hash_of o os = let (id, o') = get_id hash_of o in put_new (find id os) id o' os

  -- `getAndDeleteOffer`; `none` stands for the nil offer.
  unfoldable pub get_and_delete_offer : Bytes → OfferMap F → Option (OfferWithExtra F) × OfferMap F
  get_and_delete_offer id os = (find id os, remove id os)

  -- `GetOffers`, in the order of the list; a Go map has none.
  unfoldable pub get_offers : OfferMap F → List (Offer F)
  get_offers os = map (λ o. o.1.offer) os

  pub find-remove : (id : Bytes) (os : OfferMap F) → find id (remove id os) ≡ none
  unfolding find remove
  find-remove id [] = refl
  find-remove id ((k, o) ∷ os) = ground (arith, find-remove id os)

  -- An offer that is not among the offers is taken out as it was put in, its ID set, with a new
  -- extra; after that the ID is no longer there.
  pub get_and_delete_offer-put_offer :
      (hash_of : Offer F → Bytes) (o : Offer F) (os : OfferMap F)
      → find (get_id hash_of o).0 os ≡ none
      → let id = (get_id hash_of o).0 in
        let (got, rest) = get_and_delete_offer id (put_offer hash_of o os).1 in
        (got ≡ some (record { offer = (get_id hash_of o).1; extra = new_extra }))
        × (find id rest ≡ none)
  unfolding put_offer get_and_delete_offer put_new find
  get_and_delete_offer-put_offer hash_of o os free =
      let id = (get_id hash_of o).0 in
      rw (free, (bytes_eq_iff id id).1 refl) (refl, find-remove id _)

  -- The entry of an offer that is put: the one that is there, or else the offer with a new extra.
  pub entry : Option (OfferWithExtra F) → Offer F → OfferWithExtra F
  entry (some e) o = e
  entry none o = record { offer = o; extra = new_extra }

  found :
      (got : Option (OfferWithExtra F)) (id : Bytes) (o : Offer F) (os : OfferMap F)
      → find id os ≡ got
      → find id (put_new got id o os).1 ≡ some (entry got o)
  unfolding put_new find entry
  found none id o os h = rw ((bytes_eq_iff id id).1 refl) refl
  found (some e) id o os h = h

  -- After putOffer the ID of the offer is there: with the entry that it had, or else with the
  -- offer itself and a new extra.
  pub find-put_offer :
      (hash_of : Offer F → Bytes) (o : Offer F) (os : OfferMap F)
      → find (get_id hash_of o).0 (put_offer hash_of o os).1
        ≡ some (entry (find (get_id hash_of o).0 os) (get_id hash_of o).1)
  unfolding put_offer
  find-put_offer hash_of o os = found _ _ _ os refl
