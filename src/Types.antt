-- ===== src/Types.antt =====
-- common/types: the status of a swap, the coin that a side provides, and an offer.
pub mod Status
pub mod Provides
pub mod Offer
pub mod Float64
pub mod Environment
pub mod Coins
