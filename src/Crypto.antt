-- ===== src/Crypto.antt =====
-- The keys of a swap: crypto/monero, crypto/secp256k1 and dleq, over the curve library that they
-- call.
mod Tests
pub mod Hex
pub mod BigInt
pub mod Curve
pub mod Keys
pub mod Secp256k1
pub mod Base58
pub mod Address
