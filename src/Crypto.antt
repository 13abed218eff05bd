-- ===== src/Crypto.antt =====
-- Keys, materials and providers, and internal/crypto: the encryption and the signature of an item.
pub mod Materials
pub mod Encryption
pub mod Authentication
