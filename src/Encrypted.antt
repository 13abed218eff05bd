-- ===== src/Encrypted.antt =====
-- src/dynamodb_encryption_sdk/encrypted: the configuration and the encryption of items.
pub mod CryptoConfig
pub mod Item
pub mod Client
