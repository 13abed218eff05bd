-- ===== src/Jce.antt =====
-- The bridge from the names of the Java Cryptography Extension to the package `cryptography`
-- (internal/crypto/jce_bridge), and the keys that stand on it (delegated_keys/jce.py).
pub mod Library
pub mod Primitives
pub mod Cipher
pub mod Authentication
pub mod LocalKey
