-- ===== src/Formatting.antt =====
-- src/dynamodb_encryption_sdk/internal/formatting: the standard's encoding of attributes and of
-- material descriptions.
pub mod Attribute
pub mod Pack
pub mod Serialize
pub mod Deserialize
pub mod Canonical
pub mod RoundTrip
pub mod Termination
pub mod MaterialDescription
