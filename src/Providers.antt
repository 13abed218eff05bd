-- ===== src/Providers.antt =====
-- src/dynamodb_encryption_sdk/material_providers.
pub mod BasicCache
pub mod MostRecent
pub mod Static
pub mod Wrapped
pub mod KeyInfo
pub mod AwsKms
pub mod MetaStore
