-- ===== src/Structures.antt =====
-- src/dynamodb_encryption_sdk/structures.py: what is known of a request, of the actions and of a table.
pub mod AttributeActions
pub mod EncryptionContext
pub mod TableInfo
