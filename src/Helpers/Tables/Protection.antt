-- ===== src/Helpers/Tables/Protection.antt =====
-- The configuration for a table names the keys of its primary index, and encrypts none of them.
use aws_dynamodb_encryption.Prelude.{Text, false, some, [], ◌≡◌, ap, sym, subst}
use aws_dynamodb_encryption.Result.{
  ok, >>=-eq-ok, ok-injective, or_raise, or_raise-eq-ok, attribute_error,
}
use aws_dynamodb_encryption.Structures.EncryptionContext
use aws_dynamodb_encryption.Structures.EncryptionContext.{EncryptionContext, values_are_ddb_items}
use aws_dynamodb_encryption.Structures.TableInfo.{
  TableIndex, TableInfo, primary_index, protected_index_keys, encryption_context_values,
}
use aws_dynamodb_encryption.Structures.AttributeActions
use aws_dynamodb_encryption.Structures.AttributeActions.{AttributeActions, set_index_keys}
use aws_dynamodb_encryption.Crypto.Materials.{CryptographicMaterialsProvider}
use aws_dynamodb_encryption.Encrypted.CryptoConfig
use aws_dynamodb_encryption.Encrypted.CryptoConfig.{CryptoConfig, encrypts}
use aws_dynamodb_encryption.Encrypted.CryptoConfig.Creation.{new-eq-ok}
use aws_dynamodb_encryption.Encrypted.Item.Keys.{IsKey, new-encrypts}
use aws_dynamodb_encryption.Helpers.Tables.{crypto_config_from_table_info, crypto_config_of}

-- The context of a table with the index.
abbrev pub table_context : Text → TableIndex → EncryptionContext
table_context table_name index = record {
  table_name = some table_name;
  partition_key_name = some index.partition;
  sort_key_name = index.sort;
  attributes = [];
  material_description = [];
}

module _ (provider : CryptographicMaterialsProvider) (info : TableInfo)
    (config : CryptoConfig) where
  pub crypto_config_from_table_info-protects :
      (actions : AttributeActions)
      → crypto_config_from_table_info provider actions info ≡ ok config
      → (index : TableIndex) × (info.known_primary_index ≡ some index)
        × (config.encryption_context ≡ table_context info.name index)
        × ((name : Text)
            → IsKey name config.encryption_context
            → encrypts config.attribute_actions name ≡ false)
  unfolding crypto_config_from_table_info encryption_context_values primary_index
      EncryptionContext.new values_are_ddb_items
  crypto_config_from_table_info-protects actions h =
      let (values, is_values, h₁) = >>=-eq-ok (encryption_context_values info) _ h in
      let (index, is_index, h₂) =
        >>=-eq-ok (or_raise attribute_error info.known_primary_index) _ h₁ in
      let (first, is_first, is_named) =
        >>=-eq-ok (or_raise attribute_error info.known_primary_index) _ is_values in
      let named : info.name ≡ values.table_name = ap (λ v. v.table_name) (ok-injective is_named) in
      let created : CryptoConfig.new provider (table_context info.name index) actions ≡ ok config =
        subst (λ t. CryptoConfig.new provider (table_context t index) actions ≡ ok config)
          (sym named) h₂ in
      let is_context =
        ap (λ (c : CryptoConfig). c.encryption_context)
          (new-eq-ok provider (table_context info.name index) actions config created) in
      (
        index,
        or_raise-eq-ok attribute_error info.known_primary_index is_index,
        sym is_context,
        λ name is_key.
            new-encrypts provider (table_context info.name index) actions config created name
              (subst (IsKey name) (sym is_context) is_key),
      )

  -- Where a table info gives a configuration, its primary index is known, the encryption context has the name of
  -- the table and the keys of the index and nothing else, and no key of the index is to be encrypted.
  pub crypto_config_of-protects :
      (actions : AttributeActions)
      → crypto_config_of provider actions info ≡ ok config
      → (index : TableIndex) × (info.known_primary_index ≡ some index)
        × (config.encryption_context ≡ table_context info.name index)
        × ((name : Text)
            → IsKey name config.encryption_context
            → encrypts config.attribute_actions name ≡ false)
  unfolding crypto_config_of
  crypto_config_of-protects actions h =
      let (copied, _, h₁) = >>=-eq-ok (AttributeActions.copy actions) _ h in
      let (names, _, h₂) = >>=-eq-ok (protected_index_keys info) _ h₁ in
      let (protected, _, h₃) = >>=-eq-ok (set_index_keys names copied) _ h₂ in
      crypto_config_from_table_info-protects protected h₃
