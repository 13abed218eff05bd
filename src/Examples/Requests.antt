-- ===== src/Examples/Requests.antt =====
-- Batches of requests and infos of tables.
use aws_dynamodb_encryption.Prelude.{
  Text, text, true, false, none, some, [], ◌∷◌, ◌≡◌, refl, text_eq,
}
use aws_dynamodb_encryption.Result.{Result, ok, err, attribute_error, not_implemented_error}
use aws_dynamodb_encryption.Dict.{get, put, put_all}
use aws_dynamodb_encryption.CryptoAction
use aws_dynamodb_encryption.CryptoAction.{encrypt_and_sign, sign_only}
use aws_dynamodb_encryption.Structures.TableInfo.{
  TableDescription, TableIndex, TableInfo, attributes, from_key_schema, primary_index,
  protected_index_keys, encryption_context_values, refresh_indexed_attributes, append_group,
}
use aws_dynamodb_encryption.Structures.EncryptionContext
use aws_dynamodb_encryption.Structures.EncryptionContext.{values_are_ddb_items}
use aws_dynamodb_encryption.Structures.AttributeActions
use aws_dynamodb_encryption.Structures.AttributeActions.{
  AttributeActions, action, all_do_nothing, index_action, set_index_key, set_index_keys,
}
use aws_dynamodb_encryption.Encrypted.CryptoConfig
use aws_dynamodb_encryption.Encrypted.CryptoConfig.{CryptoConfig, encrypts, check_key}
use aws_dynamodb_encryption.Encrypted.Item.Keys.{IsKey}
use aws_dynamodb_encryption.Helpers.Tables
use aws_dynamodb_encryption.Helpers.Tables.{
  TableInfoCache, load_table_info, keep_table_info, table_info, crypto_config_from_table_info,
  crypto_config_of, crypto_config_from_cache,
}
use aws_dynamodb_encryption.Helpers.Tables.Caching.{
  Unrefreshed, table_info-again, crypto_config_from_cache-Unrefreshed,
}
use aws_dynamodb_encryption.Helpers.Tables.Protection.{table_context, crypto_config_of-protects}
use aws_dynamodb_encryption.Examples.{actions, provider, config}

abbrev schema : TableDescription
schema = record {
  key_schema = (text "HASH", text "id") ∷ [];
  local_secondary_indexes = none;
  global_secondary_indexes = none;
}

abbrev describe : Text → Result TableDescription
describe name = ok schema

abbrev known_info : TableInfo
known_info = record {
  name = text "table";
  known_primary_index = some (record { partition = text "id"; sort = none });
  known_secondary_indexes = some [];
}

abbrev empty_cache : TableInfoCache
empty_cache = Tables.new true

first_table_info : (table_info describe (text "table") empty_cache).0 ≡ ok known_info
unfolding table_info get keep_table_info load_table_info refresh_indexed_attributes from_key_schema
    put_all put append_group text_eq
first_table_info = refl

-- The client fails later on.
table_info-again_example :
    table_info
      (λ name. err not_implemented_error)
      (text "table")
      ((table_info describe (text "table") empty_cache).1)
    ≡ (ok known_info, (table_info describe (text "table") empty_cache).1)
table_info-again_example =
    table_info-again describe (text "table") empty_cache known_info
      (λ name. err not_implemented_error) first_table_info

unchanged_actions : AttributeActions.copy actions ≡ ok actions
unfolding AttributeActions.copy AttributeActions.new all_do_nothing get text_eq CryptoAction.eq
    CryptoAction.value
unchanged_actions = refl

unrefreshed : Unrefreshed (Tables.new false)
unfolding get
unrefreshed = record { no_refresh = refl; unknown = λ name info h. absurd (cc) }

crypto_config_from_cache-Unrefreshed_example :
    ((crypto_config_from_cache describe provider actions (text "table") (Tables.new false)).0
      ≡ err attribute_error)
    × Unrefreshed
        ((crypto_config_from_cache describe provider actions (text "table") (Tables.new false)).1)
crypto_config_from_cache-Unrefreshed_example =
    crypto_config_from_cache-Unrefreshed describe provider actions actions unchanged_actions
      (text "table") (Tables.new false) unrefreshed

known_config : crypto_config_of provider actions known_info ≡ ok config
unfolding crypto_config_of AttributeActions.copy AttributeActions.new all_do_nothing get text_eq
    CryptoAction.eq CryptoAction.value protected_index_keys primary_index attributes set_index_keys
    set_index_key index_action action CryptoAction.min crypto_config_from_table_info
    encryption_context_values EncryptionContext.new values_are_ddb_items CryptoConfig.new check_key
    encrypts
known_config = refl

crypto_config_of-protects_example :
    (index : TableIndex) × (known_info.known_primary_index ≡ some index)
    × (config.encryption_context ≡ table_context known_info.name index)
    × ((name : Text)
        → IsKey name config.encryption_context
        → encrypts config.attribute_actions name ≡ false)
crypto_config_of-protects_example =
    crypto_config_of-protects provider known_info config actions known_config
