-- ===== src/Helpers/Tables.antt =====
-- internal/utils.py: TableInfoCache, and the configuration for a table.
pub mod Caching
pub mod Protection
use aws_dynamodb_encryption.Prelude.{Text, Bool, true, false, Option, none, some, [], if◌then◌else◌}
use aws_dynamodb_encryption.Result.{Result, ok, err, ◌>>=◌}
use aws_dynamodb_encryption.Dict.{Dict, get, put}
use aws_dynamodb_encryption.Structures.EncryptionContext
use aws_dynamodb_encryption.Structures.TableInfo
use aws_dynamodb_encryption.Structures.TableInfo.{
  TableDescription, TableInfo, primary_index, protected_index_keys, encryption_context_values,
  refresh_indexed_attributes,
}
use aws_dynamodb_encryption.Structures.AttributeActions
use aws_dynamodb_encryption.Structures.AttributeActions.{AttributeActions, set_index_keys}
use aws_dynamodb_encryption.Crypto.Materials.{CryptographicMaterialsProvider}
use aws_dynamodb_encryption.Encrypted.CryptoConfig
use aws_dynamodb_encryption.Encrypted.CryptoConfig.{CryptoConfig}

pub record TableInfoCache : Type 0 where
  pub auto_refresh_table_indexes : Bool
  pub all_tables_info : Dict TableInfo

-- TableInfoCache(...)
abbrev pub new : Bool → TableInfoCache
new auto_refresh_table_indexes = record {
  auto_refresh_table_indexes = auto_refresh_table_indexes;
  all_tables_info = [];
}

-- The new table info, refreshed where the cache does so; `describe_table` is the client's call.
unfoldable pub load_table_info : (Text → Result TableDescription) → Bool → Text → Result TableInfo
load_table_info describe_table true table_name =
    refresh_indexed_attributes describe_table (TableInfo.new table_name)
load_table_info describe_table false table_name = ok (TableInfo.new table_name)

-- What was loaded is kept; an exception leaves the cache as it was.
unfoldable pub keep_table_info :
    Text → Result TableInfo → TableInfoCache → Result TableInfo × TableInfoCache
keep_table_info table_name (err e) self = (err e, self)
keep_table_info table_name (ok info) self =
    (ok info, record self { all_tables_info = put table_name info self.all_tables_info })

-- TableInfoCache.table_info
unfoldable pub table_info :
    (Text → Result TableDescription) → Text → TableInfoCache → Result TableInfo × TableInfoCache
table_info describe_table table_name self = elim (get table_name self.all_tables_info) [
  | some info ↦ (ok info, self)
  | none ↦
      keep_table_info table_name
        (load_table_info describe_table self.auto_refresh_table_indexes table_name) self
]

-- crypto_config_from_table_info, whose test for an unknown index reads the property that raises
unfoldable pub crypto_config_from_table_info :
    CryptographicMaterialsProvider → AttributeActions → TableInfo → Result CryptoConfig
crypto_config_from_table_info materials_provider actions info = do
  values ← encryption_context_values info
  index ← primary_index info
  context ← EncryptionContext.new (some values.table_name) (some index.partition) index.sort [] []
  CryptoConfig.new materials_provider context actions

-- crypto_config_from_cache, of the table info that was found
unfoldable pub crypto_config_of :
    CryptographicMaterialsProvider → AttributeActions → TableInfo → Result CryptoConfig
crypto_config_of materials_provider actions info = do
  copied ← AttributeActions.copy actions
  names ← protected_index_keys info
  protected ← set_index_keys names copied
  crypto_config_from_table_info materials_provider protected info

-- crypto_config_from_cache
unfoldable pub crypto_config_from_cache :
    (Text → Result TableDescription)
    → CryptographicMaterialsProvider
    → AttributeActions
    → Text
    → TableInfoCache
    → Result CryptoConfig × TableInfoCache
crypto_config_from_cache describe_table materials_provider actions table_name self =
    let (info, next) = table_info describe_table table_name self in
    (do known ← info; crypto_config_of materials_provider actions known, next)
