-- ===== src/Encrypted/Client.antt =====
-- encrypted/client.py: EncryptedClient and EncryptedPaginator, for items in DynamoDB JSON
-- (`expect_standard_dictionaries` is False). The methods of the boto3 client are parameters.
use aws_dynamodb_encryption.Prelude.{
  ℕ, Text, Bytes, text, text_eq, Bool, ◌||◌, Option, none, some, List, [], ◌∷◌,
}
use aws_dynamodb_encryption.Result.{Result, ok, err, type_error, not_implemented_error}
use aws_dynamodb_encryption.Dict.{Dict}
use aws_dynamodb_encryption.Formatting.Attribute.{Item, Codec}
use aws_dynamodb_encryption.Structures.TableInfo.{TableDescription}
use aws_dynamodb_encryption.Structures.AttributeActions.{AttributeActions}
use aws_dynamodb_encryption.Crypto.Materials.{CryptographicMaterialsProvider}
use aws_dynamodb_encryption.Encrypted.CryptoConfig.{CryptoConfig}
use aws_dynamodb_encryption.Encrypted.Item.{encrypt_dynamodb_item, decrypt_dynamodb_item}
use aws_dynamodb_encryption.Helpers.Tables.{TableInfoCache, crypto_config_from_cache}
use aws_dynamodb_encryption.Helpers.Reading.{
  Arguments, Step, and_then, crypto_config_from_kwargs, validate_get_arguments, decrypt_items,
  decrypt_multi_get, decrypt_get_item, decrypt_batch_get_item,
}
use aws_dynamodb_encryption.Helpers.Writing.{
  Requests, Equality, encrypt_put_item, encrypt_batch_write_item,
}

-- The client of boto3. The responses are given by the fields that the helpers look at.
pub record Boto3Client : Type 0 where
  pub describe_table : Text → Result TableDescription
  pub get_item : Arguments → Result (Option Item)
  pub put_item : Arguments → Item → Result (Unit {0})
  pub query : Arguments → Result (Option (List Item))
  pub scan : Arguments → Result (Option (List Item))
  pub batch_get_item : Dict Arguments → Result (Dict (List Item))
  pub batch_write_item : Requests → Result (Option Requests)

-- The state is the cache of table infos, which each method takes and leaves.
pub record EncryptedClient : Type 0 where
  pub client : Boto3Client
  pub materials_provider : CryptographicMaterialsProvider
  pub attribute_actions : AttributeActions

-- self._table_crypto_config
unfoldable pub table_crypto_config : EncryptedClient → Text → Step TableInfoCache CryptoConfig
table_crypto_config self table_name cache =
    crypto_config_from_cache self.client.describe_table self.materials_provider
      self.attribute_actions table_name cache

-- The fallback of self._item_crypto_config, which lacks an argument if the request names no table.
unfoldable pub fallback : EncryptedClient → Option Text → Step TableInfoCache CryptoConfig
fallback self none cache = (err type_error, cache)
fallback self (some table_name) cache = table_crypto_config self table_name cache

-- self._item_crypto_config
unfoldable pub item_crypto_config : EncryptedClient → Arguments → Step TableInfoCache CryptoConfig
item_crypto_config self kwargs cache = crypto_config_from_kwargs (fallback self) kwargs cache

module _ (c : Codec) (sha256 : Bytes → Bytes) where
  unfoldable pub get_item : EncryptedClient → Arguments → Step TableInfoCache (Option Item)
  get_item self kwargs cache =
      decrypt_get_item (decrypt_dynamodb_item c sha256) (item_crypto_config self)
        self.client.get_item kwargs cache

  -- The number stands for the random bytes of the call.
  unfoldable pub put_item :
      ℕ → EncryptedClient → Arguments → Option Item → Step TableInfoCache (Unit {0})
  put_item seed self kwargs item cache =
      encrypt_put_item (encrypt_dynamodb_item c sha256) (item_crypto_config self)
        (self.client.put_item kwargs) seed kwargs item cache

  unfoldable pub query : EncryptedClient → Arguments → Step TableInfoCache (List Item)
  query self kwargs cache =
      decrypt_multi_get (decrypt_dynamodb_item c sha256) (item_crypto_config self) self.client.query
        kwargs cache

  unfoldable pub scan : EncryptedClient → Arguments → Step TableInfoCache (List Item)
  scan self kwargs cache =
      decrypt_multi_get (decrypt_dynamodb_item c sha256) (item_crypto_config self) self.client.scan
        kwargs cache

  unfoldable pub batch_get_item :
      EncryptedClient
      → Option CryptoConfig
      → Dict Arguments
      → Step TableInfoCache (Dict (List Item))
  batch_get_item self request tables cache =
      decrypt_batch_get_item (decrypt_dynamodb_item c sha256) (table_crypto_config self)
        self.client.batch_get_item request tables cache

  unfoldable pub batch_write_item :
      Equality
      → (Text → ℕ)
      → EncryptedClient
      → Option CryptoConfig
      → Requests
      → Step TableInfoCache (Option Requests)
  batch_write_item same_value seeds self request requests cache =
      encrypt_batch_write_item (encrypt_dynamodb_item c sha256) same_value seeds
        (table_crypto_config self) self.client.batch_write_item request requests cache

  -- The pages that the generator of EncryptedPaginator.paginate yields, the last of which may be an exception.
  unfoldable pub decrypt_pages :
      CryptoConfig → List (Option (List Item)) → List (Result (List Item))
  decrypt_pages config [] = []
  decrypt_pages config (page ∷ pages) =
      elim (decrypt_items (decrypt_dynamodb_item c sha256) config page) [
        | ok items ↦ ok items ∷ decrypt_pages config pages
        | err e ↦ err e ∷ []
      ]

  -- EncryptedPaginator.paginate, of the pages that the paginator yields
  unfoldable pub paginate :
      EncryptedClient
      → (Arguments → List (Option (List Item)))
      → Arguments
      → Step TableInfoCache (List (Result (List Item)))
  paginate self pages kwargs cache =
      and_then (validate_get_arguments kwargs, cache)
        (λ _ before.
          and_then (item_crypto_config self kwargs before)
            (λ config after. (ok (decrypt_pages config (pages kwargs)), after)))

unfoldable pub update_item : EncryptedClient → Arguments → Step TableInfoCache (Unit {0})
update_item self kwargs cache = (err not_implemented_error, cache)

-- get_paginator returns a paginator that decrypts for these operations, and else that of the client.
unfoldable pub is_decrypted : Text → Bool
is_decrypted operation_name =
    text_eq operation_name (text "scan") || text_eq operation_name (text "query")
