-- ===== src/Providers/MetaStore.antt =====
-- material_providers/store/meta.py: MetaStore, with provider and new_provider of its base class in
-- material_providers/store/__init__.py. The encrypted table is given by what its calls return for the
-- records of the store.
pub mod Versions
pub mod Creation
use aws_dynamodb_encryption.Prelude.{
  ℕ, suc, Text, Bytes, text, text_eq, Bool, Option, none, some, [], ◌∷◌, ◌++◌, ◌+◌,
}
use aws_dynamodb_encryption.Result.{
  Result, ok, err, ◌>>=◌, ◌>>◌, guard, or_raise, invalid_version_error, no_known_version_error,
  version_already_exists_error, key_error, other_error,
}
use aws_dynamodb_encryption.Texts.{split_once}
use aws_dynamodb_encryption.Builtins.{Builtins}
use aws_dynamodb_encryption.Dict.{Dict, get}
use aws_dynamodb_encryption.Jce.Library.{symmetric, raw, Cryptography}
use aws_dynamodb_encryption.Jce.LocalKey
use aws_dynamodb_encryption.Jce.LocalKey.{
  JceNameLocalDelegatedKey, as_delegated_key, as_wrapping_key,
}
use aws_dynamodb_encryption.Providers.Wrapped.{WrappedCryptographicMaterialsProvider}

-- A record by the attributes other than its name and version, each of which may be missing.
pub record MetaItem : Type 0 where
  pub material_type_version : Option Text
  pub encryption_algorithm : Option Text
  pub encryption_key : Option Bytes
  pub integrity_algorithm : Option Text
  pub integrity_key : Option Bytes

-- How the service answers a conditional put: it stores the item, it finds that the condition fails, or it
-- returns another error of botocore's class ClientError.
pub data PutAnswer : Type 0 where
  stored condition_failed client_error : PutAnswer

-- The calls of the encrypted table, on the state of the table.
pub record MetaTable (S : Type 0) : Type 0 where
  -- get_item(Key={N: name, V: version}), with the item of the response
  pub get_item : Text → ℕ → S → Result (Option MetaItem)
  -- put_item(Item, ConditionExpression: neither N nor V exists)
  pub put_item : Text → ℕ → MetaItem → S → Result PutAnswer × S
  -- query(N == name, backwards, Limit=1), with the version of its first item
  pub query_last : Text → S → Result (Option ℕ)

-- _MATERIAL_DESCRIPTION_META_FIELD
abbrev pub meta_field : Text
meta_field = text "amzn-ddb-meta-id"

abbrev pub material_type_version_value : Text
material_type_version_value = text "0"

module _ (p : Builtins) where
  -- _material_description
  unfoldable pub material_description : Text → ℕ → Dict Text
  material_description material_name version =
      (meta_field, material_name ++ b'#' ∷ p.format_int version) ∷ []

  -- int(info.split("#", 1)[1]), whose exceptions become an Exception
  unfoldable pub version_of : Text → Result ℕ
  version_of info = do
    number ← or_raise other_error ((split_once b'#' info).1)
    or_raise other_error (p.parse_int number)

  unfoldable pub version_from_material_description : Dict Text → Result ℕ
  version_from_material_description description = do
    info ← or_raise other_error (get meta_field description)
    version_of info

module _ (l : Cryptography) where
  -- The encryption key and the signing key of a version.
  abbrev pub Keys : Type 0
  Keys = JceNameLocalDelegatedKey l × JceNameLocalDelegatedKey l

  -- The end of _load_materials.
  unfoldable pub load_item : MetaItem → Result Keys
  load_item found = do
    encryption_bytes ← or_raise other_error found.encryption_key
    encryption_algorithm ← or_raise other_error found.encryption_algorithm
    signing_bytes ← or_raise other_error found.integrity_key
    signing_algorithm ← or_raise other_error found.integrity_algorithm
    material_type ← or_raise key_error found.material_type_version
    guard (text_eq material_type material_type_version_value) invalid_version_error
    encryption_key ← LocalKey.new l encryption_bytes encryption_algorithm symmetric raw
    signing_key ← LocalKey.new l signing_bytes signing_algorithm symmetric raw
    ok (encryption_key, signing_key)

  -- The item of _save_materials.
  unfoldable pub item_of : Keys → MetaItem
  item_of keys = record {
    material_type_version = some material_type_version_value;
    encryption_algorithm = some (keys.0.algorithm);
    encryption_key = some (keys.0.key);
    integrity_algorithm = some (keys.1.algorithm);
    integrity_key = some (keys.1.key);
  }

  -- The two new keys, of 256 bits; the number stands for the random bytes.
  unfoldable pub generate_keys : Builtins → ℕ → Result Keys
  generate_keys p seed = do
    encryption_key ← LocalKey.generate l p seed (text "AES") (some 256)
    signing_key ← LocalKey.generate l p (suc seed) (text "HmacSHA256") (some 256)
    ok (encryption_key, signing_key)

  -- The provider of the keys.
  unfoldable pub provider_of : Builtins → Text → ℕ → Keys → WrappedCryptographicMaterialsProvider
  provider_of p material_name version keys = record {
    keys = record {
      signing_key = as_delegated_key l (keys.1);
      wrapping_key = some (as_wrapping_key l (keys.0));
      unwrapping_key = some (as_wrapping_key l (keys.0));
    };
    material_description = material_description p material_name version;
  }

  module _ {S : Type 0} (table : MetaTable S) where
    -- _load_materials
    unfoldable pub load_materials : Text → ℕ → S → Result Keys
    load_materials material_name version state = do
      response ← table.get_item material_name version state
      found ← or_raise invalid_version_error response
      load_item found

    -- The exceptions of _save_materials: a ClientError other than that of the condition is not raised again.
    unfoldable pub after_put : Result PutAnswer × S → Result (Unit {0}) × S
    after_put (ok stored, state) = (ok tt, state)
    after_put (ok condition_failed, state) = (err version_already_exists_error, state)
    after_put (ok client_error, state) = (ok tt, state)
    after_put (err e, state) = (err e, state)

    -- _save_materials
    unfoldable pub save_materials : Text → ℕ → Keys → S → Result (Unit {0}) × S
    save_materials material_name version keys state =
        after_put (table.put_item material_name version (item_of keys) state)

    -- The keys that were saved, or those that are there.
    unfoldable pub saved_or_loaded : Text → ℕ → Keys → Result (Unit {0}) × S → Result Keys × S
    saved_or_loaded material_name version keys (ok saved, state) = (ok keys, state)
    saved_or_loaded material_name version keys (err version_already_exists_error, state) =
        (load_materials material_name version state, state)
    saved_or_loaded material_name version keys (err e, state) = (err e, state)

    -- _save_or_load_materials
    unfoldable pub save_or_load_materials : Text → ℕ → Keys → S → Result Keys × S
    save_or_load_materials material_name version keys state =
        saved_or_loaded material_name version keys (save_materials material_name version keys state)

    module _ (p : Builtins) where
      -- _load_provider_from_table
      unfoldable pub load_provider_from_table :
          Text → ℕ → S → Result WrappedCryptographicMaterialsProvider
      load_provider_from_table material_name version state = do
        keys ← load_materials material_name version state
        ok (provider_of p material_name version keys)

      unfoldable pub provider_with :
          Text → ℕ → Result Keys × S → Result WrappedCryptographicMaterialsProvider × S
      provider_with material_name version (found, state) =
          (do keys ← found; ok (provider_of p material_name version keys), state)

      unfoldable pub get_or_create_provider :
          ℕ → Text → ℕ → S → Result WrappedCryptographicMaterialsProvider × S
      get_or_create_provider seed material_name version state = elim (generate_keys p seed) [
        | ok keys ↦
            provider_with material_name version
              (save_or_load_materials material_name version keys state)
        | err e ↦ (err e, state)
      ]

      unfoldable pub max_version : Text → S → Result ℕ
      max_version material_name state = do
        last ← table.query_last material_name state
        or_raise no_known_version_error last

      -- The maximum version, or 0 where none is known.
      unfoldable pub version_or_zero : Result ℕ → Result ℕ
      version_or_zero (err no_known_version_error) = ok 0
      version_or_zero r = r

      -- ProviderStore.provider without a version
      unfoldable pub newest_provider :
          ℕ → Text → S → Result WrappedCryptographicMaterialsProvider × S
      newest_provider seed material_name state =
          elim (version_or_zero (max_version material_name state)) [
            | ok version ↦ get_or_create_provider seed material_name version state
            | err e ↦ (err e, state)
          ]

      unfoldable pub provider :
          ℕ → Text → Option ℕ → S → Result WrappedCryptographicMaterialsProvider × S
      provider seed material_name (some version) state =
          (load_provider_from_table material_name version state, state)
      provider seed material_name none state = newest_provider seed material_name state

      -- ProviderStore.new_provider
      unfoldable pub new_provider : ℕ → Text → S → Result WrappedCryptographicMaterialsProvider × S
      new_provider seed material_name state = elim (max_version material_name state) [
        | ok version ↦ get_or_create_provider seed material_name (suc version) state
        | err e ↦ (err e, state)
      ]
