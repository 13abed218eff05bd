-- ===== src/Helpers/Writing/Batches.antt =====
-- Batches of requests that put items, with the item encryptor.
use aws_dynamodb_encryption.Prelude.{
  ℕ, Text, Bytes, true, some, List, ◌∷◌, ◌≡◌, ◌∙◌, sym, subst, ap,
}
use aws_dynamodb_encryption.Result.{ok, >>=-eq-ok}
use aws_dynamodb_encryption.Dict.{get}
use aws_dynamodb_encryption.Formatting.Attribute.{Attribute, Item, Codec}
use aws_dynamodb_encryption.Structures.EncryptionContext.{EncryptionContext}
use aws_dynamodb_encryption.Structures.AttributeActions.{AttributeActions}
use aws_dynamodb_encryption.Crypto.Materials.{CryptographicMaterialsProvider}
use aws_dynamodb_encryption.Encrypted.CryptoConfig
use aws_dynamodb_encryption.Encrypted.CryptoConfig.{CryptoConfig}
use aws_dynamodb_encryption.Encrypted.CryptoConfig.Creation.{new-with_item, new-eq-ok}
use aws_dynamodb_encryption.Encrypted.Item.{encrypt_dynamodb_item}
use aws_dynamodb_encryption.Encrypted.Item.Keys.{IsKey, encrypt_dynamodb_item-keeps_keys}
use aws_dynamodb_encryption.Helpers.Writing.{
  WriteRequest, Equality, revert_operations, encrypt_value, encrypt_requests,
}
use aws_dynamodb_encryption.Helpers.Writing.Positions.{pick}
use aws_dynamodb_encryption.Helpers.Writing.Unprocessed.{
  Identified, revert_operations-encrypt_requests,
}

module _ (provider : CryptographicMaterialsProvider) (context : EncryptionContext)
    (actions : AttributeActions) (config : CryptoConfig)
    (created : CryptoConfig.new provider context actions ≡ ok config) (c : Codec)
    (sha256 : Bytes → Bytes) where
  encrypt_value-keeps_keys :
      (seed : ℕ) (item e : Item) (name : Text) (a : Attribute)
      → encrypt_value (encrypt_dynamodb_item c sha256) seed config item ≡ ok e
      → IsKey name config.encryption_context
      → get name item ≡ some a
      → get name e ≡ some a
  unfolding encrypt_value
  encrypt_value-keeps_keys seed item e name a h is_key found =
      let (for_item, made, encrypted) = >>=-eq-ok (CryptoConfig.with_item config item) _ h in
      encrypt_dynamodb_item-keeps_keys provider (record context { attributes = item }) actions
        for_item (new-with_item provider context actions config created item for_item made) c sha256
        seed item e name a encrypted
        (subst (λ x. IsKey name x.encryption_context)
          (sym (new-eq-ok provider context actions config created)) is_key)
        found

  -- Whichever of the encrypted requests for a table come back as unprocessed, in any order and number, they are
  -- turned into the requests that they were encrypted of, and no exception is raised. The configuration must be
  -- one that its constructor made and must name a partition key, the comparison must hold of each value and
  -- itself, each request that puts an item must have values for the keys, and no two different requests may put
  -- items with matching keys.
  pub encrypt_requests-are_reverted :
      (same_value : Equality)
      → ((a : Attribute) → same_value a a ≡ true)
      → (x : ℕ) (name : Text) → context.partition_key_name ≡ some (x ∷ name)
      → (originals encrypted unprocessed : List WriteRequest)
      → Identified same_value config originals
      → (seed : ℕ) (positions : List ℕ)
      → encrypt_requests (encrypt_dynamodb_item c sha256) seed config originals ≡ ok encrypted
      → pick encrypted positions ≡ some unprocessed
      → (plain : List WriteRequest) × (pick originals positions ≡ some plain)
        × (revert_operations same_value config originals unprocessed ≡ ok plain)
  encrypt_requests-are_reverted same_value reflexive x name partition originals encrypted
        unprocessed identified seed positions =
      revert_operations-encrypt_requests same_value config x name
        (ap (λ (z : CryptoConfig). z.encryption_context.partition_key_name)
            (sym (new-eq-ok provider context actions config created))
          ∙ partition)
        (encrypt_dynamodb_item c sha256) encrypt_value-keeps_keys reflexive originals identified
        seed encrypted unprocessed positions
