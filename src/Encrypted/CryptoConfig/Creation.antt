-- ===== src/Encrypted/CryptoConfig/Creation.antt =====
-- What a configuration that the constructor made consists of, and its copies.
use aws_dynamodb_encryption.Prelude.{◌≡◌, ◌∙◌, ap, sym, subst}
use aws_dynamodb_encryption.Result.{ok, ◌>>=◌, >>=-eq-ok, ok-injective}
use aws_dynamodb_encryption.Formatting.Attribute.{Item}
use aws_dynamodb_encryption.Structures.EncryptionContext.{EncryptionContext}
use aws_dynamodb_encryption.Structures.AttributeActions.{AttributeActions}
use aws_dynamodb_encryption.Crypto.Materials.{CryptographicMaterialsProvider}
use aws_dynamodb_encryption.Encrypted.CryptoConfig
use aws_dynamodb_encryption.Encrypted.CryptoConfig.{CryptoConfig, check_key}

-- The configuration of its arguments.
abbrev pub config_of :
    CryptographicMaterialsProvider → EncryptionContext → AttributeActions → CryptoConfig
config_of provider context actions = record {
  materials_provider = provider;
  encryption_context = context;
  attribute_actions = actions;
}

module _ (provider : CryptographicMaterialsProvider) (context : EncryptionContext)
    (actions : AttributeActions) (config : CryptoConfig)
    (created : CryptoConfig.new provider context actions ≡ ok config) where
  -- The constructor keeps its arguments.
  pub new-eq-ok : config_of provider context actions ≡ config
  unfolding CryptoConfig.new
  new-eq-ok =
      let (_, _, h) = >>=-eq-ok (check_key actions context.partition_key_name) _ created in
      let (_, _, h') = >>=-eq-ok (check_key actions context.sort_key_name) _ h in ok-injective h'

  pub copy-new : CryptoConfig.copy config ≡ ok config
  unfolding CryptoConfig.copy
  copy-new =
      subst
        (λ c.
          CryptoConfig.new c.materials_provider c.encryption_context c.attribute_actions
          ≡ ok config)
        new-eq-ok created

  abbrev with_attributes : Item → CryptoConfig → CryptoConfig
  with_attributes item c = record c {
    encryption_context = record (c.encryption_context) { attributes = item };
  }

  -- The configuration for an item is one that the constructor makes.
  pub new-with_item :
      (item : Item) (for_item : CryptoConfig)
      → CryptoConfig.with_item config item ≡ ok for_item
      → CryptoConfig.new provider (record context { attributes = item }) actions ≡ ok for_item
  unfolding CryptoConfig.with_item CryptoConfig.new
  new-with_item item for_item h =
      let (_, p, h₁) = >>=-eq-ok (check_key actions context.partition_key_name) _ created in
      let (_, q, _) = >>=-eq-ok (check_key actions context.sort_key_name) _ h₁ in
      rw (p, q)
        (ap (λ c. ok (with_attributes item c)) new-eq-ok
          ∙ ap (λ r. do c ← r; ok (with_attributes item c)) (sym copy-new)
          ∙ h)
