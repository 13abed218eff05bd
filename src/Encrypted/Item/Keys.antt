-- ===== src/Encrypted/Item/Keys.antt =====
-- The keys of the primary index are never encrypted.
use aws_dynamodb_encryption.Prelude.{
  ℕ, Text, Bytes, Bool, true, false, not, Option, none, some, ◌≡◌, ◌⊎◌, inl, inr, sym, subst, refl,
  some-injective, Bool-cases, if_true, ◌∙◌,
}
use aws_dynamodb_encryption.Result.{
  ok, >>=-eq-ok, ok-injective, guard-eq-ok, invalid_argument_error,
}
use aws_dynamodb_encryption.Dict.{get}
use aws_dynamodb_encryption.Formatting.Attribute.{Attribute, Item, Codec}
use aws_dynamodb_encryption.Structures.EncryptionContext.{EncryptionContext}
use aws_dynamodb_encryption.Structures.AttributeActions.{AttributeActions}
use aws_dynamodb_encryption.Crypto.Materials.{CryptographicMaterialsProvider}
use aws_dynamodb_encryption.Encrypted.CryptoConfig
use aws_dynamodb_encryption.Encrypted.CryptoConfig.{CryptoConfig, encrypts, check_key}
use aws_dynamodb_encryption.Encrypted.Item.{encrypt_dynamodb_item}
use aws_dynamodb_encryption.Encrypted.Item.Protection.{encrypt_dynamodb_item-Shows}

-- The name is that of a key of the primary index.
abbrev pub IsKey : Text → EncryptionContext → Type 0
IsKey name context = (context.partition_key_name ≡ some name) ⊎ (context.sort_key_name ≡ some name)

not-true : (b : Bool) → not b ≡ true → b ≡ false
not-true true h = cc
not-true false h = refl

check_key-encrypts :
    (actions : AttributeActions) (key : Option Text) (name : Text) {x : Unit {0}}
    → key ≡ some name
    → check_key actions key ≡ ok x
    → encrypts actions name ≡ false
unfolding check_key
check_key-encrypts actions none name e h = cc
check_key-encrypts actions (some key) name e h =
    subst (λ k. encrypts actions k ≡ false) (some-injective e)
      (not-true (encrypts actions key)
        (guard-eq-ok (not (encrypts actions key)) invalid_argument_error h))

untouched :
    (c : Codec) (sha256 : Bytes → Bytes) (seed : ℕ) (item e : Item) (config : CryptoConfig)
    → config.attribute_actions.take_no_actions ≡ true
    → encrypt_dynamodb_item c sha256 seed item config ≡ ok e
    → item ≡ e
unfolding encrypt_dynamodb_item
untouched c sha256 seed item e config t h =
    ok-injective (sym (if_true config.attribute_actions.take_no_actions _ _ t) ∙ h)

module _ (provider : CryptographicMaterialsProvider) (context : EncryptionContext)
    (actions : AttributeActions) (config : CryptoConfig)
    (created : CryptoConfig.new provider context actions ≡ ok config) where
  pub new-encrypts :
      (name : Text) → IsKey name context → encrypts config.attribute_actions name ≡ false
  unfolding CryptoConfig.new
  new-encrypts name is_key =
      let (_, p, h) = >>=-eq-ok (check_key actions context.partition_key_name) _ created in
      let (_, q, h') = >>=-eq-ok (check_key actions context.sort_key_name) _ h in
      subst (λ c. encrypts c.attribute_actions name ≡ false) (ok-injective h')
        (elim is_key [
          | inl e ↦ check_key-encrypts actions context.partition_key_name name e p
          | inr e ↦ check_key-encrypts actions context.sort_key_name name e q
        ])

  -- Under a configuration that the constructor made, the partition key and the sort key that the context
  -- names stand in an encrypted item as they stood in the item, so that it is found by them, whether or
  -- not some action is to be taken.
  pub encrypt_dynamodb_item-keeps_keys :
      (c : Codec) (sha256 : Bytes → Bytes) (seed : ℕ) (item e : Item) (name : Text) (a : Attribute)
      → encrypt_dynamodb_item c sha256 seed item config ≡ ok e
      → IsKey name context
      → get name item ≡ some a
      → get name e ≡ some a
  encrypt_dynamodb_item-keeps_keys c sha256 seed item e name a h is_key found =
      elim (Bool-cases config.attribute_actions.take_no_actions) [
        | inl t ↦ subst (λ x. get name x ≡ some a) (untouched c sha256 seed item e config t h) found
        | inr f ↦
            let (m, has_materials, shows, _, _) =
              encrypt_dynamodb_item-Shows c sha256 seed item e config f h in
            (shows name a found).plain (new-encrypts name is_key)
      ]
