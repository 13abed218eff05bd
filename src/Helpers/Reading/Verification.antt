-- ===== src/Helpers/Reading/Verification.antt =====
-- What a scan or a query returns was verified, item by item.
use aws_dynamodb_encryption.Prelude.{
  Bytes, false, Option, some, List, [], ◌∷◌, ◌≡◌, ◌∙◌, ap, sym, refl, subst,
}
use aws_dynamodb_encryption.Result.{
  Result, ok, err, >>=-eq-ok, ok-injective, or_raise, or_raise-eq-ok, key_error,
}
use aws_dynamodb_encryption.Formatting.Attribute.{Item, Codec}
use aws_dynamodb_encryption.Encrypted.CryptoConfig
use aws_dynamodb_encryption.Encrypted.CryptoConfig.{CryptoConfig}
use aws_dynamodb_encryption.Encrypted.CryptoConfig.Creation.{new-eq-ok}
use aws_dynamodb_encryption.Encrypted.Item.{decrypt_dynamodb_item}
use aws_dynamodb_encryption.Encrypted.Item.Protection.{IsVerified, decrypt_dynamodb_item-IsVerified}
use aws_dynamodb_encryption.Helpers.Reading.{
  Arguments, Step, and_then, validate_get_arguments, decrypt_value, decrypt_list_of_items,
  decrypt_items, decrypt_multi_get,
}

and_then-eq-ok {ℓ κ μ} :
    {S : Type ℓ} {A : Type κ} {B : Type μ} (r : Result A × S) (next : A → Step S B) {b : B}
    → (and_then r next).0 ≡ ok b
    → (a : A) × (r.0 ≡ ok a) × ((next a (r.1)).0 ≡ ok b)
unfolding and_then
and_then-eq-ok (ok a, s) next h = (a, refl, h)
and_then-eq-ok (err e, s) next h = absurd (cc)

-- The actions for an item are those of the configuration.
with_item-actions :
    (config for_item : CryptoConfig) (item : Item)
    → CryptoConfig.with_item config item ≡ ok for_item
    → config.attribute_actions ≡ for_item.attribute_actions
unfolding CryptoConfig.with_item CryptoConfig.copy
with_item-actions config for_item item h =
    let (copied, created, q) =
      >>=-eq-ok
        (CryptoConfig.new config.materials_provider config.encryption_context
          config.attribute_actions)
        _ h in
    ap (λ (c : CryptoConfig). c.attribute_actions)
      (new-eq-ok config.materials_provider config.encryption_context config.attribute_actions copied
        created)
    ∙ ap (λ (c : CryptoConfig). c.attribute_actions) (ok-injective q)

module _ (c : Codec) (sha256 : Bytes → Bytes) where
  -- The items, each with the one that it was decrypted of, under the configuration for it.
  abbrev pub AllVerified : CryptoConfig → List Item → List Item → Type 0
  AllVerified config [] [] = Unit
  AllVerified config (e ∷ encrypted) (i ∷ items) =
      ((for_item : CryptoConfig) × (CryptoConfig.with_item config e ≡ ok for_item)
        × IsVerified c sha256 e i for_item)
      × AllVerified config encrypted items
  AllVerified config _ _ = ⊥

  decrypt_list_of_items-AllVerified :
      (config : CryptoConfig) (encrypted items : List Item)
      → config.attribute_actions.take_no_actions ≡ false
      → decrypt_list_of_items (decrypt_dynamodb_item c sha256) config encrypted ≡ ok items
      → AllVerified config encrypted items
  unfolding decrypt_list_of_items decrypt_value
  decrypt_list_of_items-AllVerified config [] items active h =
      subst (AllVerified config []) (ok-injective h) tt
  decrypt_list_of_items-AllVerified config (e ∷ encrypted) items active h =
      let (first, is_first, h₁) =
        >>=-eq-ok (decrypt_value (decrypt_dynamodb_item c sha256) config e) _ h in
      let (for_item, made, decrypted) = >>=-eq-ok (CryptoConfig.with_item config e) _ is_first in
      let (rest, others, h₂) =
        >>=-eq-ok (decrypt_list_of_items (decrypt_dynamodb_item c sha256) config encrypted) _ h₁ in
      let still_active =
        ap (λ a. a.take_no_actions) (sym (with_item-actions config for_item e made)) ∙ active in
      subst (AllVerified config (e ∷ encrypted)) (ok-injective h₂) (
        (
          for_item,
          made,
          decrypt_dynamodb_item-IsVerified c sha256 e first for_item still_active decrypted,
        ),
        decrypt_list_of_items-AllVerified config encrypted rest active others,
      )

  -- Where the configuration takes some action (take_no_actions is false) and a scan or a query returns items,
  -- its arguments were valid, and each item was decrypted of the one at its place in the response, whose
  -- signature was verified under the configuration for that item over its attributes with an action other than
  -- DO_NOTHING.
  pub decrypt_multi_get-AllVerified {ℓ} :
      {S : Type ℓ} (crypto_config_method : Arguments → Step S CryptoConfig)
      (read_method : Arguments → Result (Option (List Item))) (kwargs : Arguments) (state after : S)
      (config : CryptoConfig) (items : List Item)
      → crypto_config_method kwargs state ≡ (ok config, after)
      → config.attribute_actions.take_no_actions ≡ false
      → (decrypt_multi_get
          (decrypt_dynamodb_item c sha256)
          crypto_config_method
          read_method
          kwargs
          state).0
        ≡ ok items
      → (encrypted : List Item) × (read_method kwargs ≡ ok (some encrypted))
        × (validate_get_arguments kwargs ≡ ok tt)
        × AllVerified config encrypted items
  unfolding decrypt_multi_get decrypt_items
  decrypt_multi_get-AllVerified crypto_config_method read_method kwargs state after config items
        configured active h =
      let (_, valid, h₁) = and_then-eq-ok (validate_get_arguments kwargs, state) _ h in
      let (used, is_used, h₂) = and_then-eq-ok (crypto_config_method kwargs state) _ h₁ in
      let (response, answered, h₃) = >>=-eq-ok (read_method kwargs) _ h₂ in
      let (encrypted, is_found, h₄) = >>=-eq-ok (or_raise key_error response) _ h₃ in
      let same : used ≡ config = ok-injective (sym is_used ∙ ap (λ r. r.0) configured) in
      (
        encrypted,
        answered ∙ ap ok (or_raise-eq-ok key_error response is_found),
        valid,
        decrypt_list_of_items-AllVerified config encrypted items active (
            ap (λ x. decrypt_list_of_items (decrypt_dynamodb_item c sha256) x encrypted) (sym same)
            ∙ h₄),
      )
