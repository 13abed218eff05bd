-- ===== src/Encrypted/Item/Protection.antt =====
-- What an encrypted item shows, and what a decrypted item rests on.
use aws_dynamodb_encryption.Prelude.{
  ℕ, Text, Bytes, true, false, some, [], ◌∷◌, ◌++◌, if◌then◌else◌, if_false, ◌≡◌, ◌∙◌, refl, ap,
  sym, subst, text_eq, text_eq→eq, text_eq_refl, if_true, is_some, true-ne-false, some-injective,
  suc, Bool-cases, inl, inr,
}
use aws_dynamodb_encryption.Result.{
  Result, ok, err, >>=-eq-ok, ok-injective, or_raise, or_raise-eq-ok, decryption_error,
}
use aws_dynamodb_encryption.Dict.{
  Dict, get, put, remove, get-put, get-put_self, get-nil-ne-some, get_here, get_there, text_eq-get,
}
use aws_dynamodb_encryption.Identifiers.ReservedAttributes
use aws_dynamodb_encryption.Identifiers.MaterialDescriptionKeys.{cbc_pkcs5_attribute_encryption}
use aws_dynamodb_encryption.Formatting.Attribute.{Attribute, Item, Codec, binary}
use aws_dynamodb_encryption.Structures.AttributeActions.{AttributeActions}
use aws_dynamodb_encryption.Crypto.Materials.{DelegatedKey, CryptographicMaterials}
use aws_dynamodb_encryption.Crypto.Encryption.{encrypt_attribute}
use aws_dynamodb_encryption.Crypto.Authentication.{verify_item_signature}
use aws_dynamodb_encryption.Encrypted.CryptoConfig
use aws_dynamodb_encryption.Encrypted.CryptoConfig.{CryptoConfig, encrypts}
use aws_dynamodb_encryption.Encrypted.Item.{
  encrypt_attributes, encrypted_attributes, decrypted_attributes, encrypt_dynamodb_item,
  describe_context, verify_and_decrypt, verify_and_decrypt_item, decrypt_dynamodb_item,
}
use aws_dynamodb_encryption.Encrypted.Item.Attributes.{
  encrypt_attributes-eq-ok, encrypts-contains_action,
}
use aws_dynamodb_encryption.Encrypted.Item.Description.{encrypted_attributes-eq-ok}
use aws_dynamodb_encryption.Encrypted.Item.Steps.{
  description-ne-signature, sign_and_describe-eq-ok, encrypt_and_sign_item-eq-ok,
}

module _ (c : Codec) (sha256 : Bytes → Bytes) where
  -- The verification that a decrypted item rests on, with the key and the materials that it used.
  pub record IsVerified (item p : Item) (config : CryptoConfig) : Type 0 where
    pub signature : Attribute
    pub copied : CryptoConfig
    pub inner : CryptoConfig
    pub materials : CryptographicMaterials
    pub key : DelegatedKey
    pub has_signature : get ReservedAttributes.signature item ≡ some signature
    pub is_copied : CryptoConfig.copy config ≡ ok copied
    pub is_inner :
        describe_context c
          (get ReservedAttributes.material_description (remove ReservedAttributes.signature item))
          copied
        ≡ ok inner
    pub has_materials : CryptoConfig.decryption_materials inner ≡ ok materials
    pub has_key : materials.verification_key ≡ ok key
    pub verified :
        verify_item_signature c sha256 signature
          (remove ReservedAttributes.material_description
            (remove ReservedAttributes.signature item))
          key
          inner.encryption_context.table_name
          inner.attribute_actions
        ≡ ok tt
    pub decrypted :
        decrypted_attributes c inner.attribute_actions inner.encryption_context.material_description
          materials.decryption_key
          (remove ReservedAttributes.material_description
            (remove ReservedAttributes.signature item))
        ≡ ok p

  -- Where some action is to be taken (take_no_actions is false) and decryption returns, the item holds a
  -- signature, and the verification key of the materials, found under the item's own description, verified that
  -- signature over the string to sign of the item without the two reserved attributes, which covers the
  -- attributes whose action is not DO_NOTHING. What is returned is the decryption of the same item: of the
  -- attributes with the action DO_NOTHING nothing is verified.
  pub decrypt_dynamodb_item-IsVerified :
      (item p : Item) (config : CryptoConfig)
      → config.attribute_actions.take_no_actions ≡ false
      → decrypt_dynamodb_item c sha256 item config ≡ ok p
      → IsVerified item p config
  unfolding decrypt_dynamodb_item verify_and_decrypt_item verify_and_decrypt
  decrypt_dynamodb_item-IsVerified item p config some_action h =
      let started = sym (if_false config.attribute_actions.take_no_actions _ _ some_action) ∙ h in
      let (signature, p₁, h₁) =
        >>=-eq-ok (or_raise decryption_error (get ReservedAttributes.signature item)) _ started in
      let (copied, p₂, h₂) = >>=-eq-ok (CryptoConfig.copy config) _ h₁ in
      let (inner, p₃, h₃) = >>=-eq-ok (describe_context c _ copied) _ h₂ in
      let (materials, p₄, h₄) = >>=-eq-ok (CryptoConfig.decryption_materials inner) _ h₃ in
      let (key, p₅, h₅) = >>=-eq-ok materials.verification_key _ h₄ in
      let (_, p₆, h₆) = >>=-eq-ok (verify_item_signature c sha256 signature _ key _ _) _ h₅ in
      record {
        signature = signature;
        copied = copied;
        inner = inner;
        materials = materials;
        key = key;
        has_signature = or_raise-eq-ok decryption_error (get ReservedAttributes.signature item) p₁;
        is_copied = p₂;
        is_inner = p₃;
        has_materials = p₄;
        has_key = p₅;
        verified = p₆;
        decrypted = h₆;
      }

-- What stands in an encrypted item for an attribute: the attribute itself, or what the key made of its
-- serialized form under its name.
module _ (c : Codec) (actions : AttributeActions) (access : Result DelegatedKey) where
  pub record Shows (name : Text) (a : Attribute) (e : Item) : Type 0 where
    pub plain : encrypts actions name ≡ false → get name e ≡ some a
    pub hidden :
        encrypts actions name ≡ true
        → (key : DelegatedKey) × (seed : ℕ) × (x : Attribute) × (access ≡ ok key)
          × (encrypt_attribute c seed name a key (key.algorithm ++ cbc_pkcs5_attribute_encryption)
              ≡ ok x)
          × (get name e ≡ some x)

  Shows-get :
      (name : Text) (a : Attribute) (e f : Item)
      → get name f ≡ get name e
      → Shows name a e
      → Shows name a f
  Shows-get name a e f same s = record {
    plain = λ h. same ∙ s.plain h;
    hidden = λ h. let (key, seed, x, p, q, g) = s.hidden h in (key, seed, x, p, q, same ∙ g);
  }

  module _ (key : DelegatedKey) (has_key : access ≡ ok key) where
    Shows-first :
        (seed : ℕ) (name : Text) (a x : Attribute) (rest : Item)
        → (if encrypts actions name
            then encrypt_attribute c seed name a key
                (key.algorithm ++ cbc_pkcs5_attribute_encryption)
            else ok a)
          ≡ ok x
        → Shows name a ((name, x) ∷ rest)
    Shows-first seed name a x rest p = record {
      plain = λ h.
          get_here name name x rest (text_eq_refl name)
          ∙ ap some (ok-injective (sym p ∙ if_false (encrypts actions name) _ _ h));
      hidden = λ h. (
        key,
        seed,
        x,
        has_key,
        sym (if_true (encrypts actions name) _ _ h) ∙ p,
        get_here name name x rest (text_eq_refl name),
      );
    }

    Shows-encrypt_attributes :
        (seed : ℕ) (item e : Item) (name : Text) (a : Attribute)
        → encrypt_attributes c seed actions key
            (key.algorithm ++ cbc_pkcs5_attribute_encryption)
            item
          ≡ ok e
        → get name item ≡ some a
        → Shows name a e
    Shows-encrypt_attributes seed [] e name a h g = absurd (get-nil-ne-some name g)
    Shows-encrypt_attributes seed ((k, b) ∷ item) e name a h g =
        let (x, rest, p, q, same) = encrypt_attributes-eq-ok c seed actions key _ k b item h in
        elim (Bool-cases (text_eq k name)) [
          | inl t ↦
              subst (λ n. Shows n a e) (text_eq→eq k name t)
                (subst (λ y. Shows k y e) (some-injective (sym (get_here name k b item t) ∙ g))
                  (subst (λ z. Shows k b z) same (Shows-first seed k b x rest p)))
          | inr f ↦
              subst (λ z. Shows name a z) same
                (Shows-get name a rest ((k, x) ∷ rest) (get_there name k x rest f) (
                  Shows-encrypt_attributes (suc seed) item rest name a q
                    (sym (get_there name k b item f) ∙ g)))
        ]

Shows-encrypted_attributes :
    (c : Codec) (seed : ℕ) (actions : AttributeActions) (inner inner' : Dict Text)
    (item encrypted : Item) (access : Result DelegatedKey) (name : Text) (a : Attribute)
    → encrypted_attributes c seed actions access inner item ≡ ok (encrypted, inner')
    → get name item ≡ some a
    → Shows c actions access name a encrypted
Shows-encrypted_attributes c seed actions inner inner' item encrypted (ok key) name a h g =
    Shows-encrypt_attributes c actions (ok key) key refl seed item encrypted name a
      ((encrypted_attributes-eq-ok c seed actions inner inner' item encrypted (ok key) h).0) g
Shows-encrypted_attributes c seed actions inner inner' item encrypted (err e) name a h g =
    let (plain, same, _) =
      encrypted_attributes-eq-ok c seed actions inner inner' item encrypted (err e) h in
    record {
      plain = λ _. rw (← same) g;
      hidden = λ t. absurd (true-ne-false t (encrypts-contains_action actions name plain));
    }

-- Where some action is to be taken and encryption returns, every attribute of the item that is not to
-- be encrypted stands in the result as it was, and in place of every other one stands the encryption of
-- its serialized form, under its name, by the key of the provider's materials; the result holds a
-- signature and a material description as well.
pub encrypt_dynamodb_item-Shows :
    (c : Codec) (sha256 : Bytes → Bytes) (seed : ℕ) (item e : Item) (config : CryptoConfig)
    → config.attribute_actions.take_no_actions ≡ false
    → encrypt_dynamodb_item c sha256 seed item config ≡ ok e
    → (m : CryptographicMaterials) × (CryptoConfig.encryption_materials config ≡ ok m)
      × ((name : Text) (a : Attribute)
          → get name item ≡ some a
          → Shows c config.attribute_actions m.encryption_key name a e)
      × (is_some (get ReservedAttributes.signature e) ≡ true)
      × (is_some (get ReservedAttributes.material_description e) ≡ true)
unfolding encrypt_dynamodb_item
encrypt_dynamodb_item-Shows c sha256 seed item e config some_action h =
    let actions = config.attribute_actions in
    let (m, encrypted, inner, g, g', has_materials, p, q) =
      encrypt_and_sign_item-eq-ok c sha256 seed item e config
        (sym (if_false actions.take_no_actions _ _ some_action) ∙ h) in
    let s =
      sign_and_describe-eq-ok c sha256 config.encryption_context.table_name actions m.signing_key
        encrypted inner e q in
    let md = ReservedAttributes.material_description in
    let sig = ReservedAttributes.signature in
    let kept : (name : Text)
        → text_eq md name ≡ false
        → text_eq sig name ≡ false
        → get name e ≡ get name encrypted =
      λ name ne ne'.
        subst (λ x. get name x ≡ get name encrypted) s.is_item
          (get-put md name s.attribute (put sig (binary s.signature) encrypted)
            ∙ if_false _ _ _ ne
            ∙ get-put sig name (binary s.signature) encrypted
            ∙ if_false _ _ _ ne') in
    (
      m,
      has_materials,
      λ name a has.
          Shows-get c actions m.encryption_key name a encrypted e
            (kept name (text_eq-get md name item g has) (text_eq-get sig name item g' has))
            (Shows-encrypted_attributes c seed actions m.material_description inner item encrypted
              m.encryption_key name a p has),
      subst (λ x. is_some (get sig x) ≡ true) s.is_item
          (ap is_some (
            get-put md sig s.attribute (put sig (binary s.signature) encrypted)
            ∙ if_false _ _ _ description-ne-signature
            ∙ get-put_self sig (binary s.signature) encrypted)),
      subst (λ x. is_some (get md x) ≡ true) s.is_item
          (ap is_some (get-put_self md s.attribute (put sig (binary s.signature) encrypted))),
    )
