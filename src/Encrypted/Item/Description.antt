-- ===== src/Encrypted/Item/Description.antt =====
-- The material description that is written to an item: what the encryptor adds to that of the
-- materials.
use aws_dynamodb_encryption.Prelude.{
  Text, Bool, true, false, none, some, ap, sym, subst, ◌≡◌, ◌∙◌, refl, text_eq, if◌then◌else◌, ◌++◌,
  ℕ,
}
use aws_dynamodb_encryption.Result.{
  Result, ok, err, >>=-eq-ok, ok-injective, not_implemented_error, attribute_error,
  encryption_error,
}
use aws_dynamodb_encryption.Dict.{Dict, get, put, IsDict, get-put, get-put_self, put-IsDict}
use aws_dynamodb_encryption.CryptoAction.{encrypt_and_sign}
use aws_dynamodb_encryption.Identifiers.MaterialDescriptionKeys.{
  attribute_encryption_mode, signing_key_algorithm, cbc_pkcs5_attribute_encryption,
}
use aws_dynamodb_encryption.Formatting.Attribute.{Item, Codec, IsLossless}
use aws_dynamodb_encryption.Structures.AttributeActions.{AttributeActions, contains_action}
use aws_dynamodb_encryption.Crypto.Materials.{DelegatedKey, Decrypts}
use aws_dynamodb_encryption.Encrypted.Item.{
  add_signing_algorithm, algorithm_descriptor, encrypt_attributes, encrypted_attributes,
  decrypted_attributes, decrypt_attributes,
}
use aws_dynamodb_encryption.Encrypted.Item.Attributes.{
  restored, restored_plain, get-encrypt_attributes, decrypt_attributes-encrypt_attributes,
}

pub signing-ne-mode : text_eq signing_key_algorithm attribute_encryption_mode ≡ false
unfolding text_eq
signing-ne-mode = refl

module _ (d e : Dict Text) where
  pub get-add_signing_algorithm :
      (r : Result Text) (name : Text)
      → add_signing_algorithm r d ≡ ok e
      → text_eq signing_key_algorithm name ≡ false
      → get name e ≡ get name d
  unfolding add_signing_algorithm
  get-add_signing_algorithm (ok algorithm) name h ne = rw (← ok-injective h, get-put, ne)
  get-add_signing_algorithm (err not_implemented_error) name h ne = rw (← ok-injective h)
  get-add_signing_algorithm (err _) name h ne = cc

  pub add_signing_algorithm-IsDict :
      (r : Result Text) → add_signing_algorithm r d ≡ ok e → IsDict d → IsDict e
  unfolding add_signing_algorithm
  add_signing_algorithm-IsDict (ok algorithm) h g =
      rw (← ok-injective h) (put-IsDict signing_key_algorithm algorithm d g)
  add_signing_algorithm-IsDict (err not_implemented_error) h g = rw (← ok-injective h) g
  add_signing_algorithm-IsDict (err _) h g = absurd (cc)

-- Two accesses to a key: neither has one, or the keys are related.
pub data KeysMatch (R : DelegatedKey → DelegatedKey → Type 0)
    : Result DelegatedKey → Result DelegatedKey → Type 0 where
  absent : KeysMatch R (err attribute_error) (err attribute_error)
  present : {k l : DelegatedKey} → R k l → KeysMatch R (ok k) (ok l)

module _ (c : Codec) (seed : ℕ) (actions : AttributeActions) (inner inner' : Dict Text)
    (item encrypted : Item) where
  -- How the encrypted attributes and the inner description came about.
  abbrev pub Parts : Result DelegatedKey → Type 0
  Parts (ok k) =
      (encrypt_attributes c seed actions k (k.algorithm ++ cbc_pkcs5_attribute_encryption) item
        ≡ ok encrypted)
      × (put attribute_encryption_mode cbc_pkcs5_attribute_encryption inner ≡ inner')
  Parts (err e) =
      (contains_action actions encrypt_and_sign ≡ false) × (item ≡ encrypted) × (inner ≡ inner')

  encrypted_plain :
      (b : Bool)
      → if◌then◌else◌ {A = Result (Item × Dict Text)} b (err encryption_error) (ok (item, inner))
        ≡ ok (encrypted, inner')
      → (b ≡ false) × (item ≡ encrypted) × (inner ≡ inner')
  encrypted_plain true h = absurd (cc)
  encrypted_plain false h = (refl, ap (λ p. p.0) (ok-injective h), ap (λ p. p.1) (ok-injective h))

  pub encrypted_attributes-eq-ok :
      (key : Result DelegatedKey)
      → encrypted_attributes c seed actions key inner item ≡ ok (encrypted, inner')
      → Parts key
  unfolding encrypted_attributes
  encrypted_attributes-eq-ok (err attribute_error) h =
      encrypted_plain (contains_action actions encrypt_and_sign) h
  encrypted_attributes-eq-ok (err _) h = absurd (cc)
  encrypted_attributes-eq-ok (ok k) h =
      let (e, p, q) =
        >>=-eq-ok
          (encrypt_attributes c seed actions k (k.algorithm ++ cbc_pkcs5_attribute_encryption) item)
          _ h in
      (rw (← ap (λ r. r.0) (ok-injective q)) p, ap (λ r. r.1) (ok-injective q))

  module _ (key : Result DelegatedKey)
      (done : encrypted_attributes c seed actions key inner item ≡ ok (encrypted, inner')) where
    pub encrypted_attributes-IsDict : IsDict inner → IsDict inner'
    encrypted_attributes-IsDict g = go key (encrypted_attributes-eq-ok key done)
      where
        go : (r : Result DelegatedKey) → Parts r → IsDict inner'
        go (ok k) p =
            rw (← p.1) (put-IsDict attribute_encryption_mode cbc_pkcs5_attribute_encryption inner g)
        go (err e) p = rw (← p.2) g

    pub get-encrypted_attributes : (name : Text) → get name item ≡ none → get name encrypted ≡ none
    get-encrypted_attributes name g = go key (encrypted_attributes-eq-ok key done)
      where
        go : (r : Result DelegatedKey) → Parts r → get name encrypted ≡ none
        go (ok k) p = get-encrypt_attributes c seed actions k _ item encrypted name (p.0) g
        go (err e) p = rw (← p.1) g

    -- The inner description says what that of the materials says, but for the mode.
    pub get-inner :
        (name : Text)
        → text_eq attribute_encryption_mode name ≡ false
        → get name inner' ≡ get name inner
    get-inner name ne = go key (encrypted_attributes-eq-ok key done)
      where
        go : (r : Result DelegatedKey) → Parts r → get name inner' ≡ get name inner
        go (ok k) p = rw (← p.1) (rw (get-put, ne))
        go (err e) p = rw p.2

  -- Decryption of the encrypted attributes, under a description that names the mode as the inner one
  -- does.
  pub decrypted_attributes-encrypted_attributes :
      (lossless : IsLossless c) (description : Dict Text) (key key' : Result DelegatedKey)
      → KeysMatch Decrypts key key'
      → encrypted_attributes c seed actions key inner item ≡ ok (encrypted, inner')
      → get attribute_encryption_mode description ≡ get attribute_encryption_mode inner'
      → decrypted_attributes c actions description key' encrypted ≡ ok (restored c actions item)
  unfolding decrypted_attributes algorithm_descriptor
  decrypted_attributes-encrypted_attributes lossless description key key' absent h same =
      let (plain, e, _) = encrypted_attributes-eq-ok (err attribute_error) h in
      rw plain (ap ok (sym e ∙ sym (restored_plain c actions item plain)))
  decrypted_attributes-encrypted_attributes lossless description key key' (present {k} {l} match) h
        same =
      let (p, q) = encrypted_attributes-eq-ok (ok k) h in
      let mode : get attribute_encryption_mode description ≡ some cbc_pkcs5_attribute_encryption =
        same
        ∙ rw (← q) (get-put_self attribute_encryption_mode cbc_pkcs5_attribute_encryption inner) in
      rw mode (
        subst
          (λ a.
            decrypt_attributes c actions l (a ++ cbc_pkcs5_attribute_encryption) encrypted
            ≡ ok (restored c actions item))
          (sym match.same_algorithm)
          (decrypt_attributes-encrypt_attributes c lossless seed actions k l
            (k.algorithm ++ cbc_pkcs5_attribute_encryption) item encrypted match.decrypt-encrypt p))
