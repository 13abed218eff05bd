-- ===== src/Providers/Wrapped/Contract.antt =====
-- The provider of wrapped materials keeps the contract of materials providers.
use aws_dynamodb_encryption.Prelude.{
  ℕ, Text, true, none, some, is_some, ◌≡◌, ◌∙◌, ap, sym, refl, subst, text_eq, arith,
}
use aws_dynamodb_encryption.Result.{
  ok, ◌>>=◌, ◌>>◌, >>=-eq-ok, guard, ok-injective, wrapping_error, unwrapping_error,
}
use aws_dynamodb_encryption.Texts.{split_once}
use aws_dynamodb_encryption.Builtins.{Builtins, IsDocumented}
use aws_dynamodb_encryption.Dict.{Dict, get, IsDict, put_all, put_all-IsDict}
use aws_dynamodb_encryption.Dict.Sorted.{get-put_all}
use aws_dynamodb_encryption.Identifiers.MaterialDescriptionKeys.{
  wrapped_data_key, content_encryption_algorithm, content_key_wrapping_algorithm,
}
use aws_dynamodb_encryption.Structures.EncryptionContext.{EncryptionContext}
use aws_dynamodb_encryption.Structures.AttributeActions.{AttributeActions}
use aws_dynamodb_encryption.Crypto.Materials.{
  DelegatedKey, WrappingKey, CryptographicMaterials, Decrypts, Verifies, Unwraps,
}
use aws_dynamodb_encryption.Jce.Library.{Cryptography, IsSound}
use aws_dynamodb_encryption.Jce.LocalKey.{is_symmetric}
use aws_dynamodb_encryption.Jce.LocalKey.Contracts.{content_key}
use aws_dynamodb_encryption.Materials.Wrapped.{
  Arguments, content_key_algorithm, prepare_content_key, wrapped_cryptographic_materials,
}
use aws_dynamodb_encryption.Materials.Wrapped.Reopening.{
  Agree, prepare_content_key-reopens, prepare_content_key-none, prepare_content_key-IsDict,
}
use aws_dynamodb_encryption.Encrypted.CryptoConfig
use aws_dynamodb_encryption.Encrypted.CryptoConfig.{CryptoConfig}
use aws_dynamodb_encryption.Encrypted.Item.Description.{present}
use aws_dynamodb_encryption.Encrypted.Item.RoundTrip.{
  Extends, MaterialsMatch, Reopens, with_description,
}
use aws_dynamodb_encryption.Providers.Wrapped.{
  WrappedCryptographicMaterialsProvider, build_materials, encryption_materials,
  decryption_materials, as_provider,
}

-- The materials for a prepared content key.
abbrev pub materials_of : Arguments → DelegatedKey → Dict Text → CryptographicMaterials
materials_of keys k description = record {
  material_description = description;
  encryption_key = ok k;
  decryption_key = ok k;
  signing_key = ok (keys.signing_key);
  verification_key = ok (keys.signing_key);
}

-- What the materials come from.
materials-eq-ok :
    (p : Builtins) (l : Cryptography) (seed : ℕ) (keys : Arguments) (d : Dict Text)
    {m : CryptographicMaterials}
    → wrapped_cryptographic_materials p l seed keys d ≡ ok m
    → (k : DelegatedKey) × (e : Dict Text) × (prepare_content_key p l seed keys d ≡ ok (k, e))
      × (materials_of keys k e ≡ m)
unfolding wrapped_cryptographic_materials
materials-eq-ok p l seed keys d h =
    let (x, q, r) = >>=-eq-ok (prepare_content_key p l seed keys d) _ h in
    (x.0, x.1, q, ok-injective r)

-- A name that the description of the item has as it was written, over the provider's own description.
agreed :
    (name : Text) (own context d e : Dict Text)
    → IsDict context
    → IsDict d
    → (get name e ≡ none → get name (put_all own context) ≡ none)
    → get name d ≡ get name e
    → get name (put_all own d) ≡ get name e
agreed name own context d e h g kept same =
    ground (arith, get-put_all name own context h, get-put_all name own d g, kept, same)

module _ (p : Builtins) (l : Cryptography) (seed again : ℕ) (documented : IsDocumented p)
    (sound : IsSound l) (w u : WrappingKey) (self : WrappedCryptographicMaterialsProvider)
    (wraps : self.keys.wrapping_key ≡ some w) (unwraps : self.keys.unwrapping_key ≡ some u)
    (match : Unwraps (content_key l) w u)
    (signs : Verifies self.keys.signing_key self.keys.signing_key)
    (own_IsDict : IsDict self.material_description) where
  encryption_materials-eq-ok :
      (context : EncryptionContext) (m : CryptographicMaterials)
      → encryption_materials p l seed self context ≡ ok m
      → (k : DelegatedKey) × (e : Dict Text) × (prepare_content_key p l seed self.keys
            (put_all self.material_description context.material_description)
          ≡ ok (k, e))
        × (materials_of self.keys k e ≡ m)
  unfolding encryption_materials build_materials
  encryption_materials-eq-ok context m h =
      materials-eq-ok p l seed self.keys
        (put_all self.material_description context.material_description)
        (ap (λ o. do guard (is_some o) wrapping_error; build_materials p l seed self context)
            (sym wraps)
          ∙ h)

  decryption_materials-prepared :
      (context : EncryptionContext) (k : DelegatedKey) (e : Dict Text)
      → prepare_content_key p l again self.keys
          (put_all self.material_description context.material_description)
        ≡ ok (k, e)
      → decryption_materials p l again self context ≡ ok (materials_of self.keys k e)
  unfolding decryption_materials build_materials wrapped_cryptographic_materials
  decryption_materials-prepared context k e h =
      ap (λ o. do guard (is_some o) unwrapping_error; build_materials p l again self context)
        unwraps
      ∙ ap
          (λ r. do
            (content_key, description) ← r
            ok (materials_of self.keys content_key description))
          h

  agrees :
      (context : EncryptionContext) (d e : Dict Text) (k : DelegatedKey)
      → IsDict context.material_description
      → IsDict d
      → Extends d e
      → prepare_content_key p l seed self.keys
          (put_all self.material_description context.material_description)
        ≡ ok (k, e)
      → Agree (put_all self.material_description d) e
  unfolding text_eq
  agrees context d e k h g extends q =
      let none_kept : (name : Text)
          → get name e ≡ none
          → get name (put_all self.material_description context.material_description) ≡ none =
        λ name.
          prepare_content_key-none p l documented sound self.keys w u wraps unwraps match seed _ e k
            name q in
      let same : (name : Text)
          → get name d ≡ get name e
          → get name (put_all self.material_description d) ≡ get name e =
        λ name.
          agreed name self.material_description context.material_description d e h g
            (none_kept name) in
      record {
        same_key = same wrapped_data_key (extends wrapped_data_key refl refl);
        same_algorithm =
            same content_encryption_algorithm (extends content_encryption_algorithm refl refl);
        same_wrapping =
            same content_key_wrapping_algorithm (extends content_key_wrapping_algorithm refl refl);
      }

  materials_of-match :
      (k : DelegatedKey) (e f : Dict Text)
      → Decrypts k k
      → MaterialsMatch (materials_of self.keys k e) (materials_of self.keys k f)
  materials_of-match k e f h = record {
    contents = present h;
    signatures = λ j g. (
      self.keys.signing_key,
      refl,
      subst (λ x. Verifies x self.keys.signing_key) (ok-injective g) signs,
    );
  }

  -- The provider of wrapped materials reopens what it encrypted: from every description that extends the one
  -- that its encryption materials were stored with, it gives materials with the same content key, which decrypt
  -- and verify what those encrypted and signed, whatever random bytes either call draws. The unwrapping key must unwrap what the wrapping key wrapped, the
  -- signing key must verify what it signed, the descriptions of the provider and of the context must be dicts,
  -- the algorithm of the content key must be symmetric, and the parameters must do what is documented of them.
  pub wrapped_provider-Reopens :
      (context : EncryptionContext) (actions : AttributeActions)
      → IsDict context.material_description
      → is_symmetric l p
          (split_once b'/' (
            content_key_algorithm
              (put_all self.material_description context.material_description))).0
        ≡ true
      → Reopens (record {
        materials_provider = as_provider p l seed again self;
        encryption_context = context;
        attribute_actions = actions;
      })
  unfolding CryptoConfig.encryption_materials
  wrapped_provider-Reopens context actions h s = record {
    description_IsDict = λ m made.
        let (k, e, q, is_m) = encryption_materials-eq-ok context m made in
        subst (λ x. IsDict x.material_description) is_m
          (prepare_content_key-IsDict p l documented sound self.keys w u wraps unwraps match seed _
            e k q
            (put_all-IsDict self.material_description context.material_description own_IsDict));
    reopen = λ m d made is_dict extends.
        let (k, e, q, is_m) = encryption_materials-eq-ok context m made in
        let extended : Extends d e =
          subst (λ x. Extends d x.material_description) (sym is_m) extends in
        let f = put_all self.material_description d in
        let (reopened, decrypts) =
          prepare_content_key-reopens p l documented sound self.keys w u wraps unwraps match seed
            again (put_all self.material_description context.material_description) e f k s q
            (agrees context d e k h is_dict extended q) in
        (
          materials_of self.keys k f,
          decryption_materials-prepared (with_description context d) k f reopened,
          subst (λ x. MaterialsMatch x (materials_of self.keys k f)) is_m
              (materials_of-match k e f decrypts),
        );
  }
