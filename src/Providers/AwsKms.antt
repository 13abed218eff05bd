-- ===== src/Providers/AwsKms.antt =====
-- material_providers/aws_kms.py: AwsKmsCryptographicMaterialsProvider, with one client of AWS KMS for each
-- region. Its clients, their construction and the HKDF of the package `cryptography` are parameters.
pub mod Requests
pub mod Keys
pub mod Contract
pub mod Clients
use aws_dynamodb_encryption.Prelude.{
  ℕ, ◌/◌, Text, Bytes, text, List, [], ◌∷◌, Option, none, some, if◌then◌else◌, get_elem?,
}
use aws_dynamodb_encryption.Result.{
  Result, ok, err, ◌>>=◌, or_raise, value_error, type_error, attribute_error, other_error,
  wrapping_error, unwrapping_error, unknown_region_error,
}
use aws_dynamodb_encryption.Texts.{split_once, split_at_most}
use aws_dynamodb_encryption.Builtins.{Builtins}
use aws_dynamodb_encryption.Dict.{Dict, get, get_or, put}
use aws_dynamodb_encryption.Identifiers.MaterialDescriptionKeys.{
  wrapped_data_key, content_encryption_algorithm, content_key_wrapping_algorithm,
  item_signature_algorithm,
}
use aws_dynamodb_encryption.Formatting.Attribute.{
  Attribute, Item, binary, string, number, not_single, not_dict,
}
use aws_dynamodb_encryption.Structures.EncryptionContext.{EncryptionContext}
use aws_dynamodb_encryption.Crypto.Materials.{
  CryptographicMaterials, CryptographicMaterialsProvider,
}
use aws_dynamodb_encryption.Jce.Library.{symmetric, raw, Cryptography}
use aws_dynamodb_encryption.Jce.LocalKey
use aws_dynamodb_encryption.Jce.LocalKey.{JceNameLocalDelegatedKey, as_delegated_key}
use aws_dynamodb_encryption.Providers.KeyInfo.{KeyInfo, content_key_info_of, signing_key_info_of}
use aws_dynamodb_encryption.Materials.Raw.{raw_encryption_materials, raw_decryption_materials}

-- The encryption context of a request: a text, or None where a description lacks it.
abbrev pub KmsContext : Type 0
KmsContext = Dict (Option Text)

-- A client: generate_data_key(KeyId, NumberOfBytes, EncryptionContext, GrantTokens), whose first number
-- stands for the random bytes, and decrypt(CiphertextBlob, EncryptionContext, GrantTokens). `none` is a
-- ClientError, or a response without the field that is read; an error is any other exception.
pub record Client : Type 0 where
  pub generate_data_key : ℕ → Text → ℕ → KmsContext → List Text → Result (Option (Bytes × Bytes))
  pub decrypt : Bytes → KmsContext → List Text → Result (Option Bytes)

pub record Services : Type 0 where
  -- boto3.session.Session(region_name, botocore_session).client("kms", config)
  pub new_client : Text → Client
  -- HKDF(SHA256, length, salt=None, info).derive(initial_material), by material, length and info
  pub hkdf : Bytes → ℕ → Bytes → Result Bytes

-- Without grant tokens the requests have none.
pub record AwsKmsCryptographicMaterialsProvider : Type 0 where
  pub key_id : Text
  -- the region of the botocore session
  pub session_region : Option Text
  pub grant_tokens : List Text
  pub material_description : Dict Text
  pub regional_clients : Dict Client
  pub content_key_info : KeyInfo
  pub signing_key_info : KeyInfo

-- Some value, in the state that a request left.
abbrev pub Outcome {ℓ} : Type ℓ → Type ℓ
Outcome A = Result A × AwsKmsCryptographicMaterialsProvider

-- HkdfInfo
pub data HkdfInfo : Type 0 where
  for_encryption for_signing : HkdfInfo

abbrev pub info_bytes : HkdfInfo → Bytes
info_bytes for_encryption = text "Encryption"
info_bytes for_signing = text "Signing"

-- EncryptionContextKeys
abbrev pub context_content_encryption_algorithm : Text
context_content_encryption_algorithm = text "*amzn-ddb-env-alg*"

abbrev pub context_signature_algorithm : Text
context_signature_algorithm = text "*amzn-ddb-sig-alg*"

abbrev pub context_table_name : Text
context_table_name = text "*aws-kms-table*"

-- AwsKmsCryptographicMaterialsProvider(...), with __attrs_post_init__
unfoldable pub new :
    Builtins
    → Text
    → Option Text
    → List Text
    → Dict Text
    → Dict Client
    → Result AwsKmsCryptographicMaterialsProvider
new p key_id session_region grant_tokens material_description regional_clients = do
  content ← content_key_info_of p material_description
  signing ← signing_key_info_of p material_description
  ok (record {
    key_id = key_id;
    session_region = session_region;
    grant_tokens = grant_tokens;
    material_description = material_description;
    regional_clients = regional_clients;
    content_key_info = content;
    signing_key_info = signing;
  })

-- The region of a key, or else that of the session.
unfoldable pub region : AwsKmsCryptographicMaterialsProvider → Text → Result Text
region self key_id = elim (get_elem? (split_at_most 4 b':' key_id) 3) [
  | some key_region ↦ ok key_region
  | none ↦ or_raise unknown_region_error self.session_region
]

-- _attribute_to_value; the constructor of the context refuses what is no dict with one entry
unfoldable pub attribute_to_value : Builtins → Attribute → Result Text
attribute_to_value p (binary b) = ok (p.b64encode b)
attribute_to_value p (string t) = ok t
attribute_to_value p (number t) = ok t
attribute_to_value p not_single = err other_error
attribute_to_value p not_dict = err attribute_error
attribute_to_value p _ = err value_error

-- The value of a key of the primary index, where the item has one.
unfoldable pub add_key_attribute : Builtins → Item → Option Text → KmsContext → Result KmsContext
add_key_attribute p attributes none kms_encryption_context = ok kms_encryption_context
add_key_attribute p attributes (some name) kms_encryption_context = elim (get name attributes) [
  | none ↦ ok kms_encryption_context
  | some a ↦ do value ← attribute_to_value p a; ok (put name (some value) kms_encryption_context)
]

unfoldable pub add_table_name : Option Text → KmsContext → KmsContext
add_table_name none kms_encryption_context = kms_encryption_context
add_table_name (some name) kms_encryption_context =
    put context_table_name (some name) kms_encryption_context

-- _kms_encryption_context
unfoldable pub kms_encryption_context :
    Builtins → EncryptionContext → Option Text → Option Text → Result KmsContext
kms_encryption_context p context encryption_description signing_description = do
  with_partition ← add_key_attribute p context.attributes context.partition_key_name (
      put context_signature_algorithm signing_description
        (put context_content_encryption_algorithm encryption_description []))
  with_sort ← add_key_attribute p context.attributes context.sort_key_name with_partition
  ok (add_table_name context.table_name with_sort)

-- What follows a request does not change the provider.
unfoldable pub followed_by {ℓ κ} :
    {A : Type ℓ} {B : Type κ} → (Result A → Result B) → Outcome A → Outcome B
followed_by next (returned, self) = (next returned, self)

-- An exception before a request does not change the provider.
unfoldable pub proceed {ℓ κ} :
    {A : Type ℓ} {B : Type κ}
    → (A → AwsKmsCryptographicMaterialsProvider → Outcome B)
    → Result A
    → AwsKmsCryptographicMaterialsProvider
    → Outcome B
proceed next (ok returned) self = next returned self
proceed next (err raised) self = (err raised, self)

module _ (p : Builtins) (services : Services) where
  -- The client for a region.
  abbrev pub client_for : Dict Client → Text → Client
  client_for clients region_name = get_or (services.new_client region_name) region_name clients

  -- _add_regional_client: a region without a client gets one
  unfoldable pub add_regional_client : Text → AwsKmsCryptographicMaterialsProvider → Outcome Client
  add_regional_client region_name self = elim (get region_name self.regional_clients) [
    | some client ↦ (ok client, self)
    | none ↦
        let client = services.new_client region_name in
        (ok client, record self { regional_clients = put region_name client self.regional_clients })
  ]

  -- _client
  unfoldable pub client : Text → AwsKmsCryptographicMaterialsProvider → Outcome Client
  client key_id self = proceed add_regional_client (region self key_id) self

  -- _generate_initial_material, of 256 // 8 bytes
  unfoldable pub generate_initial_material :
      ℕ → EncryptionContext → AwsKmsCryptographicMaterialsProvider → Outcome (Bytes × Bytes)
  generate_initial_material seed context self =
      proceed
        (λ for_request provider.
          followed_by
            (λ found. do
              kms ← found
              response ←
                  kms.generate_data_key seed provider.key_id (256 / 8) for_request
                    provider.grant_tokens
              or_raise wrapping_error response)
            (client provider.key_id provider))
        (kms_encryption_context p context (some self.content_key_info.description)
          (some self.signing_key_info.description))
        self

  -- base64.b64decode(to_bytes(...)), where b64decode(None) is a TypeError
  unfoldable pub encrypted_initial_material : Dict Text → Result Bytes
  encrypted_initial_material material_description = do
    encoded ← or_raise type_error (get wrapped_data_key material_description)
    or_raise value_error (p.b64decode encoded)

  -- The context and the ciphertext for _decrypt_initial_material.
  unfoldable pub decrypt_request : EncryptionContext → Result (KmsContext × Bytes)
  decrypt_request context = do
    for_request ←
        kms_encryption_context p context
          (get content_encryption_algorithm context.material_description)
          (get item_signature_algorithm context.material_description)
    ciphertext ← encrypted_initial_material context.material_description
    ok (for_request, ciphertext)

  -- _decrypt_initial_material
  unfoldable pub decrypt_initial_material :
      EncryptionContext → AwsKmsCryptographicMaterialsProvider → Outcome Bytes
  decrypt_initial_material context self =
      proceed
        (λ request provider.
          followed_by
            (λ found. do
              kms ← found
              response ← kms.decrypt request.1 request.0 provider.grant_tokens
              or_raise unwrapping_error response)
            (client provider.key_id provider))
        (decrypt_request context) self

  module _ (l : Cryptography) where
    -- _derive_delegated_key, with _hkdf
    unfoldable pub derive_delegated_key :
        Bytes → KeyInfo → HkdfInfo → Result (JceNameLocalDelegatedKey l)
    derive_delegated_key initial_material key_info hkdf_info = do
      raw_key ← services.hkdf initial_material (key_info.key_length / 8) (info_bytes hkdf_info)
      LocalKey.new l raw_key key_info.algorithm symmetric raw

    -- What decryption_materials builds of the initial material.
    unfoldable pub decryption_materials_of : Dict Text → Bytes → Result CryptographicMaterials
    decryption_materials_of material_description initial_material = do
      signing_key_info ← signing_key_info_of p material_description
      decryption_key_info ← content_key_info_of p material_description
      verification_key ← derive_delegated_key initial_material signing_key_info for_signing
      decryption_key ← derive_delegated_key initial_material decryption_key_info for_encryption
      raw_decryption_materials (as_delegated_key l verification_key)
          (some (as_delegated_key l decryption_key)) material_description

    unfoldable pub decryption_materials :
        EncryptionContext → AwsKmsCryptographicMaterialsProvider → Outcome CryptographicMaterials
    decryption_materials context self =
        followed_by
          (λ decrypted. do
            initial ← decrypted
            decryption_materials_of context.material_description initial)
          (decrypt_initial_material context self)

    -- The description that the materials are stored with.
    unfoldable pub encryption_description :
        AwsKmsCryptographicMaterialsProvider → Dict Text → Bytes → Dict Text
    encryption_description self material_description encrypted_material =
        put wrapped_data_key (p.b64encode encrypted_material) (
          put item_signature_algorithm self.signing_key_info.description (
            put content_encryption_algorithm self.content_key_info.description (
              put content_key_wrapping_algorithm (text "kms")
                (put (text "aws-kms-ec-attr") (text "*keys*") material_description))))

    -- What encryption_materials builds of the initial material and its ciphertext.
    unfoldable pub encryption_materials_of :
        AwsKmsCryptographicMaterialsProvider
        → Dict Text
        → Bytes
        → Bytes
        → Result CryptographicMaterials
    encryption_materials_of self material_description initial_material encrypted_material = do
      signing_key ← derive_delegated_key initial_material self.signing_key_info for_signing
      encryption_key ← derive_delegated_key initial_material self.content_key_info for_encryption
      raw_encryption_materials (as_delegated_key l signing_key)
          (some (as_delegated_key l encryption_key))
          (encryption_description self material_description encrypted_material)

    unfoldable pub encryption_materials :
        ℕ
        → EncryptionContext
        → AwsKmsCryptographicMaterialsProvider
        → Outcome CryptographicMaterials
    encryption_materials seed context self =
        followed_by
          (λ generated. do
            (initial, encrypted) ← generated
            encryption_materials_of self context.material_description initial encrypted)
          (generate_initial_material seed context self)

    -- What the provider returns as it stands.
    abbrev pub as_provider :
        ℕ → AwsKmsCryptographicMaterialsProvider → CryptographicMaterialsProvider
    as_provider seed self = record {
      decryption_materials = λ context. (decryption_materials context self).0;
      encryption_materials = λ context. (encryption_materials seed context self).0;
    }
