-- ===== src/Examples.antt =====
-- Test data: a codec, a key, materials and an item, on which the theorems are tried in the modules below.
pub mod Items
pub mod Formats
pub mod Actions
pub mod Caches
pub mod Keys
pub mod Kms
pub mod Requests
pub mod Batches
pub mod Queries
pub mod Stores
use aws_dynamodb_encryption.Prelude.{
  ℕ, Text, Bytes, text, false, true, none, some, [], ◌∷◌, ◌≡◌, refl, sym, subst, ap, length,
  text_eq, text_eq_refl,
}
use aws_dynamodb_encryption.Result.{
  Result, ok, err, guard, ok-injective, delegated_key_decryption_error,
  signature_verification_error,
}
use aws_dynamodb_encryption.CryptoAction.{encrypt_and_sign, sign_only}
use aws_dynamodb_encryption.Formatting.Attribute.{Item, Codec, IsLossless, string, number}
use aws_dynamodb_encryption.Structures.EncryptionContext.{EncryptionContext}
use aws_dynamodb_encryption.Structures.AttributeActions.{AttributeActions}
use aws_dynamodb_encryption.Crypto.Materials.{
  DelegatedKey, CryptographicMaterials, CryptographicMaterialsProvider, Decrypts, Verifies,
}
use aws_dynamodb_encryption.Encrypted.CryptoConfig.{CryptoConfig}

-- Each code point is one byte, and every text is a number in its normal form.
abbrev pub plain : Codec
plain = record {
  encode = λ t. some t;
  decode = λ b. some b;
  format_number = λ t. some t;
  parse_number = λ t. some t;
}

pub plain-IsLossless : IsLossless plain
plain-IsLossless = record { decode-encode = λ t b h. sym h; parse-format = λ t u h. refl }

abbrev pub hash : Bytes → Bytes
hash b = length b ∷ []

-- A key whose ciphertext is the seed and the plaintext, and whose signature is the message.
abbrev open_box : Bytes → Result Bytes
open_box [] = err delegated_key_decryption_error
open_box (seed ∷ plaintext) = ok plaintext

abbrev compare_signature : Bytes → Bytes → Result (Unit {0})
compare_signature signature message = guard (text_eq signature message) signature_verification_error

abbrev pub toy : DelegatedKey
toy = record {
  algorithm = text "toy";
  allowed_for_raw_materials = true;
  encrypt = λ seed algorithm name plaintext. ok (seed ∷ plaintext);
  decrypt = λ algorithm name ciphertext. open_box ciphertext;
  sign = λ algorithm message. ok message;
  verify = λ algorithm signature message. compare_signature signature message;
  signing_algorithm = ok (text "toy");
}

pub toy-Decrypts : Decrypts toy toy
toy-Decrypts = record {
  same_algorithm = refl;
  decrypt-encrypt = λ seed name plaintext ciphertext h. ap open_box (sym (ok-injective h));
}

compare_signature_same : (m : Bytes) → compare_signature m m ≡ ok tt
compare_signature_same m = rw (text_eq_refl m)

pub toy-Verifies : Verifies toy toy
toy-Verifies = record {
  same_algorithm = refl;
  verify-sign = λ algorithm message signature h.
      subst (λ s. compare_signature s message ≡ ok tt) (ok-injective h)
        (compare_signature_same message);
}

abbrev pub materials : CryptographicMaterials
materials = record {
  material_description = (text "key", text "toy") ∷ [];
  encryption_key = ok toy;
  decryption_key = ok toy;
  signing_key = ok toy;
  verification_key = ok toy;
}

abbrev pub provider : CryptographicMaterialsProvider
provider = record {
  decryption_materials = λ context. ok materials;
  encryption_materials = λ context. ok materials;
}

abbrev pub actions : AttributeActions
actions = record {
  default_action = encrypt_and_sign;
  attribute_actions = (text "id", sign_only) ∷ [];
  take_no_actions = false;
}

abbrev pub context : EncryptionContext
context = record {
  table_name = some (text "table");
  partition_key_name = some (text "id");
  sort_key_name = none;
  attributes = [];
  material_description = [];
}

abbrev pub config : CryptoConfig
config = record {
  materials_provider = provider;
  encryption_context = context;
  attribute_actions = actions;
}

abbrev pub sample : Item
sample = (text "id", string (text "a")) ∷ (text "n", number (text "1")) ∷ []
