-- ===== src/Examples/Kms.antt =====
-- The provider with keys of AWS KMS, over a service whose ciphertexts are the plaintexts.
use aws_dynamodb_encryption.Prelude.{
  Text, Bytes, text, none, some, [], ◌∷◌, ◌≡◌, ◌∙◌, ap, sym, refl, some-injective,
}
use aws_dynamodb_encryption.Result.{ok, ok-injective}
use aws_dynamodb_encryption.Texts.{split_once}
use aws_dynamodb_encryption.Dict.{get, get_or}
use aws_dynamodb_encryption.Encrypted.CryptoConfig.Creation.{config_of}
use aws_dynamodb_encryption.Encrypted.Item.RoundTrip.{Reopens}
use aws_dynamodb_encryption.Providers.KeyInfo.{
  from_description, from_material_description, content_key_info_of, signing_key_info_of,
}
use aws_dynamodb_encryption.Providers.AwsKms
use aws_dynamodb_encryption.Providers.AwsKms.{
  Client, Services, AwsKmsCryptographicMaterialsProvider, encryption_materials,
  decryption_materials, as_provider,
}
use aws_dynamodb_encryption.Providers.AwsKms.Requests.{DecryptsDataKeys}
use aws_dynamodb_encryption.Providers.AwsKms.Contract.{kms_provider-Reopens}
use aws_dynamodb_encryption.Providers.AwsKms.Clients.{
  start, after_encryption, after_decryption, Reached-answers,
}
use aws_dynamodb_encryption.Examples.{context, actions}
use aws_dynamodb_encryption.Examples.Keys.{
  builtins, builtins-IsDocumented, library, library-IsSound,
}

abbrev open_service : Client
open_service = record {
  generate_data_key = λ seed key_id n for_request tokens. ok (some (seed ∷ [], seed ∷ []));
  decrypt = λ ciphertext for_request tokens. ok (some ciphertext);
}

open_service-DecryptsDataKeys : DecryptsDataKeys open_service
open_service-DecryptsDataKeys = record {
  decrypt-generate_data_key = λ seed key_id n for_request tokens plaintext ciphertext h.
      ap (λ b. ok (some b))
        (sym (ap (λ (x : Bytes × Bytes). x.1) (some-injective (ok-injective h)))
          ∙ ap (λ (x : Bytes × Bytes). x.0) (some-injective (ok-injective h)));
}

abbrev services : Services
services = record {
  new_client = λ region_name. open_service;
  hkdf = λ material n info. ok material;
}

abbrev key_arn : Text
key_arn = text "arn:aws:kms:us-west-2:1:key"

abbrev kms : AwsKmsCryptographicMaterialsProvider
kms = record {
  key_id = key_arn;
  session_region = none;
  grant_tokens = [];
  material_description = [];
  regional_clients = [];
  content_key_info = record {
    description = text "AES/256";
    algorithm = text "AES";
    key_length = 50;
  };
  signing_key_info = record {
    description = text "HmacSHA256/256";
    algorithm = text "HmacSHA256";
    key_length = 50;
  };
}

kms_created : AwsKms.new builtins key_arn none [] [] [] ≡ ok kms
unfolding AwsKms.new content_key_info_of signing_key_info_of from_material_description
    from_description split_once get_or get
kms_created = refl

client_for-DecryptsDataKeys :
    (r : Text) → DecryptsDataKeys (AwsKms.client_for builtins services [] r)
unfolding get_or get
client_for-DecryptsDataKeys r = open_service-DecryptsDataKeys

kms_provider-Reopens_example :
    Reopens (config_of (as_provider builtins services library 7 kms) context actions)
kms_provider-Reopens_example =
    kms_provider-Reopens builtins services library builtins-IsDocumented library-IsSound key_arn
      none [] [] [] kms kms_created client_for-DecryptsDataKeys 7 context actions tt

-- The provider after a call, which has made a client.
abbrev later : AwsKmsCryptographicMaterialsProvider
later =
    (decryption_materials builtins services library context
      ((encryption_materials builtins services library 7 context kms).1)).1

Reached-answers_example :
    ((encryption_materials builtins services library 9 context later).0
      ≡ (encryption_materials builtins services library 9 context kms).0)
    × ((decryption_materials builtins services library context later).0
        ≡ (decryption_materials builtins services library context kms).0)
Reached-answers_example =
    Reached-answers builtins services kms library later 9 context
      (after_decryption (after_encryption start 7 context) context)
