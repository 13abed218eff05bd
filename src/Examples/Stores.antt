-- ===== src/Examples/Stores.antt =====
-- The store of providers, over a table in memory and over one whose service refuses every put.
use aws_dynamodb_encryption.Prelude.{
  ℕ, Text, text, text_eq, true, Option, none, some, [], ◌∷◌, ◌≡◌, refl,
}
use aws_dynamodb_encryption.Result.{Result, ok, err, invalid_version_error}
use aws_dynamodb_encryption.Texts.{occurs_in, starts_with}
use aws_dynamodb_encryption.Dict.{Dict, get, put}
use aws_dynamodb_encryption.Jce.Primitives
use aws_dynamodb_encryption.Jce.Primitives.{java_encryption_algorithm, load_symmetric_key}
use aws_dynamodb_encryption.Jce.Authentication
use aws_dynamodb_encryption.Jce.Authentication.{java_authenticator}
use aws_dynamodb_encryption.Jce.LocalKey
use aws_dynamodb_encryption.Jce.LocalKey.{
  encryption_and_wrap, authentication, JceNameLocalDelegatedKey, is_symmetric, generate,
  generate_key, generate_symmetric_key, new_authenticator,
}
use aws_dynamodb_encryption.Jce.LocalKey.Making.{raw_key}
use aws_dynamodb_encryption.Providers.Wrapped.{WrappedCryptographicMaterialsProvider}
use aws_dynamodb_encryption.Providers.MetaStore.{
  MetaItem, PutAnswer, stored, condition_failed, client_error, MetaTable, Keys, item_of,
  material_description, version_from_material_description, generate_keys, provider_of,
  get_or_create_provider, provider,
}
use aws_dynamodb_encryption.Providers.MetaStore.Versions.{
  version_from_material_description-material_description,
}
use aws_dynamodb_encryption.Providers.MetaStore.Creation.{
  provider-get_or_create_provider, get_or_create_provider_agrees, get_or_create_provider_unsaved,
}
use aws_dynamodb_encryption.Examples.Keys.{repeated, builtins, builtins-IsDocumented, library}

abbrev State : Type 0
State = Dict MetaItem

abbrev row : Text → ℕ → Text
row material_name version = version ∷ material_name

abbrev put_new : Text → MetaItem → State → Option MetaItem → Result PutAnswer × State
put_new k meta_item state (some found) = (ok condition_failed, state)
put_new k meta_item state none = (ok stored, put k meta_item state)

abbrev memory : MetaTable State
memory = record {
  get_item = λ material_name version state. ok (get (row material_name version) state);
  put_item = λ material_name version meta_item state.
      put_new (row material_name version) meta_item state (get (row material_name version) state);
  query_last = λ material_name state. ok none;
}

abbrev refusing : MetaTable State
refusing = record {
  get_item = λ material_name version state. ok (get (row material_name version) state);
  put_item = λ material_name version meta_item state. (ok client_error, state);
  query_last = λ material_name state. ok none;
}

encryption_is_symmetric : is_symmetric library builtins (text "AES") ≡ true
unfolding is_symmetric occurs_in starts_with text_eq
encryption_is_symmetric = refl

signing_is_symmetric : is_symmetric library builtins (text "HmacSHA256") ≡ true
unfolding is_symmetric occurs_in starts_with text_eq
signing_is_symmetric = refl

abbrev new_keys : Keys library
new_keys = (
  raw_key library (repeated 7 32) (text "AES") encryption_and_wrap,
  raw_key library (repeated 8 32) (text "HmacSHA256") authentication,
)

keys_generated : generate_keys library builtins 7 ≡ ok new_keys
unfolding generate_keys generate generate_key generate_symmetric_key is_symmetric occurs_in
    starts_with LocalKey.new new_authenticator Primitives.load_key Authentication.load_key
    load_symmetric_key get java_encryption_algorithm java_authenticator text_eq
keys_generated = refl

abbrev other_keys : Keys library
other_keys = (
  raw_key library (repeated 9 32) (text "AES") encryption_and_wrap,
  raw_key library (repeated 10 32) (text "HmacSHA256") authentication,
)

other_keys_generated : generate_keys library builtins 9 ≡ ok other_keys
unfolding generate_keys generate generate_key generate_symmetric_key is_symmetric occurs_in
    starts_with LocalKey.new new_authenticator Primitives.load_key Authentication.load_key
    load_symmetric_key get java_encryption_algorithm java_authenticator text_eq
other_keys_generated = refl

abbrev created : WrappedCryptographicMaterialsProvider
created = provider_of library builtins (text "material") 3 new_keys

abbrev filled : State
filled = (row (text "material") 3, item_of library new_keys) ∷ []

item_stored :
    memory.put_item (text "material") 3 (item_of library new_keys) [] ≡ (ok stored, filled)
unfolding get put text_eq
item_stored = refl

item_refused :
    memory.put_item (text "material") 3 (item_of library other_keys) filled
    ≡ (ok condition_failed, filled)
unfolding get text_eq
item_refused = refl

item_found : memory.get_item (text "material") 3 filled ≡ ok (some (item_of library new_keys))
unfolding get text_eq
item_found = refl

provider-get_or_create_provider_example :
    (get_or_create_provider library memory builtins 7 (text "material") 3 [] ≡ (ok created, filled))
    × (provider library memory builtins 9 (text "material") (some 3) filled ≡ (ok created, filled))
provider-get_or_create_provider_example =
    provider-get_or_create_provider builtins library encryption_is_symmetric signing_is_symmetric
      memory (text "material") 3 7 9 new_keys [] filled filled keys_generated item_stored item_found

get_or_create_provider_agrees_example :
    (get_or_create_provider library memory builtins 7 (text "material") 3 [] ≡ (ok created, filled))
    × (get_or_create_provider library memory builtins 9 (text "material") 3 filled
        ≡ (ok created, filled))
get_or_create_provider_agrees_example =
    get_or_create_provider_agrees builtins library encryption_is_symmetric signing_is_symmetric
      memory (text "material") 3 7 9 new_keys other_keys [] filled filled filled keys_generated
      other_keys_generated item_stored item_refused item_found

nothing_there : refusing.get_item (text "material") 3 [] ≡ ok none
unfolding get
nothing_there = refl

get_or_create_provider_unsaved_example :
    (get_or_create_provider library refusing builtins 7 (text "material") 3 [] ≡ (ok created, []))
    × (provider library refusing builtins 9 (text "material") (some 3) []
        ≡ (err invalid_version_error, []))
get_or_create_provider_unsaved_example =
    get_or_create_provider_unsaved builtins library encryption_is_symmetric signing_is_symmetric
      refusing (text "material") 3 7 9 new_keys [] [] [] keys_generated refl nothing_there

version_from_material_description-material_description_example :
    version_from_material_description builtins (material_description builtins (text "material") 3)
    ≡ ok 3
version_from_material_description-material_description_example =
    version_from_material_description-material_description builtins builtins-IsDocumented
      (text "material") 3 refl
