-- ===== src/Helpers/Reading.antt =====
-- internal/utils.py: the helpers that decrypt what was read, for items in DynamoDB JSON.
pub mod Verification
use aws_dynamodb_encryption.Prelude.{
  Text, text, text_eq, Bool, not, ◌||◌, Option, none, some, List, [], ◌∷◌, if◌then◌else◌,
}
use aws_dynamodb_encryption.Result.{
  Result, ok, err, ◌>>=◌, ◌>>◌, guard, or_raise, invalid_argument_error, key_error,
}
use aws_dynamodb_encryption.Dict.{Dict}
use aws_dynamodb_encryption.Formatting.Attribute.{Item}
use aws_dynamodb_encryption.Encrypted.CryptoConfig
use aws_dynamodb_encryption.Encrypted.CryptoConfig.{CryptoConfig}

-- The arguments of a request that the helpers look at; the others go to the read method, a parameter.
pub record Arguments : Type 0 where
  pub has_attributes_to_get : Bool
  pub has_projection_expression : Bool
  pub select : Option Text
  pub table_name : Option Text
  pub crypto_config : Option CryptoConfig

unfoldable pub is_partial : Text → Bool
is_partial select =
    text_eq select (text "SPECIFIC_ATTRIBUTES") || text_eq select (text "ALL_PROJECTED_ATTRIBUTES")

unfoldable pub validate_select : Option Text → Result (Unit {0})
validate_select none = ok tt
validate_select (some select) = guard (not (is_partial select)) invalid_argument_error

unfoldable pub validate_get_arguments : Arguments → Result (Unit {0})
validate_get_arguments kwargs = do
  guard (not kwargs.has_attributes_to_get) invalid_argument_error
  guard (not kwargs.has_projection_expression) invalid_argument_error
  validate_select kwargs.select

unfoldable pub validate_tables : Dict Arguments → Result (Unit {0})
validate_tables [] = ok tt
validate_tables ((table_name, kwargs) ∷ tables) = do
  validate_get_arguments kwargs
  validate_tables tables

-- A step returns or raises, in its next state: a helper's parameters change the state.
abbrev pub Step {ℓ κ} : Type ℓ → Type κ → Type (ℓ ⊔ κ)
Step S A = S → Result A × S

module _ {ℓ} {S : Type ℓ} where
  unfoldable pub and_then {κ μ} :
      {A : Type κ} {B : Type μ} → Result A × S → (A → Step S B) → Result B × S
  and_then (ok a, state) next = next a state
  and_then (err e, state) next = (err e, state)

  -- crypto_config_from_kwargs: that of the request, or the fallback's for the table that it names
  unfoldable pub crypto_config_from_kwargs :
      (Option Text → Step S CryptoConfig) → Arguments → Step S CryptoConfig
  crypto_config_from_kwargs fallback kwargs state = elim kwargs.crypto_config [
    | some config ↦ (ok config, state)
    | none ↦ fallback kwargs.table_name state
  ]

  -- The configuration of the request, or that of the table.
  unfoldable pub config_for_table :
      Option CryptoConfig → (Text → Step S CryptoConfig) → Text → Step S CryptoConfig
  config_for_table (some config) crypto_config_method table_name state = (ok config, state)
  config_for_table none crypto_config_method table_name state =
      crypto_config_method table_name state

-- The item decryptor is a parameter.
module _ (decrypt_method : Item → CryptoConfig → Result Item) where
  -- One item, under the configuration for it.
  unfoldable pub decrypt_value : CryptoConfig → Item → Result Item
  decrypt_value config value = do
    for_item ← CryptoConfig.with_item config value
    decrypt_method value for_item

  -- list(decrypt_list_of_items(...))
  unfoldable pub decrypt_list_of_items : CryptoConfig → List Item → Result (List Item)
  decrypt_list_of_items config [] = ok []
  decrypt_list_of_items config (value ∷ items) = do
    first ← decrypt_value config value
    rest ← decrypt_list_of_items config items
    ok (first ∷ rest)

  -- The items of a response, which must be there.
  unfoldable pub decrypt_items : CryptoConfig → Option (List Item) → Result (List Item)
  decrypt_items config found = do
    items ← or_raise key_error found
    decrypt_list_of_items config items

  -- The item of a response, if it has one.
  unfoldable pub decrypt_found : CryptoConfig → Option Item → Result (Option Item)
  decrypt_found config none = ok none
  decrypt_found config (some value) = do item ← decrypt_value config value; ok (some item)

  module _ {ℓ} {S : Type ℓ} where
    -- decrypt_multi_get, for the items of the response; its other fields are left as they are
    unfoldable pub decrypt_multi_get :
        (Arguments → Step S CryptoConfig)
        → (Arguments → Result (Option (List Item)))
        → Arguments
        → Step S (List Item)
    decrypt_multi_get crypto_config_method read_method kwargs state =
        and_then (validate_get_arguments kwargs, state)
          (λ _ before. and_then (crypto_config_method kwargs before) (λ config after.
            (do response ← read_method kwargs; decrypt_items config response, after)))

    -- decrypt_get_item
    unfoldable pub decrypt_get_item :
        (Arguments → Step S CryptoConfig)
        → (Arguments → Result (Option Item))
        → Arguments
        → Step S (Option Item)
    decrypt_get_item crypto_config_method read_method kwargs state =
        and_then (validate_get_arguments kwargs, state)
          (λ _ before. and_then (crypto_config_method kwargs before) (λ config after.
            (do response ← read_method kwargs; decrypt_found config response, after)))

    unfoldable pub decrypt_tables :
        Option CryptoConfig
        → (Text → Step S CryptoConfig)
        → Dict (List Item)
        → Step S (Dict (List Item))
    decrypt_tables request crypto_config_method [] state = (ok [], state)
    decrypt_tables request crypto_config_method ((table_name, items) ∷ tables) state =
        and_then (config_for_table request crypto_config_method table_name state) (λ config after.
          and_then (decrypt_list_of_items config items, after)
            (λ decrypted next.
              and_then (decrypt_tables request crypto_config_method tables next)
                (λ rest last. (ok ((table_name, decrypted) ∷ rest), last))))

    -- decrypt_batch_get_item, for the responses by table
    unfoldable pub decrypt_batch_get_item :
        (Text → Step S CryptoConfig)
        → (Dict Arguments → Result (Dict (List Item)))
        → Option CryptoConfig
        → Dict Arguments
        → Step S (Dict (List Item))
    decrypt_batch_get_item crypto_config_method read_method request tables state =
        and_then (validate_tables tables, state)
          (λ _ before.
            and_then (read_method tables, before)
              (λ responses after. decrypt_tables request crypto_config_method responses after))
