-- ===== src/Helpers/Writing.antt =====
-- internal/utils.py: the helpers that encrypt what is written, for items in DynamoDB JSON.
pub mod Positions
pub mod Matching
pub mod Unprocessed
pub mod Batches
use aws_dynamodb_encryption.Prelude.{
  ℕ, suc, Text, Bool, true, false, Option, none, some, is_some, List, [], ◌∷◌, if◌then◌else◌,
}
use aws_dynamodb_encryption.Result.{Result, ok, err, ◌>>=◌, or_raise, key_error}
use aws_dynamodb_encryption.Dict.{Dict, get, put}
use aws_dynamodb_encryption.CryptoAction
use aws_dynamodb_encryption.Formatting.Attribute.{Attribute, Item}
use aws_dynamodb_encryption.Encrypted.CryptoConfig
use aws_dynamodb_encryption.Encrypted.CryptoConfig.{CryptoConfig, encrypts}
use aws_dynamodb_encryption.Helpers.Reading.{Arguments, Step, and_then, config_for_table}

-- One request of a batch: the item under PutRequest and the key under DeleteRequest, each of which may be
-- missing.
pub record WriteRequest : Type 0 where
  pub put_request : Option Item
  pub delete_request : Option Item

abbrev pub Requests : Type 0
Requests = Dict (List WriteRequest)

-- Python's == of two attributes.
abbrev pub Equality : Type 0
Equality = Attribute → Attribute → Bool

module _ (same_value : Equality) where
  -- item1[name] == item2[name]
  unfoldable pub same_key : Text → Item → Item → Result Bool
  same_key name item1 item2 = do
    value1 ← or_raise key_error (get name item1)
    value2 ← or_raise key_error (get name item2)
    ok (same_value value1 value2)

  -- _item_keys_match
  unfoldable pub item_keys_match : Text → Option Text → Item → Item → Result Bool
  item_keys_match partition_key_name none item1 item2 = same_key partition_key_name item1 item2
  item_keys_match partition_key_name (some sort_key_name) item1 item2 = do
    partition_keys_match ← same_key partition_key_name item1 item2
    if partition_keys_match then same_key sort_key_name item1 item2 else ok false

  -- encrypted_item.get(name) == value
  unfoldable pub has_value : Text → Attribute → Item → Bool
  has_value name value encrypted_item = elim (get name encrypted_item) [
    | some found ↦ same_value found value
    | none ↦ false
  ]

  -- _item_attributes_match
  unfoldable pub item_attributes_match : CryptoConfig → Item → Item → Bool
  item_attributes_match config [] encrypted_item = true
  item_attributes_match config ((name, value) ∷ plaintext_item) encrypted_item =
      let rest = item_attributes_match config plaintext_item encrypted_item in
      if encrypts config.attribute_actions name
      then rest
      else if has_value name value encrypted_item
      then rest
      else false

  -- The function items_match, by whether a partition key is known.
  unfoldable pub items_match : CryptoConfig → Item → Item → Result Bool
  items_match config plaintext_item encrypted_item =
      elim config.encryption_context.partition_key_name [
        | none ↦ ok (item_attributes_match config plaintext_item encrypted_item)
        | some [] ↦ ok (item_attributes_match config plaintext_item encrypted_item)
        | some (x ∷ name) ↦
            item_keys_match (x ∷ name) config.encryption_context.sort_key_name plaintext_item
              encrypted_item
      ]

  -- The first request that puts a matching item.
  unfoldable pub find_original :
      CryptoConfig → List WriteRequest → Item → Result (Option WriteRequest)
  find_original config [] item = ok none
  find_original config (original ∷ originals) item = elim original.put_request [
    | none ↦ find_original config originals item
    | some plaintext_item ↦ do
      found ← items_match config plaintext_item item
      elim found [ true ↦ ok (some original) | false ↦ find_original config originals item ]
  ]

  -- One unprocessed operation, in its original form where it puts an item.
  unfoldable pub revert_operation :
      CryptoConfig → List WriteRequest → WriteRequest → Result WriteRequest
  revert_operation config originals operation = elim operation.put_request [
    | none ↦ ok operation
    | some item ↦ do
      found ← find_original config originals item
      ok (elim found [ some original ↦ original | none ↦ operation ])
  ]

  unfoldable pub revert_operations :
      CryptoConfig → List WriteRequest → List WriteRequest → Result (List WriteRequest)
  revert_operations config originals [] = ok []
  revert_operations config originals (operation ∷ operations) = do
    reverted ← revert_operation config originals operation
    rest ← revert_operations config originals operations
    ok (reverted ∷ rest)

  unfoldable pub revert_tables : Requests → Dict CryptoConfig → Requests → Result Requests
  revert_tables request table_crypto_config [] = ok []
  revert_tables request table_crypto_config ((table_name, unprocessed) ∷ tables) = do
    originals ← or_raise key_error (get table_name request)
    config ← or_raise key_error (get table_name table_crypto_config)
    reverted ← revert_operations config originals unprocessed
    rest ← revert_tables request table_crypto_config tables
    ok ((table_name, reverted) ∷ rest)

  -- _process_batch_write_response, for the field UnprocessedItems of the response
  unfoldable pub process_batch_write_response :
      Requests → Option Requests → Dict CryptoConfig → Result (Option Requests)
  process_batch_write_response request none table_crypto_config = ok none
  process_batch_write_response request (some unprocessed_items) table_crypto_config = do
    reverted ← revert_tables request table_crypto_config unprocessed_items
    ok (some reverted)

-- The item encryptor takes a number, which stands for the random bytes of the call.
module _ (encrypt_method : ℕ → Item → CryptoConfig → Result Item) where
  unfoldable pub encrypt_value : ℕ → CryptoConfig → Item → Result Item
  encrypt_value seed config item = do
    for_item ← CryptoConfig.with_item config item
    encrypt_method seed item for_item

  unfoldable pub encrypt_request : ℕ → CryptoConfig → WriteRequest → Result WriteRequest
  encrypt_request seed config request = elim request.put_request [
    | none ↦ ok request
    | some item ↦ do
      encrypted ← encrypt_value seed config item
      ok (record request { put_request = some encrypted })
  ]

  unfoldable pub encrypt_requests :
      ℕ → CryptoConfig → List WriteRequest → Result (List WriteRequest)
  encrypt_requests seed config [] = ok []
  encrypt_requests seed config (request ∷ requests) = do
    encrypted ← encrypt_request seed config request
    rest ← encrypt_requests (suc seed) config requests
    ok (encrypted ∷ rest)

  module _ {ℓ} {S : Type ℓ} where
    -- encrypt_put_item, up to the write method
    unfoldable pub encrypt_put_item {κ} :
        {R : Type κ}
        → (Arguments → Step S CryptoConfig)
        → (Item → Result R)
        → ℕ
        → Arguments
        → Option Item
        → Step S R
    encrypt_put_item crypto_config_method write_method seed kwargs item state =
        and_then (crypto_config_method kwargs state) (λ config after. (
          do
            plaintext ← or_raise key_error item
            encrypted ← encrypt_value seed config plaintext
            write_method encrypted,
          after,
        ))

    -- The encrypted requests, and the configuration for each table.
    unfoldable pub encrypt_tables :
        (Text → ℕ)
        → Option CryptoConfig
        → (Text → Step S CryptoConfig)
        → Dict CryptoConfig
        → Requests
        → Step S (Requests × Dict CryptoConfig)
    encrypt_tables seeds request crypto_config_method configs [] state = (ok ([], configs), state)
    encrypt_tables seeds request crypto_config_method configs ((table_name, requests) ∷ tables)
          state =
        and_then (config_for_table request crypto_config_method table_name state) (λ config after.
          and_then (encrypt_requests (seeds table_name) config requests, after)
            (λ encrypted next.
              and_then
                (encrypt_tables seeds request crypto_config_method (put table_name config configs)
                  tables next)
                (λ rest last. (ok ((table_name, encrypted) ∷ rest.0, rest.1), last))))

    -- encrypt_batch_write_item, for the field UnprocessedItems of the response
    unfoldable pub encrypt_batch_write_item :
        Equality
        → (Text → ℕ)
        → (Text → Step S CryptoConfig)
        → (Requests → Result (Option Requests))
        → Option CryptoConfig
        → Requests
        → Step S (Option Requests)
    encrypt_batch_write_item same_value seeds crypto_config_method write_method request
          plaintext_items state =
        and_then (encrypt_tables seeds request crypto_config_method [] plaintext_items state)
          (λ made after. (
            do
              unprocessed ← write_method (made.0)
              process_batch_write_response same_value plaintext_items unprocessed (made.1),
            after,
          ))
