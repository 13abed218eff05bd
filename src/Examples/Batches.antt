-- ===== src/Examples/Batches.antt =====
-- A batch of three requests, of which DynamoDB leaves two unprocessed.
use aws_dynamodb_encryption.Prelude.{
  ℕ, zero, suc, Text, text, Bool, true, Option, none, some, List, [], ◌∷◌, ◌≡◌, ◌∙◌, ap, sym, refl,
  subst, some-injective, text_eq, text_eq_refl, get_elem?, inl, inr,
}
use aws_dynamodb_encryption.Result.{Result, ok, err}
use aws_dynamodb_encryption.Dict.{get, put}
use aws_dynamodb_encryption.Sorting.{text_le, insert_by, sort_by}
use aws_dynamodb_encryption.CryptoAction
use aws_dynamodb_encryption.Formatting.Attribute.{Attribute, Item, string}
use aws_dynamodb_encryption.Formatting.Pack.{pack_uint32, encode_value}
use aws_dynamodb_encryption.Formatting.Serialize.{
  to_bytes, transform_number_value, serialize_value, serialize_attribute,
}
use aws_dynamodb_encryption.Formatting.MaterialDescription
use aws_dynamodb_encryption.Structures.AttributeActions.{action}
use aws_dynamodb_encryption.Crypto.Encryption.{encrypt_attribute}
use aws_dynamodb_encryption.Crypto.Authentication.{
  signature_value, format_name, signed_attribute, signed_attributes, string_to_sign, sign_item,
}
use aws_dynamodb_encryption.Encrypted.CryptoConfig
use aws_dynamodb_encryption.Encrypted.CryptoConfig.{CryptoConfig, encrypts, check_key}
use aws_dynamodb_encryption.Encrypted.Item.{
  add_signing_algorithm, encrypt_attributes, encrypted_attributes, sign_and_describe,
  encrypt_and_sign_item, encrypt_dynamodb_item,
}
use aws_dynamodb_encryption.Encrypted.Item.Keys.{IsKey}
use aws_dynamodb_encryption.Helpers.Writing.{
  WriteRequest, same_key, item_keys_match, items_match, revert_operations, encrypt_value,
  encrypt_request, encrypt_requests,
}
use aws_dynamodb_encryption.Helpers.Writing.Unprocessed.{Identified}
use aws_dynamodb_encryption.Helpers.Writing.Positions.{pick}
use aws_dynamodb_encryption.Helpers.Writing.Batches.{encrypt_requests-are_reverted}
use aws_dynamodb_encryption.Examples.{context, actions, plain, hash, provider, config, sample}

-- Attributes are compared by their texts.
abbrev text_of : Attribute → Text
text_of (string t) = t
text_of _ = []

abbrev same_text : Attribute → Attribute → Bool
same_text a b = text_eq (text_of a) (text_of b)

abbrev other : Item
other = (text "id", string (text "b")) ∷ []

abbrev gone : Item
gone = (text "id", string (text "c")) ∷ []

abbrev originals : List WriteRequest
originals =
    record { put_request = some sample; delete_request = none }
    ∷ record { put_request = none; delete_request = some gone }
    ∷ record { put_request = some other; delete_request = none }
    ∷ []

has_id :
    (n : ℕ) (x : WriteRequest) (i : Item)
    → get_elem? originals n ≡ some x
    → x.put_request ≡ some i
    → (a : Attribute) × (get (text "id") i ≡ some a)
unfolding get text_eq
has_id zero x i g p =
    let is_i = ap (λ (z : WriteRequest). z.put_request) (some-injective g) ∙ p in
    (
      string (text "a"),
      subst (λ z. get (text "id") z ≡ some (string (text "a"))) (some-injective is_i) refl,
    )
has_id (suc zero) x i g p = absurd (cc)
has_id (suc (suc zero)) x i g p =
    let is_i = ap (λ (z : WriteRequest). z.put_request) (some-injective g) ∙ p in
    (
      string (text "b"),
      subst (λ z. get (text "id") z ≡ some (string (text "b"))) (some-injective is_i) refl,
    )
has_id (suc (suc (suc n))) x i g p = absurd (cc)

other-ne-sample : items_match same_text config other sample ≡ ok true → ⊥
unfolding items_match item_keys_match same_key get text_eq
other-ne-sample h = absurd (cc)

sample-ne-other : items_match same_text config sample other ≡ ok true → ⊥
unfolding items_match item_keys_match same_key get text_eq
sample-ne-other h = absurd (cc)

-- The items of two requests, by what they are.
matched :
    (v w i j : Item) (x y a b : WriteRequest)
    → some x ≡ some a
    → some y ≡ some b
    → some v ≡ x.put_request
    → some w ≡ y.put_request
    → a.put_request ≡ some i
    → b.put_request ≡ some j
    → items_match same_text config j i ≡ ok true
    → items_match same_text config w v ≡ ok true
matched v w i j x y a b g h vx wy p q m =
    let is_i =
      some-injective (vx ∙ ap (λ (z : WriteRequest). z.put_request) (some-injective g) ∙ p) in
    let is_j =
      some-injective (wy ∙ ap (λ (z : WriteRequest). z.put_request) (some-injective h) ∙ q) in
    ap (λ z. items_match same_text config z v) is_j
    ∙ ap (λ z. items_match same_text config j z) is_i
    ∙ m

distinct_puts :
    (n m : ℕ) (x y : WriteRequest) (i j : Item)
    → get_elem? originals n ≡ some x
    → get_elem? originals m ≡ some y
    → x.put_request ≡ some i
    → y.put_request ≡ some j
    → items_match same_text config j i ≡ ok true
    → y ≡ x
distinct_puts zero zero x y i j g h p q e = sym (some-injective h) ∙ some-injective g
distinct_puts zero (suc (suc zero)) x y i j g h p q e =
    absurd (other-ne-sample (matched sample other i j _ _ x y g h refl refl p q e))
distinct_puts (suc (suc zero)) zero x y i j g h p q e =
    absurd (sample-ne-other (matched other sample i j _ _ x y g h refl refl p q e))
distinct_puts (suc (suc zero)) (suc (suc zero)) x y i j g h p q e =
    sym (some-injective h) ∙ some-injective g
distinct_puts (suc zero) m x y i j g h p q e = absurd (cc)
distinct_puts (suc (suc (suc n))) m x y i j g h p q e = absurd (cc)
distinct_puts zero (suc zero) x y i j g h p q e = absurd (cc)
distinct_puts (suc (suc zero)) (suc zero) x y i j g h p q e = absurd (cc)
distinct_puts zero (suc (suc (suc m))) x y i j g h p q e = absurd (cc)
distinct_puts (suc (suc zero)) (suc (suc (suc m))) x y i j g h p q e = absurd (cc)

is_id : (name : Text) → IsKey name config.encryption_context → text "id" ≡ name
is_id name (inl h) = some-injective h
is_id name (inr h) = absurd (cc)

originals-Identified : Identified same_text config originals
originals-Identified = record {
  has_keys = λ n x i g p name is_key.
      subst (λ t. (a : Attribute) × (get t i ≡ some a)) (is_id name is_key) (has_id n x i g p);
  distinct = distinct_puts;
}

abbrev requests_of : Result (List WriteRequest) → List WriteRequest
requests_of (ok r) = r
requests_of (err e) = []

abbrev encrypted_requests : List WriteRequest
encrypted_requests =
    requests_of (encrypt_requests (encrypt_dynamodb_item plain hash) 5 config originals)

batch_config_created : CryptoConfig.new provider context actions ≡ ok config
unfolding CryptoConfig.new check_key encrypts CryptoAction.eq CryptoAction.value action get text_eq
batch_config_created = refl

requests_encrypt :
    encrypt_requests (encrypt_dynamodb_item plain hash) 5 config originals ≡ ok encrypted_requests
unfolding encrypt_requests encrypt_request encrypt_value CryptoConfig.with_item CryptoConfig.copy
    CryptoConfig.new check_key encrypt_dynamodb_item encrypt_and_sign_item
    CryptoConfig.encryption_materials encrypted_attributes encrypt_attributes encrypts
    CryptoAction.eq CryptoAction.value action get put encrypt_attribute serialize_attribute to_bytes
    transform_number_value serialize_value sign_and_describe sign_item string_to_sign
    signed_attributes signed_attribute signature_value format_name sort_by insert_by text_le text_eq
    add_signing_algorithm MaterialDescription.serialize MaterialDescription.write_entries
    MaterialDescription.encode_text pack_uint32 encode_value MaterialDescription.catch_invalid
requests_encrypt = refl

abbrev picked : Option (List WriteRequest) → List WriteRequest
picked (some r) = r
picked none = []

abbrev left_over : List WriteRequest
left_over = picked (pick encrypted_requests (2 ∷ 1 ∷ []))

two_left : pick encrypted_requests (2 ∷ 1 ∷ []) ≡ some left_over
unfolding pick encrypt_requests encrypt_request encrypt_value CryptoConfig.with_item
    CryptoConfig.copy CryptoConfig.new check_key encrypt_dynamodb_item encrypt_and_sign_item
    CryptoConfig.encryption_materials encrypted_attributes encrypt_attributes encrypts
    CryptoAction.eq CryptoAction.value action get put encrypt_attribute serialize_attribute to_bytes
    transform_number_value serialize_value sign_and_describe sign_item string_to_sign
    signed_attributes signed_attribute signature_value format_name sort_by insert_by text_le text_eq
    add_signing_algorithm MaterialDescription.serialize MaterialDescription.write_entries
    MaterialDescription.encode_text pack_uint32 encode_value MaterialDescription.catch_invalid
two_left = refl

encrypt_requests-are_reverted_example :
    (plain_requests : List WriteRequest) × (pick originals (2 ∷ 1 ∷ []) ≡ some plain_requests)
    × (revert_operations same_text config originals left_over ≡ ok plain_requests)
encrypt_requests-are_reverted_example =
    encrypt_requests-are_reverted provider context actions config batch_config_created plain hash
      same_text (λ a. text_eq_refl (text_of a)) b'i' (text "d") refl originals encrypted_requests
      left_over originals-Identified 5 (2 ∷ 1 ∷ []) requests_encrypt two_left
