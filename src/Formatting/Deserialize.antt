-- ===== src/Formatting/Deserialize.antt =====
-- internal/formatting/deserialize/attribute.py: an attribute read from its binary form.
use aws_dynamodb_encryption.Prelude.{
  ℕ, zero, suc, ◌==◌, Text, Bytes, List, [], ◌∷◌, Bool, true, false, if◌then◌else◌, length,
}
use aws_dynamodb_encryption.Result.{
  Result, ok, err, ◌>>=◌, or_raise, deserialization_error, struct_error, value_error, decimal_error,
  key_error, out_of_fuel,
}
use aws_dynamodb_encryption.Sorting.{sort}
use aws_dynamodb_encryption.Dict.{Dict, put}
use aws_dynamodb_encryption.Identifiers.{Tag, find_tag}
use aws_dynamodb_encryption.Identifiers.TagValues.{false_value, true_value}
use aws_dynamodb_encryption.Formatting.Pack.{
  Reader, bind, pure, lift, decode_length, decode_value, decode_byte, decode_tag,
}
use aws_dynamodb_encryption.Formatting.Attribute.{
  Attribute, Codec, to_items, to_members, binary, binary_set, number, number_set, string,
  string_set, boolean, null, list_of, map_of,
}

-- [p(stream) for _ in range(n)]
unfoldable pub repeat {ℓ} : {A : Type ℓ} → ℕ → Reader A → Reader (List A)
unfolding bind
repeat zero p = pure []
repeat (suc n) p = bind p λ a. bind (repeat n p) λ l. pure (a ∷ l)

module _ (c : Codec) where
  unfoldable pub transform_string_value : Bytes → Result Text
  transform_string_value b = or_raise value_error (c.decode b)

  unfoldable pub parse_number_value : Bytes → Result Text
  parse_number_value b = do
    t ← or_raise value_error (c.decode b)
    or_raise decimal_error (c.parse_number t)

-- member_transform(decode_value(stream))
unfoldable pub read_value {ℓ} : {A : Type ℓ} → (Bytes → Result A) → Reader A
unfolding bind
read_value transform = bind decode_value λ b. lift (transform b)

unfoldable pub deserialize_set : (Bytes → Result Text) → Reader (List Text)
unfolding bind
deserialize_set transform =
    bind decode_length λ n. bind (repeat n (read_value transform)) λ l. pure (sort l)

unfoldable pub boolean_map : ℕ → Result Bool
boolean_map b =
    if b == false_value then ok false else if b == true_value then ok true else err key_error

-- A key of a serialized map must be a string.
unfoldable pub map_key : Attribute → Result Text
map_key (string t) = ok t
map_key _ = err deserialization_error

-- The loop of _deserialize_map: a key that comes twice is overwritten.
unfoldable pub deserialize_members : Reader Attribute → ℕ → Dict Attribute → Reader (Dict Attribute)
unfolding bind
deserialize_members p zero members = pure members
deserialize_members p (suc n) members = bind p λ key.
    bind (lift (map_key key)) λ k. bind p λ value. deserialize_members p n (put k value members)

-- The function that _deserialize_function finds for a tag, with `p` for the recursive calls.
unfoldable pub deserialize_tag : Codec → Reader Attribute → Tag → Reader Attribute
unfolding bind
deserialize_tag c p Tag.binary = bind decode_value λ b. pure (binary b)
deserialize_tag c p Tag.binary_set = bind (deserialize_set ok) λ l. pure (binary_set l)
deserialize_tag c p Tag.number = bind (read_value (parse_number_value c)) λ t. pure (number t)
deserialize_tag c p Tag.number_set =
    bind (deserialize_set (parse_number_value c)) λ l. pure (number_set l)
deserialize_tag c p Tag.string = bind (read_value (transform_string_value c)) λ t. pure (string t)
deserialize_tag c p Tag.string_set =
    bind (deserialize_set (transform_string_value c)) λ l. pure (string_set l)
deserialize_tag c p Tag.boolean =
    bind decode_byte λ b. bind (lift (boolean_map b)) λ v. pure (boolean v)
deserialize_tag c p Tag.null = pure (null true)
deserialize_tag c p Tag.list_of =
    bind decode_length λ n. bind (repeat n p) λ l. pure (list_of (to_items l))
deserialize_tag c p Tag.map_of =
    bind decode_length λ n. bind (deserialize_members p n []) λ d. pure (map_of (to_members d))

-- except struct.error
unfoldable pub catch_struct_error {ℓ} : {A : Type ℓ} → Result A → Result A
catch_struct_error (ok a) = ok a
catch_struct_error (err struct_error) = err deserialization_error
catch_struct_error (err e) = err e

-- `fuel` bounds the nesting of the calls, which the program leaves to the interpreter's stack.
unfoldable pub deserialize : Codec → ℕ → Reader Attribute
deserialize c zero s = err out_of_fuel
deserialize c (suc fuel) s =
    let p = deserialize c fuel in
    catch_struct_error (
      bind decode_tag
        (λ b. bind (lift (or_raise deserialization_error (find_tag b))) (deserialize_tag c p)) s)

-- The bytes behind the attribute are not looked at.
unfoldable pub deserialize_attribute : Codec → Bytes → Result Attribute
deserialize_attribute c [] = err deserialization_error
deserialize_attribute c (b ∷ l) = do r ← deserialize c (length (b ∷ l)) (b ∷ l); ok (r.0)
