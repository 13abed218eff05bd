-- ===== src/Formatting/Serialize.antt =====
-- internal/formatting/serialize/attribute.py: the binary form of an attribute.
use aws_dynamodb_encryption.Prelude.{Text, Bytes, List, [], ◌∷◌, ◌++◌, Bool, if◌then◌else◌, length}
use aws_dynamodb_encryption.Result.{
  Result, ok, err, ◌>>=◌, or_raise, serialization_error, type_error, value_error, decimal_error,
}
use aws_dynamodb_encryption.Sorting.{sort, sort_by}
use aws_dynamodb_encryption.Dict.{Dict}
use aws_dynamodb_encryption.Identifiers.{Tag, tag_byte}
use aws_dynamodb_encryption.Identifiers.TagValues.{false_value, true_value}
use aws_dynamodb_encryption.Formatting.Pack.{encode_length, encode_value}
use aws_dynamodb_encryption.Formatting.Attribute.{
  Attribute, Attributes, Members, Codec, length_items, length_members, binary, binary_set, number,
  number_set, string, string_set, boolean, null, list_of, map_of, unsupported, not_single, not_dict,
  no_items, item, no_members, member,
}

-- _RESERVED + tag.tag
abbrev pub header : Tag → Bytes
header t = 0 ∷ tag_byte t ∷ []

-- [f(x) for x in xs], up to the first exception
unfoldable pub traverse {ℓ κ} :
    {A : Type ℓ} {B : Type κ} → (A → Result B) → List A → Result (List B)
traverse f [] = ok []
traverse f (x ∷ xs) = do y ← f x; ys ← traverse f xs; ok (y ∷ ys)

-- for value in values: stream.write(encode_value(value))
unfoldable pub write_values : List Bytes → Result Bytes
write_values [] = ok []
write_values (v ∷ vs) = do b ← encode_value v; rest ← write_values vs; ok (b ++ rest)

module _ (c : Codec) where
  -- to_bytes, of a text
  unfoldable pub to_bytes : Text → Result Bytes
  to_bytes t = or_raise value_error (c.encode t)

  unfoldable pub transform_number_value : Text → Result Bytes
  transform_number_value t = do u ← or_raise decimal_error (c.format_number t); to_bytes u

-- The fields of a serialized scalar: _serialize_binary, _serialize_number and _serialize_string.
unfoldable pub serialize_value : Tag → Bytes → Result Bytes
serialize_value t v = do b ← encode_value v; ok (header t ++ b)

unfoldable pub serialize_boolean : Bool → Result Bytes
serialize_boolean b = ok (header Tag.boolean ++ (if b then true_value else false_value) ∷ [])

unfoldable pub serialize_null : Result Bytes
serialize_null = ok (header Tag.null)

-- _serialize_set: the members in the order of their bytes
unfoldable pub serialize_set {ℓ} : {A : Type ℓ} → Tag → (A → Result Bytes) → List A → Result Bytes
serialize_set t member_function members = do
  n ← encode_length (length members)
  encoded_members ← traverse member_function members
  body ← write_values (sort encoded_members)
  ok (header t ++ (n ++ body))

-- The key of an entry of `_sorted_key_map`.
abbrev pub entry_key {ℓ} : {A : Type ℓ} → Bytes × A → Bytes
entry_key e = e.0

unfoldable pub transform_keys {ℓ} :
    {A : Type ℓ} → (Text → Result Bytes) → Dict A → Result (List (Bytes × A))
transform_keys transform [] = ok []
transform_keys transform ((k, a) ∷ d) = do
  b ← transform k
  rest ← transform_keys transform d
  ok ((b, a) ∷ rest)

unfoldable pub sorted_key_map {ℓ} :
    {A : Type ℓ} → (Text → Result Bytes) → Dict A → Result (List (Bytes × A))
sorted_key_map transform d = do entries ← transform_keys transform d; ok (sort_by entry_key entries)

-- The loop of _serialize_map. Each value comes with the outcome of its serialization, which is read
-- in the sorted order.
unfoldable pub write_members : List (Bytes × Result Bytes) → Result Bytes
write_members [] = ok []
write_members ((k, value) ∷ entries) = do
  key ← serialize_value Tag.string k
  b ← value
  rest ← write_members entries
  ok (key ++ (b ++ rest))

unfoldable mutual
  pub serialize_attribute : Codec → Attribute → Result Bytes
  serialize_attribute c (binary b) = serialize_value Tag.binary b
  serialize_attribute c (binary_set bs) = serialize_set Tag.binary_set ok bs
  serialize_attribute c (number t) = do b ← transform_number_value c t; serialize_value Tag.number b
  serialize_attribute c (number_set ts) = serialize_set Tag.number_set (transform_number_value c) ts
  serialize_attribute c (string t) = do b ← to_bytes c t; serialize_value Tag.string b
  serialize_attribute c (string_set ts) = serialize_set Tag.string_set (to_bytes c) ts
  serialize_attribute c (boolean b) = serialize_boolean b
  serialize_attribute c (null b) = serialize_null
  serialize_attribute c (list_of xs) = do
    n ← encode_length (length_items xs)
    body ← serialize_items c xs
    ok (header Tag.list_of ++ (n ++ body))
  serialize_attribute c (map_of ms) = do
    n ← encode_length (length_members ms)
    entries ← sorted_key_map (to_bytes c) (serialized_members c ms)
    body ← write_members entries
    ok (header Tag.map_of ++ (n ++ body))
  serialize_attribute c (unsupported t) = err serialization_error
  serialize_attribute c not_single = err serialization_error
  serialize_attribute c not_dict = err type_error

  pub serialize_items : Codec → Attributes → Result Bytes
  serialize_items c no_items = ok []
  serialize_items c (item a xs) = do
    b ← serialize_attribute c a
    rest ← serialize_items c xs
    ok (b ++ rest)

  pub serialized_members : Codec → Members → Dict (Result Bytes)
  serialized_members c no_members = []
  serialized_members c (member k a ms) = (k, serialize_attribute c a) ∷ serialized_members c ms
