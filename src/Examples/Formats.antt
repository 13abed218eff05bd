-- ===== src/Examples/Formats.antt =====
-- Serialized attributes and material descriptions.
use aws_dynamodb_encryption.Prelude.{
  Text, Bytes, text, text_eq, [], ◌∷◌, ◌++◌, ◌≡◌, ◌≢◌, refl, true,
}
use aws_dynamodb_encryption.Result.{Result, ok, err, out_of_fuel}
use aws_dynamodb_encryption.Sorting.{text_le, insert_by, sort_by}
use aws_dynamodb_encryption.Dict.{Dict, IsDict, get}
use aws_dynamodb_encryption.Formatting.Attribute.{
  Attribute, string_set, number, boolean, map_of, list_of, item, no_items, member, no_members,
  not_dict,
}
use aws_dynamodb_encryption.Formatting.Pack.{
  pack_uint32, encode_value, encode_length, decode_value, decode_value-encode_value,
}
use aws_dynamodb_encryption.Formatting.Serialize.{
  to_bytes, serialize_value, serialize_attribute, sorted_key_map, transform_keys, write_members,
  transform_number_value, serialize_boolean, serialize_set, traverse, write_values, serialize_items,
  serialized_members,
}
use aws_dynamodb_encryption.Formatting.Deserialize.{deserialize_attribute}
use aws_dynamodb_encryption.Formatting.Canonical.{canonical}
use aws_dynamodb_encryption.Formatting.MaterialDescription
use aws_dynamodb_encryption.Formatting.MaterialDescription.RoundTrip.{get-deserialize-serialize}
use aws_dynamodb_encryption.Formatting.RoundTrip.Attributes.{
  deserialize_attribute-serialize_attribute,
}
use aws_dynamodb_encryption.Formatting.Termination.{deserialize_attribute_ends}
use aws_dynamodb_encryption.Examples.{plain, plain-IsLossless}

-- A map with a set, a list and a number, its keys out of order.
abbrev nested : Attribute
nested = map_of (
    member (text "b") (string_set (text "y" ∷ text "x" ∷ [])) (
      member (text "a") (list_of (item (number (text "7")) (item (boolean true) no_items)))
        no_members))

abbrev value_of : Result Bytes → Bytes
value_of (ok b) = b
value_of (err e) = []

abbrev nested_bytes : Bytes
nested_bytes = value_of (serialize_attribute plain nested)

nested_serializes : serialize_attribute plain nested ≡ ok nested_bytes
unfolding serialize_attribute encode_length sorted_key_map transform_keys to_bytes write_members
    sort_by insert_by text_le serialize_value encode_value transform_number_value serialize_boolean
    serialize_set traverse write_values pack_uint32 serialize_items serialized_members text_eq
nested_serializes = refl

deserialize_attribute-serialize_attribute_example :
    deserialize_attribute plain (nested_bytes ++ 9 ∷ []) ≡ ok (canonical plain nested)
deserialize_attribute-serialize_attribute_example =
    deserialize_attribute-serialize_attribute plain plain-IsLossless nested nested_bytes (9 ∷ [])
      nested_serializes

-- A byte that is no tag, and a list that promises more than is there.
deserialize_attribute_ends_example :
    deserialize_attribute plain (0 ∷ 76 ∷ 0 ∷ 0 ∷ 0 ∷ 9 ∷ 0 ∷ 99 ∷ []) ≢ err out_of_fuel
deserialize_attribute_ends_example =
    deserialize_attribute_ends plain (0 ∷ 76 ∷ 0 ∷ 0 ∷ 0 ∷ 9 ∷ 0 ∷ 99 ∷ [])

value_encodes : encode_value (8 ∷ 9 ∷ []) ≡ ok (0 ∷ 0 ∷ 0 ∷ 2 ∷ 8 ∷ 9 ∷ [])
unfolding encode_value pack_uint32
value_encodes = refl

decode_value-encode_value_example :
    decode_value (0 ∷ 0 ∷ 0 ∷ 2 ∷ 8 ∷ 9 ∷ 7 ∷ []) ≡ ok (8 ∷ 9 ∷ [], 7 ∷ [])
decode_value-encode_value_example =
    decode_value-encode_value (8 ∷ 9 ∷ []) (0 ∷ 0 ∷ 0 ∷ 2 ∷ 8 ∷ 9 ∷ []) (7 ∷ []) value_encodes

abbrev description : Dict Text
description = (text "key", text "toy") ∷ (text "alg", text "AES") ∷ []

abbrev attribute_of : Result Attribute → Attribute
attribute_of (ok a) = a
attribute_of (err e) = not_dict

abbrev description_attribute : Attribute
description_attribute = attribute_of (MaterialDescription.serialize plain description)

description_serializes : MaterialDescription.serialize plain description ≡ ok description_attribute
unfolding MaterialDescription.serialize MaterialDescription.write_entries sort_by insert_by text_le
    MaterialDescription.catch_invalid MaterialDescription.encode_text to_bytes encode_value
    pack_uint32
description_serializes = refl

description-IsDict : IsDict description
unfolding get text_eq
description-IsDict = (refl, (refl, tt))

get-deserialize-serialize_example :
    (e : Dict Text) × (MaterialDescription.deserialize plain description_attribute ≡ ok e)
    × IsDict e
    × ((name : Text) → get name e ≡ get name description)
get-deserialize-serialize_example =
    get-deserialize-serialize plain plain-IsLossless description description_attribute
      description-IsDict description_serializes
