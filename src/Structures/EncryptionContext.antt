-- ===== src/Structures/EncryptionContext.antt =====
-- structures.py: EncryptionContext. The checks of the types of its fields hold of the model's types.
use aws_dynamodb_encryption.Prelude.{Text, Bool, true, false, ◌&&◌, Option, [], ◌∷◌, if◌then◌else◌}
use aws_dynamodb_encryption.Result.{Result, ok, err, type_error}
use aws_dynamodb_encryption.Dict.{Dict}
use aws_dynamodb_encryption.Formatting.Attribute.{Attribute, Item, not_single, not_dict}

pub record EncryptionContext : Type 0 where
  pub table_name : Option Text
  pub partition_key_name : Option Text
  pub sort_key_name : Option Text
  pub attributes : Item
  pub material_description : Dict Text

-- len(list(data.values())) == 1, of a dict
unfoldable pub looks_like_attribute : Attribute → Bool
looks_like_attribute not_single = false
looks_like_attribute not_dict = false
looks_like_attribute a = true

-- _validate_attribute_values_are_ddb_items
unfoldable pub values_are_ddb_items : Item → Bool
unfolding looks_like_attribute
values_are_ddb_items [] = true
values_are_ddb_items ((k, a) ∷ d) = looks_like_attribute a && values_are_ddb_items d

-- EncryptionContext(...)
unfoldable pub new :
    Option Text → Option Text → Option Text → Item → Dict Text → Result EncryptionContext
new table_name partition_key_name sort_key_name attributes material_description =
    if values_are_ddb_items attributes
    then ok (record {
      table_name = table_name;
      partition_key_name = partition_key_name;
      sort_key_name = sort_key_name;
      attributes = attributes;
      material_description = material_description;
    })
    else err type_error
