-- ===== src/Structures/TableInfo.antt =====
-- structures.py: TableIndex and TableInfo.
use aws_dynamodb_encryption.Prelude.{
  Text, text, Option, none, some, List, [], ◌∷◌, ◌++◌, text_eq, if◌then◌else◌,
}
use aws_dynamodb_encryption.Result.{Result, ok, err, ◌>>=◌, or_raise, attribute_error, key_error}
use aws_dynamodb_encryption.Dict.{Dict, get, put_all}

pub record TableIndex : Type 0 where
  pub partition : Text
  pub sort : Option Text

-- The set of the names, as a list.
unfoldable pub attributes : TableIndex → List Text
attributes self = elim self.sort [
  | none ↦ self.partition ∷ []
  | some s ↦ self.partition ∷ (if text_eq s self.partition then [] else s ∷ [])
]

-- A KeySchema: the names by their KeyType, in the order of the response.
abbrev pub KeySchema : Type 0
KeySchema = Dict Text

unfoldable pub from_key_schema : KeySchema → Result TableIndex
from_key_schema key_schema =
    let index = put_all [] key_schema in
    do
      partition ← or_raise key_error (get (text "HASH") index)
      ok (record { partition = partition; sort = get (text "RANGE") index })

pub record TableInfo : Type 0 where
  pub name : Text
  pub known_primary_index : Option TableIndex
  pub known_secondary_indexes : Option (List TableIndex)

-- TableInfo(name=name)
abbrev pub new : Text → TableInfo
new name = record { name = name; known_primary_index = none; known_secondary_indexes = none }

-- The properties raise AttributeError where the indexes are unknown.
unfoldable pub primary_index : TableInfo → Result TableIndex
primary_index self = or_raise attribute_error self.known_primary_index

unfoldable pub secondary_indexes : TableInfo → Result (List TableIndex)
secondary_indexes self = or_raise attribute_error self.known_secondary_indexes

unfoldable pub protected_index_keys : TableInfo → Result (List Text)
protected_index_keys self = do index ← primary_index self; ok (attributes index)

-- The keyword arguments for an EncryptionContext: the names of the table and of its keys.
abbrev pub ContextValues : Type 0
ContextValues = record { table_name : Text; partition_key_name : Text; sort_key_name : Option Text }

-- The test `self.primary_index is not None` reads the property.
unfoldable pub encryption_context_values : TableInfo → Result ContextValues
encryption_context_values self = do
  index ← primary_index self
  ok (record {
    table_name = self.name;
    partition_key_name = index.partition;
    sort_key_name = index.sort;
  })

-- What DescribeTable returns of a table.
pub record TableDescription : Type 0 where
  pub key_schema : KeySchema
  pub local_secondary_indexes : Option (List KeySchema)
  pub global_secondary_indexes : Option (List KeySchema)

-- for index in table[group]: append(...), up to a KeyError, which ends the group
unfoldable pub append_indexes : List TableIndex → List KeySchema → List TableIndex
append_indexes known [] = known
append_indexes known (schema ∷ schemas) =
    let rest = λ (index : TableIndex). append_indexes (known ++ index ∷ []) schemas in
    elim (from_key_schema schema) [ ok index ↦ rest index | err e ↦ known ]

unfoldable pub append_group : List TableIndex → Option (List KeySchema) → List TableIndex
append_group known none = known
append_group known (some schemas) = append_indexes known schemas

-- `describe_table` is the client's call.
unfoldable pub refresh_indexed_attributes :
    (Text → Result TableDescription) → TableInfo → Result TableInfo
refresh_indexed_attributes describe_table self = do
  table ← describe_table self.name
  index ← from_key_schema table.key_schema
  ok (record self {
    known_primary_index = some index;
    known_secondary_indexes = some (
        append_group (append_group [] table.local_secondary_indexes)
          table.global_secondary_indexes);
  })
