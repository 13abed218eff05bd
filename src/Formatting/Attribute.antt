-- ===== src/Formatting/Attribute.antt =====
-- Attributes in DynamoDB JSON (internal/dynamodb_types.py), and what the formatting code takes from
-- other packages: the UTF-8 codec and the decimal context.
use aws_dynamodb_encryption.Prelude.{ℕ, suc, Bytes, Text, Bool, List, [], ◌∷◌, Option, some, ◌≡◌}
use aws_dynamodb_encryption.Dict.{Dict}

-- A dict with one entry, by its DynamoDB tag. A `Binary` and its bytes are one value. The last three
-- are what `serialize_attribute` refuses: an unknown tag, a dict with none or several entries, and
-- what is no dict.
mutual
  pub data Attribute : Type 0 where
    binary : Bytes → Attribute
    binary_set : List Bytes → Attribute
    number : Text → Attribute
    number_set : List Text → Attribute
    string : Text → Attribute
    string_set : List Text → Attribute
    boolean : Bool → Attribute
    null : Bool → Attribute
    list_of : Attributes → Attribute
    map_of : Members → Attribute
    unsupported : Text → Attribute
    not_single : Attribute
    not_dict : Attribute

  pub data Attributes : Type 0 where
    no_items : Attributes
    item : Attribute → Attributes → Attributes

  pub data Members : Type 0 where
    no_members : Members
    member : Text → Attribute → Members → Members

abbrev pub to_items : List Attribute → Attributes
to_items [] = no_items
to_items (a ∷ l) = item a (to_items l)

abbrev pub to_members : Dict Attribute → Members
to_members [] = no_members
to_members ((k, a) ∷ d) = member k a (to_members d)

abbrev pub of_members : Members → Dict Attribute
of_members no_members = []
of_members (member k a ms) = (k, a) ∷ of_members ms

abbrev pub length_items : Attributes → ℕ
length_items no_items = 0
length_items (item a xs) = suc (length_items xs)

abbrev pub length_members : Members → ℕ
length_members no_members = 0
length_members (member k a ms) = suc (length_members ms)

-- An item of a table: attributes by name.
abbrev pub Item : Type 0
Item = Dict Attribute

-- Functions of other packages. `none` is a UnicodeError, or a signal of the decimal module.
pub record Codec : Type 0 where
  -- codecs.encode(t, "utf-8") and codecs.decode(b, "utf-8")
  pub encode : Text → Option Bytes
  pub decode : Bytes → Option Text
  -- "{0:f}".format(DYNAMODB_CONTEXT.create_decimal(t).normalize())
  pub format_number : Text → Option Text
  -- "{0:f}".format(Decimal(t).normalize())
  pub parse_number : Text → Option Text

-- What is documented of them: the codec is lossless, and a number in its normal form reads back as it
-- stands.
pub record IsLossless (c : Codec) : Type 0 where
  pub decode-encode : (t : Text) (b : Bytes) → c.encode t ≡ some b → c.decode b ≡ some t
  pub parse-format : (t u : Text) → c.format_number t ≡ some u → c.parse_number u ≡ some u
