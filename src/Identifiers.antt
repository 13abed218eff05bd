-- ===== src/Identifiers.antt =====
-- src/dynamodb_encryption_sdk/internal/identifiers.py: the tags of the serialized attributes; the
-- other tables of names are the modules below.
pub mod ReservedAttributes
pub mod TagValues
pub mod MaterialDescriptionKeys
pub mod SignatureValues
use aws_dynamodb_encryption.Prelude.{
  ℕ, Text, Bytes, text, ◌==◌, ltb, if◌then◌else◌, not, Bool, ◌&&◌, ◌≡◌, refl, Option, none, some,
  [], ◌∷◌,
}

pub data Tag : Type 0 where
  binary binary_set number number_set string string_set boolean null list_of map_of : Tag

-- Tag.tag
unfoldable pub tag_byte : Tag → ℕ
tag_byte Tag.binary = b'b'
tag_byte Tag.binary_set = b'B'
tag_byte Tag.number = b'n'
tag_byte Tag.number_set = b'N'
tag_byte Tag.string = b's'
tag_byte Tag.string_set = b'S'
tag_byte Tag.boolean = b'?'
tag_byte Tag.null = 0
tag_byte Tag.list_of = b'L'
tag_byte Tag.map_of = b'M'

-- The table of `_deserialize_function`, by the tag read.
unfoldable pub find_tag : ℕ → Option Tag
find_tag b =
    if b == b'b'
    then some Tag.binary
    else if b == b'B'
    then some Tag.binary_set
    else if b == b'n'
    then some Tag.number
    else if b == b'N'
    then some Tag.number_set
    else if b == b's'
    then some Tag.string
    else if b == b'S'
    then some Tag.string_set
    else if b == b'?'
    then some Tag.boolean
    else if b == 0
    then some Tag.null
    else if b == b'L'
    then some Tag.list_of
    else if b == b'M'
    then some Tag.map_of
    else none

-- Reading the byte that is written for a tag finds the tag again: no two tags share one byte.
pub find_tag-tag_byte : (t : Tag) → find_tag (tag_byte t) ≡ some t
unfolding find_tag tag_byte
find_tag-tag_byte Tag.binary = refl
find_tag-tag_byte _ = refl
