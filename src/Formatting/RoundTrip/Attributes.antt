-- ===== src/Formatting/RoundTrip/Attributes.antt =====
-- Serialized attributes are read back in their canonical form, whatever bytes follow.
use aws_dynamodb_encryption.Prelude.{
  ℕ, zero, suc, ◌+◌, ◌*◌, ◌<◌, Bytes, [], ◌∷◌, ◌++◌, length, length-append, append_assoc, ◌≡◌, ◌≢◌,
  ◌∙◌, ap, arith, All,
}
use aws_dynamodb_encryption.Result.{ok, >>=-eq-ok, ok-injective}
use aws_dynamodb_encryption.Identifiers.{Tag}
use aws_dynamodb_encryption.Formatting.Pack.{
  bind, decode_tag, bind_ok, encode_length, decode_length, decode_length-encode_length,
}
use aws_dynamodb_encryption.Formatting.Attribute.{
  Attribute, Attributes, Members, Codec, IsLossless, length_items, length_members, binary,
  binary_set, number, number_set, string, string_set, boolean, null, list_of, map_of, unsupported,
  not_single, not_dict, no_items, item, no_members, member,
}
use aws_dynamodb_encryption.Formatting.Serialize.{
  serialize_attribute, serialize_items, serialized_members, sorted_key_map, to_bytes, write_members,
}
use aws_dynamodb_encryption.Formatting.Deserialize.{
  repeat, deserialize_members, deserialize_tag, deserialize, deserialize_attribute,
  catch_struct_error,
}
use aws_dynamodb_encryption.Formatting.Canonical.{canonical, canonical_items}
use aws_dynamodb_encryption.Formatting.RoundTrip.Scalars.{
  Reads, read_tagged, binary-Reads, binary_set-Reads, number-Reads, number_set-Reads, string-Reads,
  string_set-Reads, boolean-Reads, null-Reads,
}
use aws_dynamodb_encryption.Formatting.RoundTrip.Entries.{entries, ValueReads, read_sorted_members}

module _ (c : Codec) where
  abbrev ReadsItems : Attributes → Type 0
  ReadsItems xs =
      (b rest : Bytes) (f : ℕ)
      → serialize_items c xs ≡ ok b
      → length b < 2 * f
      → repeat (length_items xs) (deserialize c f) (b ++ rest) ≡ ok (canonical_items c xs, rest)

  list-Reads :
      (xs : Attributes)
      → ReadsItems xs
      → Reads c (serialize_attribute c (list_of xs)) (canonical c (list_of xs))
  unfolding serialize_attribute deserialize_tag canonical
  list-Reads xs ih b rest f h lt =
      let (n, hn, h₁) = >>=-eq-ok (encode_length (length_items xs)) _ h in
      let (body, hb, h₂) = >>=-eq-ok (serialize_items c xs) _ h₁ in
      read_tagged c Tag.list_of (n ++ body) b rest _ f (ok-injective h₂) lt (λ g lt'.
        rw append_assoc (
          bind_ok decode_length _
            (decode_length-encode_length (length_items xs) n (body ++ rest) hn)
          ∙ bind_ok (repeat (length_items xs) (deserialize c g)) _
              (ih body rest g hb (omega (arith, length-append n body)))))

  item-Reads :
      (a : Attribute) (xs : Attributes)
      → Reads c (serialize_attribute c a) (canonical c a)
      → ReadsItems xs
      → ReadsItems (item a xs)
  unfolding serialize_attribute repeat canonical
  item-Reads a xs first more b rest f h lt =
      let (x, hx, h₁) = >>=-eq-ok (serialize_attribute c a) _ h in
      let (y, hy, h₂) = >>=-eq-ok (serialize_items c xs) _ h₁ in
      let total : length x + length y ≡ length b =
        omega (arith, length-append x y, ap length (ok-injective h₂)) in
      rw (← ok-injective h₂, append_assoc)
        (bind_ok (deserialize c f) _ (first x (y ++ rest) f hx (omega arith))
          ∙ bind_ok (repeat (length_items xs) (deserialize c f)) _ (more y rest f hy (omega arith)))

  module _ (lossless : IsLossless c) where
    map-Reads :
        (ms : Members)
        → All (ValueReads c) (entries c ms)
        → Reads c (serialize_attribute c (map_of ms)) (canonical c (map_of ms))
    unfolding serialize_attribute deserialize_tag canonical
    map-Reads ms ih b rest f h lt =
        let (n, hn, h₁) = >>=-eq-ok (encode_length (length_members ms)) _ h in
        let (es, he, h₂) = >>=-eq-ok (sorted_key_map (to_bytes c) (serialized_members c ms)) _ h₁ in
        let (body, hb, h₃) = >>=-eq-ok (write_members es) _ h₂ in
        read_tagged c Tag.map_of (n ++ body) b rest _ f (ok-injective h₃) lt (λ g lt'.
          rw append_assoc (
            bind_ok decode_length _
              (decode_length-encode_length (length_members ms) n (body ++ rest) hn)
            ∙ bind_ok (deserialize_members (deserialize c g) (length_members ms) []) _ (
                read_sorted_members c lossless ms es body rest g ih he hb
                  (omega (arith, length-append n body)))))

mutual
  unfolding serialize_attribute canonical repeat

  attribute-Reads :
      (c : Codec)
      → IsLossless c
      → (a : Attribute) → Reads c (serialize_attribute c a) (canonical c a)
  attribute-Reads c l (binary v) = binary-Reads c v
  attribute-Reads c l (binary_set bs) = binary_set-Reads c bs
  attribute-Reads c l (number t) = number-Reads c l t
  attribute-Reads c l (number_set ts) = number_set-Reads c l ts
  attribute-Reads c l (string t) = string-Reads c l t
  attribute-Reads c l (string_set ts) = string_set-Reads c l ts
  attribute-Reads c l (boolean v) = boolean-Reads c v
  attribute-Reads c l (null v) = null-Reads c
  attribute-Reads c l (list_of xs) = list-Reads c xs (items-Reads c l xs)
  attribute-Reads c l (map_of ms) = map-Reads c l ms (members-Reads c l ms)
  attribute-Reads c l (unsupported t) = λ b rest f h lt. cc
  attribute-Reads c l not_single = λ b rest f h lt. cc
  attribute-Reads c l not_dict = λ b rest f h lt. cc

  items-Reads : (c : Codec) → IsLossless c → (xs : Attributes) → ReadsItems c xs
  items-Reads c l no_items = λ b rest f h lt. rw (← ok-injective h)
  items-Reads c l (item a xs) = item-Reads c a xs (attribute-Reads c l a) (items-Reads c l xs)

  members-Reads : (c : Codec) → IsLossless c → (ms : Members) → All (ValueReads c) (entries c ms)
  members-Reads c l no_members = tt
  members-Reads c l (member k a ms) = (attribute-Reads c l a, members-Reads c l ms)

-- With fuel for half of the bytes, the reader takes exactly the bytes of a serialized attribute off
-- the front of any stream, and gives the attribute in its canonical form.
pub deserialize-serialize_attribute :
    (c : Codec) (lossless : IsLossless c) (a : Attribute) (b rest : Bytes) (f : ℕ)
    → serialize_attribute c a ≡ ok b
    → length b < 2 * f
    → deserialize c f (b ++ rest) ≡ ok (canonical c a, rest)
deserialize-serialize_attribute c lossless a b rest f = attribute-Reads c lossless a b rest f

-- `deserialize_attribute` returns what its reader finds first.
deserialize_attribute-eq-ok :
    (c : Codec) (s : Bytes) {a : Attribute} {rest : Bytes}
    → deserialize c (length s) s ≡ ok (a, rest)
    → deserialize_attribute c s ≡ ok a
unfolding deserialize_attribute deserialize
deserialize_attribute-eq-ok c [] h = cc
deserialize_attribute-eq-ok c (x ∷ s) h = rw h

deserialize-nil :
    (c : Codec) (f : ℕ) (a : Attribute) (rest : Bytes) → deserialize c f [] ≢ ok (a, rest)
unfolding deserialize bind decode_tag catch_struct_error
deserialize-nil c zero a rest = cc
deserialize-nil c (suc f) a rest = cc

-- Serializing an attribute and deserializing the bytes, with whatever follows them, gives the
-- attribute in its canonical form; the codec must be lossless and the serialization must succeed.
pub deserialize_attribute-serialize_attribute :
    (c : Codec) (lossless : IsLossless c) (a : Attribute) (b rest : Bytes)
    → serialize_attribute c a ≡ ok b
    → deserialize_attribute c (b ++ rest) ≡ ok (canonical c a)
deserialize_attribute-serialize_attribute c lossless a [] rest h = absurd (
    deserialize-nil c 1 (canonical c a) []
      (deserialize-serialize_attribute c lossless a [] [] 1 h (omega arith)))
deserialize_attribute-serialize_attribute c lossless a (x ∷ b) rest h =
    deserialize_attribute-eq-ok c (x ∷ b ++ rest) (
      deserialize-serialize_attribute c lossless a (x ∷ b) rest (length (x ∷ b ++ rest)) h
        (omega (arith, length-append b rest)))
