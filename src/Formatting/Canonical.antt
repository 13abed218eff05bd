-- ===== src/Formatting/Canonical.antt =====
-- The form in which an attribute comes back from its serialization: sets and maps in the order of
-- their bytes, numbers normalized, NULL always true.
use aws_dynamodb_encryption.Prelude.{Bytes, Text, List, [], ◌∷◌, map, true, none, some}
use aws_dynamodb_encryption.Sorting.{sort, sort_by}
use aws_dynamodb_encryption.Dict.{Dict, put_all}
use aws_dynamodb_encryption.Formatting.Attribute.{
  Attribute, Attributes, Members, Codec, to_items, to_members, binary_set, number, number_set,
  string_set, null, list_of, map_of, no_items, item, no_members, member,
}

-- The bytes of a key, where it has any.
abbrev pub encoded : Codec → Text → Bytes
encoded c t = elim (c.encode t) [ none ↦ [] | some b ↦ b ]

abbrev pub normal_number : Codec → Text → Text
normal_number c t = elim (c.format_number t) [ none ↦ t | some u ↦ u ]

unfoldable mutual
  pub canonical : Codec → Attribute → Attribute
  canonical c (binary_set bs) = binary_set (sort bs)
  canonical c (number t) = number (normal_number c t)
  canonical c (number_set ts) = number_set (sort (map (normal_number c) ts))
  canonical c (string_set ts) = string_set (sort ts)
  canonical c (null b) = null true
  canonical c (list_of xs) = list_of (to_items (canonical_items c xs))
  canonical c (map_of ms) =
      map_of (to_members (put_all [] (sort_by (λ e. encoded c (e.0)) (canonical_members c ms))))
  canonical c a = a

  pub canonical_items : Codec → Attributes → List Attribute
  canonical_items c no_items = []
  canonical_items c (item a xs) = canonical c a ∷ canonical_items c xs

  pub canonical_members : Codec → Members → Dict Attribute
  canonical_members c no_members = []
  canonical_members c (member k a ms) = (k, canonical c a) ∷ canonical_members c ms
