-- ===== src/Formatting/RoundTrip/Scalars.antt =====
-- One lemma for each tag whose attribute holds no other attribute.
use aws_dynamodb_encryption.Prelude.{
  ℕ, zero, suc, ◌*◌, ◌<◌, Text, Bytes, List, [], ◌∷◌, ◌++◌, map, length, ◌≡◌, ◌∙◌, refl, ap, sym,
  subst, arith, some, Bool, true, false,
}
use aws_dynamodb_encryption.Result.{
  Result, ok, ◌>>=◌, >>=-eq-ok, ok-injective, or_raise, or_raise-eq-ok, or_raise-some, value_error,
  decimal_error,
}
use aws_dynamodb_encryption.Sorting.{sort}
use aws_dynamodb_encryption.Identifiers.{Tag}
use aws_dynamodb_encryption.Formatting.Pack.{
  bind_ok, decode_value, decode_byte, decode_byte_lem, decode_value-encode_value,
}
use aws_dynamodb_encryption.Formatting.Attribute.{
  Attribute, Codec, IsLossless, binary, binary_set, number, number_set, string, string_set, boolean,
  null,
}
use aws_dynamodb_encryption.Formatting.Serialize.{
  header, serialize_value, serialize_set, serialize_boolean, serialize_null, to_bytes,
  transform_number_value,
}
use aws_dynamodb_encryption.Formatting.Deserialize.{
  read_value, deserialize_set, deserialize_tag, deserialize, catch_struct_error,
  transform_string_value, parse_number_value, boolean_map,
}
use aws_dynamodb_encryption.Formatting.Canonical.{normal_number}
use aws_dynamodb_encryption.Formatting.RoundTrip.Values.{
  deserialize-header, serialize_value-eq-ok, read_value_lem, deserialize_set-serialize_set,
}

-- Whatever bytes `r` gives, they are read as `v`, with fuel for half of them.
abbrev pub Reads : Codec → Result Bytes → Attribute → Type 0
Reads c r v =
    (b rest : Bytes) (f : ℕ)
    → r ≡ ok b
    → length b < 2 * f
    → deserialize c f (b ++ rest) ≡ ok (v, rest)

-- To read an attribute it is enough to read what follows its header.
pub read_tagged :
    (c : Codec) (t : Tag) (s b rest : Bytes) (v : Attribute) (f : ℕ)
    → header t ++ s ≡ b
    → length b < 2 * f
    → ((g : ℕ)
        → length s < 2 * g
        → deserialize_tag c (deserialize c g) t (s ++ rest) ≡ ok (v, rest))
    → deserialize c f (b ++ rest) ≡ ok (v, rest)
unfolding catch_struct_error
read_tagged c t s b rest v zero e h k = absurd (omega arith)
read_tagged c t s b rest v (suc f) e h k =
    let shorter : length s < 2 * f = omega (arith, ap length e) in
    rw (← e) (deserialize-header c f t (s ++ rest) ∙ ap catch_struct_error (k f shorter))

map-id {ℓ} : {A : Type ℓ} (xs : List A) → map (λ x. x) xs ≡ xs
map-id [] = refl
map-id (x ∷ xs) = ap (λ l. x ∷ l) (map-id xs)

module _ (c : Codec) where
  pub binary-Reads : (v : Bytes) → Reads c (serialize_value Tag.binary v) (binary v)
  unfolding deserialize_tag
  binary-Reads v b rest f h lt =
      let (e, p, q) = serialize_value-eq-ok Tag.binary v h in
      read_tagged c Tag.binary e b rest _ f q lt
        (λ g _. bind_ok decode_value _ (decode_value-encode_value v e rest p))

  -- The key of a map is read in the same way.
  pub string_bytes-Reads :
      (v : Bytes) (t : Text)
      → c.decode v ≡ some t
      → Reads c (serialize_value Tag.string v) (string t)
  unfolding deserialize_tag transform_string_value
  string_bytes-Reads v t d b rest f h lt =
      let (e, p, q) = serialize_value-eq-ok Tag.string v h in
      read_tagged c Tag.string e b rest _ f q lt (λ g _.
        bind_ok (read_value (transform_string_value c)) _ (
          read_value_lem (transform_string_value c) v e rest t p
            (or_raise-some value_error (c.decode v) d)))

  pub boolean-Reads : (v : Bool) → Reads c (serialize_boolean v) (boolean v)
  unfolding deserialize_tag serialize_boolean boolean_map
  boolean-Reads true b rest f h lt =
      read_tagged c Tag.boolean (1 ∷ []) b rest _ f (ok-injective h) lt
        (λ g _. bind_ok decode_byte _ (decode_byte_lem 1 rest))
  boolean-Reads false b rest f h lt =
      read_tagged c Tag.boolean (0 ∷ []) b rest _ f (ok-injective h) lt
        (λ g _. bind_ok decode_byte _ (decode_byte_lem 0 rest))

  pub null-Reads : Reads c serialize_null (null true)
  unfolding deserialize_tag serialize_null
  null-Reads b rest f h lt = read_tagged c Tag.null [] b rest _ f (ok-injective h) lt (λ g _. refl)

  module _ (lossless : IsLossless c) where
    transform_string :
        (t : Text) (b : Bytes) → to_bytes c t ≡ ok b → transform_string_value c b ≡ ok t
    unfolding to_bytes transform_string_value
    transform_string t b h =
        or_raise-some value_error (c.decode b)
          (lossless.decode-encode t b (or_raise-eq-ok value_error (c.encode t) h))

    normal_number_lem : (t u : Text) → c.format_number t ≡ some u → normal_number c t ≡ u
    normal_number_lem t u h = rw (h, normal_number)

    decode_string : (t : Text) (b : Bytes) → to_bytes c t ≡ ok b → c.decode b ≡ some t
    unfolding to_bytes
    decode_string t b h = lossless.decode-encode t b (or_raise-eq-ok value_error (c.encode t) h)

    transform_number :
        (t : Text) (b : Bytes)
        → transform_number_value c t ≡ ok b
        → parse_number_value c b ≡ ok (normal_number c t)
    unfolding transform_number_value parse_number_value
    transform_number t b h =
        let (u, p, q) = >>=-eq-ok (or_raise decimal_error (c.format_number t)) (to_bytes c) h in
        let formatted = or_raise-eq-ok decimal_error (c.format_number t) p in
        rw (normal_number_lem t u formatted) (
          rw (decode_string u b q)
            (or_raise-some decimal_error (c.parse_number u) (lossless.parse-format t u formatted)))

    pub string-Reads : (t : Text) → Reads c (to_bytes c t >>= serialize_value Tag.string) (string t)
    string-Reads t b rest f h lt =
        let (v, p, q) = >>=-eq-ok (to_bytes c t) (serialize_value Tag.string) h in
        string_bytes-Reads v t (decode_string t v p) b rest f q lt

    pub number-Reads :
        (t : Text)
        → Reads c
            (transform_number_value c t >>= serialize_value Tag.number)
            (number (normal_number c t))
    unfolding deserialize_tag
    number-Reads t b rest f h lt =
        let (v, p, q) = >>=-eq-ok (transform_number_value c t) (serialize_value Tag.number) h in
        let (e, r, same) = serialize_value-eq-ok Tag.number v q in
        read_tagged c Tag.number e b rest _ f same lt (λ g _.
          bind_ok (read_value (parse_number_value c)) _ (
            read_value_lem (parse_number_value c) v e rest (normal_number c t) r
              (transform_number t v p)))

    pub number_set-Reads :
        (ts : List Text)
        → Reads c
            (serialize_set Tag.number_set (transform_number_value c) ts)
            (number_set (sort (map (normal_number c) ts)))
    unfolding deserialize_tag
    number_set-Reads ts b rest f h lt =
        let (s, same, back) =
          deserialize_set-serialize_set (transform_number_value c) (parse_number_value c)
            (normal_number c) transform_number Tag.number_set ts b h in
        read_tagged c Tag.number_set s b rest _ f same lt
          (λ g _. bind_ok (deserialize_set (parse_number_value c)) _ (back rest))

    pub string_set-Reads :
        (ts : List Text)
        → Reads c (serialize_set Tag.string_set (to_bytes c) ts) (string_set (sort ts))
    unfolding deserialize_tag
    string_set-Reads ts b rest f h lt =
        let (s, same, back) =
          deserialize_set-serialize_set (to_bytes c) (transform_string_value c) (λ t. t)
            transform_string Tag.string_set ts b h in
        read_tagged c Tag.string_set s b rest _ f same lt (λ g _.
          bind_ok (deserialize_set (transform_string_value c)) _ (
            subst (λ l. deserialize_set (transform_string_value c) (s ++ rest) ≡ ok (sort l, rest))
              (map-id ts) (back rest)))

  pub binary_set-Reads :
      (bs : List Bytes) → Reads c (serialize_set Tag.binary_set ok bs) (binary_set (sort bs))
  unfolding deserialize_tag
  binary_set-Reads bs b rest f h lt =
      let (s, same, back) =
        deserialize_set-serialize_set {A = Bytes} ok ok (λ t. t)
          (λ x y e. ap ok (sym (ok-injective e))) Tag.binary_set bs b h in
      read_tagged c Tag.binary_set s b rest _ f same lt (λ g _.
        bind_ok (deserialize_set ok) _
          (subst (λ l. deserialize_set ok (s ++ rest) ≡ ok (sort l, rest)) (map-id bs) (back rest)))
