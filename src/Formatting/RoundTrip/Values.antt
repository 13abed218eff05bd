-- ===== src/Formatting/RoundTrip/Values.antt =====
-- The scalars and the sets of `serialize_attribute`, read back by the readers of `deserialize`.
use aws_dynamodb_encryption.Prelude.{
  ℕ, suc, Text, Bytes, List, [], ◌∷◌, ◌++◌, map, length, append_assoc, ◌≡◌, ◌∙◌, refl, ap, sym,
  subst, All,
}
use aws_dynamodb_encryption.Result.{
  Result, ok, >>=-eq-ok, ok-injective, or_raise, deserialization_error,
}
use aws_dynamodb_encryption.Sorting.{
  sort, sort_by, sort_by-All, sort_by-map, length-sort_by, sort-map-sort_by,
}
use aws_dynamodb_encryption.Identifiers.{Tag, tag_byte, find_tag, find_tag-tag_byte}
use aws_dynamodb_encryption.Formatting.Pack.{
  bind_ok, lift, encode_length, encode_value, decode_length, decode_value, decode_tag,
  decode_tag_lem, decode_value-encode_value, decode_length-encode_length,
}
use aws_dynamodb_encryption.Formatting.Attribute.{Codec}
use aws_dynamodb_encryption.Formatting.Serialize.{
  header, traverse, write_values, serialize_value, serialize_set,
}
use aws_dynamodb_encryption.Formatting.Deserialize.{
  repeat, read_value, deserialize_set, deserialize_tag, deserialize, catch_struct_error,
}

-- Behind a header, the reader is that of its tag.
pub deserialize-header :
    (c : Codec) (f : ℕ) (t : Tag) (s : Bytes)
    → deserialize c (suc f) (header t ++ s)
      ≡ catch_struct_error (deserialize_tag c (deserialize c f) t s)
unfolding deserialize
deserialize-header c f t s = ap catch_struct_error (
    bind_ok decode_tag _ (decode_tag_lem (tag_byte t) s)
    ∙ bind_ok (lift (or_raise deserialization_error (find_tag (tag_byte t))))
        (deserialize_tag c (deserialize c f)) (rw find_tag-tag_byte))

-- What a serialized value starts with.
pub serialize_value-eq-ok :
    (t : Tag) (v : Bytes) {b : Bytes}
    → serialize_value t v ≡ ok b
    → (e : Bytes) × (encode_value v ≡ ok e) × (header t ++ e ≡ b)
unfolding serialize_value
serialize_value-eq-ok t v h =
    let (e, p, q) = >>=-eq-ok (encode_value v) _ h in (e, p, ok-injective q)

pub read_value_lem {ℓ} :
    {A : Type ℓ} (transform : Bytes → Result A) (v e rest : Bytes) (a : A)
    → encode_value v ≡ ok e
    → transform v ≡ ok a
    → read_value transform (e ++ rest) ≡ ok (a, rest)
unfolding read_value
read_value_lem transform v e rest a p q =
    bind_ok decode_value _ (decode_value-encode_value v e rest p) ∙ rw q

-- A member of a set: the bytes that are written, and what they are read as.
abbrev Encoded : Type 0
Encoded = Bytes × Text

abbrev bytes_of : Encoded → Bytes
bytes_of z = z.0

abbrev text_of : Encoded → Text
text_of z = z.1

abbrev IsRead : (Bytes → Result Text) → Encoded → Type 0
IsRead transform z = transform (z.0) ≡ ok (z.1)

repeat_values :
    (transform : Bytes → Result Text) (zs : List Encoded) (body rest : Bytes)
    → All (IsRead transform) zs
    → write_values (map bytes_of zs) ≡ ok body
    → repeat (length zs) (read_value transform) (body ++ rest) ≡ ok (map text_of zs, rest)
unfolding repeat write_values
repeat_values transform [] body rest g h = rw (← ok-injective h)
repeat_values transform ((v, t) ∷ zs) body rest g h =
    let (e, p, h') = >>=-eq-ok (encode_value v) _ h in
    let (more, q, r) = >>=-eq-ok (write_values (map bytes_of zs)) _ h' in
    rw (← ok-injective r, append_assoc)
      (bind_ok (read_value transform) _ (read_value_lem transform v e (more ++ rest) t p (g.0))
        ∙ bind_ok (repeat (length zs) (read_value transform)) _
            (repeat_values transform zs more rest (g.1) q))

-- The loop of the reader over the sorted members.
read_sorted :
    (transform : Bytes → Result Text) (zs : List Encoded) (body rest : Bytes)
    → All (IsRead transform) zs
    → write_values (sort (map bytes_of zs)) ≡ ok body
    → repeat (length zs) (read_value transform) (body ++ rest)
      ≡ ok (map text_of (sort_by bytes_of zs), rest)
read_sorted transform zs body rest g h = rw (← length-sort_by bytes_of zs) (
    repeat_values transform (sort_by bytes_of zs) body rest
      (sort_by-All (IsRead transform) bytes_of zs g) (rw (sort_by-map bytes_of (λ t. t) zs) at h))

read_set :
    (transform : Bytes → Result Text) (zs : List Encoded) (n body rest : Bytes)
    → encode_length (length zs) ≡ ok n
    → All (IsRead transform) zs
    → write_values (sort (map bytes_of zs)) ≡ ok body
    → deserialize_set transform ((n ++ body) ++ rest) ≡ ok (sort (map text_of zs), rest)
unfolding deserialize_set
read_set transform zs n body rest p g h = rw append_assoc (
    bind_ok decode_length _ (decode_length-encode_length (length zs) n (body ++ rest) p)
    ∙ bind_ok (repeat (length zs) (read_value transform)) _ (read_sorted transform zs body rest g h)
    ∙ ap (λ l. ok (l, rest)) (sort-map-sort_by bytes_of text_of zs))

length-map {ℓ κ} :
    {A : Type ℓ} {B : Type κ} (f : A → B) (xs : List A) → length (map f xs) ≡ length xs
length-map f [] = refl
length-map f (x ∷ xs) = ap suc (length-map f xs)

module _ {ℓ} {A : Type ℓ} (write : A → Result Bytes) (transform : Bytes → Result Text)
    (g : A → Text) where
  traverse_encoded :
      ((x : A) (b : Bytes) → write x ≡ ok b → transform b ≡ ok (g x))
      → (xs : List A) (bs : List Bytes) → traverse write xs ≡ ok bs
      → (zs : List Encoded) × (map bytes_of zs ≡ bs)
        × (map text_of zs ≡ map g xs)
        × All (IsRead transform) zs
  unfolding traverse
  traverse_encoded back [] bs h = ([], ok-injective h, refl, tt)
  traverse_encoded back (x ∷ xs) bs h =
      let (b, p, h') = >>=-eq-ok (write x) _ h in
      let (more, q, r) = >>=-eq-ok (traverse write xs) _ h' in
      let (zs, e₁, e₂, all) = traverse_encoded back xs more q in
      ((b, g x) ∷ zs, cc (e₁, ok-injective r), cc e₂, (back x b p, all))

  -- A serialized set is read back as the sorted list of its members.
  pub deserialize_set-serialize_set :
      ((x : A) (b : Bytes) → write x ≡ ok b → transform b ≡ ok (g x))
      → (t : Tag) (xs : List A) (b : Bytes) → serialize_set t write xs ≡ ok b
      → (s : Bytes) × (header t ++ s ≡ b)
        × ((rest : Bytes) → deserialize_set transform (s ++ rest) ≡ ok (sort (map g xs), rest))
  unfolding serialize_set
  deserialize_set-serialize_set back t xs b h =
      let (n, hn, h₁) = >>=-eq-ok (encode_length (length xs)) _ h in
      let (bs, hb, h₂) = >>=-eq-ok (traverse write xs) _ h₁ in
      let (body, hw, h₃) = >>=-eq-ok (write_values (sort bs)) _ h₂ in
      let (zs, e₁, e₂, all) = traverse_encoded back xs bs hb in
      let same : length zs ≡ length xs =
        sym (length-map text_of zs) ∙ ap length e₂ ∙ length-map g xs in
      (
        n ++ body,
        ok-injective h₃,
        λ rest.
            subst (λ l. deserialize_set transform ((n ++ body) ++ rest) ≡ ok (sort l, rest)) e₂
              (read_set transform zs n body rest (rw same hn) all (rw e₁ hw)),
      )
