-- ===== src/Formatting/RoundTrip/Entries.antt =====
-- The entries of a map: written in the order of their keys' bytes, read back in that order.
use aws_dynamodb_encryption.Prelude.{
  ℕ, suc, ◌+◌, ◌*◌, ◌<◌, Text, Bytes, List, [], ◌∷◌, ◌++◌, map, length, length-append, append_assoc,
  ◌≡◌, ◌∙◌, refl, ap, sym, arith, some, All,
}
use aws_dynamodb_encryption.Result.{
  Result, ok, >>=-eq-ok, ok-injective, or_raise, or_raise-eq-ok, value_error,
}
use aws_dynamodb_encryption.Sorting.{sort_by, sort_by-All, sort_by-map, length-sort_by}
use aws_dynamodb_encryption.Dict.{Dict, put, put_all}
use aws_dynamodb_encryption.Identifiers.{Tag}
use aws_dynamodb_encryption.Formatting.Pack.{Reader}
use aws_dynamodb_encryption.Formatting.Attribute.{
  Attribute, Members, Codec, IsLossless, string, length_members, no_members, member,
}
use aws_dynamodb_encryption.Formatting.Serialize.{
  serialize_value, to_bytes, transform_keys, sorted_key_map, entry_key, write_members,
  serialize_attribute, serialized_members,
}
use aws_dynamodb_encryption.Formatting.Deserialize.{deserialize, deserialize_members, map_key}
use aws_dynamodb_encryption.Formatting.Canonical.{encoded, canonical, canonical_members}
use aws_dynamodb_encryption.Formatting.RoundTrip.Scalars.{Reads, string_bytes-Reads}

-- A key, the outcome of serializing its value, and what the value is read as.
abbrev Entry : Type 0
Entry = Text × Result Bytes × Attribute

abbrev pub entries : Codec → Members → List Entry
entries c no_members = []
entries c (member k a ms) = (k, serialize_attribute c a, canonical c a) ∷ entries c ms

abbrev written : Codec → Entry → Bytes × Result Bytes
written c z = (encoded c (z.0), z.1)

abbrev restored : Entry → Text × Attribute
restored z = (z.0, z.2)

abbrev order : Codec → Entry → Bytes
order c z = encoded c (z.0)

abbrev pub ValueReads : Codec → Entry → Type 0
ValueReads c z = Reads c (z.1) (z.2)

abbrev HasBytes : Codec → Entry → Type 0
HasBytes c z = c.encode (z.0) ≡ some (encoded c (z.0))

abbrev EntryReads : Codec → Entry → Type 0
EntryReads c z = HasBytes c z × ValueReads c z

restored-entries : (c : Codec) (ms : Members) → map restored (entries c ms) ≡ canonical_members c ms
unfolding canonical
restored-entries c no_members = refl
restored-entries c (member k a ms) = ap (λ l. (k, canonical c a) ∷ l) (restored-entries c ms)

length-entries : (c : Codec) (ms : Members) → length (entries c ms) ≡ length_members ms
length-entries c no_members = refl
length-entries c (member k a ms) = ap suc (length-entries c ms)

encode_some : (c : Codec) (k b : Text) → c.encode k ≡ some b → c.encode k ≡ some (encoded c k)
encode_some c k b h = rw (h, encoded)

encoded_lem : (c : Codec) (k b : Text) → c.encode k ≡ some b → encoded c k ≡ b
encoded_lem c k b h = rw (h, encoded)

transform_entries :
    (c : Codec) (ms : Members) (es : List (Bytes × Result Bytes))
    → transform_keys (to_bytes c) (serialized_members c ms) ≡ ok es
    → (map (written c) (entries c ms) ≡ es) × All (HasBytes c) (entries c ms)
unfolding transform_keys serialize_attribute to_bytes
transform_entries c no_members es h = (ok-injective h, tt)
transform_entries c (member k a ms) es h =
    let (b, p, h') = >>=-eq-ok (or_raise value_error (c.encode k)) _ h in
    let (more, q, r) = >>=-eq-ok (transform_keys (to_bytes c) (serialized_members c ms)) _ h' in
    let (e, all) = transform_entries c ms more q in
    let found = or_raise-eq-ok value_error (c.encode k) p in
    (cc (encoded_lem c k b found, e, ok-injective r), (encode_some c k b found, all))

both :
    (c : Codec) (zs : List Entry)
    → All (HasBytes c) zs
    → All (ValueReads c) zs
    → All (EntryReads c) zs
both c [] h k = tt
both c (z ∷ zs) h k = ((h.0, k.0), both c zs (h.1) (k.1))

-- One round of the reader of a map.
members_step :
    (p : Reader Attribute) (n : ℕ) (k : Text) (v : Attribute) (d : Dict Attribute)
    {s s' s'' : Bytes}
    → p s ≡ ok (string k, s')
    → p s' ≡ ok (v, s'')
    → deserialize_members p (suc n) d s ≡ deserialize_members p n (put k v d) s''
unfolding deserialize_members map_key
members_step p n k v d h h' = rw (h, h')

module _ (c : Codec) (lossless : IsLossless c) where
  read_members :
      (zs : List Entry) (body rest : Bytes) (f : ℕ) (d : Dict Attribute)
      → All (EntryReads c) zs
      → write_members (map (written c) zs) ≡ ok body
      → length body < 2 * f
      → deserialize_members (deserialize c f) (length zs) d (body ++ rest)
        ≡ ok (put_all d (map restored zs), rest)
  unfolding deserialize_members write_members put_all
  read_members [] body rest f d g h lt = rw (← ok-injective h)
  read_members ((k, r, v) ∷ zs) body rest f d g h lt =
      let (key, hk, h₁) = >>=-eq-ok (serialize_value Tag.string (encoded c k)) _ h in
      let (b, hb, h₂) = >>=-eq-ok r _ h₁ in
      let (more, hm, h₃) = >>=-eq-ok (write_members (map (written c) zs)) _ h₂ in
      let total : length key + (length b + length more) ≡ length body =
        omega (
          arith,
          length-append key (b ++ more),
          length-append b more,
          ap length (ok-injective h₃),
        ) in
      let as_string =
        string_bytes-Reads c (encoded c k) k (lossless.decode-encode k (encoded c k) (g.0.0)) in
      rw (← ok-injective h₃) (
        rw (append_assoc, append_assoc)
          (members_step (deserialize c f) (length zs) k v d
              (as_string key (b ++ (more ++ rest)) f hk (omega arith))
              (g.0.1 b (more ++ rest) f hb (omega arith))
            ∙ read_members zs more rest f (put k v d) (g.1) hm (omega arith)))

  -- The sorted entries of a map are read back in that order.
  pub read_sorted_members :
      (ms : Members) (es : List (Bytes × Result Bytes)) (body rest : Bytes) (f : ℕ)
      → All (ValueReads c) (entries c ms)
      → sorted_key_map (to_bytes c) (serialized_members c ms) ≡ ok es
      → write_members es ≡ ok body
      → length body < 2 * f
      → deserialize_members (deserialize c f) (length_members ms) [] (body ++ rest)
        ≡ ok (put_all [] (sort_by (λ e. encoded c (e.0)) (canonical_members c ms)), rest)
  unfolding sorted_key_map
  read_sorted_members ms es body rest f g hs hw lt =
      let (unsorted, p, q) =
        >>=-eq-ok (transform_keys (to_bytes c) (serialized_members c ms)) _ hs in
      let (e, keyed) = transform_entries c ms unsorted p in
      let zs = entries c ms in
      let sorted : map (written c) (sort_by (order c) zs) ≡ es =
        sym (sort_by-map (written c) entry_key zs) ∙ ap (sort_by entry_key) e ∙ ok-injective q in
      let counted : length (sort_by (order c) zs) ≡ length_members ms =
        length-sort_by (order c) zs ∙ length-entries c ms in
      let rebuilt : map restored (sort_by (order c) zs)
          ≡ sort_by (λ e'. encoded c (e'.0)) (canonical_members c ms) =
        sym (sort_by-map restored (λ e'. encoded c (e'.0)) zs)
        ∙ ap (sort_by (λ e'. encoded c (e'.0))) (restored-entries c ms) in
      rw (← counted, ← rebuilt)
        (read_members (sort_by (order c) zs) body rest f []
          (sort_by-All (EntryReads c) (order c) zs (both c zs keyed g)) (rw sorted hw) lt)
