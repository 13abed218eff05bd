-- ===== src/Formatting/MaterialDescription/RoundTrip.antt =====
-- A material description is read back with the entries that were written.
use aws_dynamodb_encryption.Prelude.{
  ℕ, zero, suc, ◌+◌, ◌≤◌, ◌<◌, Text, Bytes, [], ◌∷◌, ◌++◌, length, length-append, ◌≡◌, ◌∙◌, ap,
  arith, text_eq,
}
use aws_dynamodb_encryption.Result.{
  Result, ok, err, >>=-eq-ok, ok-injective, or_raise, or_raise-eq-ok, value_error, type_error,
}
use aws_dynamodb_encryption.Sorting.{sort_by}
use aws_dynamodb_encryption.Dict.{put_all-IsDict, Dict, get, put, put_all, IsDict}
use aws_dynamodb_encryption.Dict.Sorted.{get-rebuilt}
use aws_dynamodb_encryption.Formatting.Pack.{
  encode_value, unpack_value, decode_value-encode_value, length-encode_value,
}
use aws_dynamodb_encryption.Formatting.Attribute.{Attribute, Codec, IsLossless}
use aws_dynamodb_encryption.Formatting.Serialize.{to_bytes}
use aws_dynamodb_encryption.Formatting.Deserialize.{transform_string_value}
use aws_dynamodb_encryption.Formatting.MaterialDescription.{
  version, catch_invalid, catch_struct, encode_text, write_entries, serialize, decode_text,
  read_entries, read_version, raw_material_description, deserialize,
}

catch_invalid-eq-ok {ℓ} : {A : Type ℓ} (r : Result A) {a : A} → catch_invalid r ≡ ok a → r ≡ ok a
unfolding catch_invalid
catch_invalid-eq-ok (ok a) h = h
catch_invalid-eq-ok (err type_error) h = cc
catch_invalid-eq-ok (err _) h = cc

read_version-version : (b : Bytes) → read_version (version ++ b) ≡ ok b
unfolding read_version unpack_value text_eq catch_struct
read_version-version b = ground arith

module _ (c : Codec) (lossless : IsLossless c) where
  decode_text-encode_text :
      (t : Text) (b rest : Bytes)
      → encode_text c t ≡ ok b
      → decode_text c (b ++ rest) ≡ ok (t, rest)
  unfolding encode_text decode_text to_bytes transform_string_value
  decode_text-encode_text t b rest h =
      let (v, p, q) = >>=-eq-ok (or_raise value_error (c.encode t)) encode_value h in
      rw (decode_value-encode_value v b rest q)
        (rw (lossless.decode-encode t v (or_raise-eq-ok value_error (c.encode t) p)))

  length-encode_text : (t : Text) (b : Bytes) → encode_text c t ≡ ok b → 4 ≤ length b
  unfolding encode_text
  length-encode_text t b h =
      let (v, p, q) = >>=-eq-ok (to_bytes c t) encode_value h in
      omega (arith, length-encode_value v b q)

  -- One round of the loop.
  read_entries_step :
      (f : ℕ) (d : Dict Text) (k v : Text) (n w rest : Bytes)
      → encode_text c k ≡ ok n
      → encode_text c v ≡ ok w
      → read_entries c (suc f) d (n ++ (w ++ rest)) ≡ read_entries c f (put k v d) rest
  unfolding read_entries
  read_entries_step f d k v [] w rest p q = absurd (omega (arith, length-encode_text k [] p))
  read_entries_step f d k v (x ∷ n) w rest p q =
      rw (decode_text-encode_text k (x ∷ n) (w ++ rest) p) (rw (decode_text-encode_text v w rest q))

  -- What was written for the first entry, and for those that follow.
  abbrev Written : Text → Text → Dict Text → Bytes → Type 0
  Written k v e b =
      (n : Bytes) × (w : Bytes) × (rest : Bytes) × (encode_text c k ≡ ok n)
      × (encode_text c v ≡ ok w)
      × (write_entries c e ≡ ok rest)
      × (n ++ (w ++ rest) ≡ b)
      × (length rest < length b)

  write_entries-eq-ok :
      (k v : Text) (e : Dict Text) (b : Bytes)
      → write_entries c ((k, v) ∷ e) ≡ ok b
      → Written k v e b
  unfolding write_entries
  write_entries-eq-ok k v e b h =
      let (n, p, h₁) = >>=-eq-ok (catch_invalid (encode_text c k)) _ h in
      let (w, q, h₂) = >>=-eq-ok (catch_invalid (encode_text c v)) _ h₁ in
      let (rest, r, h₃) = >>=-eq-ok (write_entries c e) _ h₂ in
      let p' = catch_invalid-eq-ok (encode_text c k) p in
      let total : length n + (length w + length rest) ≡ length b =
        omega
          (arith, length-append n (w ++ rest), length-append w rest, ap length (ok-injective h₃)) in
      (
        n,
        w,
        rest,
        p',
        catch_invalid-eq-ok (encode_text c v) q,
        r,
        ok-injective h₃,
        omega (arith, length-encode_text k n p'),
      )

  read_entries-write_entries :
      (e : Dict Text) (b : Bytes) (f : ℕ) (d : Dict Text)
      → write_entries c e ≡ ok b
      → length b ≤ f
      → read_entries c f d b ≡ ok (put_all d e)
  unfolding write_entries put_all read_entries
  read_entries-write_entries [] b f d h le = rw (← ok-injective h)
  read_entries-write_entries ((k, v) ∷ e) b zero d h le =
      let (n, w, rest, p, q, r, same, shorter) = write_entries-eq-ok k v e b h in
      absurd (omega arith)
  read_entries-write_entries ((k, v) ∷ e) b (suc f) d h le =
      let (n, w, rest, p, q, r, same, shorter) = write_entries-eq-ok k v e b h in
      rw (← same) (
        read_entries_step f d k v n w rest p q
        ∙ read_entries-write_entries e rest f (put k v d) r (omega arith))

  -- A material description that serializes is deserialized to the dict of its sorted entries.
  pub deserialize-serialize :
      (d : Dict Text) (a : Attribute)
      → serialize c d ≡ ok a
      → deserialize c a ≡ ok (put_all [] (sort_by (λ e. e.0) d))
  unfolding serialize deserialize raw_material_description catch_struct
  deserialize-serialize d a h =
      let (b, p, q) = >>=-eq-ok (write_entries c (sort_by (λ e. e.0) d)) _ h in
      rw (← ok-injective q, read_version-version)
        (ap catch_struct
          (read_entries-write_entries (sort_by (λ e. e.0) d) b (length b) [] p (omega arith)))

  -- A material description that serializes is deserialized to one with the same value at every name,
  -- which has each name once, as any dict has; the same is asked of the first one.
  pub get-deserialize-serialize :
      (d : Dict Text) (a : Attribute)
      → IsDict d
      → serialize c d ≡ ok a
      → (e : Dict Text) × (deserialize c a ≡ ok e)
        × IsDict e
        × ((name : Text) → get name e ≡ get name d)
  get-deserialize-serialize d a g h = (
    put_all [] (sort_by (λ e. e.0) d),
    deserialize-serialize d a h,
    put_all-IsDict [] (sort_by (λ e. e.0) d) tt,
    λ name. get-rebuilt (λ e. e.0) name d g,
  )
