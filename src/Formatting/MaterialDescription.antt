-- ===== src/Formatting/MaterialDescription.antt =====
-- internal/formatting/material_description.py
pub mod RoundTrip
use aws_dynamodb_encryption.Prelude.{
  ℕ, zero, suc, Text, Bytes, List, [], ◌∷◌, ◌++◌, length, true, false, if◌then◌else◌, text_eq, ◌≡◌,
  Option, Bool,
}
use aws_dynamodb_encryption.Result.{
  Error, Result, ok, err, ◌>>=◌, or_raise, value_error, type_error, struct_error,
  invalid_material_description_error, invalid_material_description_version_error, out_of_fuel,
}
use aws_dynamodb_encryption.Sorting.{sort_by}
use aws_dynamodb_encryption.Dict.{Dict, put}
use aws_dynamodb_encryption.Formatting.Pack.{encode_value, decode_value, unpack_value}
use aws_dynamodb_encryption.Formatting.Attribute.{Attribute, Codec, binary}
use aws_dynamodb_encryption.Formatting.Serialize.{to_bytes}
use aws_dynamodb_encryption.Formatting.Deserialize.{transform_string_value}

abbrev pub version : Bytes
version = 0 ∷ 0 ∷ 0 ∷ 0 ∷ []

-- except (TypeError, struct.error)
unfoldable pub catch_invalid {ℓ} : {A : Type ℓ} → Result A → Result A
catch_invalid (ok a) = ok a
catch_invalid (err type_error) = err invalid_material_description_error
catch_invalid (err struct_error) = err invalid_material_description_error
catch_invalid (err e) = err e

-- except struct.error
unfoldable pub catch_struct {ℓ} : {A : Type ℓ} → Result A → Result A
catch_struct (ok a) = ok a
catch_struct (err struct_error) = err invalid_material_description_error
catch_struct (err e) = err e

unfoldable pub read_version : Bytes → Result Bytes
read_version s = do
  r ← catch_struct (unpack_value 4 s)
  if text_eq (r.0) version then ok (r.1) else err invalid_material_description_version_error

-- attribute["B"]
unfoldable pub raw_material_description : Attribute → Result Bytes
raw_material_description (binary b) = ok b
raw_material_description a = err invalid_material_description_error

module _ (c : Codec) where
  -- encode_value(to_bytes(text))
  unfoldable pub encode_text : Text → Result Bytes
  encode_text t = do b ← to_bytes c t; encode_value b

  unfoldable pub write_entries : Dict Text → Result Bytes
  write_entries [] = ok []
  write_entries ((name, value) ∷ d) = do
    n ← catch_invalid (encode_text name)
    v ← catch_invalid (encode_text value)
    rest ← write_entries d
    ok (n ++ (v ++ rest))

  unfoldable pub serialize : Dict Text → Result Attribute
  serialize d = do b ← write_entries (sort_by (λ e. e.0) d); ok (binary (version ++ b))

  -- to_str(decode_value(stream))
  unfoldable pub decode_text : Bytes → Result (Text × Bytes)
  decode_text s = do r ← decode_value s; t ← transform_string_value c (r.0); ok (t, r.1)

  -- The loop, while bytes are left; each round takes some, so that their number is enough fuel.
  unfoldable pub read_entries : ℕ → Dict Text → Bytes → Result (Dict Text)
  read_entries fuel d [] = ok d
  read_entries zero d (x ∷ s) = err out_of_fuel
  read_entries (suc fuel) d (x ∷ s) = do
    n ← decode_text (x ∷ s)
    v ← decode_text (n.1)
    read_entries fuel (put (n.0) (v.0) d) (v.1)

  unfoldable pub deserialize : Attribute → Result (Dict Text)
  deserialize a = do
    b ← raw_material_description a
    s ← read_version b
    catch_struct (read_entries (length s) [] s)
