-- ===== src/Providers/KeyInfo.antt =====
-- material_providers/aws_kms.py: KeyInfo, how a key is to be used.
use aws_dynamodb_encryption.Prelude.{ℕ, Text, text, Option, none, some, ◌≡◌, ◌∙◌, ap, sym}
use aws_dynamodb_encryption.Result.{
  Result, ok, ◌>>=◌, >>=-eq-ok, ok-injective, or_raise, value_error,
}
use aws_dynamodb_encryption.Texts.{split_once}
use aws_dynamodb_encryption.Builtins.{Builtins}
use aws_dynamodb_encryption.Dict.{Dict, get, get_or, get_or-some}
use aws_dynamodb_encryption.Identifiers.MaterialDescriptionKeys.{
  content_encryption_algorithm, item_signature_algorithm,
}

pub record KeyInfo : Type 0 where
  pub description : Text
  pub algorithm : Text
  pub key_length : ℕ

-- KeyInfo.from_description; a negative length is taken for none that can be read
unfoldable pub from_description : Builtins → Text → Option ℕ → Result KeyInfo
from_description p description default_key_length =
    let (algorithm, rest) = split_once b'/' description in
    do
      key_length ← elim rest [
        | some t ↦ or_raise value_error (p.parse_int t)
        | none ↦ or_raise value_error default_key_length
      ]
      ok (record { description = description; algorithm = algorithm; key_length = key_length })

-- KeyInfo.from_material_description
unfoldable pub from_material_description : Builtins → Dict Text → Text → Text → ℕ → Result KeyInfo
from_material_description p material_description description_key default_algorithm
      default_key_length =
    from_description p (get_or default_algorithm description_key material_description)
      (some default_key_length)

unfoldable pub content_key_info_of : Builtins → Dict Text → Result KeyInfo
content_key_info_of p material_description =
    from_material_description p material_description content_encryption_algorithm (text "AES/256")
      256

unfoldable pub signing_key_info_of : Builtins → Dict Text → Result KeyInfo
signing_key_info_of p material_description =
    from_material_description p material_description item_signature_algorithm
      (text "HmacSHA256/256") 256

-- What was read of a description is read again of the description that it keeps.
module _ (p : Builtins) where
  from_description-eq-ok :
      (description : Text) (n : Option ℕ) (i : KeyInfo)
      → from_description p description n ≡ ok i
      → description ≡ i.description
  unfolding from_description
  from_description-eq-ok description n i h =
      let (x, _, q) =
        >>=-eq-ok
          (elim (split_once b'/' description).1 [
            | some t ↦ or_raise value_error (p.parse_int t)
            | none ↦ or_raise value_error n
          ])
          _ h in
      ap (λ (k : KeyInfo). k.description) (ok-injective q)

  from_material_description-again :
      (d e : Dict Text) (name default_algorithm : Text) (n : ℕ) (i : KeyInfo)
      → from_material_description p d name default_algorithm n ≡ ok i
      → get name e ≡ some i.description
      → from_material_description p e name default_algorithm n ≡ ok i
  unfolding from_material_description
  from_material_description-again d e name default_algorithm n i h g =
      let is_description = from_description-eq-ok (get_or default_algorithm name d) (some n) i h in
      ap (λ t. from_description p t (some n))
        (get_or-some default_algorithm name e g ∙ sym is_description)
      ∙ h

  pub content_key_info-again :
      (d e : Dict Text) (i : KeyInfo)
      → content_key_info_of p d ≡ ok i
      → get content_encryption_algorithm e ≡ some i.description
      → content_key_info_of p e ≡ ok i
  unfolding content_key_info_of
  content_key_info-again d e i =
      from_material_description-again d e content_encryption_algorithm (text "AES/256") 256 i

  pub signing_key_info-again :
      (d e : Dict Text) (i : KeyInfo)
      → signing_key_info_of p d ≡ ok i
      → get item_signature_algorithm e ≡ some i.description
      → signing_key_info_of p e ≡ ok i
  unfolding signing_key_info_of
  signing_key_info-again d e i =
      from_material_description-again d e item_signature_algorithm (text "HmacSHA256/256") 256 i
