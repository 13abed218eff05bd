-- ===== src/Providers/MetaStore/Versions.antt =====
-- The version that stands in the material description of a provider of the store.
use aws_dynamodb_encryption.Prelude.{ℕ, Text, true, text_eq, ◌≡◌}
use aws_dynamodb_encryption.Result.{ok}
use aws_dynamodb_encryption.Texts.{is_free, split_once-append}
use aws_dynamodb_encryption.Builtins.{Builtins, IsDocumented}
use aws_dynamodb_encryption.Dict.{get}
use aws_dynamodb_encryption.Providers.MetaStore.{
  material_description, version_of, version_from_material_description,
}

-- The version that was written into a material description is read from it, if the name of the material has
-- no number sign in it, and a number is read as it was printed.
pub version_from_material_description-material_description :
    (p : Builtins) (documented : IsDocumented p) (material_name : Text) (version : ℕ)
    → is_free b'#' material_name ≡ true
    → version_from_material_description p (material_description p material_name version)
      ≡ ok version
unfolding version_from_material_description material_description version_of get text_eq
version_from_material_description-material_description p documented material_name version free =
    rw (
      split_once-append b'#' material_name (p.format_int version) free,
      documented.parse_int-format_int version,
    )
