-- ===== src/Jce/Cipher/Names.antt =====
-- A cipher is read back from its name.
use aws_dynamodb_encryption.Prelude.{Text, true, ◌≡◌, ◌∙◌, refl, ap, text_eq, ◌∷◌, ◌++◌}
use aws_dynamodb_encryption.Result.{ok}
use aws_dynamodb_encryption.Texts.{split, is_free, split_free, split-append}
use aws_dynamodb_encryption.Dict.{get}
use aws_dynamodb_encryption.Jce.Library.{ModeType, ecb}
use aws_dynamodb_encryption.Jce.Primitives.{
  JavaEncryptionAlgorithm, rsa, JavaPadding, no_padding, algorithm_name, mode_name, padding_name,
  java_encryption_algorithm, java_mode, java_padding,
}
use aws_dynamodb_encryption.Jce.Cipher.{
  JavaCipher, transformation, map_load_or_error, from_parts, expand, from_transformation,
}

-- No name holds the separator.
algorithm_name_free : (a : JavaEncryptionAlgorithm) → is_free b'/' (algorithm_name a) ≡ true
unfolding algorithm_name
algorithm_name_free rsa = refl
algorithm_name_free _ = refl

mode_name_free : (m : ModeType) → is_free b'/' (mode_name m) ≡ true
unfolding mode_name
mode_name_free ecb = refl
mode_name_free _ = refl

padding_name_free : (p : JavaPadding) → is_free b'/' (padding_name p) ≡ true
unfolding padding_name
padding_name_free no_padding = refl
padding_name_free _ = refl

-- The tables find each name.
load-algorithm_name :
    (a : JavaEncryptionAlgorithm)
    → map_load_or_error (algorithm_name a) java_encryption_algorithm ≡ ok a
unfolding map_load_or_error algorithm_name java_encryption_algorithm get text_eq
load-algorithm_name rsa = refl
load-algorithm_name _ = refl

load-mode_name : (m : ModeType) → map_load_or_error (mode_name m) java_mode ≡ ok m
unfolding map_load_or_error mode_name java_mode get text_eq
load-mode_name ecb = refl
load-mode_name _ = refl

load-padding_name : (p : JavaPadding) → map_load_or_error (padding_name p) java_padding ≡ ok p
unfolding map_load_or_error padding_name java_padding get text_eq
load-padding_name no_padding = refl
load-padding_name _ = refl

-- A whole transformation is no short form.
expand-transformation :
    (a : JavaEncryptionAlgorithm) (t : Text)
    → expand (algorithm_name a ++ b'/' ∷ t) ≡ algorithm_name a ++ b'/' ∷ t
unfolding expand algorithm_name text_eq
expand-transformation rsa t = refl
expand-transformation _ t = refl

-- The transformation of a cipher, its three Java names, is read as that cipher.
pub from_transformation-transformation :
    (c : JavaCipher) → from_transformation (transformation c) ≡ ok c
unfolding from_transformation transformation from_parts
from_transformation-transformation c =
    let a = algorithm_name c.cipher in
    let m = mode_name c.mode in
    let p = padding_name c.padding in
    ap (λ t. from_parts (split b'/' t)) (expand-transformation c.cipher (m ++ b'/' ∷ p))
    ∙ ap from_parts (
        split-append b'/' a (m ++ b'/' ∷ p) (algorithm_name_free c.cipher)
        ∙ ap (λ l. a ∷ l)
            (split-append b'/' m p (mode_name_free c.mode)
              ∙ ap (λ l. m ∷ l) (split_free b'/' p (padding_name_free c.padding))))
    ∙ rw (load-algorithm_name, load-mode_name, load-padding_name) refl
