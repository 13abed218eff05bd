-- ===== src/Builtins.antt =====
-- Functions of Python's standard library that the code calls on texts: parameters, with what is
-- documented of them.
use aws_dynamodb_encryption.Prelude.{ℕ, Text, Bytes, text, Option, some, ◌≡◌}

pub record Builtins : Type 0 where
  -- str.upper
  pub upper : Text → Text
  -- int(t), where `none` is a ValueError; a negative number is taken for none
  pub parse_int : Text → Option ℕ
  -- str(n)
  pub format_int : ℕ → Text
  -- base64.b64encode, with its ASCII bytes as a text, and base64.b64decode; `none` is a binascii.Error
  pub b64encode : Bytes → Text
  pub b64decode : Text → Option Bytes

pub record IsDocumented (p : Builtins) : Type 0 where
  pub upper_aes : p.upper (text "AES") ≡ text "AES"
  pub parse_int-format_int : (n : ℕ) → p.parse_int (p.format_int n) ≡ some n
  pub b64decode-b64encode : (b : Bytes) → p.b64decode (p.b64encode b) ≡ some b
