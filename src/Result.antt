-- ===== src/Result.antt =====
-- Python's exceptions as values (src/dynamodb_encryption_sdk/exceptions.py and the builtin ones that
-- the library raises, or lets through).
use aws_dynamodb_encryption.Prelude.{
  ◌≡◌, refl, ◌⊎◌, inl, inr, Bool, true, false, Option, none, some,
}

-- One constructor for each class; the messages are not modelled. `out_of_fuel` has no counterpart
-- in the program.
pub data Error : Type 0 where
  invalid_argument_error : Error
  serialization_error : Error
  deserialization_error : Error
  invalid_material_description_error : Error
  invalid_material_description_version_error : Error
  delegated_key_encryption_error : Error
  delegated_key_decryption_error : Error
  decryption_error : Error
  encryption_error : Error
  signing_error : Error
  signature_verification_error : Error
  no_known_version_error : Error
  invalid_version_error : Error
  jce_transformation_error : Error
  invalid_algorithm_error : Error
  wrapping_error : Error
  unwrapping_error : Error
  unknown_region_error : Error
  version_already_exists_error : Error
  struct_error : Error
  type_error : Error
  value_error : Error
  key_error : Error
  attribute_error : Error
  decimal_error : Error
  not_implemented_error : Error
  other_error : Error
  out_of_fuel : Error

pub data Result {ℓ} (A : Type ℓ) : Type ℓ where
  ok : A → Result A
  err : Error → Result A

infixl 10 ◌>>=◌ ◌>>◌
abbrev pub ◌>>=◌ {ℓ κ} : {A : Type ℓ} {B : Type κ} → Result A → (A → Result B) → Result B
err raised >>= next = err raised
ok returned >>= next = next returned

-- The first step's value is not used.
abbrev pub ◌>>◌ {ℓ κ} : {A : Type ℓ} {B : Type κ} → Result A → Result B → Result B
first >> second = first >>= λ _. second

-- A lookup that raises `e` where it finds nothing.
abbrev pub or_raise {ℓ} : {A : Type ℓ} → Error → Option A → Result A
or_raise e none = err e
or_raise e (some a) = ok a

-- `if not b: raise e`
abbrev pub guard : Bool → Error → Result (Unit {0})
guard false e = err e
guard true _ = ok tt

-- What a step and its continuation returned, of a sequence that returned.
pub >>=-eq-ok {ℓ κ} :
    {A : Type ℓ} {B : Type κ} (step : Result A) (next : A → Result B) {result : B}
    → (step >>= next) ≡ ok result
    → (returned : A) × (step ≡ ok returned) × (next returned ≡ ok result)
>>=-eq-ok (err raised) next h = cc
>>=-eq-ok (ok returned) next h = (returned, refl, h)

pub or_raise-eq-ok {ℓ} :
    {A : Type ℓ} (e : Error) (o : Option A) {a : A} → or_raise e o ≡ ok a → o ≡ some a
or_raise-eq-ok e none h = cc
or_raise-eq-ok e (some b) h = cc

pub or_raise-some {ℓ} :
    {A : Type ℓ} (e : Error) (o : Option A) {a : A} → o ≡ some a → or_raise e o ≡ ok a
or_raise-some e none h = cc
or_raise-some e (some b) h = cc

pub Result-cases {ℓ} :
    {A : Type ℓ} (r : Result A) → ((a : A) × (r ≡ ok a)) ⊎ ((e : Error) × (r ≡ err e))
Result-cases (ok a) = inl (a, refl)
Result-cases (err e) = inr (e, refl)

pub ok-injective {ℓ} : {A : Type ℓ} {a b : A} → ok a ≡ ok b → a ≡ b
ok-injective h = cc

pub err-injective {ℓ} : {A : Type ℓ} {e f : Error} → ◌≡◌ {A = Result A} (err e) (err f) → e ≡ f
err-injective h = cc

pub guard-eq-ok : (b : Bool) (e : Error) {x : Unit {0}} → guard b e ≡ ok x → b ≡ true
guard-eq-ok true e h = refl
guard-eq-ok false e h = cc
