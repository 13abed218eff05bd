-- ===== src/Encrypted/Item/Attributes.antt =====
-- The loops over the attributes of an item: what the one encrypts the other decrypts.
use aws_dynamodb_encryption.Prelude.{
  ℕ, suc, Text, false, none, some, [], ◌∷◌, if◌then◌else◌, ◌≡◌, refl, ap, sym, arith, Bool-cases,
  Option-cases, inl, inr, append-nil,
}
use aws_dynamodb_encryption.Result.{ok, >>=-eq-ok, ok-injective}
use aws_dynamodb_encryption.Dict.{Dict, get}
use aws_dynamodb_encryption.CryptoAction
use aws_dynamodb_encryption.CryptoAction.{CryptoAction, encrypt_and_sign}
use aws_dynamodb_encryption.Formatting.Attribute.{Attribute, Item, Codec, IsLossless}
use aws_dynamodb_encryption.Formatting.Serialize.{serialize_attribute}
use aws_dynamodb_encryption.Formatting.Canonical.{canonical}
use aws_dynamodb_encryption.Formatting.RoundTrip.Attributes.{
  deserialize_attribute-serialize_attribute,
}
use aws_dynamodb_encryption.Structures.AttributeActions.{
  AttributeActions, action, any_is, contains_action,
}
use aws_dynamodb_encryption.Crypto.Materials.{DelegatedKey, DecryptsAt}
use aws_dynamodb_encryption.Crypto.Encryption.{binary_value, encrypt_attribute, decrypt_attribute}
use aws_dynamodb_encryption.Encrypted.CryptoConfig.{encrypts}
use aws_dynamodb_encryption.Encrypted.Item.{encrypt_attributes, decrypt_attributes}

-- The item as it comes back: what was encrypted is in its canonical form, all else as it was.
pub restored : Codec → AttributeActions → Item → Item
restored c actions [] = []
restored c actions ((name, a) ∷ item) =
    (name, if encrypts actions name then canonical c a else a) ∷ restored c actions item

encrypt_attributes-nil :
    (c : Codec) (seed : ℕ) (actions : AttributeActions) (k : DelegatedKey) (algorithm : Text)
    {e : Item}
    → encrypt_attributes c seed actions k algorithm [] ≡ ok e
    → [] ≡ e
unfolding encrypt_attributes
encrypt_attributes-nil c seed actions k algorithm h = ok-injective h

-- The parts of an encrypted item.
pub encrypt_attributes-eq-ok :
    (c : Codec) (seed : ℕ) (actions : AttributeActions) (k : DelegatedKey) (algorithm name : Text)
    (a : Attribute) (item : Item) {e : Item}
    → encrypt_attributes c seed actions k algorithm ((name, a) ∷ item) ≡ ok e
    → (x : Attribute) × (rest : Item) × ((if encrypts actions name
          then encrypt_attribute c seed name a k algorithm
          else ok a)
        ≡ ok x)
      × (encrypt_attributes c (suc seed) actions k algorithm item ≡ ok rest)
      × ((name, x) ∷ rest ≡ e)
unfolding encrypt_attributes
encrypt_attributes-eq-ok c seed actions k algorithm name a item h =
    let (x, p, h₁) =
      >>=-eq-ok
        (if encrypts actions name then encrypt_attribute c seed name a k algorithm else ok a) _ h in
    let (rest, q, h₂) = >>=-eq-ok (encrypt_attributes c (suc seed) actions k algorithm item) _ h₁ in
    (x, rest, p, q, ok-injective h₂)

pub get-encrypt_attributes :
    (c : Codec) (seed : ℕ) (actions : AttributeActions) (k : DelegatedKey) (algorithm : Text)
    (item e : Item) (j : Text)
    → encrypt_attributes c seed actions k algorithm item ≡ ok e
    → get j item ≡ none
    → get j e ≡ none
unfolding get
get-encrypt_attributes c seed actions k algorithm [] e j h g =
    rw (← encrypt_attributes-nil c seed actions k algorithm h)
get-encrypt_attributes c seed actions k algorithm ((name, a) ∷ item) e j h g =
    let (x, rest, p, q, same) = encrypt_attributes-eq-ok c seed actions k algorithm name a item h in
    rw (← same)
      (ground (arith, get-encrypt_attributes c (suc seed) actions k algorithm item rest j q))

module _ (c : Codec) (lossless : IsLossless c) where
  decrypt_attribute-encrypt_attribute :
      (seed : ℕ) (name : Text) (a e : Attribute) (k l : DelegatedKey) (algorithm : Text)
      → DecryptsAt algorithm k l
      → encrypt_attribute c seed name a k algorithm ≡ ok e
      → decrypt_attribute c name e l algorithm ≡ ok (canonical c a)
  unfolding encrypt_attribute decrypt_attribute binary_value
  decrypt_attribute-encrypt_attribute seed name a e k l algorithm d h =
      let (plaintext, p, h₁) = >>=-eq-ok (serialize_attribute c a) _ h in
      let (ciphertext, q, h₂) = >>=-eq-ok (k.encrypt seed algorithm name plaintext) _ h₁ in
      rw (← ok-injective h₂) (
        rw (d seed name plaintext ciphertext q) (
          rw append-nil at (deserialize_attribute-serialize_attribute c lossless a plaintext [] p)))

  -- One attribute, encrypted or not.
  decrypt_one :
      (seed : ℕ) (actions : AttributeActions) (name : Text) (a x : Attribute) (k l : DelegatedKey)
      (algorithm : Text)
      → DecryptsAt algorithm k l
      → (if encrypts actions name then encrypt_attribute c seed name a k algorithm else ok a) ≡ ok x
      → (if encrypts actions name then decrypt_attribute c name x l algorithm else ok x)
        ≡ ok (if encrypts actions name then canonical c a else a)
  decrypt_one seed actions name a x k l algorithm d h = elim (Bool-cases (encrypts actions name)) [
    | inl t ↦ rw t (decrypt_attribute-encrypt_attribute seed name a x k l algorithm d (rw t at h))
    | inr f ↦ rw f (sym (rw f at h))
  ]

  pub decrypt_attributes-encrypt_attributes :
      (seed : ℕ) (actions : AttributeActions) (k l : DelegatedKey) (algorithm : Text)
      (item e : Item)
      → DecryptsAt algorithm k l
      → encrypt_attributes c seed actions k algorithm item ≡ ok e
      → decrypt_attributes c actions l algorithm e ≡ ok (restored c actions item)
  unfolding decrypt_attributes restored
  decrypt_attributes-encrypt_attributes seed actions k l algorithm [] e d h =
      rw (← encrypt_attributes-nil c seed actions k algorithm h)
  decrypt_attributes-encrypt_attributes seed actions k l algorithm ((name, a) ∷ item) e d h =
      let (x, rest, p, q, same) =
        encrypt_attributes-eq-ok c seed actions k algorithm name a item h in
      rw (← same) (
        rw (decrypt_one seed actions name a x k l algorithm d p) (
          rw
            (decrypt_attributes-encrypt_attributes (suc seed) actions k l algorithm item rest d q)))

any_is-get :
    (a : CryptoAction) (d : Dict CryptoAction) (name : Text) (b : CryptoAction)
    → any_is a d ≡ false
    → get name d ≡ some b
    → CryptoAction.eq a b ≡ false
unfolding any_is get
any_is-get a [] name b h g = cc
any_is-get a ((k, x) ∷ d) name b h g = ground (arith, any_is-get a d name b)

-- A configuration without ENCRYPT_AND_SIGN encrypts no name.
pub encrypts-contains_action :
    (actions : AttributeActions) (name : Text)
    → contains_action actions encrypt_and_sign ≡ false
    → encrypts actions name ≡ false
unfolding contains_action encrypts action CryptoAction.eq
encrypts-contains_action actions name h = elim (Option-cases (get name actions.attribute_actions)) [
  | inl (b, p) ↦ ground (arith, any_is-get encrypt_and_sign actions.attribute_actions name b)
  | inr p ↦ ground arith
]

pub restored_plain :
    (c : Codec) (actions : AttributeActions) (item : Item)
    → contains_action actions encrypt_and_sign ≡ false
    → restored c actions item ≡ item
unfolding restored
restored_plain c actions [] h = refl
restored_plain c actions ((name, a) ∷ item) h =
    rw (encrypts-contains_action actions name h)
      (ap (λ l. (name, a) ∷ l) (restored_plain c actions item h))
