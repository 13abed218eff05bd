-- ===== src/Structures/AttributeActions/IndexKeys.antt =====
-- What `set_index_keys` does to the actions, and when it refuses.
use aws_dynamodb_encryption.Prelude.{
  Text, Bool, true, false, ◌||◌, none, some, List, [], ◌∷◌, if◌then◌else◌, text_eq, text_eq_iff,
  ◌≡◌, refl, subst, arith, inl, inr,
}
use aws_dynamodb_encryption.Result.{
  ok, err, >>=-eq-ok, ok-injective, Error, Result-cases, invalid_argument_error,
}
use aws_dynamodb_encryption.Dict.{Dict, get, put, get-put}
use aws_dynamodb_encryption.CryptoAction
use aws_dynamodb_encryption.CryptoAction.{CryptoAction, do_nothing, sign_only, encrypt_and_sign}
use aws_dynamodb_encryption.Structures.AttributeActions.{
  AttributeActions, action, index_action, set_index_key, set_index_keys, all_do_nothing, no_actions,
}

-- An action was set for the name, and it is ENCRYPT_AND_SIGN.
unfoldable pub explicitly_encrypted : Text → AttributeActions → Bool
explicitly_encrypted name self = elim (get name self.attribute_actions) [
  | none ↦ false
  | some a ↦ CryptoAction.eq a encrypt_and_sign
]

module _ (self next : AttributeActions) (key : Text) (done : set_index_key key self ≡ ok next) where
  -- The key itself gets the lesser of its action and SIGN_ONLY, and no other name changes.
  action-set_index_key :
      (name : Text)
      → action next name ≡ (if text_eq key name then index_action self key else action self name)
  unfolding set_index_key action index_action CryptoAction.eq CryptoAction.min
  action-set_index_key name =
      ground (
        arith,
        text_eq_iff key name,
        get-put key name (index_action self key) self.attribute_actions,
      )

  explicitly_encrypted-set_index_key :
      (name : Text) → explicitly_encrypted name next ≡ explicitly_encrypted name self
  unfolding set_index_key explicitly_encrypted action index_action CryptoAction.eq CryptoAction.min
  explicitly_encrypted-set_index_key name =
      ground (
        arith,
        text_eq_iff key name,
        get-put key name (index_action self key) self.attribute_actions,
      )

set_index_key_refuses :
    (self : AttributeActions) (key : Text)
    → explicitly_encrypted key self ≡ true
    → set_index_key key self ≡ err invalid_argument_error
unfolding set_index_key explicitly_encrypted action index_action CryptoAction.eq CryptoAction.min
set_index_key_refuses self key h = ground arith

set_index_key-eq-err :
    (self : AttributeActions) (key : Text) {e : Error}
    → set_index_key key self ≡ err e
    → explicitly_encrypted key self ≡ true
unfolding set_index_key explicitly_encrypted action index_action CryptoAction.eq CryptoAction.min
set_index_key-eq-err self key h = ground arith

abbrev pub mem : Text → List Text → Bool
mem name [] = false
mem name (key ∷ keys) = text_eq key name || mem name keys

-- A key that was set to ENCRYPT_AND_SIGN.
abbrev pub any_explicitly_encrypted : List Text → AttributeActions → Bool
any_explicitly_encrypted [] self = false
any_explicitly_encrypted (key ∷ keys) self =
    explicitly_encrypted key self || any_explicitly_encrypted keys self

min_twice :
    (a : CryptoAction)
    → CryptoAction.min (CryptoAction.min a sign_only) sign_only ≡ CryptoAction.min a sign_only
unfolding CryptoAction.min
min_twice a = ground arith

-- After `set_index_keys` succeeds each key has the lesser of its earlier action and SIGN_ONLY, and every other
-- name the action that it had.
pub action-set_index_keys :
    (keys : List Text) (self next : AttributeActions)
    → set_index_keys keys self ≡ ok next
    → (name : Text)
    → action next name
      ≡ (if mem name keys then CryptoAction.min (action self name) sign_only else action self name)
unfolding set_index_keys index_action
action-set_index_keys [] self next h name = rw (← ok-injective h)
action-set_index_keys (key ∷ keys) self next h name =
    let (mid, p, q) = >>=-eq-ok (set_index_key key self) (set_index_keys keys) h in
    ground (
      arith,
      action-set_index_keys keys mid next q name,
      action-set_index_key self mid key p name,
      min_twice (action self name),
      text_eq_iff key name,
    )

any_explicitly_encrypted-set_index_key :
    (self next : AttributeActions) (key : Text)
    → set_index_key key self ≡ ok next
    → (keys : List Text) → any_explicitly_encrypted keys next ≡ any_explicitly_encrypted keys self
any_explicitly_encrypted-set_index_key self next key h [] = refl
any_explicitly_encrypted-set_index_key self next key h (k ∷ keys) = ground (
  arith,
  any_explicitly_encrypted-set_index_key self next key h keys,
  explicitly_encrypted-set_index_key self next key h k,
)

-- `set_index_keys` raises InvalidArgumentError exactly if ENCRYPT_AND_SIGN was set for one of the keys,
-- and otherwise it succeeds, also where SIGN_ONLY or DO_NOTHING was set for a key.
pub set_index_keys_refuses :
    (keys : List Text) (self : AttributeActions)
    → (any_explicitly_encrypted keys self ≡ true
        → set_index_keys keys self ≡ err invalid_argument_error)
      × (any_explicitly_encrypted keys self ≡ false
          → (next : AttributeActions) × (set_index_keys keys self ≡ ok next))
unfolding set_index_keys
set_index_keys_refuses [] self = (λ h. cc, λ h. (self, refl))
set_index_keys_refuses (key ∷ keys) self = elim (Result-cases (set_index_key key self)) [
  | inl (mid, p) ↦
      let ih = set_index_keys_refuses keys mid in
      let same = any_explicitly_encrypted-set_index_key self mid key p keys in
      (
        λ h. ground (arith, set_index_key_refuses self key, ih.0, same, p),
        λ h. let (next, q) = ih.1 (ground (arith, same)) in (next, rw p q),
      )
  | inr (e, p) ↦
      let explicit = set_index_key-eq-err self key p in
      (λ h. rw (set_index_key_refuses self key explicit), λ h. absurd (ground arith))
]

all_do_nothing-put :
    (key : Text) (d : Dict CryptoAction)
    → get key d ≡ none
    → all_do_nothing (put key do_nothing d) ≡ all_do_nothing d
unfolding all_do_nothing get put CryptoAction.eq
all_do_nothing-put key [] h = refl
all_do_nothing-put key ((k, a) ∷ d) h = ground (arith, all_do_nothing-put key d)

-- `take_no_actions` says whether every action is DO_NOTHING.
abbrev pub IsConsistent : AttributeActions → Type 0
IsConsistent self = self.take_no_actions ≡ no_actions self.default_action self.attribute_actions

set_index_key-IsConsistent :
    (self next : AttributeActions) (key : Text)
    → set_index_key key self ≡ ok next
    → IsConsistent self
    → IsConsistent next
unfolding set_index_key index_action action CryptoAction.eq CryptoAction.min
set_index_key-IsConsistent self next key h v =
    ground (arith, all_do_nothing-put key self.attribute_actions)

-- Where `take_no_actions` says whether every action is DO_NOTHING, it still does after `set_index_keys`
-- succeeds, which does not compute it anew.
pub set_index_keys-IsConsistent :
    (keys : List Text) (self next : AttributeActions)
    → set_index_keys keys self ≡ ok next
    → IsConsistent self
    → IsConsistent next
unfolding set_index_keys
set_index_keys-IsConsistent [] self next h v = subst IsConsistent (ok-injective h) v
set_index_keys-IsConsistent (key ∷ keys) self next h v =
    let (mid, p, q) = >>=-eq-ok (set_index_key key self) (set_index_keys keys) h in
    set_index_keys-IsConsistent keys mid next q (set_index_key-IsConsistent self mid key p v)
