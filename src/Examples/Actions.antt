-- ===== src/Examples/Actions.antt =====
-- The actions on the keys of an index.
use aws_dynamodb_encryption.Prelude.{
  Text, text, text_eq, false, true, List, [], ◌∷◌, ◌≡◌, refl, if◌then◌else◌,
}
use aws_dynamodb_encryption.Result.{ok, err, invalid_argument_error}
use aws_dynamodb_encryption.Dict.{get, put}
use aws_dynamodb_encryption.CryptoAction
use aws_dynamodb_encryption.CryptoAction.{encrypt_and_sign, sign_only, do_nothing}
use aws_dynamodb_encryption.Structures.AttributeActions.{
  AttributeActions, action, index_action, set_index_key, set_index_keys, all_do_nothing,
}
use aws_dynamodb_encryption.Structures.AttributeActions.IndexKeys.{
  mem, any_explicitly_encrypted, action-set_index_keys, set_index_keys_refuses,
  set_index_keys-IsConsistent, IsConsistent,
}
use aws_dynamodb_encryption.Examples.{actions}

abbrev index_keys : List Text
index_keys = text "id" ∷ text "range" ∷ []

-- The sample's actions, with an action for the key that had none.
abbrev with_range : AttributeActions
with_range = record actions {
  attribute_actions = (text "id", sign_only) ∷ (text "range", sign_only) ∷ [];
}

sets : set_index_keys index_keys actions ≡ ok with_range
unfolding set_index_keys set_index_key get text_eq CryptoAction.eq index_action CryptoAction.min
    action put CryptoAction.lt CryptoAction.value
sets = refl

action-set_index_keys_example : action with_range (text "range") ≡ (
    if mem (text "range") index_keys
    then CryptoAction.min (action actions (text "range")) sign_only
    else action actions (text "range"))
action-set_index_keys_example =
    action-set_index_keys index_keys actions with_range sets (text "range")

set_index_keys_refuses_example :
    (any_explicitly_encrypted index_keys actions ≡ true
      → set_index_keys index_keys actions ≡ err invalid_argument_error)
    × (any_explicitly_encrypted index_keys actions ≡ false
        → (next : AttributeActions) × (set_index_keys index_keys actions ≡ ok next))
set_index_keys_refuses_example = set_index_keys_refuses index_keys actions

actions-IsConsistent : IsConsistent actions
unfolding CryptoAction.eq CryptoAction.value all_do_nothing
actions-IsConsistent = refl

set_index_keys-IsConsistent_example : IsConsistent with_range
set_index_keys-IsConsistent_example =
    set_index_keys-IsConsistent index_keys actions with_range sets actions-IsConsistent
