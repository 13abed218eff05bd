-- ===== src/Structures/AttributeActions.antt =====
-- structures.py: AttributeActions.
pub mod IndexKeys
use aws_dynamodb_encryption.Prelude.{
  Text, Bool, true, false, not, ◌&&◌, ◌||◌, Option, none, some, List, [], ◌∷◌, ◌++◌, if◌then◌else◌,
  text_eq,
}
use aws_dynamodb_encryption.Result.{
  Result, ok, err, ◌>>=◌, ◌>>◌, guard, type_error, value_error, invalid_argument_error,
}
use aws_dynamodb_encryption.Dict.{Dict, get, put, contains, keys}
use aws_dynamodb_encryption.CryptoAction
use aws_dynamodb_encryption.CryptoAction.{CryptoAction, do_nothing, sign_only}
use aws_dynamodb_encryption.Identifiers.ReservedAttributes

pub record AttributeActions : Type 0 where
  pub default_action : CryptoAction
  pub attribute_actions : Dict CryptoAction
  pub take_no_actions : Bool

-- action in self.attribute_actions.values()
unfoldable pub any_is : CryptoAction → Dict CryptoAction → Bool
any_is a [] = false
any_is a ((k, b) ∷ d) = CryptoAction.eq a b || any_is a d

-- The set of the names of all actions is that of DO_NOTHING alone.
unfoldable pub all_do_nothing : Dict CryptoAction → Bool
all_do_nothing [] = true
all_do_nothing ((k, a) ∷ d) = CryptoAction.eq a do_nothing && all_do_nothing d

abbrev pub no_actions : CryptoAction → Dict CryptoAction → Bool
no_actions default_action d = CryptoAction.eq default_action do_nothing && all_do_nothing d

-- AttributeActions(default_action, attribute_actions), with __attrs_post_init__
unfoldable pub new : CryptoAction → Dict CryptoAction → Result AttributeActions
unfolding all_do_nothing
new default_action d = do
  guard (not (contains ReservedAttributes.material_description d)) value_error
  guard (not (contains ReservedAttributes.signature d)) value_error
  ok (record {
    default_action = default_action;
    attribute_actions = d;
    take_no_actions = no_actions default_action d;
  })

unfoldable pub action : AttributeActions → Text → CryptoAction
action self name = elim (get name self.attribute_actions) [
  | none ↦ self.default_action
  | some a ↦ a
]

unfoldable pub copy : AttributeActions → Result AttributeActions
copy self = new self.default_action self.attribute_actions

-- min(self.action(key), CryptoAction.SIGN_ONLY)
unfoldable pub index_action : AttributeActions → Text → CryptoAction
index_action self key = CryptoAction.min (action self key) sign_only

-- One round of the loop of set_index_keys.
unfoldable pub set_index_key : Text → AttributeActions → Result AttributeActions
set_index_key key self = elim (get key self.attribute_actions) [
  | some a ↦
      if CryptoAction.eq a (index_action self key) then ok self else err invalid_argument_error
  | none ↦
      ok
        (record self { attribute_actions = put key (index_action self key) self.attribute_actions })
]

-- What is set for the keys before one that is refused stays set in the program; its only caller works
-- on a copy, which the exception discards.
unfoldable pub set_index_keys : List Text → AttributeActions → Result AttributeActions
set_index_keys [] self = ok self
set_index_keys (key ∷ keys) self = do next ← set_index_key key self; set_index_keys keys next

unfoldable pub contains_action : AttributeActions → CryptoAction → Bool
unfolding any_is
contains_action self a = CryptoAction.eq a self.default_action || any_is a self.attribute_actions

-- self.default_action + other.default_action: `CryptoAction` has no `__add__`
unfoldable pub add_defaults : CryptoAction → CryptoAction → Result CryptoAction
add_defaults a b = err type_error

-- The dominant action of each name that one of the two has.
unfoldable pub merge :
    AttributeActions → AttributeActions → List Text → Dict CryptoAction → Dict CryptoAction
merge self other [] d = d
merge self other (name ∷ names) d =
    merge self other names (put name (CryptoAction.max (action self name) (action other name)) d)

-- __add__
unfoldable pub add : AttributeActions → AttributeActions → Result AttributeActions
add self other = do
  default_action ← add_defaults self.default_action other.default_action
  new default_action
      (merge self other (keys self.attribute_actions ++ keys other.attribute_actions) [])
