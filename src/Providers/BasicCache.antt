-- ===== src/Providers/BasicCache.antt =====
-- material_providers/most_recent.py: BasicCache, an LRU cache over an OrderedDict. The lock around each
-- method makes it one step.
pub mod Laws
use aws_dynamodb_encryption.Prelude.{
  ℕ, zero, suc, ◌+◌, ◌≤◌, ◌<◌, Bool, true, false, ◌==◌, ltb, Option, none, some, List, [], ◌∷◌,
  ◌++◌, if◌then◌else◌, length, length-append, ◌≡◌, ◌∙◌, refl, ap, sym, arith, if_true, if_false,
  Bool-cases, inl, inr,
}
use aws_dynamodb_encryption.Result.{Result, ok, err, value_error, key_error}

-- A version, or the None that stands where none is known.
abbrev pub Name : Type 0
Name = Option ℕ

unfoldable pub name_eq : Name → Name → Bool
name_eq none none = true
name_eq none (some n) = false
name_eq (some m) none = false
name_eq (some m) (some n) = m == n

-- The entries stand in the order of the OrderedDict, the one to be dropped next first.
pub record BasicCache {ℓ} (V : Type ℓ) : Type ℓ where
  pub capacity : ℕ
  pub entries : List (Name × V)

module _ {ℓ} {V : Type ℓ} where
  unfoldable pub lookup : Name → List (Name × V) → Option V
  lookup k [] = none
  lookup k ((j, v) ∷ l) = if name_eq j k then some v else lookup k l

  -- self._cache[name] = value
  unfoldable pub assign : Name → V → List (Name × V) → List (Name × V)
  assign k v [] = (k, v) ∷ []
  assign k v ((j, w) ∷ l) = if name_eq j k then (j, v) ∷ l else (j, w) ∷ assign k v l

  unfoldable pub delete : Name → List (Name × V) → List (Name × V)
  delete k [] = []
  delete k ((j, w) ∷ l) = if name_eq j k then l else (j, w) ∷ delete k l

  -- _prune: popitem(last=False) while there are more than `capacity`
  unfoldable pub prune : ℕ → List (Name × V) → List (Name × V)
  prune capacity [] = []
  prune capacity (e ∷ l) = if ltb capacity (length (e ∷ l)) then prune capacity l else e ∷ l

  unfoldable pub new : ℕ → Result (BasicCache V)
  new capacity =
      if ltb capacity 1 then err value_error else ok (record { capacity = capacity; entries = [] })

  unfoldable pub put : Name → V → BasicCache V → BasicCache V
  put name value self = record self {
    entries = prune self.capacity (assign name value self.entries);
  }

  -- get: `none` is a KeyError
  unfoldable pub get : Name → BasicCache V → Option V × BasicCache V
  get name self = elim (lookup name self.entries) [
    | none ↦ (none, self)
    | some value ↦ (some value, put name value (record self { entries = delete name self.entries }))
  ]

  unfoldable pub clear : BasicCache V → BasicCache V
  clear self = record self { entries = [] }

  unfoldable pub evict : Name → BasicCache V → BasicCache V
  evict name self = record self { entries = delete name self.entries }
