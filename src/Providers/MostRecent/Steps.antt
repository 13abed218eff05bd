-- ===== src/Providers/MostRecent/Steps.antt =====
-- The steps of a call of the caching provider, by what the cache holds.
use aws_dynamodb_encryption.Prelude.{
  ℕ, ◌+◌, ◌≤◌, ◌<◌, Bool, true, false, Option, none, some, if◌then◌else◌, ◌≡◌, ◌∙◌, refl, ap, arith,
}
use aws_dynamodb_encryption.Providers.BasicCache.{Name, name_eq}
use aws_dynamodb_encryption.Providers.BasicCache.Laws
use aws_dynamodb_encryption.Providers.BasicCache.Laws.{
  found, get-found, found-get, found-evict, found-put, get-IsValid, put-IsValid, evict-IsValid,
}
use aws_dynamodb_encryption.Providers.MostRecent.{
  grace_period, expired, live, StoredProvider, CachingMostRecentProvider, cache_get, cache_evict,
  cache_put, action_at, on_entry,
}

-- What the object's cache finds, and that the cache is valid.
abbrev pub cached : Name → CachingMostRecentProvider → Option (ℕ × StoredProvider)
cached name self = found name self.cache

abbrev pub IsValid : CachingMostRecentProvider → Type 0
IsValid self = Laws.IsValid self.cache

-- The object after a look at an entry.
abbrev pub bumped : Name → CachingMostRecentProvider → CachingMostRecentProvider
bumped name self = (cache_get name self).1

module _ (name : Name) (self : CachingMostRecentProvider) where
  pub cache_get-cached : (cache_get name self).0 ≡ cached name self
  unfolding cache_get
  cache_get-cached = get-found name self.cache

  pub version-bumped : (bumped name self).version ≡ self.version
  unfolding cache_get
  version-bumped = refl

  pub cached-bumped : (j : Name) → IsValid self → cached j (bumped name self) ≡ cached j self
  unfolding cache_get
  cached-bumped j h = found-get name j self.cache h

  pub bumped-IsValid : IsValid self → IsValid (bumped name self)
  unfolding cache_get
  bumped-IsValid h = get-IsValid name self.cache h

  pub cached-evict :
      (j : Name)
      → IsValid self
      → cached j (cache_evict name self) ≡ (if name_eq name j then none else cached j self)
  unfolding cache_evict
  cached-evict j h = found-evict name j self.cache h

  pub evict-keeps_validity : IsValid self → IsValid (cache_evict name self)
  unfolding cache_evict
  evict-keeps_validity h = evict-IsValid name self.cache h

  pub cached-put :
      (value : ℕ × StoredProvider)
      → IsValid self
      → cached name (cache_put name value self) ≡ some value
  unfolding cache_put
  cached-put value h = found-put name value self.cache h

  -- A look at an entry that is there, and at one that is not.
  pub cache_get-hit :
      (t : ℕ) (p : StoredProvider)
      → cached name self ≡ some (t, p)
      → cache_get name self ≡ (some (t, p), bumped name self)
  cache_get-hit t p h = ap (λ o. (o, bumped name self)) (cache_get-cached ∙ h)

  pub cache_get-miss : cached name self ≡ none → cache_get name self ≡ (none, bumped name self)
  cache_get-miss h = ap (λ o. (o, bumped name self)) (cache_get-cached ∙ h)

  module _ {ℓ} {A : Type ℓ} (miss : CachingMostRecentProvider → A)
      (hit : ℕ → StoredProvider → CachingMostRecentProvider → A) where
    pub on_entry-hit :
        (t : ℕ) (p : StoredProvider)
        → cached name self ≡ some (t, p)
        → on_entry miss hit (cache_get name self) ≡ hit t p (bumped name self)
    unfolding on_entry
    on_entry-hit t p h = ap (on_entry miss hit) (cache_get-hit t p h)

    pub on_entry-miss :
        cached name self ≡ none → on_entry miss hit (cache_get name self) ≡ miss (bumped name self)
    unfolding on_entry
    on_entry-miss h = ap (on_entry miss hit) (cache_get-miss h)

-- The three ages of an entry.
pub action_at-live : (ttl now t : ℕ) → now < t + ttl → action_at ttl now t ≡ live
unfolding action_at
action_at-live ttl now t h = ground arith

pub action_at-expired :
    (ttl now t : ℕ) → t + (ttl + grace_period) ≤ now → action_at ttl now t ≡ expired
unfolding action_at
action_at-expired ttl now t h = ground arith

-- An entry that is not there, after what may be its eviction.
pub if_none {ℓ} : {A : Type ℓ} (b : Bool) (o : Option A) → o ≡ none → (if b then none else o) ≡ none
if_none true o e = refl
if_none false o e = e
