-- ===== src/Examples/Caches.antt =====
-- The cache of two entries, and the provider that keeps its providers in one.
use aws_dynamodb_encryption.Prelude.{
  false, some-injective, ℕ, ◌≤◌, arith, text, true, none, some, [], ◌∷◌, ◌≡◌, refl, ap, Option, ◌+◌,
}
use aws_dynamodb_encryption.Result.{ok}
use aws_dynamodb_encryption.Providers.BasicCache
use aws_dynamodb_encryption.Providers.BasicCache.{BasicCache, Name, name_eq, lookup}
use aws_dynamodb_encryption.Providers.BasicCache.Laws
use aws_dynamodb_encryption.Providers.BasicCache.Laws.{
  found, found-put, found-get, found-evict, put-IsValid,
}
use aws_dynamodb_encryption.Providers.MostRecent.{
  StoredProvider, ProviderStore, Call, CachingMostRecentProvider, decryption_provider,
  encryption_provider, get_max_version, get_provider, catch_invalid_version,
}
use aws_dynamodb_encryption.Providers.MostRecent.Encryption.{Newest, encryption_provider_expired}
use aws_dynamodb_encryption.Providers.MostRecent.Steps.{cached, IsValid}
use aws_dynamodb_encryption.Providers.MostRecent.Decryption.{
  decryption_provider_live, decryption_provider_stale, decryption_provider_retrieves,
}
use aws_dynamodb_encryption.Providers.MostRecent.Grace.{
  decryption_provider_contended, decryption_provider_refreshes, encryption_provider_live,
}
use aws_dynamodb_encryption.Examples.{provider}

-- A full cache.
abbrev numbers : BasicCache ℕ
numbers = record { capacity = 2; entries = (some 1, 10) ∷ (some 2, 20) ∷ [] }

numbers-IsValid : Laws.IsValid numbers
unfolding lookup name_eq
numbers-IsValid = record {
  distinct = (refl, (refl, tt));
  bounded = omega arith;
  positive = omega arith;
}

found-put_example : found (some 3) (BasicCache.put (some 3) 30 numbers) ≡ some 30
found-put_example = found-put (some 3) 30 numbers numbers-IsValid

found-get_example : found (some 2) (BasicCache.get (some 1) numbers).1 ≡ found (some 2) numbers
found-get_example = found-get (some 1) (some 2) numbers numbers-IsValid

put-IsValid_example : Laws.IsValid (BasicCache.put (some 3) 30 numbers)
put-IsValid_example = put-IsValid (some 3) 30 numbers numbers-IsValid

abbrev old_provider : StoredProvider
old_provider = record { materials = provider; material_description = [] }

abbrev new_provider : StoredProvider
new_provider = record {
  materials = provider;
  material_description = (text "version", text "2") ∷ [];
}

-- A store that answers every version with the new provider.
abbrev store : ProviderStore
store = record {
  version_from_material_description = λ d. ok 2;
  max_version = ok 2;
  get_or_create_provider = λ version. ok new_provider;
  provider = λ version. ok new_provider;
}

-- The known version is 2; an older provider was stored at time 0.
abbrev self : CachingMostRecentProvider
self = record {
  version_ttl = 1000;
  version = some 2;
  last_updated = some 0;
  cache = record {
    capacity = 2;
    entries = (some 1, (0, old_provider)) ∷ (some 2, (0, old_provider)) ∷ [];
  };
}

abbrev call_at : ℕ → Call
call_at now = record {
  store = store;
  now = now;
  stored_at = now;
  acquired = true;
  meanwhile = λ s. s;
}

self-IsValid : IsValid self
unfolding lookup name_eq
self-IsValid = record {
  distinct = (refl, (refl, tt));
  bounded = omega arith;
  positive = omega arith;
}

decryption_provider_live_example :
    ((decryption_provider (call_at 900) 1 self).0 ≡ ok old_provider)
    × ((j : Name) → cached j (decryption_provider (call_at 900) 1 self).1 ≡ cached j self)
unfolding lookup name_eq
decryption_provider_live_example =
    decryption_provider_live (call_at 900) 1 self self-IsValid 0 old_provider refl (omega arith)

decryption_provider_stale_example :
    ((decryption_provider (call_at 5000) 1 self).0 ≡ ok old_provider)
    × (cached (some 1) (decryption_provider (call_at 5000) 1 self).1 ≡ some (0, old_provider))
unfolding lookup name_eq
decryption_provider_stale_example =
    decryption_provider_stale (call_at 5000) 1 self self-IsValid 0 old_provider refl (omega arith)
      refl (λ s. refl)

known_expired :
    (t : ℕ) (q : StoredProvider)
    → cached (some 2) self ≡ some (t, q)
    → (t + (self.version_ttl + 500) ≤ 5000) × (name_eq self.version (some 2) ≡ true)
unfolding lookup name_eq
known_expired t q h = (omega (arith, ap age h), refl)
  where
    age : Option (ℕ × StoredProvider) → ℕ
    age none = 0
    age (some (s, p)) = s

decryption_provider_retrieves_example :
    ((decryption_provider (call_at 5000) 2 self).0 ≡ ok new_provider)
    × (cached (some 2) (decryption_provider (call_at 5000) 2 self).1 ≡ some (5000, new_provider))
decryption_provider_retrieves_example =
    decryption_provider_retrieves (call_at 5000) 2 self self-IsValid new_provider known_expired
      (λ s. refl) refl

newest : Newest (call_at 5000) 2 2 new_provider
unfolding get_max_version get_provider catch_invalid_version
newest = record { is_max = refl; provides = refl; is_received = refl }

long_ago : (t : ℕ) → self.last_updated ≡ some t → t + (self.version_ttl + 500) ≤ 5000
long_ago t h = omega (arith, some-injective h)

encryption_provider_expired_example :
    ((encryption_provider (call_at 5000) self).0 ≡ ok new_provider)
    × ((encryption_provider (call_at 5000) self).1.version ≡ some 2)
    × ((encryption_provider (call_at 5000) self).1.last_updated ≡ some 5000)
    × (cached (some 2) (encryption_provider (call_at 5000) self).1 ≡ some (5000, new_provider))
encryption_provider_expired_example =
    encryption_provider_expired (call_at 5000) 2 2 new_provider newest self self-IsValid long_ago
      (λ t q h. (known_expired t q h).1) (λ s. refl)

-- In the grace period, while another caller holds the lock.
abbrev contended : Call
contended = record {
  store = store;
  now = 1200;
  stored_at = 1200;
  acquired = false;
  meanwhile = λ s. s;
}

decryption_provider_contended_example :
    ((decryption_provider contended 1 self).0 ≡ ok old_provider)
    × ((j : Name) → cached j (decryption_provider contended 1 self).1 ≡ cached j self)
unfolding lookup name_eq
decryption_provider_contended_example =
    decryption_provider_contended contended 1 self self-IsValid 0 old_provider refl (omega arith)
      (omega arith) (λ s. refl) refl

decryption_provider_refreshes_example :
    ((decryption_provider (call_at 1200) 1 self).0 ≡ ok new_provider)
    × (cached (some 1) (decryption_provider (call_at 1200) 1 self).1 ≡ some (1200, new_provider))
unfolding lookup name_eq catch_invalid_version
decryption_provider_refreshes_example =
    decryption_provider_refreshes (call_at 1200) 1 self self-IsValid 0 old_provider refl
      (omega arith) (omega arith) (λ s. refl) refl

encryption_provider_live_example :
    ((encryption_provider (call_at 900) self).0 ≡ ok old_provider)
    × ((encryption_provider (call_at 900) self).1.version ≡ some 2)
    × ((encryption_provider (call_at 900) self).1.last_updated ≡ some 0)
    × ((j : Name) → cached j (encryption_provider (call_at 900) self).1 ≡ cached j self)
unfolding lookup name_eq
encryption_provider_live_example =
    encryption_provider_live (call_at 900) self self-IsValid 0 0 old_provider refl (omega arith)
      refl
