-- ===== src/Providers/MostRecent.antt =====
-- material_providers/most_recent.py: CachingMostRecentProvider.
pub mod Steps
pub mod Decryption
pub mod Encryption
pub mod Grace
use aws_dynamodb_encryption.Prelude.{
  ℕ, ◌+◌, Text, Bool, true, false, ltb, Option, none, some, if◌then◌else◌, ◌≡◌,
}
use aws_dynamodb_encryption.Result.{
  Error, Result, ok, err, ◌>>=◌, attribute_error, key_error, invalid_version_error,
  no_known_version_error,
}
use aws_dynamodb_encryption.Dict.{Dict}
use aws_dynamodb_encryption.Structures.EncryptionContext.{EncryptionContext}
use aws_dynamodb_encryption.Crypto.Materials.{
  CryptographicMaterials, CryptographicMaterialsProvider,
}
use aws_dynamodb_encryption.Providers.BasicCache
use aws_dynamodb_encryption.Providers.BasicCache.{BasicCache, Name}

-- Times are in milliseconds.
abbrev pub grace_period : ℕ
grace_period = 500

pub data TtlActions : Type 0 where
  expired in_grace_period live : TtlActions

pub data CacheAction : Type 0 where
  encrypt_action decrypt_action : CacheAction

-- A provider that the store returns, with its `_material_description`.
pub record StoredProvider : Type 0 where
  pub materials : CryptographicMaterialsProvider
  pub material_description : Dict Text

-- A provider store (material_providers/store), for the one material that this provider asks for, as it
-- answers during a call.
pub record ProviderStore : Type 0 where
  pub version_from_material_description : Dict Text → Result ℕ
  pub max_version : Result ℕ
  pub get_or_create_provider : ℕ → Result StoredProvider
  pub provider : ℕ → Result StoredProvider

pub record CachingMostRecentProvider : Type 0 where
  pub version_ttl : ℕ
  pub version : Name
  pub last_updated : Option ℕ
  pub cache : BasicCache (ℕ × StoredProvider)

-- What a call meets: the store, the time when the age is computed and when an entry is stored, whether
-- `acquire(False)` gets the lock, and what other threads do to the object before the lock is held.
pub record Call : Type 0 where
  pub store : ProviderStore
  pub now : ℕ
  pub stored_at : ℕ
  pub acquired : Bool
  pub meanwhile : CachingMostRecentProvider → CachingMostRecentProvider

-- A method changes the object and returns or raises.
abbrev pub Method {ℓ} : Type ℓ → Type ℓ
Method A = CachingMostRecentProvider → Result A × CachingMostRecentProvider

-- What was changed before an exception stays changed.
unfoldable pub continue {ℓ κ} :
    {A : Type ℓ} {B : Type κ}
    → (A → Method B)
    → Result A × CachingMostRecentProvider
    → Result B × CachingMostRecentProvider
continue f (ok a, self) = f a self
continue f (err e, self) = (err e, self)

unfoldable pub cache_get :
    Name → CachingMostRecentProvider → Option (ℕ × StoredProvider) × CachingMostRecentProvider
cache_get name self =
    let (found, cache) = BasicCache.get name self.cache in (found, record self { cache = cache })

-- try: timestamp, provider = self._cache.get(name); hit / except KeyError: miss
unfoldable pub on_entry {ℓ} :
    {A : Type ℓ}
    → (CachingMostRecentProvider → A)
    → (ℕ → StoredProvider → CachingMostRecentProvider → A)
    → Option (ℕ × StoredProvider) × CachingMostRecentProvider
    → A
on_entry miss hit (none, self) = miss self
on_entry miss hit (some (timestamp, provider), self) = hit timestamp provider self

unfoldable pub cache_evict : Name → CachingMostRecentProvider → CachingMostRecentProvider
cache_evict name self = record self { cache = BasicCache.evict name self.cache }

unfoldable pub cache_put :
    Name → ℕ × StoredProvider → CachingMostRecentProvider → CachingMostRecentProvider
cache_put name value self = record self { cache = BasicCache.put name value self.cache }

-- time.time() - timestamp against the two limits
unfoldable pub action_at : ℕ → ℕ → ℕ → TtlActions
action_at version_ttl now timestamp =
    if ltb now (timestamp + version_ttl)
    then live
    else if ltb now (timestamp + (version_ttl + grace_period))
    then in_grace_period
    else expired

unfoldable pub ttl_action :
    ℕ → Name → CacheAction → CachingMostRecentProvider → TtlActions × CachingMostRecentProvider
ttl_action now version encrypt_action self = elim self.last_updated [
  | none ↦ (expired, self)
  | some timestamp ↦ (action_at self.version_ttl now timestamp, self)
]
ttl_action now version decrypt_action self =
    on_entry (λ s. (expired, s)) (λ timestamp _ s. (action_at self.version_ttl now timestamp, s))
      (cache_get version self)

-- _, provider = self._cache.get(version), which may raise KeyError
unfoldable pub cached_provider : Name → Method StoredProvider
cached_provider version self =
    on_entry (λ s. (err key_error, s)) (λ _ provider s. (ok provider, s)) (cache_get version self)

-- The store is asked for the version, and the answer is cached.
unfoldable pub fetch_provider : Call → ℕ → Method StoredProvider
fetch_provider call version self = elim (call.store.provider version) [
  | ok provider ↦ (ok provider, cache_put (some version) (call.stored_at, provider) self)
  | err e ↦ (err e, self)
]

-- With the lock held.
unfoldable pub locked_provider : Call → ℕ → TtlActions → Method StoredProvider
locked_provider call version expired self =
    on_entry (fetch_provider call version) (λ _ provider s. (ok provider, s))
      (cache_get (some version) self)
locked_provider call version _ self = fetch_provider call version self

-- lock.acquire(blocking): a call that blocks gets the lock in the end
unfoldable pub acquires : Call → TtlActions → Bool
acquires call expired = true
acquires call _ = call.acquired

unfoldable pub get_provider_with_grace_period : Call → ℕ → TtlActions → Method StoredProvider
get_provider_with_grace_period call version action self =
    if acquires call action
    then locked_provider call version action (call.meanwhile self)
    else cached_provider (some version) (call.meanwhile self)

-- except InvalidVersionError: raise AttributeError
unfoldable pub catch_invalid_version {ℓ} : {A : Type ℓ} → Result A → Result A
catch_invalid_version (ok a) = ok a
catch_invalid_version (err invalid_version_error) = err attribute_error
catch_invalid_version (err e) = err e

unfoldable pub caught {ℓ} :
    {A : Type ℓ} → Result A × CachingMostRecentProvider → Result A × CachingMostRecentProvider
caught (r, self) = (catch_invalid_version r, self)

-- The provider of a live entry.
unfoldable pub live_provider :
    Name
    → TtlActions
    → CachingMostRecentProvider
    → Option StoredProvider × CachingMostRecentProvider
live_provider version live self =
    on_entry (λ s. (none, s)) (λ _ provider s. (some provider, s)) (cache_get version self)
live_provider version _ self = (none, self)

-- On decryption as on encryption it is the entry of `self._version` that goes.
unfoldable pub evict_expired : TtlActions → CachingMostRecentProvider → CachingMostRecentProvider
evict_expired expired self = cache_evict self.version self
evict_expired _ self = self

-- What is done where no live entry was found.
unfoldable pub decrypt_otherwise :
    Call
    → ℕ
    → TtlActions
    → Option StoredProvider × CachingMostRecentProvider
    → Result StoredProvider × CachingMostRecentProvider
decrypt_otherwise call version action (some provider, self) = (ok provider, self)
decrypt_otherwise call version action (none, self) =
    caught (get_provider_with_grace_period call version action self)

unfoldable pub decrypt_by_action :
    Call
    → ℕ
    → TtlActions × CachingMostRecentProvider
    → Result StoredProvider × CachingMostRecentProvider
decrypt_by_action call version (action, self) =
    decrypt_otherwise call version action
      (live_provider (some version) action (evict_expired action self))

unfoldable pub decryption_provider : Call → ℕ → Method StoredProvider
decryption_provider call version self =
    decrypt_by_action call version (ttl_action call.now (some version) decrypt_action self)

unfoldable pub decryption_materials : Call → EncryptionContext → Method CryptographicMaterials
decryption_materials call context self =
    elim (call.store.version_from_material_description context.material_description) [
      | err e ↦ (err e, self)
      | ok version ↦
          continue (λ provider s. (provider.materials.decryption_materials context, s))
            (decryption_provider call version self)
    ]

-- 0 if the store knows no version
unfoldable pub get_max_version : ProviderStore → Result ℕ
get_max_version store = elim store.max_version [
  | ok v ↦ ok v
  | err no_known_version_error ↦ ok 0
  | err e ↦ err e
]

unfoldable pub get_provider : ProviderStore → ℕ → Result StoredProvider
get_provider store version = catch_invalid_version (store.get_or_create_provider version)

-- The provider of the greatest version, from the cache or from the store.
unfoldable pub newest_provider : Call → ℕ → Method StoredProvider
newest_provider call max_version self =
    on_entry (λ s. (get_provider call.store max_version, s)) (λ _ provider s. (ok provider, s))
      (cache_get (some max_version) self)

-- The version that was received becomes the known one.
unfoldable pub remember : Call → StoredProvider → Method StoredProvider
remember call provider self =
    elim (call.store.version_from_material_description provider.material_description) [
      | err e ↦ (err e, self)
      | ok received ↦ (
        ok provider,
        cache_put (some received) (call.stored_at, provider)
            (record self { version = some received; last_updated = some call.stored_at }),
      )
    ]

unfoldable pub query_most_recent : Call → Method StoredProvider
query_most_recent call self = elim (get_max_version call.store) [
  | err e ↦ (err e, self)
  | ok max_version ↦ continue (remember call) (newest_provider call max_version self)
]

-- With the lock held.
unfoldable pub locked_most_recent : Call → TtlActions → Method StoredProvider
locked_most_recent call expired self =
    on_entry (query_most_recent call) (λ _ provider s. (ok provider, s))
      (cache_get self.version self)
locked_most_recent call _ self = query_most_recent call self

unfoldable pub get_most_recent_version : Call → TtlActions → Method StoredProvider
get_most_recent_version call action self =
    let self' = call.meanwhile self in
    if acquires call action
    then locked_most_recent call action self'
    else cached_provider self'.version self'

-- A live version that is not in the cache counts as expired.
unfoldable pub demoted : TtlActions → TtlActions
demoted live = expired
demoted action = action

unfoldable pub encrypt_otherwise :
    Call
    → TtlActions
    → Option StoredProvider × CachingMostRecentProvider
    → Result StoredProvider × CachingMostRecentProvider
encrypt_otherwise call action (some provider, self) = (ok provider, self)
encrypt_otherwise call action (none, self) = get_most_recent_version call (demoted action) self

unfoldable pub encrypt_by_action :
    Call
    → TtlActions × CachingMostRecentProvider
    → Result StoredProvider × CachingMostRecentProvider
encrypt_by_action call (action, self) =
    let evicted = evict_expired action self in
    encrypt_otherwise call action (live_provider evicted.version action evicted)

unfoldable pub encryption_provider : Call → Method StoredProvider
encryption_provider call self =
    encrypt_by_action call (ttl_action call.now self.version encrypt_action self)

unfoldable pub encryption_materials : Call → EncryptionContext → Method CryptographicMaterials
encryption_materials call context self =
    continue (λ provider s. (provider.materials.encryption_materials context, s))
      (encryption_provider call self)

unfoldable pub refresh : CachingMostRecentProvider → CachingMostRecentProvider
refresh self = record self {
  cache = BasicCache.clear self.cache;
  version = none;
  last_updated = none;
}

-- CachingMostRecentProvider(...), for its time to live and the size of its cache
unfoldable pub new : ℕ → ℕ → Result CachingMostRecentProvider
unfolding refresh
new version_ttl cache_size = do
  cache ← BasicCache.new cache_size
  ok (
      refresh
        (record { version_ttl = version_ttl; version = none; last_updated = none; cache = cache }))
