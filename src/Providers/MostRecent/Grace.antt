-- ===== src/Providers/MostRecent/Grace.antt =====
-- material_providers/most_recent.py: which provider is used while the known version is live, and by a decryption in
-- the grace period of an entry.
use aws_dynamodb_encryption.Prelude.{
  ℕ, ◌+◌, ◌≤◌, ◌<◌, true, false, Option, none, some, if◌then◌else◌, ◌≡◌, ◌∙◌, refl, ap, arith,
}
use aws_dynamodb_encryption.Result.{Result, ok, err}
use aws_dynamodb_encryption.Providers.BasicCache.{Name}
use aws_dynamodb_encryption.Providers.MostRecent.{
  grace_period, TtlActions, expired, in_grace_period, live, encrypt_action, decrypt_action,
  StoredProvider, Call, CachingMostRecentProvider, action_at, cache_get, cache_put, ttl_action,
  live_provider, evict_expired, cached_provider, fetch_provider, locked_provider, acquires,
  get_provider_with_grace_period, catch_invalid_version, caught, decrypt_otherwise,
  decrypt_by_action, decryption_provider, encrypt_otherwise, encrypt_by_action, encryption_provider,
}
use aws_dynamodb_encryption.Providers.MostRecent.Steps.{
  cached, IsValid, bumped, cached-bumped, bumped-IsValid, cached-put, on_entry-hit, action_at-live,
}

action_at-in_grace_period :
    (ttl now t : ℕ)
    → t + ttl ≤ now
    → now < t + (ttl + grace_period)
    → action_at ttl now t ≡ in_grace_period
unfolding action_at
action_at-in_grace_period ttl now t h g = ground arith

-- The entry of a version after the store was asked for it.
abbrev pub refreshed : ℕ × StoredProvider → ℕ → Result StoredProvider → Option (ℕ × StoredProvider)
refreshed entry stored_at (ok q) = some (stored_at, q)
refreshed entry stored_at (err e) = some entry

module _ (call : Call) (version : ℕ) (self : CachingMostRecentProvider) (valid : IsValid self)
    (t : ℕ) (p : StoredProvider) (entry : cached (some version) self ≡ some (t, p))
    (old : t + self.version_ttl ≤ call.now)
    (young : call.now < t + (self.version_ttl + grace_period))
    (alone : (s : CachingMostRecentProvider) → call.meanwhile s ≡ s) where
  looks_in_grace_period :
      ttl_action call.now (some version) decrypt_action self
      ≡ (in_grace_period, bumped (some version) self)
  unfolding ttl_action
  looks_in_grace_period =
      on_entry-hit (some version) self _ _ t p entry
      ∙ ap (λ a. (a, bumped (some version) self))
          (action_at-in_grace_period self.version_ttl call.now t old young)

  still : cached (some version) (bumped (some version) self) ≡ some (t, p)
  still = cached-bumped (some version) self (some version) valid ∙ entry

  run_contended :
      call.acquired ≡ false
      → decryption_provider call version self
        ≡ (ok p, bumped (some version) (bumped (some version) self))
  unfolding decryption_provider decrypt_by_action decrypt_otherwise live_provider evict_expired
      get_provider_with_grace_period acquires cached_provider caught catch_invalid_version
  run_contended contended =
      ap (decrypt_by_action call version) looks_in_grace_period
      ∙ ap
          (λ b. caught (
            if b
            then locked_provider call version in_grace_period
                (call.meanwhile (bumped (some version) self))
            else cached_provider (some version) (call.meanwhile (bumped (some version) self))))
          contended
      ∙ ap (λ s. caught (cached_provider (some version) s)) (alone (bumped (some version) self))
      ∙ ap caught (on_entry-hit (some version) (bumped (some version) self) _ _ t p still)

  run_refresh :
      call.acquired ≡ true
      → decryption_provider call version self
        ≡ caught (fetch_provider call version (bumped (some version) self))
  unfolding decryption_provider decrypt_by_action decrypt_otherwise live_provider evict_expired
      get_provider_with_grace_period acquires locked_provider
  run_refresh acquired =
      ap (decrypt_by_action call version) looks_in_grace_period
      ∙ ap
          (λ b. caught (
            if b
            then locked_provider call version in_grace_period
                (call.meanwhile (bumped (some version) self))
            else cached_provider (some version) (call.meanwhile (bumped (some version) self))))
          acquired
      ∙ ap (λ s. caught (fetch_provider call version s)) (alone (bumped (some version) self))

  -- Where the cache is valid and the entry of the requested version is in its grace period, another caller
  -- holds the lock and the object is not changed meanwhile, a decryption does not wait: it uses the entry's
  -- provider whatever the store would answer, and every entry stays as it is.
  pub decryption_provider_contended :
      call.acquired ≡ false
      → ((decryption_provider call version self).0 ≡ ok p)
        × ((j : Name) → cached j (decryption_provider call version self).1 ≡ cached j self)
  decryption_provider_contended contended = (
    ap (λ r. r.0) (run_contended contended),
    λ j.
        ap (λ (r : Result StoredProvider × CachingMostRecentProvider). cached j (r.1))
          (run_contended contended)
        ∙ cached-bumped (some version) (bumped (some version) self) j
            (bumped-IsValid (some version) self valid)
        ∙ cached-bumped (some version) self j valid,
  )

  -- Where the cache is valid, the entry of the requested version is in its grace period, the call gets the
  -- lock and no other thread changes the object, a decryption asks the store for the version: it returns what
  -- the store answers, with AttributeError for InvalidVersionError. The answered provider is the entry
  -- afterwards, with the time at which it was stored; if the store raises, the entry stays as it was.
  pub decryption_provider_refreshes :
      call.acquired ≡ true
      → ((decryption_provider call version self).0
          ≡ catch_invalid_version (call.store.provider version))
        × (cached (some version) (decryption_provider call version self).1
            ≡ refreshed (t, p) call.stored_at (call.store.provider version))
  unfolding fetch_provider caught
  decryption_provider_refreshes acquired = (
    ap (λ r. r.0) (run_refresh acquired) ∙ result (call.store.provider version),
    ap (λ (r : Result StoredProvider × CachingMostRecentProvider). cached (some version) (r.1))
          (run_refresh acquired)
        ∙ entry_after (call.store.provider version),
  )
    where
      s₁ : CachingMostRecentProvider
      s₁ = bumped (some version) self

      after : Result StoredProvider → Result StoredProvider × CachingMostRecentProvider
      after (ok q) = (ok q, cache_put (some version) (call.stored_at, q) s₁)
      after (err e) = (err e, s₁)

      result : (r : Result StoredProvider) → (caught (after r)).0 ≡ catch_invalid_version r
      result (ok q) = refl
      result (err e) = refl

      entry_after :
          (r : Result StoredProvider)
          → cached (some version) (caught (after r)).1 ≡ refreshed (t, p) call.stored_at r
      entry_after (ok q) =
          cached-put (some version) s₁ (call.stored_at, q)
            (bumped-IsValid (some version) self valid)
      entry_after (err e) = still

module _ (call : Call) (self : CachingMostRecentProvider) (valid : IsValid self) (u t : ℕ)
    (p : StoredProvider) (updated : self.last_updated ≡ some u)
    (fresh : call.now < u + self.version_ttl) (entry : cached self.version self ≡ some (t, p)) where
  encrypt_looks_live : ttl_action call.now self.version encrypt_action self ≡ (live, self)
  unfolding ttl_action
  encrypt_looks_live =
      ap action_of updated ∙ ap (λ a. (a, self)) (action_at-live self.version_ttl call.now u fresh)
    where
      action_of : Option ℕ → TtlActions × CachingMostRecentProvider
      action_of none = (expired, self)
      action_of (some timestamp) = (action_at self.version_ttl call.now timestamp, self)

  run_live_encryption : encryption_provider call self ≡ (ok p, bumped self.version self)
  unfolding encryption_provider encrypt_by_action encrypt_otherwise live_provider evict_expired
  run_live_encryption =
      ap (encrypt_by_action call) encrypt_looks_live
      ∙ ap (encrypt_otherwise call live) (on_entry-hit self.version self _ _ t p entry)

  -- Where the cache is valid and holds an entry for the known version, and that version was received less
  -- than `version_ttl` ago, an encryption uses the entry's provider however old the entry is and whatever the
  -- store would answer; every entry, the known version and its time stay as they are.
  pub encryption_provider_live :
      ((encryption_provider call self).0 ≡ ok p)
      × ((encryption_provider call self).1.version ≡ self.version)
      × ((encryption_provider call self).1.last_updated ≡ self.last_updated)
      × ((j : Name) → cached j (encryption_provider call self).1 ≡ cached j self)
  unfolding cache_get
  encryption_provider_live = (
    ap (λ r. r.0) run_live_encryption,
    ap (λ (r : Result StoredProvider × CachingMostRecentProvider). r.1.version) run_live_encryption,
    ap (λ (r : Result StoredProvider × CachingMostRecentProvider). r.1.last_updated)
        run_live_encryption,
    λ j.
        ap (λ (r : Result StoredProvider × CachingMostRecentProvider). cached j (r.1))
          run_live_encryption
        ∙ cached-bumped self.version self j valid,
  )
