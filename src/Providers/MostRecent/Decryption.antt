-- ===== src/Providers/MostRecent/Decryption.antt =====
-- Which provider a decryption uses.
use aws_dynamodb_encryption.Prelude.{
  ℕ, ◌+◌, ◌≤◌, ◌<◌, true, false, none, some, if◌then◌else◌, ◌≡◌, ◌∙◌, refl, ap, if_true, if_false,
  Option-cases, inl, inr,
}
use aws_dynamodb_encryption.Result.{Result, ok, err}
use aws_dynamodb_encryption.Providers.BasicCache.{Name, name_eq}
use aws_dynamodb_encryption.Providers.MostRecent.{
  grace_period, expired, live, decrypt_action, StoredProvider, Call, CachingMostRecentProvider,
  cache_evict, cache_put, ttl_action, live_provider, evict_expired, fetch_provider, locked_provider,
  acquires, get_provider_with_grace_period, catch_invalid_version, caught, decrypt_otherwise,
  decrypt_by_action, decryption_provider,
}
use aws_dynamodb_encryption.Providers.MostRecent.Steps.{
  if_none, cached, IsValid, bumped, version-bumped, cached-bumped, bumped-IsValid, cached-evict,
  evict-keeps_validity, cached-put, on_entry-hit, on_entry-miss, action_at-live, action_at-expired,
}

-- The course of a call, by what becomes of the entry.
module _ (call : Call) (version : ℕ) (self : CachingMostRecentProvider) (t : ℕ)
    (p : StoredProvider) where
  run_live :
      cached (some version) self ≡ some (t, p)
      → call.now < t + self.version_ttl
      → cached (some version) (bumped (some version) self) ≡ some (t, p)
      → decryption_provider call version self
        ≡ (ok p, bumped (some version) (bumped (some version) self))
  unfolding decryption_provider decrypt_by_action decrypt_otherwise ttl_action live_provider
      evict_expired
  run_live entry fresh still =
      ap (decrypt_by_action call version) (
        on_entry-hit (some version) self _ _ t p entry
        ∙ ap (λ a. (a, bumped (some version) self))
            (action_at-live self.version_ttl call.now t fresh))
      ∙ ap (decrypt_otherwise call version live)
          (on_entry-hit (some version) (bumped (some version) self) _ _ t p still)

  -- The entry is expired, and stays there after the eviction.
  run_stale :
      (s : CachingMostRecentProvider)
      → cached (some version) self ≡ some (t, p)
      → t + (self.version_ttl + grace_period) ≤ call.now
      → call.meanwhile (evict_expired expired (bumped (some version) self)) ≡ s
      → cached (some version) s ≡ some (t, p)
      → decryption_provider call version self ≡ (ok p, bumped (some version) s)
  unfolding decryption_provider decrypt_by_action decrypt_otherwise ttl_action live_provider
      evict_expired get_provider_with_grace_period acquires locked_provider caught
      catch_invalid_version
  run_stale s entry old now still =
      ap (decrypt_by_action call version) (
        on_entry-hit (some version) self _ _ t p entry
        ∙ ap (λ a. (a, bumped (some version) self))
            (action_at-expired self.version_ttl call.now t old))
      ∙ ap (λ x. caught (locked_provider call version expired x)) now
      ∙ ap caught (on_entry-hit (some version) s _ _ t p still)

module _ (call : Call) (version : ℕ) (self : CachingMostRecentProvider) (valid : IsValid self) where
  module _ (t : ℕ) (p : StoredProvider) (entry : cached (some version) self ≡ some (t, p)) where
    -- Where the cache is valid and holds an entry for the version that is younger than `version_ttl`, the
    -- entry's provider is used whatever the store would answer, and every entry stays as it is.
    pub decryption_provider_live :
        call.now < t + self.version_ttl
        → ((decryption_provider call version self).0 ≡ ok p)
          × ((j : Name) → cached j (decryption_provider call version self).1 ≡ cached j self)
    decryption_provider_live fresh = (
      ap (λ r. r.0) run,
      λ j.
          ap (λ (r : Result StoredProvider × CachingMostRecentProvider). cached j (r.1)) run
          ∙ cached-bumped (some version) s₁ j (bumped-IsValid (some version) self valid)
          ∙ cached-bumped (some version) self j valid,
    )
      where
        s₁ : CachingMostRecentProvider
        s₁ = bumped (some version) self

        still : cached (some version) s₁ ≡ some (t, p)
        still = cached-bumped (some version) self (some version) valid ∙ entry

        run : decryption_provider call version self ≡ (ok p, bumped (some version) s₁)
        run = run_live call version self t p entry fresh still

    -- Where the cache is valid and holds an expired entry for a version other than the known one, and no
    -- other thread changes the object, the entry's provider is used all the same, whatever the store would
    -- answer, and the entry stays in the cache with its old time: it is not retrieved again.
    pub decryption_provider_stale :
        t + (self.version_ttl + grace_period) ≤ call.now
        → name_eq self.version (some version) ≡ false
        → ((s : CachingMostRecentProvider) → call.meanwhile s ≡ s)
        → ((decryption_provider call version self).0 ≡ ok p)
          × (cached (some version) (decryption_provider call version self).1 ≡ some (t, p))
    unfolding evict_expired
    decryption_provider_stale old other alone = (
      ap (λ r. r.0) run,
      ap (λ (r : Result StoredProvider × CachingMostRecentProvider). cached (some version) (r.1))
            run
          ∙ cached-bumped (some version) s₂ (some version)
              (evict-keeps_validity s₁.version s₁ valid₁)
          ∙ still,
    )
      where
        s₁ : CachingMostRecentProvider
        s₁ = bumped (some version) self

        valid₁ : IsValid s₁
        valid₁ = bumped-IsValid (some version) self valid

        s₂ : CachingMostRecentProvider
        s₂ = cache_evict s₁.version s₁

        evicted : evict_expired expired s₁ ≡ s₂
        evicted = refl

        still : cached (some version) s₂ ≡ some (t, p)
        still =
            cached-evict s₁.version s₁ (some version) valid₁
            ∙ if_false (name_eq s₁.version (some version)) none (cached (some version) s₁)
                (ap (λ v. name_eq v (some version)) (version-bumped (some version) self) ∙ other)
            ∙ cached-bumped (some version) self (some version) valid
            ∙ entry

        run : decryption_provider call version self ≡ (ok p, bumped (some version) s₂)
        run =
            run_stale call version self t p s₂ entry old
              (alone (evict_expired expired s₁) ∙ evicted) still

-- The course of a call for which the store is asked, after a look `self'` at the cache that counts as expired.
module _ (call : Call) (version : ℕ) (self self' s : CachingMostRecentProvider)
    (p : StoredProvider) where
  run_fetch :
      ttl_action call.now (some version) decrypt_action self ≡ (expired, self')
      → call.meanwhile (evict_expired expired self') ≡ s
      → cached (some version) s ≡ none
      → call.store.provider version ≡ ok p
      → decryption_provider call version self
        ≡ (ok p, cache_put (some version) (call.stored_at, p) (bumped (some version) s))
  unfolding decryption_provider decrypt_by_action decrypt_otherwise live_provider
      get_provider_with_grace_period acquires locked_provider caught catch_invalid_version
      fetch_provider
  run_fetch look now gone answer =
      ap (decrypt_by_action call version) look
      ∙ ap (λ x. caught (locked_provider call version expired x)) now
      ∙ ap caught (on_entry-miss (some version) s _ _ gone)
      ∙ ap
          (λ r. caught (elim r [
            | ok provider ↦ (
              ok provider,
              cache_put (some version) (call.stored_at, provider) (bumped (some version) s),
            )
            | err e ↦ (err e, bumped (some version) s)
          ]))
          answer

module _ (call : Call) (version : ℕ) (self : CachingMostRecentProvider) (valid : IsValid self) where
  evicted_look :
      ((t : ℕ) (q : StoredProvider)
        → cached (some version) self ≡ some (t, q)
        → name_eq self.version (some version) ≡ true)
      → cached (some version) (evict_expired expired (bumped (some version) self)) ≡ none
  unfolding evict_expired
  evicted_look known =
      cached-evict s₁.version s₁ (some version) (bumped-IsValid (some version) self valid)
      ∙ ap (λ v. if name_eq v (some version) then none else cached (some version) s₁)
          (version-bumped (some version) self)
      ∙ ap (λ o. if name_eq self.version (some version) then none else o)
          (cached-bumped (some version) self (some version) valid)
      ∙ elim (Option-cases (cached (some version) self)) [
        | inl ((t, q), e) ↦
            if_true (name_eq self.version (some version)) none (cached (some version) self)
              (known t q e)
        | inr e ↦ if_none (name_eq self.version (some version)) (cached (some version) self) e
      ]
    where
      s₁ : CachingMostRecentProvider
      s₁ = bumped (some version) self

  looks_expired :
      ((t : ℕ) (q : StoredProvider)
        → cached (some version) self ≡ some (t, q)
        → t + (self.version_ttl + grace_period) ≤ call.now)
      → ttl_action call.now (some version) decrypt_action self
        ≡ (expired, bumped (some version) self)
  unfolding ttl_action
  looks_expired old = elim (Option-cases (cached (some version) self)) [
    | inl ((t, q), e) ↦
        on_entry-hit (some version) self _ _ t q e
        ∙ ap (λ a. (a, bumped (some version) self))
            (action_at-expired self.version_ttl call.now t (old t q e))
    | inr e ↦ on_entry-miss (some version) self _ _ e
  ]

  -- Where the cache is valid and holds for a version nothing, or an expired entry if the version is the
  -- known one, no other thread changes the object, and the store provides the version, that provider is
  -- used and is the cached entry afterwards, with the time at which it was stored.
  pub decryption_provider_retrieves :
      (p : StoredProvider)
      → ((t : ℕ) (q : StoredProvider)
          → cached (some version) self ≡ some (t, q)
          → (t + (self.version_ttl + grace_period) ≤ call.now)
            × (name_eq self.version (some version) ≡ true))
      → ((s : CachingMostRecentProvider) → call.meanwhile s ≡ s)
      → call.store.provider version ≡ ok p
      → ((decryption_provider call version self).0 ≡ ok p)
        × (cached (some version) (decryption_provider call version self).1
            ≡ some (call.stored_at, p))
  unfolding evict_expired
  decryption_provider_retrieves p known alone answer = (
    ap (λ r. r.0) run,
    ap (λ (r : Result StoredProvider × CachingMostRecentProvider). cached (some version) (r.1)) run
        ∙ cached-put (some version) (bumped (some version) s₂) (call.stored_at, p)
            (bumped-IsValid (some version) s₂ valid₂),
  )
    where
      s₁ : CachingMostRecentProvider
      s₁ = bumped (some version) self

      s₂ : CachingMostRecentProvider
      s₂ = evict_expired expired s₁

      valid₂ : IsValid s₂
      valid₂ = evict-keeps_validity s₁.version s₁ (bumped-IsValid (some version) self valid)

      run :
          decryption_provider call version self
          ≡ (ok p, cache_put (some version) (call.stored_at, p) (bumped (some version) s₂))
      run =
          run_fetch call version self s₁ s₂ p (looks_expired (λ t q e. (known t q e).0)) (alone s₂)
            (evicted_look (λ t q e. (known t q e).1)) answer
