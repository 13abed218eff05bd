-- ===== src/Providers/MostRecent/Encryption.antt =====
-- Which provider an encryption uses when the known version is expired.
use aws_dynamodb_encryption.Prelude.{
  ℕ, ◌+◌, ◌≤◌, true, Option, none, some, ◌≡◌, ◌∙◌, refl, ap, if_true, Option-cases, inl, inr,
}
use aws_dynamodb_encryption.Result.{Result, ok}
use aws_dynamodb_encryption.Providers.BasicCache.{name_eq}
use aws_dynamodb_encryption.Providers.BasicCache.Laws.{name_eq_iff}
use aws_dynamodb_encryption.Providers.MostRecent.{
  grace_period, TtlActions, expired, encrypt_action, StoredProvider, Call,
  CachingMostRecentProvider, action_at, cache_get, cache_evict, cache_put, ttl_action,
  live_provider, evict_expired, acquires, demoted, encrypt_otherwise, encrypt_by_action,
  encryption_provider, get_most_recent_version, locked_most_recent, query_most_recent,
  newest_provider, remember, get_max_version, get_provider, continue,
}
use aws_dynamodb_encryption.Providers.MostRecent.Steps.{
  cached, IsValid, bumped, cached-bumped, bumped-IsValid, cached-evict, evict-keeps_validity,
  cached-put, on_entry-miss, action_at-expired, if_none,
}

-- The known version is remembered with the time, and its provider is cached.
abbrev pub remembered :
    ℕ → ℕ → StoredProvider → CachingMostRecentProvider → CachingMostRecentProvider
remembered received time p s =
    cache_put (some received) (time, p)
      (record s { version = some received; last_updated = some time })

-- The store's answers on its newest version.
pub record Newest (call : Call) (max_version received : ℕ) (p : StoredProvider) : Type 0 where
  pub is_max : get_max_version call.store ≡ ok max_version
  pub provides : get_provider call.store max_version ≡ ok p
  pub is_received :
      call.store.version_from_material_description p.material_description ≡ ok received

module _ (call : Call) (max_version received : ℕ) (p : StoredProvider)
    (newest : Newest call max_version received p) where
  query_most_recent_missing :
      (s : CachingMostRecentProvider)
      → cached (some max_version) s ≡ none
      → query_most_recent call s
        ≡ (ok p, remembered received call.stored_at p (bumped (some max_version) s))
  unfolding query_most_recent newest_provider remember continue
  query_most_recent_missing s gone = rw (
    newest.is_max,
    on_entry-miss (some max_version) s _ _ gone,
    newest.provides,
    newest.is_received,
    query_most_recent,
    newest_provider,
    remember,
    continue,
  )

  module _ (self : CachingMostRecentProvider) (valid : IsValid self) where
    encrypt_looks_expired :
        ((t : ℕ) → self.last_updated ≡ some t → t + (self.version_ttl + grace_period) ≤ call.now)
        → ttl_action call.now self.version encrypt_action self ≡ (expired, self)
    unfolding ttl_action
    encrypt_looks_expired old = elim (Option-cases self.last_updated) [
      | inl (t, e) ↦
          ap action_of e
          ∙ ap (λ a. (a, self)) (action_at-expired self.version_ttl call.now t (old t e))
      | inr e ↦ ap action_of e
    ]
      where
        action_of : Option ℕ → TtlActions × CachingMostRecentProvider
        action_of none = (expired, self)
        action_of (some timestamp) = (action_at self.version_ttl call.now timestamp, self)

    run_encryption :
        (s : CachingMostRecentProvider)
        → ttl_action call.now self.version encrypt_action self ≡ (expired, self)
        → call.meanwhile (evict_expired expired self) ≡ s
        → cached s.version s ≡ none
        → encryption_provider call self ≡ query_most_recent call (bumped s.version s)
    unfolding encryption_provider encrypt_by_action encrypt_otherwise live_provider demoted
        get_most_recent_version acquires locked_most_recent
    run_encryption s look now gone =
        ap (encrypt_by_action call) look
        ∙ ap (locked_most_recent call expired) now
        ∙ on_entry-miss s.version s _ _ gone

    -- Nothing is left of the known version, nor of the newest one if only the known one was cached.
    evicted_known : cached self.version (evict_expired expired self) ≡ none
    unfolding evict_expired
    evicted_known =
        cached-evict self.version self self.version valid
        ∙ if_true (name_eq self.version self.version) _ _
            ((name_eq_iff self.version self.version).1 refl)

    evicted_newest :
        ((t : ℕ) (q : StoredProvider)
          → cached (some max_version) self ≡ some (t, q)
          → name_eq self.version (some max_version) ≡ true)
        → cached (some max_version) (evict_expired expired self) ≡ none
    unfolding evict_expired
    evicted_newest known =
        cached-evict self.version self (some max_version) valid
        ∙ elim (Option-cases (cached (some max_version) self)) [
          | inl ((t, q), e) ↦ if_true (name_eq self.version (some max_version)) _ _ (known t q e)
          | inr e ↦
              if_none (name_eq self.version (some max_version)) (cached (some max_version) self) e
        ]

    -- Where the cache is valid, nothing was retrieved yet or that was too long ago, and no other thread
    -- changes the object, the newest version is asked for: if the cache holds it at most as the known
    -- version and the store provides it, that provider is used and cached, and its version and the time
    -- at which it was stored are remembered.
    pub encryption_provider_expired :
        ((t : ℕ) → self.last_updated ≡ some t → t + (self.version_ttl + grace_period) ≤ call.now)
        → ((t : ℕ) (q : StoredProvider)
            → cached (some max_version) self ≡ some (t, q)
            → name_eq self.version (some max_version) ≡ true)
        → ((s : CachingMostRecentProvider) → call.meanwhile s ≡ s)
        → ((encryption_provider call self).0 ≡ ok p)
          × ((encryption_provider call self).1.version ≡ some received)
          × ((encryption_provider call self).1.last_updated ≡ some call.stored_at)
          × (cached (some received) (encryption_provider call self).1 ≡ some (call.stored_at, p))
    unfolding evict_expired cache_evict cache_get cache_put
    encryption_provider_expired old known alone = (
      ap (λ r. r.0) run,
      ap (λ (r : Result StoredProvider × CachingMostRecentProvider). r.1.version) run
          ∙ remembered_version,
      ap (λ (r : Result StoredProvider × CachingMostRecentProvider). r.1.last_updated) run
          ∙ remembered_time,
      ap (λ (r : Result StoredProvider × CachingMostRecentProvider). cached (some received) (r.1))
            run
          ∙ cached-put (some received) updated (call.stored_at, p) valid₃,
    )
      where
        s₁ : CachingMostRecentProvider
        s₁ = evict_expired expired self

        valid₁ : IsValid s₁
        valid₁ = evict-keeps_validity self.version self valid

        s₂ : CachingMostRecentProvider
        s₂ = bumped s₁.version s₁

        valid₂ : IsValid s₂
        valid₂ = bumped-IsValid s₁.version s₁ valid₁

        s₃ : CachingMostRecentProvider
        s₃ = bumped (some max_version) s₂

        valid₃ : IsValid s₃
        valid₃ = bumped-IsValid (some max_version) s₂ valid₂

        updated : CachingMostRecentProvider
        updated = record s₃ { version = some received; last_updated = some call.stored_at }

        remembered_version : (remembered received call.stored_at p s₃).version ≡ some received
        remembered_version = refl

        remembered_time :
            (remembered received call.stored_at p s₃).last_updated ≡ some call.stored_at
        remembered_time = refl

        gone : cached (some max_version) s₂ ≡ none
        gone = cached-bumped s₁.version s₁ (some max_version) valid₁ ∙ evicted_newest known

        run : encryption_provider call self ≡ (ok p, remembered received call.stored_at p s₃)
        run =
            run_encryption s₁ (encrypt_looks_expired old) (alone s₁) evicted_known
            ∙ query_most_recent_missing s₂ gone
