-- ===== src/Providers/MetaStore/Creation.antt =====
-- material_providers/store/meta.py: get_or_create_provider and provider, by what the service answers. Nothing is
-- assumed of the table beyond the answers named: a read without ConsistentRead may miss what was stored.
use aws_dynamodb_encryption.Prelude.{
  ℕ, suc, Text, Bytes, text, text_eq, true, none, some, ◌≡◌, ◌∙◌, ap, subst,
}
use aws_dynamodb_encryption.Result.{
  Result, ok, err, ◌>>=◌, >>=-eq-ok, ok-injective, or_raise, invalid_version_error,
}
use aws_dynamodb_encryption.Builtins.{Builtins}
use aws_dynamodb_encryption.Jce.Library.{symmetric, raw, Cryptography}
use aws_dynamodb_encryption.Jce.LocalKey
use aws_dynamodb_encryption.Jce.LocalKey.{JceNameLocalDelegatedKey, is_symmetric}
use aws_dynamodb_encryption.Jce.LocalKey.Making.{for_cipher, for_mac, new-Made}
use aws_dynamodb_encryption.Jce.LocalKey.Contracts.{new-generate}
use aws_dynamodb_encryption.Providers.MetaStore.{
  PutAnswer, stored, condition_failed, client_error, MetaTable, Keys, load_item, item_of,
  load_materials, after_put, save_materials, saved_or_loaded, save_or_load_materials, provider_of,
  load_provider_from_table, generate_keys, provider_with, get_or_create_provider, provider,
}

new-algorithm :
    (l : Cryptography) (key : Bytes) (algorithm : Text) (k : JceNameLocalDelegatedKey l)
    → LocalKey.new l key algorithm symmetric raw ≡ ok k
    → algorithm ≡ k.algorithm
new-algorithm l key algorithm k h = elim (new-Made l key algorithm k h) [
  | for_cipher a e made ↦ ap (λ (x : JceNameLocalDelegatedKey l). x.algorithm) made
  | for_mac made ↦ ap (λ (x : JceNameLocalDelegatedKey l). x.algorithm) made
]

module _ (p : Builtins) (l : Cryptography) (for_encryption : is_symmetric l p (text "AES") ≡ true)
    (for_signing : is_symmetric l p (text "HmacSHA256") ≡ true) where
  reloaded :
      (seed : ℕ) (algorithm : Text) (k : JceNameLocalDelegatedKey l)
      → is_symmetric l p algorithm ≡ true
      → LocalKey.generate l p seed algorithm (some 256) ≡ ok k
      → LocalKey.new l k.key k.algorithm symmetric raw ≡ ok k
  reloaded seed algorithm k s h =
      let made = new-generate l p seed algorithm (some 256) k s h in
      subst (λ a. LocalKey.new l k.key a symmetric raw ≡ ok k)
        (new-algorithm l k.key algorithm k made) made

  -- The generated keys are those of their item.
  load_item-item_of :
      (seed : ℕ) (keys : Keys l)
      → generate_keys l p seed ≡ ok keys
      → load_item l (item_of l keys) ≡ ok keys
  unfolding generate_keys load_item item_of text_eq
  load_item-item_of seed keys h =
      let (ek, is_ek, h₁) = >>=-eq-ok (LocalKey.generate l p seed (text "AES") (some 256)) _ h in
      let (sk, is_sk, h₂) =
        >>=-eq-ok (LocalKey.generate l p (suc seed) (text "HmacSHA256") (some 256)) _ h₁ in
      subst (λ x. load_item l (item_of l x) ≡ ok x) (ok-injective h₂)
        (with_keys ek sk (reloaded seed (text "AES") ek for_encryption is_ek)
          (reloaded (suc seed) (text "HmacSHA256") sk for_signing is_sk))
    where
      with_keys :
          (ek sk : JceNameLocalDelegatedKey l)
          → LocalKey.new l ek.key ek.algorithm symmetric raw ≡ ok ek
          → LocalKey.new l sk.key sk.algorithm symmetric raw ≡ ok sk
          → load_item l (item_of l (ek, sk)) ≡ ok (ek, sk)
      with_keys ek sk e s = rw (e, s)

  module _ {S : Type 0} (table : MetaTable S) (material_name : Text) (version : ℕ) where
    -- Where the item of generated keys is found, the keys are loaded.
    load_materials-item_of :
        (seed : ℕ) (keys : Keys l) (state : S)
        → generate_keys l p seed ≡ ok keys
        → table.get_item material_name version state ≡ ok (some (item_of l keys))
        → load_materials l table material_name version state ≡ ok keys
    unfolding load_materials
    load_materials-item_of seed keys state made found =
        ap
          (λ r. do
            response ← r
            meta_item ← or_raise invalid_version_error response
            load_item l meta_item)
          found
        ∙ load_item-item_of seed keys made

    -- The call by the answer to its put.
    get_or_create_provider-put :
        (seed : ℕ) (keys : Keys l) (before after : S) (answer : Result PutAnswer)
        → generate_keys l p seed ≡ ok keys
        → table.put_item material_name version (item_of l keys) before ≡ (answer, after)
        → get_or_create_provider l table p seed material_name version before
          ≡ provider_with l table p material_name version (
              saved_or_loaded l table material_name version keys
                (after_put l table (answer, after)))
    unfolding get_or_create_provider save_or_load_materials save_materials
    get_or_create_provider-put seed keys before after answer made put =
        rw (made, put, get_or_create_provider)

    -- If the table stored the item that get_or_create_provider put, that call returns the provider of the keys
    -- it generated, and so does provider for the same name and version whenever its read of the table returns
    -- the item that was put. The two algorithms must be symmetric ones.
    pub provider-get_or_create_provider :
        (seed later : ℕ) (keys : Keys l) (before after reading : S)
        → generate_keys l p seed ≡ ok keys
        → table.put_item material_name version (item_of l keys) before ≡ (ok stored, after)
        → table.get_item material_name version reading ≡ ok (some (item_of l keys))
        → (get_or_create_provider l table p seed material_name version before
            ≡ (ok (provider_of l p material_name version keys), after))
          × (provider l table p later material_name (some version) reading
              ≡ (ok (provider_of l p material_name version keys), reading))
    unfolding get_or_create_provider provider load_provider_from_table save_or_load_materials
        save_materials provider_with saved_or_loaded after_put
    provider-get_or_create_provider seed later keys before after reading made put found = (
      get_or_create_provider-put seed keys before after (ok stored) made put,
      ap (λ r. provider_with l table p material_name version (r, reading))
          (load_materials-item_of seed keys reading made found),
    )

    -- Two calls of get_or_create_provider for one name and version return the same provider, that of the keys
    -- which the first one generated, if the table stored the item of the first, the condition of the second one's
    -- put failed, and the read that follows in the second returns the item of the first. The two algorithms must
    -- be symmetric ones.
    pub get_or_create_provider_agrees :
        (seed other : ℕ) (keys others : Keys l) (before after between reading : S)
        → generate_keys l p seed ≡ ok keys
        → generate_keys l p other ≡ ok others
        → table.put_item material_name version (item_of l keys) before ≡ (ok stored, after)
        → table.put_item material_name version (item_of l others) between
          ≡ (ok condition_failed, reading)
        → table.get_item material_name version reading ≡ ok (some (item_of l keys))
        → (get_or_create_provider l table p seed material_name version before
            ≡ (ok (provider_of l p material_name version keys), after))
          × (get_or_create_provider l table p other material_name version between
              ≡ (ok (provider_of l p material_name version keys), reading))
    unfolding get_or_create_provider save_or_load_materials save_materials provider_with
        saved_or_loaded after_put
    get_or_create_provider_agrees seed other keys others before after between reading made
          made_other put refused found =
        (
          get_or_create_provider-put seed keys before after (ok stored) made put,
          get_or_create_provider-put other others between reading (ok condition_failed) made_other
                refused
              ∙ ap (λ r. provider_with l table p material_name version (r, reading))
                  (load_materials-item_of seed keys reading made found),
        )

    -- Where the service answers the put with a ClientError other than that of the condition,
    -- get_or_create_provider raises nothing and returns the provider of the keys it generated, as if the table
    -- had stored them; a later call of provider whose read finds no item raises InvalidVersionError.
    pub get_or_create_provider_unsaved :
        (seed later : ℕ) (keys : Keys l) (before after reading : S)
        → generate_keys l p seed ≡ ok keys
        → table.put_item material_name version (item_of l keys) before ≡ (ok client_error, after)
        → table.get_item material_name version reading ≡ ok none
        → (get_or_create_provider l table p seed material_name version before
            ≡ (ok (provider_of l p material_name version keys), after))
          × (provider l table p later material_name (some version) reading
              ≡ (err invalid_version_error, reading))
    unfolding get_or_create_provider provider load_provider_from_table save_or_load_materials
        save_materials provider_with saved_or_loaded after_put load_materials
    get_or_create_provider_unsaved seed later keys before after reading made refused missing = (
      get_or_create_provider-put seed keys before after (ok client_error) made refused,
      rw missing,
    )
