-- ===== src/Helpers/Tables/Caching.antt =====
-- What the cache of table infos returns, with and without its refresh.
use aws_dynamodb_encryption.Prelude.{
  Text, Bool, true, false, Option, none, some, ◌≡◌, ◌∙◌, ap, sym, refl, subst, text_eq,
  if◌then◌else◌, Option-cases, inl, inr, some-injective,
}
use aws_dynamodb_encryption.Result.{Result, ok, err, ◌>>=◌, ok-injective, attribute_error}
use aws_dynamodb_encryption.Dict.{get, put, get-put, get-put_self}
use aws_dynamodb_encryption.Structures.TableInfo
use aws_dynamodb_encryption.Structures.TableInfo.{
  TableDescription, TableInfo, primary_index, protected_index_keys,
}
use aws_dynamodb_encryption.Structures.AttributeActions
use aws_dynamodb_encryption.Structures.AttributeActions.{AttributeActions}
use aws_dynamodb_encryption.Crypto.Materials.{CryptographicMaterialsProvider}
use aws_dynamodb_encryption.Helpers.Tables.{
  TableInfoCache, load_table_info, keep_table_info, table_info, crypto_config_of,
  crypto_config_from_cache,
}

table_info-hit :
    (describe_table : Text → Result TableDescription) (table_name : Text) (self : TableInfoCache)
    {info : TableInfo}
    → get table_name self.all_tables_info ≡ some info
    → table_info describe_table table_name self ≡ (ok info, self)
unfolding table_info
table_info-hit describe_table table_name self h = rw (h, table_info)

table_info-miss :
    (describe_table : Text → Result TableDescription) (table_name : Text) (self : TableInfoCache)
    → get table_name self.all_tables_info ≡ none
    → table_info describe_table table_name self
      ≡ keep_table_info table_name
          (load_table_info describe_table self.auto_refresh_table_indexes table_name)
          self
unfolding table_info
table_info-miss describe_table table_name self h = rw (h, table_info)

module _ (describe_table : Text → Result TableDescription) (table_name : Text) where
  kept_again :
      (r : Result TableInfo) (self : TableInfoCache) (info : TableInfo)
      → (keep_table_info table_name r self).0 ≡ ok info
      → get table_name (keep_table_info table_name r self).1.all_tables_info ≡ some info
  unfolding keep_table_info
  kept_again (ok i) self info h =
      get-put_self table_name i self.all_tables_info ∙ ap some (ok-injective h)
  kept_again (err e) self info h = absurd (cc)

  -- Where the cache returned a table info, it returns the same one afterwards and stays as it is, whatever the
  -- service would answer then.
  pub table_info-again :
      (self : TableInfoCache) (info : TableInfo) (later : Text → Result TableDescription)
      → (table_info describe_table table_name self).0 ≡ ok info
      → table_info later table_name ((table_info describe_table table_name self).1)
        ≡ (ok info, (table_info describe_table table_name self).1)
  table_info-again self info later h =
      table_info-hit later table_name ((table_info describe_table table_name self).1)
        (elim (Option-cases (get table_name self.all_tables_info)) [
          | inl (found, g) ↦
              let hit = table_info-hit describe_table table_name self g in
              ap (λ (r : Result TableInfo × TableInfoCache). get table_name r.1.all_tables_info) hit
              ∙ g
              ∙ ap some
                  (ok-injective (sym (ap (λ (r : Result TableInfo × TableInfoCache). r.0) hit) ∙ h))
          | inr g ↦
              let miss = table_info-miss describe_table table_name self g in
              ap (λ (r : Result TableInfo × TableInfoCache). get table_name r.1.all_tables_info)
                miss
              ∙ kept_again
                  (load_table_info describe_table self.auto_refresh_table_indexes table_name) self
                  info (sym (ap (λ (r : Result TableInfo × TableInfoCache). r.0) miss) ∙ h)
        ])

-- The cache does not refresh, and no table info that it holds knows the primary index.
pub record Unrefreshed (self : TableInfoCache) : Type 0 where
  pub no_refresh : self.auto_refresh_table_indexes ≡ false
  pub unknown :
      (name : Text) (info : TableInfo)
      → get name self.all_tables_info ≡ some info
      → info.known_primary_index ≡ none

module _ (describe_table : Text → Result TableDescription)
    (provider : CryptographicMaterialsProvider) (actions copied : AttributeActions)
    (copies : AttributeActions.copy actions ≡ ok copied) where
  unknown_index :
      (info : TableInfo)
      → info.known_primary_index ≡ none
      → crypto_config_of provider actions info ≡ err attribute_error
  unfolding crypto_config_of protected_index_keys primary_index
  unknown_index info h = rw (copies, h)

  put-Unrefreshed :
      (self : TableInfoCache) (table_name : Text)
      → Unrefreshed self
      → Unrefreshed (record self {
        all_tables_info = put table_name (TableInfo.new table_name) self.all_tables_info;
      })
  put-Unrefreshed self table_name h = record {
    no_refresh = h.no_refresh;
    unknown = λ name info g.
        by_name (text_eq table_name name) info
          (sym (get-put table_name name (TableInfo.new table_name) self.all_tables_info) ∙ g)
          (h.unknown name info);
  }
    where
      by_name :
          (b : Bool) (info : TableInfo) {o : Option TableInfo}
          → (if b then some (TableInfo.new table_name) else o) ≡ some info
          → (o ≡ some info → info.known_primary_index ≡ none)
          → info.known_primary_index ≡ none
      by_name true info g held =
          ap (λ (i : TableInfo). i.known_primary_index) (sym (some-injective g))
      by_name false info g held = held g

  -- Of a cache that does not refresh and knows no primary index, such as a new one, no table gets a
  -- configuration: AttributeError is raised, and the cache stays such a one. The constructor must accept the
  -- actions.
  pub crypto_config_from_cache-Unrefreshed :
      (table_name : Text) (self : TableInfoCache)
      → Unrefreshed self
      → ((crypto_config_from_cache describe_table provider actions table_name self).0
          ≡ err attribute_error)
        × Unrefreshed ((crypto_config_from_cache describe_table provider actions table_name self).1)
  unfolding crypto_config_from_cache keep_table_info load_table_info
  crypto_config_from_cache-Unrefreshed table_name self h =
      elim (Option-cases (get table_name self.all_tables_info)) [
        | inl (info, g) ↦
            let hit = table_info-hit describe_table table_name self g in
            (
              ap
                    (λ (r : Result TableInfo × TableInfoCache). do
                      known ← r.0
                      crypto_config_of provider actions known)
                    hit
                  ∙ unknown_index info (h.unknown table_name info g),
              subst (λ (r : Result TableInfo × TableInfoCache). Unrefreshed (r.1)) (sym hit) h,
            )
        | inr g ↦
            let miss =
              table_info-miss describe_table table_name self g
              ∙ ap
                  (λ b.
                    keep_table_info table_name (load_table_info describe_table b table_name) self)
                  h.no_refresh in
            (
              ap
                    (λ (r : Result TableInfo × TableInfoCache). do
                      known ← r.0
                      crypto_config_of provider actions known)
                    miss
                  ∙ unknown_index (TableInfo.new table_name) refl,
              subst (λ (r : Result TableInfo × TableInfoCache). Unrefreshed (r.1)) (sym miss)
                  (put-Unrefreshed self table_name h),
            )
      ]
