-- ===== src/Helpers/Writing/Unprocessed.antt =====
-- Requests of a batch that DynamoDB did not process come back as they were before their encryption.
use aws_dynamodb_encryption.Prelude.{
  ℕ, zero, suc, Text, true, Option, none, some, List, [], ◌∷◌, All, get_elem?, ◌≡◌, ◌∙◌, ap, sym,
  refl, some-injective, inl, inr,
}
use aws_dynamodb_encryption.Result.{Result, ok, ◌>>=◌, >>=-eq-ok, ok-injective}
use aws_dynamodb_encryption.Dict.{get}
use aws_dynamodb_encryption.Formatting.Attribute.{Attribute, Item}
use aws_dynamodb_encryption.Encrypted.CryptoConfig.{CryptoConfig}
use aws_dynamodb_encryption.Encrypted.Item.Keys.{IsKey}
use aws_dynamodb_encryption.Helpers.Writing.{
  WriteRequest, Equality, items_match, find_original, revert_operation, revert_operations,
  encrypt_value, encrypt_request, encrypt_requests,
}
use aws_dynamodb_encryption.Helpers.Writing.Positions.{
  pick, pick-cons, pick_cons, none-ne-some, All-positions,
}
use aws_dynamodb_encryption.Helpers.Writing.Matching.{
  Tells, find_original-here, by_keys, item_keys_match-compares, item_keys_match-eq,
  item_keys_match-same,
}

module _ (same_value : Equality) (config : CryptoConfig) where
  revert_operation-none :
      (originals : List WriteRequest) (operation : WriteRequest)
      → operation.put_request ≡ none
      → revert_operation same_value config originals operation ≡ ok operation
  unfolding revert_operation
  revert_operation-none originals operation h =
      ap
        (λ o. elim o as (λ z. Result WriteRequest) [
          | none ↦ ok operation
          | some item ↦ do
            found ← find_original same_value config originals item
            ok (elim found [ some original ↦ original | none ↦ operation ])
        ])
        h

  revert_operations_cons :
      (originals : List WriteRequest) (f o : WriteRequest) (rest plain : List WriteRequest)
      → revert_operation same_value config originals f ≡ ok o
      → revert_operations same_value config originals rest ≡ ok plain
      → revert_operations same_value config originals (f ∷ rest) ≡ ok (o ∷ plain)
  unfolding revert_operations
  revert_operations_cons originals f o rest plain h g = rw (h, g)

  -- Each request that puts an item has values for the keys, and no two different ones put matching items.
  pub record Identified (originals : List WriteRequest) : Type 0 where
    pub has_keys :
        (n : ℕ) (x : WriteRequest) (i : Item)
        → get_elem? originals n ≡ some x
        → x.put_request ≡ some i
        → (name : Text) → IsKey name config.encryption_context
        → (a : Attribute) × (get name i ≡ some a)
    pub distinct :
        (n m : ℕ) (x y : WriteRequest) (i j : Item)
        → get_elem? originals n ≡ some x
        → get_elem? originals m ≡ some y
        → x.put_request ≡ some i
        → y.put_request ≡ some j
        → items_match same_value config j i ≡ ok true
        → y ≡ x

  module _ (x : ℕ) (name : Text)
      (partition : config.encryption_context.partition_key_name ≡ some (x ∷ name)) where
    module _ (encrypt_method : ℕ → Item → CryptoConfig → Result Item)
        (keeps : (seed : ℕ) (item e : Item) (key : Text) (a : Attribute)
          → encrypt_value encrypt_method seed config item ≡ ok e
          → IsKey key config.encryption_context
          → get key item ≡ some a
          → get key e ≡ some a)
        (reflexive : (a : Attribute) → same_value a a ≡ true) (originals : List WriteRequest)
        (identified : Identified originals) where
      -- Against an encrypted item, each request answers as against the item.
      Tells-original :
          (n : ℕ) (o : WriteRequest) (i e : Item) (seed : ℕ)
          → get_elem? originals n ≡ some o
          → o.put_request ≡ some i
          → encrypt_value encrypt_method seed config i ≡ ok e
          → All (Tells same_value config o e) originals
            × (items_match same_value config i e ≡ ok true)
      Tells-original n o i e seed g p made =
          let sort = config.encryption_context.sort_key_name in
          let (a, has_partition) = identified.has_keys n o i g p (x ∷ name) (inl partition) in
          let of_sort : (key : Text) → sort ≡ some key → (c : Attribute) × (get key i ≡ some c) =
            λ key q. identified.has_keys n o i g p key (inr q) in
          let same : (j : Item)
              → items_match same_value config j e ≡ items_match same_value config j i =
            λ j.
              by_keys same_value config x name partition j e
              ∙ item_keys_match-eq same_value config x name partition sort j i e
                  (keeps seed i e (x ∷ name) a made (inl partition) has_partition
                    ∙ sym has_partition)
                  (λ key q.
                    keeps seed i e key (of_sort key q).0 made (inr q) (of_sort key q).1
                    ∙ sym ((of_sort key q).1))
              ∙ sym (by_keys same_value config x name partition j i) in
          (
            All-positions originals (λ m y h j q.
                let (b, has_b) = identified.has_keys m y j h q (x ∷ name) (inl partition) in
                let (r, compared) =
                  item_keys_match-compares same_value config x name partition sort j i has_b
                    has_partition
                    (λ key s.
                      let (c, has_c) = identified.has_keys m y j h q key (inr s) in
                      (c, (of_sort key s).0, has_c, (of_sort key s).1)) in
                let answer = same j ∙ by_keys same_value config x name partition j i ∙ compared in
                (
                  r,
                  answer,
                  λ is_true.
                      identified.distinct n m o y i j g h p q
                        (sym (same j) ∙ answer ∙ ap ok is_true),
                )),
            same i
                ∙ by_keys same_value config x name partition i i
                ∙ item_keys_match-same same_value config x name partition reflexive sort i
                    has_partition of_sort,
          )

      revert_operation-encrypt_request :
          (n : ℕ) (o f : WriteRequest) (seed : ℕ)
          → get_elem? originals n ≡ some o
          → encrypt_request encrypt_method seed config o ≡ ok f
          → revert_operation same_value config originals f ≡ ok o
      unfolding encrypt_request revert_operation
      revert_operation-encrypt_request n o f seed g h = by_put o.put_request refl h
        where
          by_put :
              (r : Option Item)
              → o.put_request ≡ r
              → (elim r as (λ z. Result WriteRequest) [
                | none ↦ ok o
                | some item ↦ do
                  encrypted ← encrypt_value encrypt_method seed config item
                  ok (record o { put_request = some encrypted })
              ])
                ≡ ok f
              → revert_operation same_value config originals f ≡ ok o
          by_put none p q =
              ap (revert_operation same_value config originals) (sym (ok-injective q))
              ∙ revert_operation-none originals o p
          by_put (some i) p q =
              let (e, made, r) = >>=-eq-ok (encrypt_value encrypt_method seed config i) _ q in
              let (tells, matches) = Tells-original n o i e seed g p made in
              rw (← ok-injective r)
                (rw (find_original-here same_value config o e originals n i p matches tells g))

      encrypt_requests-positions :
          (seed : ℕ) (os fs : List WriteRequest) (n : ℕ) (f : WriteRequest)
          → encrypt_requests encrypt_method seed config os ≡ ok fs
          → get_elem? fs n ≡ some f
          → (o : WriteRequest) × (used : ℕ) × (get_elem? os n ≡ some o)
            × (encrypt_request encrypt_method used config o ≡ ok f)
      unfolding encrypt_requests
      encrypt_requests-positions seed [] fs n f h g =
          absurd (none-ne-some (ap (λ z. get_elem? z n) (ok-injective h) ∙ g))
      encrypt_requests-positions seed (o ∷ os) fs n f h g =
          let (first, made, h₁) = >>=-eq-ok (encrypt_request encrypt_method seed config o) _ h in
          let (rest, others, h₂) =
            >>=-eq-ok (encrypt_requests encrypt_method (suc seed) config os) _ h₁ in
          at_position first rest made others n (ap (λ z. get_elem? z n) (ok-injective h₂) ∙ g)
            (λ m. encrypt_requests-positions (suc seed) os rest m f others)
        where
          at_position :
              (first : WriteRequest) (rest : List WriteRequest)
              → encrypt_request encrypt_method seed config o ≡ ok first
              → encrypt_requests encrypt_method (suc seed) config os ≡ ok rest
              → (m : ℕ) → get_elem? (first ∷ rest) m ≡ some f
              → ((k : ℕ)
                  → get_elem? rest k ≡ some f
                  → (y : WriteRequest) × (used : ℕ) × (get_elem? os k ≡ some y)
                    × (encrypt_request encrypt_method used config y ≡ ok f))
              → (y : WriteRequest) × (used : ℕ) × (get_elem? (o ∷ os) m ≡ some y)
                × (encrypt_request encrypt_method used config y ≡ ok f)
          at_position first rest made others zero q again =
              (o, seed, refl, made ∙ ap ok (some-injective q))
          at_position first rest made others (suc m) q again = again m q

      pub revert_operations-encrypt_requests :
          (seed : ℕ) (encrypted unprocessed : List WriteRequest) (positions : List ℕ)
          → encrypt_requests encrypt_method seed config originals ≡ ok encrypted
          → pick encrypted positions ≡ some unprocessed
          → (plain : List WriteRequest) × (pick originals positions ≡ some plain)
            × (revert_operations same_value config originals unprocessed ≡ ok plain)
      unfolding pick revert_operations
      revert_operations-encrypt_requests seed encrypted unprocessed [] h g =
          ([], refl, ap (revert_operations same_value config originals) (sym (some-injective g)))
      revert_operations-encrypt_requests seed encrypted unprocessed (n ∷ positions) h g =
          let (f, rest, at_n, others, is_list) = pick-cons encrypted n positions g in
          let (o, used, from_n, made) =
            encrypt_requests-positions seed originals encrypted n f h at_n in
          let (plain, picked, reverted) =
            revert_operations-encrypt_requests seed encrypted rest positions h others in
          (
            o ∷ plain,
            pick_cons originals n positions from_n picked,
            ap (revert_operations same_value config originals) (sym is_list)
                ∙ revert_operations_cons originals f o rest plain
                    (revert_operation-encrypt_request n o f used from_n made) reverted,
          )
