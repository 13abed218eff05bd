-- ===== src/Helpers/Writing/Matching.antt =====
-- The search for the request that an encrypted item comes from.
use aws_dynamodb_encryption.Prelude.{
  ℕ, zero, suc, Text, Bool, true, false, Option, none, some, List, [], ◌∷◌, All, get_elem?, ◌≡◌,
  ◌∙◌, ap, sym, refl, some-injective, if◌then◌else◌, true-ne-false,
}
use aws_dynamodb_encryption.Result.{Result, ok, ◌>>=◌, ok-injective}
use aws_dynamodb_encryption.Dict.{get}
use aws_dynamodb_encryption.Formatting.Attribute.{Attribute, Item}
use aws_dynamodb_encryption.Encrypted.CryptoConfig.{CryptoConfig}
use aws_dynamodb_encryption.Helpers.Writing.{
  WriteRequest, Equality, same_key, item_keys_match, items_match, find_original,
}
use aws_dynamodb_encryption.Helpers.Writing.Positions.{none-ne-some}

module _ (same_value : Equality) (config : CryptoConfig) where
  -- What a request says of whether its item matches that of `x`, once encrypted: only `x` does.
  abbrev pub Tells : WriteRequest → Item → WriteRequest → Type 0
  Tells x e y =
      (j : Item)
      → y.put_request ≡ some j
      → (b : Bool) × (items_match same_value config j e ≡ ok b) × (b ≡ true → y ≡ x)

  pub find_original-here :
      (x : WriteRequest) (e : Item) (os : List WriteRequest) (n : ℕ) (i : Item)
      → x.put_request ≡ some i
      → items_match same_value config i e ≡ ok true
      → All (Tells x e) os
      → get_elem? os n ≡ some x
      → find_original same_value config os e ≡ ok (some x)
  unfolding find_original
  find_original-here x e [] n i p m tells g = cc
  find_original-here x e (y ∷ os) n i p m tells g =
      by_put y.put_request refl n g (λ k. find_original-here x e os k i p m tells.1)
    where
      by_answer :
          (j : Item) (b : Bool) (k : ℕ)
          → y.put_request ≡ some j
          → items_match same_value config j e ≡ ok b
          → (b ≡ true → y ≡ x)
          → get_elem? (y ∷ os) k ≡ some x
          → ((l : ℕ) → get_elem? os l ≡ some x → find_original same_value config os e ≡ ok (some x))
          → (elim b as (λ z. Result (Option WriteRequest)) [
            | true ↦ ok (some y)
            | false ↦ find_original same_value config os e
          ])
            ≡ ok (some x)
      by_answer j true k q a only h again = ap (λ z. ok (some z)) (only refl)
      by_answer j false zero q a only h again =
          let same : i ≡ j =
            some-injective
              (sym p ∙ ap (λ (z : WriteRequest). z.put_request) (sym (some-injective h)) ∙ q) in
          absurd (
            true-ne-false refl
              (ok-injective (sym m ∙ ap (λ z. items_match same_value config z e) same ∙ a)))
      by_answer j false (suc k) q a only h again = again k h

      by_put :
          (o : Option Item)
          → y.put_request ≡ o
          → (k : ℕ) → get_elem? (y ∷ os) k ≡ some x
          → ((l : ℕ) → get_elem? os l ≡ some x → find_original same_value config os e ≡ ok (some x))
          → (elim o as (λ z. Result (Option WriteRequest)) [
            | none ↦ find_original same_value config os e
            | some plaintext_item ↦ do
              found ← items_match same_value config plaintext_item e
              elim found [ true ↦ ok (some y) | false ↦ find_original same_value config os e ]
          ])
            ≡ ok (some x)
      by_put none q zero h again =
          absurd
            (none-ne-some (sym q ∙ ap (λ (z : WriteRequest). z.put_request) (some-injective h) ∙ p))
      by_put none q (suc k) h again = again k h
      by_put (some j) q k h again =
          let (b, a, only) = tells.0 j q in rw a (by_answer j b k q a only h again)

  module _ (x : ℕ) (name : Text)
      (partition : config.encryption_context.partition_key_name ≡ some (x ∷ name)) where
    pub by_keys :
        (i j : Item)
        → items_match same_value config i j
          ≡ item_keys_match same_value (x ∷ name) config.encryption_context.sort_key_name i j
    unfolding items_match
    by_keys i j = rw (partition, items_match)

    same_key-compares :
        (key : Text) (i j : Item) {a b : Attribute}
        → get key i ≡ some a
        → get key j ≡ some b
        → same_key same_value key i j ≡ ok (same_value a b)
    unfolding same_key
    same_key-compares key i j h g = rw (h, g)

    -- Two items with the keys are compared.
    pub item_keys_match-compares :
        (sort : Option Text) (i j : Item) {a b : Attribute}
        → get (x ∷ name) i ≡ some a
        → get (x ∷ name) j ≡ some b
        → ((key : Text)
            → sort ≡ some key
            → (c : Attribute) × (d : Attribute) × (get key i ≡ some c) × (get key j ≡ some d))
        → (r : Bool) × (item_keys_match same_value (x ∷ name) sort i j ≡ ok r)
    unfolding item_keys_match
    item_keys_match-compares none i j {a} {b} h g s =
        (same_value a b, same_key-compares (x ∷ name) i j h g)
    item_keys_match-compares (some key) i j {a} {b} h g s =
        let (c, d, h', g') = s key refl in
        (
          if same_value a b then same_value c d else false,
          rw (same_key-compares (x ∷ name) i j h g)
              (by_first (same_value a b) (same_key-compares key i j h' g')),
        )
      where
        by_first :
            (r : Bool) {c d : Attribute}
            → same_key same_value key i j ≡ ok (same_value c d)
            → (if r then same_key same_value key i j else ok false)
              ≡ ok (if r then same_value c d else false)
        by_first true e = e
        by_first false e = refl

    pub item_keys_match-eq :
        (sort : Option Text) (j i e : Item)
        → get (x ∷ name) e ≡ get (x ∷ name) i
        → ((key : Text) → sort ≡ some key → get key e ≡ get key i)
        → item_keys_match same_value (x ∷ name) sort j e
          ≡ item_keys_match same_value (x ∷ name) sort j i
    unfolding item_keys_match same_key
    item_keys_match-eq none j i e h s = rw h
    item_keys_match-eq (some key) j i e h s = rw (h, s key refl)

    pub item_keys_match-same :
        (reflexive : (a : Attribute) → same_value a a ≡ true) (sort : Option Text) (i : Item)
        {a : Attribute}
        → get (x ∷ name) i ≡ some a
        → ((key : Text) → sort ≡ some key → (c : Attribute) × (get key i ≡ some c))
        → item_keys_match same_value (x ∷ name) sort i i ≡ ok true
    unfolding item_keys_match
    item_keys_match-same reflexive none i {a} h s =
        same_key-compares (x ∷ name) i i h h ∙ ap ok (reflexive a)
    item_keys_match-same reflexive (some key) i {a} h s =
        let (c, g) = s key refl in
        rw (
          same_key-compares (x ∷ name) i i h h,
          reflexive a,
          same_key-compares key i i g g,
          reflexive c,
        )
