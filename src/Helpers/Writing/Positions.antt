-- ===== src/Helpers/Writing/Positions.antt =====
-- The elements of a list at some positions.
use aws_dynamodb_encryption.Prelude.{
  ℕ, zero, suc, Option, none, some, List, [], ◌∷◌, All, get_elem?, ◌≡◌, refl, some-injective,
}

-- The elements at some positions.
unfoldable pub pick {ℓ} : {A : Type ℓ} → List A → List ℕ → Option (List A)
pick xs [] = some []
pick xs (n ∷ ns) = elim (get_elem? xs n) [
  | none ↦ none
  | some x ↦ elim (pick xs ns) [ none ↦ none | some rest ↦ some (x ∷ rest) ]
]

pub pick-cons {ℓ} :
    {A : Type ℓ} (xs : List A) (n : ℕ) (ns : List ℕ) {picked : List A}
    → pick xs (n ∷ ns) ≡ some picked
    → (x : A) × (rest : List A) × (get_elem? xs n ≡ some x)
      × (pick xs ns ≡ some rest)
      × (x ∷ rest ≡ picked)
unfolding pick
pick-cons {A = A} xs n ns {picked = picked} h =
    at_position (get_elem? xs n) (pick xs ns) refl refl h
  where
    at_position :
        (o : Option A) (r : Option (List A))
        → get_elem? xs n ≡ o
        → pick xs ns ≡ r
        → (elim o as (λ z. Option (List A)) [
          | none ↦ none
          | some x ↦ elim r as (λ z. Option (List A)) [ none ↦ none | some rest ↦ some (x ∷ rest) ]
        ])
          ≡ some picked
        → (x : A) × (rest : List A) × (get_elem? xs n ≡ some x)
          × (pick xs ns ≡ some rest)
          × (x ∷ rest ≡ picked)
    at_position (some x) (some rest) g q e = (x, rest, g, q, some-injective e)
    at_position (some x) none g q e = absurd (cc)
    at_position none r g q e = absurd (cc)

pub pick_cons {ℓ} :
    {A : Type ℓ} (xs : List A) (n : ℕ) (ns : List ℕ) {x : A} {rest : List A}
    → get_elem? xs n ≡ some x
    → pick xs ns ≡ some rest
    → pick xs (n ∷ ns) ≡ some (x ∷ rest)
unfolding pick
pick_cons xs n ns h g = rw (h, g, pick)

pub none-ne-some {ℓ} : {A : Type ℓ} {a : A} → none ≡ some a → ⊥
none-ne-some h = absurd (cc)

pub All-positions {ℓ κ} :
    {A : Type ℓ} {P : A → Type κ} (xs : List A)
    → ((n : ℕ) (x : A) → get_elem? xs n ≡ some x → P x)
    → All P xs
All-positions [] h = tt
All-positions (x ∷ xs) h = (h zero x refl, All-positions xs (λ n y g. h (suc n) y g))
