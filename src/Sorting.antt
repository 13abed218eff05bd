-- ===== src/Sorting.antt =====
-- Python's `sorted`: the lexicographic order of bytes and texts, and a stable sort by it.
use aws_dynamodb_encryption.Prelude.{
  Text, ◌≡◌, ◌∙◌, length, suc, refl, ap, Bool, true, false, List, [], ◌∷◌, map, arith,
  if◌then◌else◌, ltb, All, inl, inr, Bool-cases,
}

-- a <= b
unfoldable pub text_le : Text → Text → Bool
text_le [] ys = true
text_le (x ∷ xs) [] = false
text_le (x ∷ xs) (y ∷ ys) = if ltb x y then true else if ltb y x then false else text_le xs ys

-- sorted(xs, key=key)
module _ {ℓ} {A : Type ℓ} (key : A → Text) where
  unfoldable pub insert_by : A → List A → List A
  insert_by x [] = x ∷ []
  insert_by x (y ∷ ys) = if text_le (key x) (key y) then x ∷ y ∷ ys else y ∷ insert_by x ys

  unfoldable pub sort_by : List A → List A
  sort_by [] = []
  sort_by (x ∷ xs) = insert_by x (sort_by xs)

module _ {ℓ κ} {A : Type ℓ} (P : A → Type κ) (key : A → Text) where
  insert_by-All : (x : A) (xs : List A) → P x → All P xs → All P (insert_by key x xs)
  unfolding insert_by
  insert_by-All x [] p h = (p, tt)
  insert_by-All x (y ∷ ys) p h = elim (Bool-cases (text_le (key x) (key y))) [
    | inl le ↦ rw le (p, h)
    | inr gt ↦ rw gt (h.0, insert_by-All x ys p h.1)
  ]

  -- What holds of every entry holds of every sorted entry.
  pub sort_by-All : (xs : List A) → All P xs → All P (sort_by key xs)
  unfolding sort_by
  sort_by-All [] h = tt
  sort_by-All (x ∷ xs) h = insert_by-All x (sort_by key xs) h.0 (sort_by-All xs h.1)

-- Sorting commutes with a map that keeps the keys.
module _ {ℓ κ} {A : Type ℓ} {B : Type κ} (f : A → B) (key : B → Text) where
  insert_by-map :
      (x : A) (xs : List A)
      → insert_by key (f x) (map f xs) ≡ map f (insert_by (λ a. key (f a)) x xs)
  unfolding insert_by
  insert_by-map x [] = refl
  insert_by-map x (y ∷ ys) = elim (Bool-cases (text_le (key (f x)) (key (f y)))) [
    | inl le ↦ rw le
    | inr gt ↦ rw gt (ap (λ l. f y ∷ l) (insert_by-map x ys))
  ]

  pub sort_by-map : (xs : List A) → sort_by key (map f xs) ≡ map f (sort_by (λ a. key (f a)) xs)
  unfolding sort_by
  sort_by-map [] = refl
  sort_by-map (x ∷ xs) = rw (sort_by-map xs) (insert_by-map x (sort_by (λ a. key (f a)) xs))

-- The order is total and antisymmetric, so that the order of insertion does not show.
text_le_total : (a b : Text) → text_le a b ≡ false → text_le b a ≡ true
unfolding text_le
text_le_total [] b h = cc
text_le_total (x ∷ xs) [] h = refl
text_le_total (x ∷ xs) (y ∷ ys) h = ground (arith, text_le_total xs ys)

text_le_antisym : (a b : Text) → text_le a b ≡ true → text_le b a ≡ true → a ≡ b
unfolding text_le
text_le_antisym [] [] h k = refl
text_le_antisym [] (y ∷ ys) h k = cc
text_le_antisym (x ∷ xs) [] h k = cc
text_le_antisym (x ∷ xs) (y ∷ ys) h k = ground (arith, text_le_antisym xs ys)

text_le_trans : (a b c : Text) → text_le a b ≡ true → text_le b c ≡ true → text_le a c ≡ true
unfolding text_le
text_le_trans [] b c h k = refl
text_le_trans (x ∷ xs) [] c h k = cc
text_le_trans (x ∷ xs) (y ∷ ys) [] h k = cc
text_le_trans (x ∷ xs) (y ∷ ys) (z ∷ zs) h k = ground (arith, text_le_trans xs ys zs)

module _ {ℓ} {A : Type ℓ} (key : A → Text) where
  -- Where entries with one key are one entry, the order of two insertions does not matter.
  insert_by_comm :
      ((x y : A) → key x ≡ key y → x ≡ y)
      → (x y : A) (l : List A)
      → insert_by key x (insert_by key y l) ≡ insert_by key y (insert_by key x l)
  unfolding insert_by
  insert_by_comm inj x y [] = ground (
    arith,
    inj x y,
    text_le_total (key x) (key y),
    text_le_total (key y) (key x),
    text_le_antisym (key x) (key y),
  )
  insert_by_comm inj x y (z ∷ l) = ground (
    arith,
    inj x y,
    text_le_total (key x) (key y),
    text_le_total (key y) (key x),
    text_le_antisym (key x) (key y),
    text_le_trans (key x) (key y) (key z),
    text_le_trans (key y) (key x) (key z),
    insert_by_comm inj x y l,
  )

module _ {ℓ} {A : Type ℓ} where
  pub length-insert_by :
      (key : A → Text) (x : A) (l : List A) → length (insert_by key x l) ≡ suc (length l)
  unfolding insert_by
  length-insert_by key x [] = refl
  length-insert_by key x (y ∷ l) = ground (arith, length-insert_by key x l)

  pub length-sort_by : (key : A → Text) (l : List A) → length (sort_by key l) ≡ length l
  unfolding sort_by
  length-sort_by key [] = refl
  length-sort_by key (x ∷ l) =
      length-insert_by key x (sort_by key l) ∙ ap suc (length-sort_by key l)

-- sorted(xs)
abbrev pub sort : List Text → List Text
sort = sort_by (λ t. t)

module _ {ℓ} {A : Type ℓ} (key h : A → Text) where
  sort-map-insert_by :
      (x : A) (l : List A)
      → sort (map h (insert_by key x l)) ≡ insert_by (λ t. t) (h x) (sort (map h l))
  unfolding insert_by sort_by
  sort-map-insert_by x [] = refl
  sort-map-insert_by x (y ∷ l) = elim (Bool-cases (text_le (key x) (key y))) [
    | inl le ↦ rw le
    | inr gt ↦ rw gt (
        rw (sort-map-insert_by x l)
          (insert_by_comm (λ t. t) (λ a b e. e) (h y) (h x) (sort (map h l))))
  ]

  -- An earlier sort, by any key, is forgotten by the sort of what it is mapped to.
  pub sort-map-sort_by : (l : List A) → sort (map h (sort_by key l)) ≡ sort (map h l)
  unfolding sort_by
  sort-map-sort_by [] = refl
  sort-map-sort_by (x ∷ l) =
      sort-map-insert_by x (sort_by key l) ∙ ap (insert_by (λ t. t) (h x)) (sort-map-sort_by l)
