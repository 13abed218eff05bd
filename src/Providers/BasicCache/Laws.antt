-- ===== src/Providers/BasicCache/Laws.antt =====
-- The cache holds each name once and never more entries than its capacity, a value that was put is
-- found, and a look at one entry changes what is found of none.
use aws_dynamodb_encryption.Prelude.{
  ℕ, suc, ◌≤◌, true, Option, none, some, List, [], ◌∷◌, if◌then◌else◌, length, ◌≡◌, refl, subst,
  arith, Option-cases, inl, inr, ◌↔◌,
}
use aws_dynamodb_encryption.Providers.BasicCache.{
  BasicCache, Name, name_eq, lookup, assign, delete, prune, put, get, evict,
}

pub name_eq_iff : (a b : Name) → (name_eq a b ≡ true) ↔ (a ≡ b)
unfolding name_eq
name_eq_iff a b = (λ h. ground arith, λ h. ground arith)

module _ {ℓ} {V : Type ℓ} where
  abbrev pub IsDistinct : List (Name × V) → Type ℓ
  IsDistinct [] = Unit
  IsDistinct ((k, v) ∷ l) = (lookup k l ≡ none) × IsDistinct l

  lookup-assign :
      (k j : Name) (v : V) (l : List (Name × V))
      → lookup j (assign k v l) ≡ (if name_eq k j then some v else lookup j l)
  unfolding lookup assign
  lookup-assign k j v [] = refl
  lookup-assign k j v ((i, w) ∷ l) =
      ground (arith, name_eq_iff k j, name_eq_iff i k, name_eq_iff i j, lookup-assign k j v l)

  lookup-delete :
      (k j : Name) (l : List (Name × V))
      → IsDistinct l
      → lookup j (delete k l) ≡ (if name_eq k j then none else lookup j l)
  unfolding lookup delete
  lookup-delete k j [] h = ground arith
  lookup-delete k j ((i, w) ∷ l) h =
      ground (arith, name_eq_iff k j, name_eq_iff i k, name_eq_iff i j, lookup-delete k j l)

  assign-IsDistinct :
      (k : Name) (v : V) (l : List (Name × V)) → IsDistinct l → IsDistinct (assign k v l)
  unfolding lookup assign
  assign-IsDistinct k v [] h = (refl, tt)
  assign-IsDistinct k v ((i, w) ∷ l) h =
      ground
        (arith, name_eq_iff i k, name_eq_iff k i, lookup-assign k i v l, assign-IsDistinct k v l)

  delete-IsDistinct : (k : Name) (l : List (Name × V)) → IsDistinct l → IsDistinct (delete k l)
  unfolding lookup delete
  delete-IsDistinct k [] h = tt
  delete-IsDistinct k ((i, w) ∷ l) h =
      ground (arith, lookup-delete k i l (h.1), delete-IsDistinct k l)

  length-delete : (k : Name) (l : List (Name × V)) → length (delete k l) ≤ length l
  unfolding delete
  length-delete k [] = omega arith
  length-delete k ((i, w) ∷ l) = ground (arith, length-delete k l)

  length-delete_found :
      (k : Name) (l : List (Name × V)) (v : V)
      → lookup k l ≡ some v
      → suc (length (delete k l)) ≡ length l
  unfolding delete lookup
  length-delete_found k [] v h = absurd (ground arith)
  length-delete_found k ((i, w) ∷ l) v h = ground (arith, length-delete_found k l v)

  length-assign_new :
      (k : Name) (v : V) (l : List (Name × V))
      → lookup k l ≡ none
      → length (assign k v l) ≡ suc (length l)
  unfolding assign lookup
  length-assign_new k v [] h = refl
  length-assign_new k v ((i, w) ∷ l) h = ground (arith, length-assign_new k v l)

  length-assign_found :
      (k : Name) (v : V) (l : List (Name × V)) (w : V)
      → lookup k l ≡ some w
      → length (assign k v l) ≡ length l
  unfolding assign lookup
  length-assign_found k v [] w h = absurd (ground arith)
  length-assign_found k v ((i, x) ∷ l) w h = ground (arith, length-assign_found k v l w)

  length-prune : (n : ℕ) (l : List (Name × V)) → length (prune n l) ≤ n
  unfolding prune
  length-prune n [] = omega arith
  length-prune n (e ∷ l) = ground (arith, length-prune n l)

  prune_short : (n : ℕ) (l : List (Name × V)) → length l ≤ n → prune n l ≡ l
  unfolding prune
  prune_short n [] h = refl
  prune_short n (e ∷ l) h = ground arith

  prune-IsDistinct : (n : ℕ) (l : List (Name × V)) → IsDistinct l → IsDistinct (prune n l)
  unfolding prune
  prune-IsDistinct n [] h = tt
  prune-IsDistinct n ((k, v) ∷ l) h = ground (arith, prune-IsDistinct n l)

  -- What was assigned last survives.
  lookup-prune-assign_new :
      (n : ℕ) (k : Name) (v : V) (l : List (Name × V))
      → 1 ≤ n
      → lookup k l ≡ none
      → lookup k (prune n (assign k v l)) ≡ some v
  unfolding prune assign lookup
  lookup-prune-assign_new n k v [] le h = ground (arith, name_eq_iff k k)
  lookup-prune-assign_new n k v ((i, w) ∷ l) le h =
      ground (arith, lookup-prune-assign_new n k v l, lookup-assign k k v l, name_eq_iff k k)

  pub record IsValid (self : BasicCache V) : Type ℓ where
    pub distinct : IsDistinct self.entries
    pub bounded : length self.entries ≤ self.capacity
    pub positive : 1 ≤ self.capacity

  -- What the cache finds under a name.
  abbrev pub found : Name → BasicCache V → Option V
  found k self = lookup k self.entries

  -- In a valid cache, full or not, a value that was just put is found under its name.
  pub found-put :
      (k : Name) (v : V) (self : BasicCache V) → IsValid self → found k (put k v self) ≡ some v
  unfolding put
  found-put k v self h = elim (Option-cases (lookup k self.entries)) [
    | inl (w, p) ↦ ground (
      arith,
      prune_short self.capacity (assign k v self.entries),
      length-assign_found k v self.entries w p,
      lookup-assign k k v self.entries,
      name_eq_iff k k,
    )
    | inr p ↦ lookup-prune-assign_new self.capacity k v self.entries h.positive p
  ]

  -- `put` keeps a cache valid: each name stands once, and there are at most `capacity` entries, which
  -- is at least one.
  pub put-IsValid : (k : Name) (v : V) (self : BasicCache V) → IsValid self → IsValid (put k v self)
  unfolding put
  put-IsValid k v self h = record {
    distinct =
        prune-IsDistinct self.capacity (assign k v self.entries)
          (assign-IsDistinct k v self.entries h.distinct);
    bounded = length-prune self.capacity (assign k v self.entries);
    positive = h.positive;
  }

  pub evict-IsValid : (k : Name) (self : BasicCache V) → IsValid self → IsValid (evict k self)
  unfolding evict
  evict-IsValid k self h = record {
    distinct = delete-IsDistinct k self.entries h.distinct;
    bounded = omega (arith, length-delete k self.entries, h.bounded);
    positive = h.positive;
  }

  pub found-evict :
      (k j : Name) (self : BasicCache V)
      → IsValid self
      → found j (evict k self) ≡ (if name_eq k j then none else found j self)
  unfolding evict
  found-evict k j self h = lookup-delete k j self.entries h.distinct

  pub get-found : (k : Name) (self : BasicCache V) → (get k self).0 ≡ found k self
  unfolding get
  get-found k self = ground arith

  -- In a valid cache `get` changes what is found under no name: moving the entry drops none.
  pub found-get :
      (k j : Name) (self : BasicCache V) → IsValid self → found j (get k self).1 ≡ found j self
  unfolding get put
  found-get k j self h = elim (Option-cases (lookup k self.entries)) [
    | inl (v, p) ↦ ground (
      arith,
      p,
      lookup-delete k k self.entries,
      lookup-delete k j self.entries,
      name_eq_iff k k,
      name_eq_iff k j,
      length-delete_found k self.entries v p,
      length-assign_new k v (delete k self.entries),
      prune_short self.capacity (assign k v (delete k self.entries)),
      lookup-assign k j v (delete k self.entries),
    )
    | inr p ↦ ground arith
  ]

  get_hit :
      (k : Name) (v : V) (self : BasicCache V)
      → lookup k self.entries ≡ some v
      → put k v (evict k self) ≡ (get k self).1
  unfolding get evict
  get_hit k v self h = ground arith

  get_miss : (k : Name) (self : BasicCache V) → lookup k self.entries ≡ none → self ≡ (get k self).1
  unfolding get
  get_miss k self h = ground arith

  -- `get`, which moves the entry it finds to the end, keeps a cache valid.
  pub get-IsValid : (k : Name) (self : BasicCache V) → IsValid self → IsValid (get k self).1
  get-IsValid k self h = elim (Option-cases (lookup k self.entries)) [
    | inl (v, p) ↦
        subst IsValid (get_hit k v self p) (put-IsValid k v (evict k self) (evict-IsValid k self h))
    | inr p ↦ subst IsValid (get_miss k self p) h
  ]
