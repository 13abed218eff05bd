-- ===== src/Dict.antt =====
-- Python's `dict` with text keys, as an association list in the order of insertion.
pub mod Sorted
use aws_dynamodb_encryption.Prelude.{
  Text, text_eq, text_eq_iff, text_eq_refl, ◌≡◌, refl, Bool, true, false, Option, none, some, List,
  [], ◌∷◌, ◌++◌, map, arith, if◌then◌else◌, All, ◌&&◌, not, is_some,
}

abbrev pub Dict {ℓ} : Type ℓ → Type ℓ
Dict V = List (Text × V)

module _ {ℓ} {V : Type ℓ} where
  -- d.get(k)
  unfoldable pub get : Text → Dict V → Option V
  get k [] = none
  get k ((j, v) ∷ d) = if text_eq j k then some v else get k d

  -- k in d
  abbrev pub contains : Text → Dict V → Bool
  contains k d = is_some (get k d)

  -- d[k] = v: a key that is there keeps its place
  unfoldable pub put : Text → V → Dict V → Dict V
  put k v [] = (k, v) ∷ []
  put k v ((j, w) ∷ d) = if text_eq j k then (j, v) ∷ d else (j, w) ∷ put k v d

  -- del d[k], d.pop(k)
  unfoldable pub remove : Text → Dict V → Dict V
  remove k [] = []
  remove k ((j, v) ∷ d) = if text_eq j k then d else (j, v) ∷ remove k d

  -- d.keys()
  abbrev pub keys : Dict V → List Text
  keys [] = []
  keys ((k, v) ∷ d) = k ∷ keys d

  -- No two entries have one key, which every dict meets.
  abbrev pub IsDict : Dict V → Type ℓ
  IsDict [] = Unit
  IsDict ((k, v) ∷ d) = (get k d ≡ none) × IsDict d

  pub get-put :
      (k j : Text) (v : V) (d : Dict V)
      → get j (put k v d) ≡ (if text_eq k j then some v else get j d)
  unfolding get put
  get-put k j v [] = refl
  get-put k j v ((i, w) ∷ d) =
      ground (arith, text_eq_iff k j, text_eq_iff i k, text_eq_iff i j, get-put k j v d)

  pub get-put_self : (k : Text) (v : V) (d : Dict V) → get k (put k v d) ≡ some v
  get-put_self k v d = ground (arith, get-put k k v d, text_eq_refl k)

  pub put-IsDict : (k : Text) (v : V) (d : Dict V) → IsDict d → IsDict (put k v d)
  unfolding put get
  put-IsDict k v [] h = (refl, tt)
  put-IsDict k v ((j, w) ∷ d) h =
      ground (arith, text_eq_iff j k, text_eq_iff k j, get-put k j v d, put-IsDict k v d)

  pub get-remove :
      (k j : Text) (d : Dict V)
      → IsDict d
      → get j (remove k d) ≡ (if text_eq k j then none else get j d)
  unfolding get remove
  get-remove k j [] h = ground arith
  get-remove k j ((i, w) ∷ d) h =
      ground (arith, text_eq_iff k j, text_eq_iff i k, text_eq_iff i j, get-remove k j d)

  pub get-nil-ne-some : (k : Text) {v : V} → get k [] ≡ some v → ⊥
  unfolding get
  get-nil-ne-some k h = absurd (ground arith)

  pub get_here :
      (k j : Text) (v : V) (d : Dict V) → text_eq j k ≡ true → get k ((j, v) ∷ d) ≡ some v
  unfolding get
  get_here k j v d h = ground arith

  pub get_there :
      (k j : Text) (v : V) (d : Dict V) → text_eq j k ≡ false → get k ((j, v) ∷ d) ≡ get k d
  unfolding get
  get_there k j v d h = ground arith

  -- A key with a value differs from one that has none.
  pub text_eq-get :
      (k j : Text) (d : Dict V) {v : V} → get k d ≡ none → get j d ≡ some v → text_eq k j ≡ false
  text_eq-get k j d h g = ground (arith, text_eq_iff k j)

  -- A new key goes to the end.
  pub put_new : (k : Text) (v : V) (d : Dict V) → get k d ≡ none → put k v d ≡ d ++ (k, v) ∷ []
  unfolding get put
  put_new k v [] h = refl
  put_new k v ((j, w) ∷ d) h = ground (arith, put_new k v d)

  pub get-append :
      (k : Text) (d e : Dict V)
      → get k (d ++ e) ≡ elim (get k d) [ none ↦ get k e | some v ↦ some v ]
  unfolding get
  get-append k [] e = refl
  get-append k ((j, w) ∷ d) e = ground (arith, get-append k d e)

  -- Removing a key that was just put at the end.
  pub remove-put_new : (k : Text) (v : V) (d : Dict V) → get k d ≡ none → remove k (put k v d) ≡ d
  unfolding get put remove
  remove-put_new k v [] h = ground (arith, text_eq_refl k)
  remove-put_new k v ((j, w) ∷ d) h = ground (arith, remove-put_new k v d)

  -- The last two keys that were put, with the first of them removed.
  pub remove-put-put :
      (k j : Text) (v w : V) (d : Dict V)
      → get k d ≡ none
      → get j d ≡ none
      → text_eq j k ≡ false
      → text_eq k j ≡ false
      → remove k (put j v (put k w d)) ≡ put j v d
  unfolding get put remove
  remove-put-put k j v w [] h g p q = ground (arith, text_eq_refl k)
  remove-put-put k j v w ((i, u) ∷ d) h g p q = ground (arith, remove-put-put k j v w d)

not-is_some {ℓ} : {A : Type ℓ} (o : Option A) → not (is_some o) ≡ true → o ≡ none
not-is_some none h = refl
not-is_some (some a) h = cc

pub not-contains {ℓ} :
    {V : Type ℓ} (k : Text) (d : Dict V) → not (contains k d) ≡ true → get k d ≡ none
not-contains k d = not-is_some (get k d)

-- d[k] = v for each entry of another dict, in order
unfoldable pub put_all {ℓ} : {V : Type ℓ} → Dict V → Dict V → Dict V
put_all d [] = d
put_all d ((k, v) ∷ e) = put_all (put k v d) e

pub put_all-IsDict {ℓ} : {V : Type ℓ} (d e : Dict V) → IsDict d → IsDict (put_all d e)
unfolding put_all
put_all-IsDict d [] h = h
put_all-IsDict d ((k, v) ∷ e) h = put_all-IsDict (put k v d) e (put-IsDict k v d h)

-- d.get(k, default)
unfoldable pub get_or {ℓ} : {V : Type ℓ} → V → Text → Dict V → V
get_or default k d = elim (get k d) [ none ↦ default | some v ↦ v ]

pub get_or-eq {ℓ} :
    {V : Type ℓ} (default : V) (k : Text) (d e : Dict V)
    → get k d ≡ get k e
    → get_or default k d ≡ get_or default k e
unfolding get_or
get_or-eq default k d e h = rw (h, get_or)

pub get_or-some {ℓ} :
    {V : Type ℓ} (default : V) (k : Text) (d : Dict V) {v : V}
    → get k d ≡ some v
    → get_or default k d ≡ v
unfolding get_or
get_or-some default k d h = rw (h, get_or)
