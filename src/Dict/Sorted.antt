-- ===== src/Dict/Sorted.antt =====
-- A dict that is rebuilt from its sorted entries has the same entries.
use aws_dynamodb_encryption.Prelude.{
  Text, text_eq, text_eq_iff, ◌≡◌, ◌∙◌, refl, Option, none, some, [], ◌∷◌, arith, if◌then◌else◌,
  Bool-cases, inl, inr,
}
use aws_dynamodb_encryption.Sorting.{text_le, insert_by, sort_by}
use aws_dynamodb_encryption.Dict.{Dict, get, put, IsDict, get-put, put_all}

module _ {ℓ} {V : Type ℓ} where
  abbrev pub or_else : Option V → Option V → Option V
  or_else (some v) o = some v
  or_else none o = o

  pub get-put_all :
      (k : Text) (d e : Dict V) → IsDict e → get k (put_all d e) ≡ or_else (get k e) (get k d)
  unfolding get put_all
  get-put_all k d [] h = refl
  get-put_all k d ((j, v) ∷ e) h =
      ground (arith, get-put_all k (put j v d) e, get-put j k v d, text_eq_iff j k)

  module _ (key : Text × V → Text) where
    get-insert_by :
        (k j : Text) (v : V) (d : Dict V)
        → get j d ≡ none
        → get k (insert_by key (j, v) d) ≡ (if text_eq j k then some v else get k d)
    unfolding get insert_by
    get-insert_by k j v [] h = refl
    get-insert_by k j v ((i, w) ∷ d) h =
        ground (arith, get-insert_by k j v d, text_eq_iff i k, text_eq_iff j k, text_eq_iff i j)

    insert_by-IsDict :
        (j : Text) (v : V) (d : Dict V)
        → get j d ≡ none
        → IsDict d
        → IsDict (insert_by key (j, v) d)
    unfolding get insert_by
    insert_by-IsDict j v [] h g = (refl, tt)
    insert_by-IsDict j v ((i, w) ∷ d) h g = elim (Bool-cases (text_le (key (j, v)) (key (i, w)))) [
      | inl le ↦ rw le (h, g)
      | inr gt ↦ rw gt (
        ground (arith, get-insert_by i j v d, text_eq_iff i j, text_eq_iff j i),
        insert_by-IsDict j v d (ground arith) (g.1),
      )
    ]

    get-sort_by : (k : Text) (d : Dict V) → IsDict d → get k (sort_by key d) ≡ get k d
    unfolding get sort_by
    get-sort_by k [] g = refl
    get-sort_by k ((j, v) ∷ d) g =
        ground (arith, get-insert_by k j v (sort_by key d), get-sort_by k d, get-sort_by j d)

    sort_by-IsDict : (d : Dict V) → IsDict d → IsDict (sort_by key d)
    unfolding sort_by
    sort_by-IsDict [] g = tt
    sort_by-IsDict ((j, v) ∷ d) g =
        insert_by-IsDict j v (sort_by key d) (get-sort_by j d (g.1) ∙ g.0) (sort_by-IsDict d (g.1))

    -- The order in which the entries were written is forgotten.
    pub get-rebuilt :
        (k : Text) (d : Dict V) → IsDict d → get k (put_all [] (sort_by key d)) ≡ get k d
    unfolding get
    get-rebuilt k d g =
        ground (arith, get-put_all k [] (sort_by key d) (sort_by-IsDict d g), get-sort_by k d g)
