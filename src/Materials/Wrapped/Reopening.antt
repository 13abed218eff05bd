-- ===== src/Materials/Wrapped/Reopening.antt =====
-- The content key that was prepared is found again by the description that was prepared with it.
use aws_dynamodb_encryption.Prelude.{
  ℕ, suc, Text, Bytes, true, Option, none, some, ◌≡◌, ◌∙◌, ap, sym, refl, subst, text_eq, arith,
}
use aws_dynamodb_encryption.Result.{
  ok, ◌>>=◌, >>=-eq-ok, or_raise, ok-injective, value_error, wrapping_error,
}
use aws_dynamodb_encryption.Texts.{split_once}
use aws_dynamodb_encryption.Builtins.{Builtins, IsDocumented}
use aws_dynamodb_encryption.Dict.{
  Dict, get, get_or, get_or-eq, get_or-some, put, IsDict, get-put, get-put_self, put-IsDict,
}
use aws_dynamodb_encryption.Identifiers.MaterialDescriptionKeys.{
  wrapped_data_key, content_encryption_algorithm, content_key_wrapping_algorithm,
}
use aws_dynamodb_encryption.Crypto.Materials.{DelegatedKey, WrappingKey, Decrypts, Unwraps}
use aws_dynamodb_encryption.Jce.Library.{symmetric, raw, Cryptography, IsSound}
use aws_dynamodb_encryption.Jce.LocalKey
use aws_dynamodb_encryption.Jce.LocalKey.{JceNameLocalDelegatedKey, as_delegated_key, is_symmetric}
use aws_dynamodb_encryption.Jce.LocalKey.Contracts.{content_key, new-Decrypts, new-generate}
use aws_dynamodb_encryption.Materials.Wrapped.{
  content_key_algorithm, content_key_from_material_description, content_key_length,
  generate_content_key, Arguments, prepare_content_key, wrapping_transformation,
  default_content_encryption_algorithm,
}

-- Two descriptions that give the same content key.
pub record Agree (d e : Dict Text) : Type 0 where
  pub same_key : get wrapped_data_key d ≡ get wrapped_data_key e
  pub same_algorithm : get content_encryption_algorithm d ≡ get content_encryption_algorithm e
  pub same_wrapping : get content_key_wrapping_algorithm d ≡ get content_key_wrapping_algorithm e

put-none {ℓ} :
    {V : Type ℓ} (k name : Text) (v : V) (d : Dict V)
    → get name (put k v d) ≡ none
    → get name d ≡ none
put-none k name v d h = ground (arith, get-put k name v d)

module _ (p : Builtins) where
  from_material_description-Agree :
      (u : Option WrappingKey) (d e : Dict Text) (wrapped : Text)
      → Agree d e
      → content_key_from_material_description p u d wrapped
        ≡ content_key_from_material_description p u e wrapped
  unfolding content_key_from_material_description content_key_algorithm
  from_material_description-Agree none d e wrapped a = refl
  from_material_description-Agree (some u) d e wrapped a = rw (
    get_or-eq u.algorithm content_key_wrapping_algorithm d e a.same_wrapping,
    get_or-eq default_content_encryption_algorithm content_encryption_algorithm d e
        a.same_algorithm,
  )

  module _ (l : Cryptography) (documented : IsDocumented p) (sound : IsSound l) (keys : Arguments)
      (w u : WrappingKey) (wraps : keys.wrapping_key ≡ some w)
      (unwraps : keys.unwrapping_key ≡ some u) (match : Unwraps (content_key l) w u) where
    -- The parts of a generated key.
    record Generated (seed : ℕ) (d e : Dict Text) (k : DelegatedKey) : Type 0 where
      generated : JceNameLocalDelegatedKey l
      wrapped : Bytes
      is_key : as_delegated_key l generated ≡ k
      made :
          LocalKey.new l generated.key (split_once b'/' (content_key_algorithm d)).0 symmetric raw
          ≡ ok generated
      is_wrapped :
          w.wrap
            (suc seed)
            (get_or (wrapping_transformation w.algorithm) content_key_wrapping_algorithm d)
            generated.key
          ≡ ok wrapped
      is_description :
          put content_key_wrapping_algorithm
            (get_or (wrapping_transformation w.algorithm) content_key_wrapping_algorithm d)
            (put content_encryption_algorithm
              (content_key_algorithm d)
              (put wrapped_data_key (p.b64encode wrapped) d))
          ≡ e

    generate_content_key-eq-ok :
        (seed : ℕ) (d e : Dict Text) (k : DelegatedKey)
        → is_symmetric l p (split_once b'/' (content_key_algorithm d)).0 ≡ true
        → generate_content_key p l seed (some w) d ≡ ok (k, e)
        → Generated seed d e k
    unfolding generate_content_key
    generate_content_key-eq-ok seed d e k s h =
        let algorithm = content_key_algorithm d in
        let (length, _, h₁) = >>=-eq-ok (content_key_length p (split_once b'/' algorithm).1) _ h in
        let (j, made, h₂) =
          >>=-eq-ok (LocalKey.generate l p seed (split_once b'/' algorithm).0 length) _ h₁ in
        let (x, is_x, h₃) = >>=-eq-ok (w.wrap (suc seed) _ j.key) _ h₂ in
        record {
          generated = j;
          wrapped = x;
          is_key = ap (λ (y : DelegatedKey × Dict Text). y.0) (ok-injective h₃);
          made = new-generate l p seed (split_once b'/' algorithm).0 length j s made;
          is_wrapped = is_x;
          is_description = ap (λ (y : DelegatedKey × Dict Text). y.1) (ok-injective h₃);
        }

    algorithm-found :
        (f : Dict Text) (algorithm : Text)
        → get content_encryption_algorithm f ≡ some algorithm
        → content_key_algorithm f ≡ algorithm
    unfolding content_key_algorithm
    algorithm-found f algorithm h =
        get_or-some default_content_encryption_algorithm content_encryption_algorithm f h

    unwrapped-Decrypts :
        (d : Dict Text) (wrapped : Text) (k : DelegatedKey)
        → content_key_from_material_description p (some u) d wrapped ≡ ok k
        → Decrypts k k
    unfolding content_key_from_material_description
    unwrapped-Decrypts d wrapped k h =
        let (x, _, h₁) = >>=-eq-ok (or_raise value_error (p.b64decode wrapped)) _ h in
        match.unwrap-Decrypts _ _ x k h₁

    Generated-key :
        (seed : ℕ) (d e f : Dict Text) (k : DelegatedKey) (g : Generated seed d e k)
        → Agree f e
        → (get wrapped_data_key f ≡ some (p.b64encode g.wrapped))
          × (content_key_from_material_description p (some u) f (p.b64encode g.wrapped) ≡ ok k)
    unfolding content_key_from_material_description text_eq content_key
    Generated-key seed d e f k g a =
        let algorithm = content_key_algorithm d in
        let wrapping =
          get_or (wrapping_transformation w.algorithm) content_key_wrapping_algorithm d in
        let d₁ = put wrapped_data_key (p.b64encode g.wrapped) d in
        let d₂ = put content_encryption_algorithm algorithm d₁ in
        let key : get wrapped_data_key f ≡ some (p.b64encode g.wrapped) =
          a.same_key
          ∙ ap (get wrapped_data_key) (sym g.is_description)
          ∙ get-put content_key_wrapping_algorithm wrapped_data_key wrapping d₂
          ∙ get-put content_encryption_algorithm wrapped_data_key algorithm d₁
          ∙ get-put_self wrapped_data_key (p.b64encode g.wrapped) d in
        let for_content : get content_encryption_algorithm f ≡ some algorithm =
          a.same_algorithm
          ∙ ap (get content_encryption_algorithm) (sym g.is_description)
          ∙ get-put content_key_wrapping_algorithm content_encryption_algorithm wrapping d₂
          ∙ get-put_self content_encryption_algorithm algorithm d₁ in
        let for_wrapping : get content_key_wrapping_algorithm f ≡ some wrapping =
          a.same_wrapping
          ∙ ap (get content_key_wrapping_algorithm) (sym g.is_description)
          ∙ get-put_self content_key_wrapping_algorithm wrapping d₂ in
        (
          key,
          rw
              (
                documented.b64decode-b64encode g.wrapped,
                get_or-some u.algorithm content_key_wrapping_algorithm f for_wrapping,
                algorithm-found f algorithm for_content,
                match.unwrap-wrap (suc seed) wrapping (split_once b'/' algorithm).0 g.generated.key
                    g.wrapped g.is_wrapped,
                g.made,
              )
              (ap ok g.is_key),
        )

    -- What holds of the description and is kept as names are put into it holds of the new one.
    pub prepare_content_key-holds :
        (Q : Dict Text → Type 0)
        → ((name value : Text) (x : Dict Text) → Q x → Q (put name value x))
        → (seed : ℕ) (d e : Dict Text) (k : DelegatedKey)
        → prepare_content_key p l seed keys d ≡ ok (k, e)
        → Q d
        → Q e
    unfolding prepare_content_key generate_content_key
    prepare_content_key-holds Q kept seed d e k h holds = by_description (get wrapped_data_key d) h
      where
        as_description : (z : DelegatedKey × Dict Text) → ok z ≡ ok (k, e) → Q (z.1) → Q e
        as_description z q = subst Q (ap (λ (y : DelegatedKey × Dict Text). y.1) (ok-injective q))

        by_description :
            (o : Option Text)
            → (elim o [
              | some wrapped ↦ do
                key ← content_key_from_material_description p keys.unwrapping_key d wrapped
                ok (key, d)
              | none ↦ generate_content_key p l seed keys.wrapping_key d
            ])
              ≡ ok (k, e)
            → Q e
        by_description (some wrapped) q =
            let (x, _, r) =
              >>=-eq-ok (content_key_from_material_description p keys.unwrapping_key d wrapped) _
                q in
            as_description (x, d) r holds
        by_description none q =
            let (x, _, h₁) = >>=-eq-ok (or_raise wrapping_error keys.wrapping_key) _ q in
            let (length, _, h₂) =
              >>=-eq-ok (content_key_length p (split_once b'/' (content_key_algorithm d)).1) _ h₁ in
            let (j, _, h₃) =
              >>=-eq-ok
                (LocalKey.generate l p seed (split_once b'/' (content_key_algorithm d)).0 length) _
                h₂ in
            let (b, _, h₄) = >>=-eq-ok (x.wrap (suc seed) _ j.key) _ h₃ in
            as_description _ h₄ (kept _ _ _ (kept _ _ _ (kept _ _ _ holds)))

    pub prepare_content_key-none :
        (seed : ℕ) (d e : Dict Text) (k : DelegatedKey) (name : Text)
        → prepare_content_key p l seed keys d ≡ ok (k, e)
        → get name e ≡ none
        → get name d ≡ none
    prepare_content_key-none seed d e k name h =
        prepare_content_key-holds (λ x. get name x ≡ none → get name d ≡ none)
          (λ other value x q g. q (put-none other name value x g)) seed d e k h (λ g. g)

    pub prepare_content_key-IsDict :
        (seed : ℕ) (d e : Dict Text) (k : DelegatedKey)
        → prepare_content_key p l seed keys d ≡ ok (k, e)
        → IsDict d
        → IsDict e
    prepare_content_key-IsDict = prepare_content_key-holds IsDict put-IsDict

    -- Whatever was prepared under a description, the same content key is prepared again under each one
    -- that agrees with the outcome, and it decrypts what it encrypted.
    pub prepare_content_key-reopens :
        (seed again : ℕ) (d e f : Dict Text) (k : DelegatedKey)
        → is_symmetric l p (split_once b'/' (content_key_algorithm d)).0 ≡ true
        → prepare_content_key p l seed keys d ≡ ok (k, e)
        → Agree f e
        → (prepare_content_key p l again keys f ≡ ok (k, f)) × Decrypts k k
    unfolding prepare_content_key
    prepare_content_key-reopens seed again d e f k s h a =
        by_description (get wrapped_data_key d) refl h
      where
        prepared_again :
            (wrapped : Text)
            → get wrapped_data_key f ≡ some wrapped
            → content_key_from_material_description p keys.unwrapping_key f wrapped ≡ ok k
            → prepare_content_key p l again keys f ≡ ok (k, f)
        prepared_again wrapped g q = rw (g, q, prepare_content_key)

        by_description :
            (o : Option Text)
            → get wrapped_data_key d ≡ o
            → (elim o [
              | some wrapped ↦ do
                key ← content_key_from_material_description p keys.unwrapping_key d wrapped
                ok (key, d)
              | none ↦ generate_content_key p l seed keys.wrapping_key d
            ])
              ≡ ok (k, e)
            → (prepare_content_key p l again keys f ≡ ok (k, f)) × Decrypts k k
        by_description (some wrapped) g q =
            let (x, from, r) =
              >>=-eq-ok (content_key_from_material_description p keys.unwrapping_key d wrapped) _
                q in
            let is_k = ap (λ (y : DelegatedKey × Dict Text). y.0) (ok-injective r) in
            let is_d = ap (λ (y : DelegatedKey × Dict Text). y.1) (ok-injective r) in
            let from_k = from ∙ ap ok is_k in
            (
              prepared_again wrapped (a.same_key ∙ ap (get wrapped_data_key) (sym is_d) ∙ g) (
                  from_material_description-Agree keys.unwrapping_key f e wrapped a
                  ∙ ap (λ y. content_key_from_material_description p keys.unwrapping_key y wrapped)
                      (sym is_d)
                  ∙ from_k),
              unwrapped-Decrypts d wrapped k (
                  ap (λ o. content_key_from_material_description p o d wrapped) (sym unwraps)
                  ∙ from_k),
            )
        by_description none g q =
            let made =
              generate_content_key-eq-ok seed d e k s
                (ap (λ o. generate_content_key p l seed o d) (sym wraps) ∙ q) in
            let (found, from) = Generated-key seed d e f k made a in
            (
              prepared_again (p.b64encode made.wrapped) found (
                  ap (λ o. content_key_from_material_description p o f (p.b64encode made.wrapped))
                    unwraps
                  ∙ from),
              subst (λ x. Decrypts x x) made.is_key
                  (new-Decrypts l sound made.generated.key
                    (split_once b'/' (content_key_algorithm d)).0 made.generated made.made),
            )
