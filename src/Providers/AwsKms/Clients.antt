-- ===== src/Providers/AwsKms/Clients.antt =====
-- The provider caches the clients that it makes; its answers do not depend on what it has cached.
use aws_dynamodb_encryption.Prelude.{
  ℕ, ◌/◌, Text, Option, none, some, ◌≡◌, ◌∙◌, ap, sym, refl, subst, Option-cases, inl, inr,
  text_eq_iff, arith,
}
use aws_dynamodb_encryption.Result.{
  Result, ok, err, ◌>>=◌, or_raise, wrapping_error, unwrapping_error,
}
use aws_dynamodb_encryption.Builtins.{Builtins}
use aws_dynamodb_encryption.Dict.{Dict, get, get_or, put, get-put}
use aws_dynamodb_encryption.Structures.EncryptionContext.{EncryptionContext}
use aws_dynamodb_encryption.Jce.Library.{Cryptography}
use aws_dynamodb_encryption.Providers.AwsKms.{
  Client, Services, Outcome, AwsKmsCryptographicMaterialsProvider, region, followed_by, proceed,
  client_for, add_regional_client, client, generate_initial_material, decrypt_initial_material,
  encryption_description, encryption_materials_of, encryption_materials, decryption_materials_of,
  decryption_materials,
}

module _ (p : Builtins) (services : Services) (self : AwsKmsCryptographicMaterialsProvider) where
  -- The provider as it was, with other clients, of which each region gets the one that it would have got.
  pub record SameClients (s : AwsKmsCryptographicMaterialsProvider) : Type 0 where
    clients : Dict Client
    is_state : record self { regional_clients = clients } ≡ s
    same_client :
        (r : Text) → client_for p services clients r ≡ client_for p services self.regional_clients r

  pub self-SameClients : SameClients self
  self-SameClients = record {
    clients = self.regional_clients;
    is_state = refl;
    same_client = λ r. refl;
  }

  client_for-put :
      (clients : Dict Client) (r t : Text)
      → get r clients ≡ none
      → client_for p services (put r (services.new_client r) clients) t
        ≡ client_for p services clients t
  unfolding get_or
  client_for-put clients r t h =
      ground (arith, get-put r t (services.new_client r) clients, text_eq_iff r t)

  add_regional_client-SameClients :
      (r : Text) (s : AwsKmsCryptographicMaterialsProvider)
      → SameClients s
      → SameClients ((add_regional_client p services r s).1)
  unfolding add_regional_client
  add_regional_client-SameClients r s h = by_client (get r s.regional_clients) refl
    where
      by_client :
          (o : Option Client)
          → get r s.regional_clients ≡ o
          → SameClients (
              (elim o as (λ x. Outcome Client) [
                | some c ↦ (ok c, s)
                | none ↦
                    let c = services.new_client r in
                    (ok c, record s { regional_clients = put r c s.regional_clients })
              ]).1)
      by_client (some c) g = h
      by_client none g = record {
        clients = put r (services.new_client r) s.regional_clients;
        is_state =
            ap
              (λ (x : AwsKmsCryptographicMaterialsProvider). record x {
                regional_clients = put r (services.new_client r) s.regional_clients;
              })
              h.is_state;
        same_client = λ t.
            client_for-put s.regional_clients r t g
            ∙ ap
                (λ (x : AwsKmsCryptographicMaterialsProvider).
                  client_for p services x.regional_clients t)
                (sym h.is_state)
            ∙ h.same_client t;
      }

  add_regional_client-answer :
      (r : Text) (s : AwsKmsCryptographicMaterialsProvider)
      → (add_regional_client p services r s).0 ≡ ok (client_for p services s.regional_clients r)
  unfolding add_regional_client get_or
  add_regional_client-answer r s = elim (Option-cases (get r s.regional_clients)) [
    | inl (c, g) ↦ rw (g, add_regional_client, get_or)
    | inr g ↦ rw (g, add_regional_client, get_or)
  ]

  proceed-SameClients {ℓ κ} :
      {A : Type ℓ} {B : Type κ} (next : A → AwsKmsCryptographicMaterialsProvider → Outcome B)
      (r : Result A) (s : AwsKmsCryptographicMaterialsProvider)
      → SameClients s
      → ((a : A) → SameClients ((next a s).1))
      → SameClients ((proceed next r s).1)
  unfolding proceed
  proceed-SameClients next (ok a) s h kept = kept a
  proceed-SameClients next (err e) s h kept = h

  proceed-answer {ℓ κ} :
      {A : Type ℓ} {B : Type κ} (next : A → AwsKmsCryptographicMaterialsProvider → Outcome B)
      (r : Result A) (s t : AwsKmsCryptographicMaterialsProvider)
      → ((a : A) → (next a s).0 ≡ (next a t).0)
      → (proceed next r s).0 ≡ (proceed next r t).0
  unfolding proceed
  proceed-answer next (ok a) s t same = same a
  proceed-answer next (err e) s t same = refl

  client-SameClients :
      (key_id : Text) (s : AwsKmsCryptographicMaterialsProvider)
      → SameClients s
      → SameClients ((client p services key_id s).1)
  unfolding client
  client-SameClients key_id s h =
      proceed-SameClients (add_regional_client p services) (region s key_id) s h
        (λ r. add_regional_client-SameClients r s h)

  client-answer :
      (key_id : Text) (clients : Dict Client)
      → ((r : Text)
          → client_for p services clients r ≡ client_for p services self.regional_clients r)
      → (client p services key_id (record self { regional_clients = clients })).0
        ≡ (client p services key_id self).0
  unfolding client region
  client-answer key_id clients same =
      proceed-answer (add_regional_client p services) (region self key_id)
        (record self { regional_clients = clients }) self
        (λ r.
          add_regional_client-answer r (record self { regional_clients = clients })
          ∙ ap ok (same r)
          ∙ sym (add_regional_client-answer r self))

  module _ (l : Cryptography) where
    encryption_materials-SameClients :
        (seed : ℕ) (context : EncryptionContext) (s : AwsKmsCryptographicMaterialsProvider)
        → SameClients s
        → SameClients ((encryption_materials p services l seed context s).1)
    unfolding encryption_materials generate_initial_material followed_by
    encryption_materials-SameClients seed context s h =
        proceed-SameClients _ _ s h (λ r. client-SameClients s.key_id s h)

    decryption_materials-SameClients :
        (context : EncryptionContext) (s : AwsKmsCryptographicMaterialsProvider)
        → SameClients s
        → SameClients ((decryption_materials p services l context s).1)
    unfolding decryption_materials decrypt_initial_material followed_by
    decryption_materials-SameClients context s h =
        proceed-SameClients _ _ s h (λ r. client-SameClients s.key_id s h)

    encryption_materials-answer :
        (seed : ℕ) (context : EncryptionContext) (s : AwsKmsCryptographicMaterialsProvider)
        → SameClients s
        → (encryption_materials p services l seed context s).0
          ≡ (encryption_materials p services l seed context self).0
    unfolding encryption_materials generate_initial_material followed_by encryption_materials_of
        encryption_description
    encryption_materials-answer seed context s h =
        subst
          (λ x.
            (encryption_materials p services l seed context x).0
            ≡ (encryption_materials p services l seed context self).0)
          h.is_state
          (ap
            (λ r. do
              (initial, encrypted) ← r
              encryption_materials_of p services l self context.material_description initial
                  encrypted)
            (proceed-answer _ _ (record self { regional_clients = h.clients }) self
              (λ for_request.
                ap
                  (λ found. do
                    kms ← found
                    response ←
                        kms.generate_data_key seed self.key_id (256 / 8) for_request
                          self.grant_tokens
                    or_raise wrapping_error response)
                  (client-answer self.key_id h.clients h.same_client))))

    decryption_materials-answer :
        (context : EncryptionContext) (s : AwsKmsCryptographicMaterialsProvider)
        → SameClients s
        → (decryption_materials p services l context s).0
          ≡ (decryption_materials p services l context self).0
    unfolding decryption_materials decrypt_initial_material followed_by
    decryption_materials-answer context s h =
        subst
          (λ x.
            (decryption_materials p services l context x).0
            ≡ (decryption_materials p services l context self).0)
          h.is_state
          (ap
            (λ r. do
              initial ← r
              decryption_materials_of p services l context.material_description initial)
            (proceed-answer _ _ (record self { regional_clients = h.clients }) self
              (λ request.
                ap
                  (λ found. do
                    kms ← found
                    response ← kms.decrypt request.1 request.0 self.grant_tokens
                    or_raise unwrapping_error response)
                  (client-answer self.key_id h.clients h.same_client))))

    -- The states that calls of the provider lead to.
    pub data Reached : AwsKmsCryptographicMaterialsProvider → Type 0 where
      start : Reached self
      after_encryption :
          {s : AwsKmsCryptographicMaterialsProvider}
          → Reached s
          → (seed : ℕ) (context : EncryptionContext)
          → Reached ((encryption_materials p services l seed context s).1)
      after_decryption :
          {s : AwsKmsCryptographicMaterialsProvider}
          → Reached s
          → (context : EncryptionContext)
          → Reached ((decryption_materials p services l context s).1)

    Reached-SameClients : (s : AwsKmsCryptographicMaterialsProvider) → Reached s → SameClients s
    Reached-SameClients s start = self-SameClients
    Reached-SameClients s (after_encryption r seed context) =
        encryption_materials-SameClients seed context _ (Reached-SameClients _ r)
    Reached-SameClients s (after_decryption r context) =
        decryption_materials-SameClients context _ (Reached-SameClients _ r)

    -- In every state that calls of the provider lead to, each call answers, or raises, as in the first state:
    -- the clients that were made meanwhile are those that would be made.
    pub Reached-answers :
        (s : AwsKmsCryptographicMaterialsProvider) (seed : ℕ) (context : EncryptionContext)
        → Reached s
        → ((encryption_materials p services l seed context s).0
            ≡ (encryption_materials p services l seed context self).0)
          × ((decryption_materials p services l context s).0
              ≡ (decryption_materials p services l context self).0)
    Reached-answers s seed context r =
        let h = Reached-SameClients s r in
        (encryption_materials-answer seed context s h, decryption_materials-answer context s h)
