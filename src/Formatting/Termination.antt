-- ===== src/Formatting/Termination.antt =====
-- The reader of attributes ends on every stream: the fuel given by the length of the bytes is enough.
use aws_dynamodb_encryption.Prelude.{
  ℕ, zero, suc, ◌*◌, ◌≤◌, ◌<◌, Text, Bytes, [], ◌∷◌, length, length-drop, ◌≡◌, ◌≢◌, arith, some,
  none, Option, Bool-cases, leb, ◌==◌, if◌then◌else◌, inl, inr,
}
use aws_dynamodb_encryption.Result.{
  Error, Result, ok, err, err-injective, ◌>>=◌, or_raise, out_of_fuel, deserialization_error,
  value_error, struct_error,
}
use aws_dynamodb_encryption.Dict.{Dict, put}
use aws_dynamodb_encryption.Identifiers.{Tag, find_tag}
use aws_dynamodb_encryption.Formatting.Pack.{
  Reader, bind, pure, lift, unpack_value, uint32, first_byte, decode_length, decode_value,
  decode_byte, decode_tag,
}
use aws_dynamodb_encryption.Formatting.Attribute.{Attribute, Codec, string}
use aws_dynamodb_encryption.Formatting.Deserialize.{
  repeat, read_value, deserialize_set, deserialize_members, deserialize_tag, deserialize,
  deserialize_attribute, catch_struct_error, transform_string_value, parse_number_value,
  boolean_map, map_key,
}

-- A run that ended with at most `n` bytes left, or with an exception of the program's.
data Within {ℓ} {A : Type ℓ} (n : ℕ) : Result (A × Bytes) → Type ℓ where
  done : {a : A} {rest : Bytes} → length rest ≤ n → Within n (ok (a, rest))
  failed : {e : Error} → e ≢ out_of_fuel → Within n (err e)

-- A pure function that does not run out of fuel.
data Ends {ℓ} {A : Type ℓ} : Result A → Type ℓ where
  value : {a : A} → Ends (ok a)
  raised : {e : Error} → e ≢ out_of_fuel → Ends (err e)

-- On every stream of at most `n` bytes the reader ends.
record Bounded {ℓ} {A : Type ℓ} (n : ℕ) (p : Reader A) : Type ℓ where
  on : (s : Bytes) → length s ≤ n → Within n (p s)

Ends-bind {ℓ κ} :
    {A : Type ℓ} {B : Type κ} (r : Result A) (f : A → Result B)
    → Ends r
    → ((a : A) → Ends (f a))
    → Ends (r >>= f)
Ends-bind r f (value {a}) k = k a
Ends-bind r f (raised ne) k = raised ne

module _ {ℓ κ} {A : Type ℓ} {B : Type κ} {n : ℕ} where
  Within-continue :
      (r : Result (A × Bytes)) (f : A → Reader B)
      → Within n r
      → ((a : A) → Bounded n (f a))
      → Within n (r >>= λ (a, rest). f a rest)
  Within-continue r f (done {a} {rest} le) k = (k a).on rest le
  Within-continue r f (failed ne) k = failed ne

  Bounded-bind :
      {p : Reader A} {f : A → Reader B}
      → Bounded n p
      → ((a : A) → Bounded n (f a))
      → Bounded n (bind p f)
  unfolding bind
  Bounded-bind {p} {f} b k = record { on = λ s le. Within-continue (p s) f (b.on s le) k }

module _ {ℓ} {A : Type ℓ} where
  Bounded-pure : {n : ℕ} (a : A) → Bounded n (pure a)
  Bounded-pure a = record { on = λ s le. done le }

  Within-lift : {n : ℕ} (r : Result A) (s : Bytes) → length s ≤ n → Ends r → Within n (lift r s)
  Within-lift r s le value = done le
  Within-lift r s le (raised ne) = failed ne

  Bounded-lift : {n : ℕ} {r : Result A} → Ends r → Bounded n (lift r)
  Bounded-lift {r = r} e = record { on = λ s le. Within-lift r s le e }

  Ends-or_raise : {e : Error} (o : Option A) → e ≢ out_of_fuel → Ends (or_raise e o)
  Ends-or_raise none ne = raised ne
  Ends-or_raise (some a) ne = value

  Within-le : {m n : ℕ} {r : Result (A × Bytes)} → m ≤ n → Within m r → Within n r
  Within-le le (done le') = done (omega arith)
  Within-le le (failed ne) = failed ne

  caught : {n : ℕ} (e : Error) → e ≢ out_of_fuel → Within {A = A} n (catch_struct_error (err e))
  unfolding catch_struct_error
  caught struct_error ne = failed (cc)
  caught _ ne = failed ne

  Within-catch : {n : ℕ} {r : Result (A × Bytes)} → Within n r → Within n (catch_struct_error r)
  unfolding catch_struct_error
  Within-catch (done le) = done le
  Within-catch (failed {e} ne) = caught e ne

unpack_value-Bounded : {n : ℕ} (k : ℕ) → Bounded n (unpack_value k)
unfolding unpack_value
unpack_value-Bounded k = record {
  on = λ s le. elim (Bool-cases (leb k (length s))) [
    | inl enough ↦ rw enough (done (omega (arith, length-drop k s)))
    | inr short ↦ rw short (failed (cc))
  ];
}

uint32-Ends : (b : Bytes) → Ends (uint32 b)
unfolding uint32
uint32-Ends (x ∷ y ∷ z ∷ w ∷ []) = value
uint32-Ends _ = raised (cc)

first_byte-Ends : (b : Bytes) → Ends (first_byte b)
unfolding first_byte
first_byte-Ends (x ∷ []) = value
first_byte-Ends _ = raised (cc)

boolean_map-Ends : (b : ℕ) → Ends (boolean_map b)
unfolding boolean_map
boolean_map-Ends b = elim (Bool-cases (b == 0)) [
  | inl e ↦ rw e value
  | inr e ↦
      rw e (elim (Bool-cases (b == 1)) [ inl e' ↦ rw e' value | inr e' ↦ rw e' (raised (cc)) ])
]

map_key-Ends : (a : Attribute) → Ends (map_key a)
unfolding map_key
map_key-Ends (string t) = value
map_key-Ends _ = raised (cc)

transform_string-Ends : (c : Codec) (b : Bytes) → Ends (transform_string_value c b)
unfolding transform_string_value
transform_string-Ends c b = Ends-or_raise (c.decode b) (cc)

parse_number-Ends : (c : Codec) (b : Bytes) → Ends (parse_number_value c b)
unfolding parse_number_value
parse_number-Ends c b =
    Ends-bind (or_raise value_error (c.decode b)) _ (Ends-or_raise (c.decode b) (cc))
      (λ t. Ends-or_raise (c.parse_number t) (cc))

module _ {n : ℕ} where
  decode_length-Bounded : Bounded n decode_length
  unfolding decode_length
  decode_length-Bounded = Bounded-bind (unpack_value-Bounded 4) (λ b. Bounded-lift (uint32-Ends b))

  decode_value-Bounded : Bounded n decode_value
  unfolding decode_value
  decode_value-Bounded = Bounded-bind decode_length-Bounded unpack_value-Bounded

  decode_byte-Bounded : Bounded n decode_byte
  unfolding decode_byte
  decode_byte-Bounded =
      Bounded-bind (unpack_value-Bounded 1) (λ b. Bounded-lift (first_byte-Ends b))

  read_value-Bounded {ℓ} :
      {A : Type ℓ} {f : Bytes → Result A} → ((b : Bytes) → Ends (f b)) → Bounded n (read_value f)
  unfolding read_value
  read_value-Bounded e = Bounded-bind decode_value-Bounded (λ b. Bounded-lift (e b))

  repeat-Bounded {ℓ} : {A : Type ℓ} {p : Reader A} (k : ℕ) → Bounded n p → Bounded n (repeat k p)
  unfolding repeat
  repeat-Bounded zero b = Bounded-pure []
  repeat-Bounded (suc k) b =
      Bounded-bind b (λ a. Bounded-bind (repeat-Bounded k b) (λ l. Bounded-pure (a ∷ l)))

  deserialize_set-Bounded :
      {f : Bytes → Result Text} → ((b : Bytes) → Ends (f b)) → Bounded n (deserialize_set f)
  unfolding deserialize_set
  deserialize_set-Bounded e =
      Bounded-bind decode_length-Bounded
        (λ k. Bounded-bind (repeat-Bounded k (read_value-Bounded e)) (λ l. Bounded-pure _))

  deserialize_members-Bounded :
      {p : Reader Attribute} (k : ℕ) (d : Dict Attribute)
      → Bounded n p
      → Bounded n (deserialize_members p k d)
  unfolding deserialize_members
  deserialize_members-Bounded zero d b = Bounded-pure d
  deserialize_members-Bounded (suc k) d b = Bounded-bind b (λ key.
      Bounded-bind (Bounded-lift (map_key-Ends key))
        (λ t. Bounded-bind b (λ v. deserialize_members-Bounded k (put t v d) b)))

  deserialize_tag-Bounded :
      (c : Codec) {p : Reader Attribute} (t : Tag) → Bounded n p → Bounded n (deserialize_tag c p t)
  unfolding deserialize_tag
  deserialize_tag-Bounded c Tag.binary b = Bounded-bind decode_value-Bounded (λ v. Bounded-pure _)
  deserialize_tag-Bounded c Tag.binary_set b =
      Bounded-bind (deserialize_set-Bounded (λ v. value)) (λ v. Bounded-pure _)
  deserialize_tag-Bounded c Tag.number b =
      Bounded-bind (read_value-Bounded (parse_number-Ends c)) (λ v. Bounded-pure _)
  deserialize_tag-Bounded c Tag.number_set b =
      Bounded-bind (deserialize_set-Bounded (parse_number-Ends c)) (λ v. Bounded-pure _)
  deserialize_tag-Bounded c Tag.string b =
      Bounded-bind (read_value-Bounded (transform_string-Ends c)) (λ v. Bounded-pure _)
  deserialize_tag-Bounded c Tag.string_set b =
      Bounded-bind (deserialize_set-Bounded (transform_string-Ends c)) (λ v. Bounded-pure _)
  deserialize_tag-Bounded c Tag.boolean b =
      Bounded-bind decode_byte-Bounded
        (λ x. Bounded-bind (Bounded-lift (boolean_map-Ends x)) (λ v. Bounded-pure _))
  deserialize_tag-Bounded c Tag.null b = Bounded-pure _
  deserialize_tag-Bounded c Tag.list_of b =
      Bounded-bind decode_length-Bounded
        (λ k. Bounded-bind (repeat-Bounded k b) (λ l. Bounded-pure _))
  deserialize_tag-Bounded c Tag.map_of b =
      Bounded-bind decode_length-Bounded
        (λ k. Bounded-bind (deserialize_members-Bounded k [] b) (λ d. Bounded-pure _))

  -- Behind the tag, whichever it is.
  dispatch-Bounded :
      (c : Codec) {p : Reader Attribute} (x : ℕ)
      → Bounded n p
      → Bounded n (bind (lift (or_raise deserialization_error (find_tag x))) (deserialize_tag c p))
  dispatch-Bounded c x b =
      Bounded-bind (Bounded-lift (Ends-or_raise (find_tag x) (cc)))
        (λ t. deserialize_tag-Bounded c t b)

decode_tag_two :
    (x y : ℕ) (s : Bytes)
    → decode_tag (x ∷ y ∷ s) ≡ (if x == 0 then ok (y, s) else err deserialization_error)
unfolding decode_tag
decode_tag_two x y s = ground arith

decode_tag_short : (s : Bytes) → length s < 2 → decode_tag s ≡ err struct_error
unfolding decode_tag
decode_tag_short s h = ground arith

-- The tag takes two bytes, so that what is left has fuel enough for the calls below.
deserialize-Bounded :
    (c : Codec) (f n : ℕ) → n < 2 * f → (s : Bytes) → length s ≤ n → Within n (deserialize c f s)
unfolding deserialize bind
deserialize-Bounded c zero n lt s le = absurd (omega arith)
deserialize-Bounded c (suc f) n lt [] le =
    rw (decode_tag_short [] (omega arith)) (Within-catch (failed (cc)))
deserialize-Bounded c (suc f) n lt (x ∷ []) le =
    rw (decode_tag_short (x ∷ []) (omega arith)) (Within-catch (failed (cc)))
deserialize-Bounded c (suc f) n lt (x ∷ y ∷ s) le = elim (Bool-cases (x == 0)) [
  | inl e ↦
      rw (decode_tag_two, e)
        (Within-catch (
          Within-le {m = length s} (omega arith) (
            (dispatch-Bounded c y
                (record { on = deserialize-Bounded c f (length s) (omega arith) })).on
              s (omega arith))))
  | inr e ↦ rw (decode_tag_two, e) (Within-catch (failed (cc)))
]

first-ne-out_of_fuel {ℓ} :
    {A : Type ℓ} {n : ℕ} (r : Result (A × Bytes))
    → Within n r
    → (r >>= λ p. ok (p.0)) ≢ err out_of_fuel
first-ne-out_of_fuel r (done le) = cc
first-ne-out_of_fuel r (failed ne) = λ e. ne (err-injective e)

-- Deserialization ends on any bytes: it returns, or raises an exception of the program's.
pub deserialize_attribute_ends :
    (c : Codec) (s : Bytes) → deserialize_attribute c s ≢ err out_of_fuel
unfolding deserialize_attribute
deserialize_attribute_ends c [] = cc
deserialize_attribute_ends c (x ∷ s) =
    first-ne-out_of_fuel (deserialize c (length (x ∷ s)) (x ∷ s))
      (deserialize-Bounded c (length (x ∷ s)) (length (x ∷ s)) (omega arith) (x ∷ s) (omega arith))
