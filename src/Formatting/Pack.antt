-- ===== src/Formatting/Pack.antt =====
-- struct.pack and struct.unpack as the library calls them: serialize/__init__.py and
-- deserialize/__init__.py.
use aws_dynamodb_encryption.Prelude.{
  ℕ, ◌+◌, ◌*◌, ◌/◌, ◌%◌, ◌^◌, Bytes, [], ◌∷◌, ◌++◌, ◌≡◌, ◌∙◌, ap, arith, length, length-append,
  take, drop, take-append, drop-append, ltb, leb, ◌==◌, if◌then◌else◌, append_assoc,
}
use aws_dynamodb_encryption.Result.{
  Result, ok, err, ◌>>=◌, >>=-eq-ok, ok-injective, struct_error, deserialization_error, Error,
}

-- struct.pack(">I", n)
unfoldable pub pack_uint32 : ℕ → Result Bytes
pack_uint32 n =
    if ltb n (2 ^ 32)
    then ok (n / 2 ^ 24 ∷ n / 2 ^ 16 % 256 ∷ n / 2 ^ 8 % 256 ∷ n % 256 ∷ [])
    else err struct_error

-- encode_length(attribute), for an attribute of `n` members
unfoldable pub encode_length : ℕ → Result Bytes
unfolding pack_uint32
encode_length n = pack_uint32 n

unfoldable pub encode_value : Bytes → Result Bytes
encode_value value = do packed ← pack_uint32 (length value); ok (packed ++ value)

-- A reader takes the bytes that the stream still holds, and returns those that it leaves.
abbrev pub Reader {ℓ} : Type ℓ → Type ℓ
Reader A = Bytes → Result (A × Bytes)

module _ {ℓ κ} {A : Type ℓ} {B : Type κ} where
  -- Two readers in sequence.
  unfoldable pub bind : Reader A → (A → Reader B) → Reader B
  bind p f s = p s >>= λ (a, rest). f a rest

-- A reader that succeeds hands over to the next.
pub bind_ok {ℓ κ} :
    {A : Type ℓ} {B : Type κ} (p : Reader A) (f : A → Reader B) {s rest : Bytes} {a : A}
    → p s ≡ ok (a, rest)
    → bind p f s ≡ f a rest
unfolding bind
bind_ok p f h = rw h

abbrev pub pure {ℓ} : {A : Type ℓ} → A → Reader A
pure a s = ok (a, s)

abbrev pub raise {ℓ} : {A : Type ℓ} → Error → Reader A
raise e s = err e

abbrev pub lift {ℓ} : {A : Type ℓ} → Result A → Reader A
lift r s = r >>= λ a. ok (a, s)

-- unpack_value for a format of `n` bytes: `stream.read(n)` may return fewer, which unpack refuses
unfoldable pub unpack_value : ℕ → Reader Bytes
unpack_value n s = if leb n (length s) then ok (take n s, drop n s) else err struct_error

unfoldable pub uint32 : Bytes → Result ℕ
uint32 (a ∷ b ∷ c ∷ d ∷ []) = ok (a * 2 ^ 24 + b * 2 ^ 16 + c * 2 ^ 8 + d)
uint32 _ = err struct_error

unfoldable pub decode_length : Reader ℕ
unfolding uint32 unpack_value bind
decode_length = bind (unpack_value 4) λ b. lift (uint32 b)

unfoldable pub decode_value : Reader Bytes
decode_value = bind decode_length unpack_value

unfoldable pub first_byte : Bytes → Result ℕ
first_byte (b ∷ []) = ok b
first_byte _ = err struct_error

unfoldable pub decode_byte : Reader ℕ
unfolding first_byte unpack_value bind
decode_byte = bind (unpack_value 1) λ b. lift (first_byte b)

-- the reserved byte must be null
unfoldable pub two_bytes : Bytes → Result ℕ
two_bytes (reserved ∷ tag ∷ []) = if reserved == 0 then ok tag else err deserialization_error
two_bytes _ = err struct_error

unfoldable pub decode_tag : Reader ℕ
unfolding two_bytes unpack_value bind
decode_tag = bind (unpack_value 2) λ b. lift (two_bytes b)

-- What `encode_length` writes is four bytes.
pub length-encode_length : (n : ℕ) (b : Bytes) → encode_length n ≡ ok b → length b ≡ 4
unfolding encode_length
length-encode_length n b h = ground arith

decode_packed :
    (n : ℕ) (b rest : Bytes) → pack_uint32 n ≡ ok b → decode_length (b ++ rest) ≡ ok (n, rest)
unfolding pack_uint32 decode_length
decode_packed n [] rest h = ground arith
decode_packed n (a ∷ []) rest h = ground arith
decode_packed n (a ∷ b ∷ []) rest h = ground arith
decode_packed n (a ∷ b ∷ c ∷ []) rest h = ground arith
decode_packed n (a ∷ b ∷ c ∷ d ∷ []) rest h = ground arith
decode_packed n (a ∷ b ∷ c ∷ d ∷ e ∷ l) rest h = ground arith

-- Unpacking what was packed gives the number back.
pub decode_length-encode_length :
    (n : ℕ) (b rest : Bytes) → encode_length n ≡ ok b → decode_length (b ++ rest) ≡ ok (n, rest)
unfolding encode_length
decode_length-encode_length n b rest h = decode_packed n b rest h

unpack_value-append : (v rest : Bytes) → unpack_value (length v) (v ++ rest) ≡ ok (v, rest)
unfolding unpack_value
unpack_value-append v rest =
    ground (arith, length-append v rest, take-append v rest, drop-append v rest)

-- A value that could be written behind its length is read back from the front of any stream, and just
-- what follows it is left.
pub decode_value-encode_value :
    (v b rest : Bytes) → encode_value v ≡ ok b → decode_value (b ++ rest) ≡ ok (v, rest)
unfolding encode_value decode_value
decode_value-encode_value v b rest h =
    let (packed, e, f) = >>=-eq-ok (pack_uint32 (length v)) _ h in
    let read : decode_length (b ++ rest) ≡ ok (length v, v ++ rest) =
      rw (← ok-injective f, append_assoc) (decode_packed (length v) packed (v ++ rest) e) in
    bind_ok decode_length unpack_value read ∙ unpack_value-append v rest

pub decode_tag_lem : (t : ℕ) (rest : Bytes) → decode_tag (0 ∷ t ∷ rest) ≡ ok (t, rest)
unfolding decode_tag
decode_tag_lem t rest = ground arith

pub decode_byte_lem : (t : ℕ) (rest : Bytes) → decode_byte (t ∷ rest) ≡ ok (t, rest)
unfolding decode_byte
decode_byte_lem t rest = ground arith

-- Every value is written behind its length.
pub length-encode_value : (v b : Bytes) → encode_value v ≡ ok b → length b ≡ 4 + length v
unfolding encode_value
length-encode_value v b h =
    let (packed, e, f) = >>=-eq-ok (pack_uint32 (length v)) _ h in
    omega (
      arith,
      length-encode_length (length v) packed (unfold encode_length in e),
      length-append packed v,
      ap length (ok-injective f),
    )
