-- ===== src/Texts.antt =====
-- Python's methods of texts that the code uses: split, partition at the first separator, prefixes,
-- suffixes and parts.
use aws_dynamodb_encryption.Prelude.{
  ℕ, zero, suc, Text, Bool, true, false, not, ◌||◌, ◌&&◌, ◌==◌, Option, none, some, List, [], ◌∷◌,
  ◌++◌, if◌then◌else◌, ◌≡◌, refl, arith, text_eq,
}

-- The first part grows by the character.
unfoldable pub extend_first : ℕ → List Text → List Text
extend_first x [] = (x ∷ []) ∷ []
extend_first x (part ∷ parts) = (x ∷ part) ∷ parts

-- t.split(separator)
unfoldable pub split : ℕ → Text → List Text
split separator [] = [] ∷ []
split separator (x ∷ t) =
    let parts = split separator t in if x == separator then [] ∷ parts else extend_first x parts

-- t.split(separator, 1): what stands before the first separator, and behind it if there is one
unfoldable pub split_once : ℕ → Text → Text × Option Text
split_once separator [] = ([], none)
split_once separator (x ∷ t) =
    let (first, rest) = split_once separator t in
    if x == separator then ([], some t) else (x ∷ first, rest)

-- t.split(separator, limit): the parts behind the first `limit` separators are one
unfoldable pub split_at_most : ℕ → ℕ → Text → List Text
split_at_most limit separator [] = [] ∷ []
split_at_most zero separator (x ∷ t) = (x ∷ t) ∷ []
split_at_most (suc limit) separator (x ∷ t) = elim (x == separator) [
  | true ↦ [] ∷ split_at_most limit separator t
  | false ↦ extend_first x (split_at_most (suc limit) separator t)
]

-- t.startswith(prefix)
unfoldable pub starts_with : Text → Text → Bool
starts_with [] t = true
starts_with (x ∷ prefix) [] = false
starts_with (x ∷ prefix) (y ∷ t) = if x == y then starts_with prefix t else false

-- t.endswith(suffix)
unfoldable pub ends_with : Text → Text → Bool
ends_with suffix [] = text_eq suffix []
ends_with suffix (x ∷ t) = text_eq suffix (x ∷ t) || ends_with suffix t

-- part in t
unfoldable pub occurs_in : Text → Text → Bool
occurs_in part [] = starts_with part []
occurs_in part (x ∷ t) = starts_with part (x ∷ t) || occurs_in part t

-- The separator does not stand in the text.
abbrev pub is_free : ℕ → Text → Bool
is_free separator [] = true
is_free separator (x ∷ t) = not (x == separator) && is_free separator t

pub split_free : (s : ℕ) (t : Text) → is_free s t ≡ true → split s t ≡ t ∷ []
unfolding split extend_first
split_free s [] h = refl
split_free s (x ∷ t) h = ground (arith, split_free s t)

pub split-append : (s : ℕ) (t u : Text) → is_free s t ≡ true → split s (t ++ s ∷ u) ≡ t ∷ split s u
unfolding split extend_first
split-append s [] u h = ground arith
split-append s (x ∷ t) u h = ground (arith, split-append s t u)

pub split_once-append :
    (s : ℕ) (t u : Text) → is_free s t ≡ true → split_once s (t ++ s ∷ u) ≡ (t, some u)
unfolding split_once
split_once-append s [] u h = ground arith
split_once-append s (x ∷ t) u h = ground (arith, split_once-append s t u)

pub split_once_free : (s : ℕ) (t : Text) → is_free s t ≡ true → split_once s t ≡ (t, none)
unfolding split_once
split_once_free s [] h = refl
split_once_free s (x ∷ t) h = ground (arith, split_once_free s t)
