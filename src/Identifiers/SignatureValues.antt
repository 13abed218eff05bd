-- ===== src/Identifiers/SignatureValues.antt =====
-- src/dynamodb_encryption_sdk/internal/identifiers.py: what is signed for an action.
use aws_dynamodb_encryption.Prelude.{Bytes, [], ◌∷◌}

-- the SHA-256 of b"ENCRYPTED"
abbrev pub encrypted : Bytes
encrypted =
    0x39 ∷ 0x41 ∷ 0x15 ∷ 0xac ∷ 0x4e ∷ 0xb0 ∷ 0x9a ∷ 0xa4 ∷ 0x94 ∷ 0x29 ∷ 0x34 ∷ 0x88 ∷ 0x16 ∷ 0xb2
    ∷ 0x03 ∷ 0x81 ∷ 0x27 ∷ 0xb0 ∷ 0xf9 ∷ 0xe3 ∷ 0xa5 ∷ 0x20 ∷ 0x37 ∷ 0x2a ∷ 0xe1 ∷ 0x00 ∷ 0xca
    ∷ 0x19 ∷ 0xfb ∷ 0x08 ∷ 0xfd ∷ 0x50 ∷ []

-- the SHA-256 of b"PLAINTEXT"
abbrev pub plaintext : Bytes
plaintext =
    0xcb ∷ 0x40 ∷ 0xe7 ∷ 0xda ∷ 0xdc ∷ 0x86 ∷ 0x16 ∷ 0x1b ∷ 0x97 ∷ 0x98 ∷ 0xde ∷ 0x48 ∷ 0x51 ∷ 0x2f
    ∷ 0x33 ∷ 0x2d ∷ 0x21 ∷ 0xc1 ∷ 0x41 ∷ 0xfc ∷ 0xc1 ∷ 0xe2 ∷ 0x8a ∷ 0x08 ∷ 0x6f ∷ 0xde ∷ 0x4a
    ∷ 0x33 ∷ 0x75 ∷ 0xaa ∷ 0xb1 ∷ 0xb5 ∷ []
