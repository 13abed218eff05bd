-- ===== src/Lib.antt =====
-- The client-side encryption library for DynamoDB (src/dynamodb_encryption_sdk).
--
-- An item, a dict of attributes in DynamoDB JSON, is encrypted and signed under a CryptoConfig: the
-- configuration has a materials provider, an encryption context and the actions on the attributes. The
-- provider gives materials, which hold keys; each attribute with the action ENCRYPT_AND_SIGN is serialized
-- and encrypted; a string of hashes over all attributes with an action is signed; the signature and the
-- serialized description of the materials are added to the item under reserved names. Decryption takes
-- these two off, asks the provider for materials by the description, verifies, and only then decrypts.
--
-- The files and the code that they are about, with paths below src/dynamodb_encryption_sdk:
--   Identifiers, CryptoAction: internal/identifiers.py and CryptoAction of identifiers.py
--   Result: exceptions.py, the exceptions as values of one type, without their messages
--   Structures/EncryptionContext, AttributeActions, TableInfo: the classes of structures.py
--   Formatting/Pack: struct.pack and struct.unpack as internal/formatting calls them
--   Formatting/Serialize, Deserialize: internal/formatting/serialize and deserialize
--   Formatting/MaterialDescription: internal/formatting/material_description.py
--   Crypto/Materials: the interfaces of delegated_keys, materials and material_providers
--   Crypto/Encryption, Authentication: internal/crypto/encryption.py and authentication.py
--   Encrypted/CryptoConfig, Item, Client: encrypted/__init__.py, encrypted/item.py and encrypted/client.py
--   Jce/Primitives, Cipher, Authentication: primitives.py, encryption.py and authentication.py of
--     internal/crypto/jce_bridge; Jce/Library is what they call of the package cryptography
--   Jce/LocalKey: delegated_keys/jce.py
--   Materials/Raw, Wrapped: materials/raw.py and materials/wrapped.py
--   Providers/BasicCache, MostRecent: the two classes of material_providers/most_recent.py
--   Providers/Static, Wrapped: material_providers/static.py and material_providers/wrapped.py
--   Providers/KeyInfo, AwsKms: the two classes of material_providers/aws_kms.py
--   Providers/MetaStore: material_providers/store/meta.py and its base class
--   Helpers/Tables, Reading, Writing: internal/utils.py
--   Prelude, Sorting, Dict, Texts, Builtins: what all of these share; Python's sorted, dict and str, and the
--     functions of its standard library that are parameters
--   Examples: data on which the theorems are tried
-- Definitions have the names of the functions and methods, without a leading underscore. A part of a
-- function that the proofs refer to has a name of its own, and the function calls it.
--
-- Bytes are lists of numbers and texts are lists of code points. A dict is an association list in the
-- order of insertion. An exception is a value of Result. A method that changes its object returns the
-- object as well; what was changed before an exception stays changed.
--
-- A materials provider keeps a contract, Reopens of Encrypted/Item/RoundTrip: from a description that
-- extends the one that its encryption materials were stored with, it gives decryption materials that match
-- them. The encryption of items is proved against the contract, and the providers keep it.
--
-- Functions of other packages are parameters: the UTF-8 codec and the decimal context (the record Codec,
-- with IsLossless for what is documented of them), SHA-256, the ciphers, MACs and loaders of the package
-- cryptography and os.urandom (Cryptography, with IsSound), int, str, upper and base64 (Builtins, with
-- IsDocumented), the clients of AWS KMS and HKDF (Services, with DecryptsDataKeys), the clients of boto3 and
-- the provider stores. The random bytes of a call are given by a number, and those that a provider of
-- wrapped materials draws on decryption by another one than on encryption; the time and what other threads
-- do by the record Call. A binary attribute and the bytes in it are one value. A negative length of a key is
-- taken for text that is no number.
--
-- The reader of serialized attributes and the one of material descriptions have fuel: the number of
-- bytes. A nested attribute takes at least two bytes and an entry eight, so it is enough for both.
--
-- Not modelled: the encrypted table and resource (encrypted/table.py, encrypted/resource.py), which route
-- calls of boto3 through the same helpers: the store of providers stands over the record MetaTable, and a
-- theorem on it names the answers of the table that it is about; the conversion of items of Python values;
-- run-time type checks; logging. That encryption and decryption change the item or the dicts that the caller passes
-- is not visible: decryption takes the two reserved names off the caller's item, and a batch is encrypted
-- in the caller's dict of requests.
pub mod Prelude
pub mod Result
pub mod Sorting
pub mod Texts
pub mod Builtins
pub mod Dict
pub mod Identifiers
pub mod CryptoAction
pub mod Formatting
pub mod Structures
pub mod Crypto
pub mod Encrypted
pub mod Jce
pub mod Materials
pub mod Providers
pub mod Helpers
pub mod Examples
