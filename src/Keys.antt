-- ===== src/Keys.antt =====
-- The keys of accounts: encrypted keys as JSON text, the store of their files, and the manager of
-- passwords and names. This module has what they take from other libraries.
pub mod Json
pub mod Table
pub mod Envelope
pub mod Upgrade
pub mod Store
pub mod Manager
use cpp_conflux_sdk.Common.{ℕ, Bool, Option, Bytes}
use cpp_conflux_sdk.Keys.Json.{Value}

-- What is taken from json_spirit, CryptoPP, libscrypt and ethash: texts of JSON, to be written, also laid
-- out in lines, and read (a text that is not JSON is read as null); key derivation and AES in counter
-- mode, which may fail; the curve and Keccak-256; and lower case and paths of boost. A `SecureFixedHash` and a `bytesSec` are bytes.
pub record Libraries (Text : Type 0) : Type 0 where
  pub write : Bool → Value → Text
  pub read : Text → Value
  pub bytes_of : Text → Bytes
  pub pbkdf2_derive : Bytes → Bytes → ℕ → ℕ → Option Bytes
  pub scrypt_derive : Bytes → Bytes → ℕ → ℕ → ℕ → ℕ → Option Bytes
  pub ctr_encrypt : Bytes → Bytes → Bytes → Option Bytes
  pub ctr_decrypt : Bytes → Bytes → Bytes → Option Bytes
  -- The public key of a secret, by the curve; zeros if there is none.
  pub to_public : Bytes → Bytes
  pub join : Bytes → Bytes → Bytes
  pub to_lower : Bytes → Bytes
  pub keccak : Bytes → Bytes
