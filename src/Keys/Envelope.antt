-- ===== src/Keys/Envelope.antt =====
-- libdevcrypto/SecretStore.cpp: a secret that is encrypted with a password, as JSON text. Salt and
-- initialisation vector, which the code draws at random, are arguments.
pub mod RoundTrip
pub mod Authentic
use cpp_conflux_sdk.Common.Outcome.{Outcome, ok, throw, crypto_exception, ◌>>=◌}
use cpp_conflux_sdk.Common.{
  ℕ, ◌+◌, ◌-◌, ◌%◌, ◌^◌, Bool, true, false, not, ◌&&◌, ◌||◌, Option, none, some, [], ◌∷◌, ◌++◌,
  Bytes, codes, length, bytes_eq, ltb, ◌==◌, if◌then◌else◌,
}
use cpp_conflux_sdk.CommonData.HexText.{dont_throw, from_hex, to_hex}
use cpp_conflux_sdk.FixedHash.{
  of_bytes, of_hash, of_hex, align_left, align_right, fail_if_different,
}
use cpp_conflux_sdk.Rlp.Reader.{cropped, cropped_from}
use cpp_conflux_sdk.Keys.{Libraries}
use cpp_conflux_sdk.Keys.Json.{
  Value, Fields, end, num, str, obj, has, at, set, get_str, get_obj, get_int, widened,
}

-- `KDF`.
pub data Kdf : Type 0 where
  pbkdf2_sha256 scrypt : Kdf

-- The sizes that AES has keys of.
unfoldable pub is_key_size : ℕ → Bool
is_key_size n = n == 16 || (n == 24 || n == 32)

abbrev pub or_empty : Option Bytes → Bytes
or_empty none = []
or_empty (some b) = b

abbrev pub or_throw : Option Bytes → Outcome Bytes
or_throw none = throw crypto_exception
or_throw (some b) = ok b

-- Whether the envelope is of the older kind.
unfoldable pub is_compat : Fields → Outcome Bool
is_compat o =
    let said = get_str (at (codes "compat") o) >>= λ compat. ok (bytes_eq compat (codes "2")) in
    if has (codes "compat") o then said else ok false

-- What `deriveNewKey` notes of the function, for each of the two.
unfoldable pub scrypt_fields : Bytes → Fields → Fields
scrypt_fields salt o =
    let params = set (codes "salt") (str (to_hex salt)) (
      set (codes "dklen") (num 32)
        (set (codes "p") (num 1) (set (codes "r") (num 8) (set (codes "n") (num (2 ^ 18)) end)))) in
    set (codes "kdfparams") (obj params) (set (codes "kdf") (str (codes "scrypt")) o)

pub pbkdf2_fields : Bytes → Fields → Fields
pbkdf2_fields salt o =
    let params = set (codes "dklen") (num 32) (
      set (codes "salt") (str (to_hex salt))
        (set (codes "c") (num (2 ^ 18)) (set (codes "prf") (str (codes "hmac-sha256")) end))) in
    set (codes "kdfparams") (obj params) (set (codes "kdf") (str (codes "pbkdf2")) o)

module _ {Text : Type 0} (l : Libraries Text) where
  -- libdevcrypto/Common.cpp: `pbkdf2`, `scrypt`, and AES in counter mode.
  unfoldable pub pbkdf2 : Bytes → Bytes → ℕ → ℕ → Outcome Bytes
  pbkdf2 pass salt iterations dk_len = or_throw (l.pbkdf2_derive pass salt iterations dk_len)

  unfoldable pub scrypt_key : Bytes → Bytes → ℕ → ℕ → ℕ → ℕ → Outcome Bytes
  scrypt_key pass salt n r p dk_len = or_throw (l.scrypt_derive pass salt n r p dk_len)

  unfoldable pub encrypt_sym : Bytes → Bytes → Bytes → Bytes
  encrypt_sym k iv plain =
      if not (is_key_size (length k)) then [] else or_empty (l.ctr_encrypt k iv plain)

  unfoldable pub decrypt_sym : Bytes → Bytes → Bytes → Bytes
  decrypt_sym k iv cipher =
      if not (is_key_size (length k)) then [] else or_empty (l.ctr_decrypt k iv cipher)

  -- `deriveNewKey`: the key, and the fields that say how it was derived.
  unfoldable pub derive_new_key : Bytes → Kdf → Bytes → Fields → Outcome (Bytes × Fields)
  derive_new_key pass scrypt salt o = do
    key ← scrypt_key pass salt (2 ^ 18) 8 1 32
    ok (key, scrypt_fields salt o)
  derive_new_key pass pbkdf2_sha256 salt o = do
    key ← pbkdf2 pass salt (2 ^ 18) 32
    ok (key, pbkdf2_fields salt o)

  -- The part of a derived key that is hashed with the cipher text, and the hash.
  unfoldable pub mac_of : Bytes → Bytes → Bytes
  mac_of derived_key cipher_text = l.keccak (cropped derived_key 16 16 ++ cipher_text)

  unfoldable pub last16 : Bytes → Bytes
  last16 derived_key = cropped_from derived_key ((length derived_key + 2 ^ 64 - 16) % 2 ^ 64)

  -- The fields that `encrypt` adds to those that say how the key was derived.
  unfoldable pub envelope : Fields → Bytes → Bytes → Bytes → Fields
  envelope ret derived_key iv cipher_text =
      set (codes "mac") (str (to_hex (mac_of derived_key cipher_text))) (
        set (codes "ciphertext") (str (to_hex cipher_text)) (
          set (codes "cipherparams") (obj (set (codes "iv") (str (to_hex iv)) end))
            (set (codes "cipher") (str (codes "aes-128-ctr")) ret)))

  unfoldable pub sealed : Fields → Bytes → Bytes → Bytes → Outcome Text
  sealed ret derived_key iv cipher_text =
      if length cipher_text == 0
      then throw crypto_exception
      else ok (l.write true (obj (envelope ret derived_key iv cipher_text)))

  unfoldable pub encrypt : Bytes → Bytes → Kdf → Bytes → Bytes → Outcome Text
  encrypt v pass kdf salt iv = derive_new_key pass kdf salt end >>= λ derived.
      let key = of_bytes 16 derived.0 align_left in
      if length derived.0 == 0
      then throw crypto_exception
      else sealed derived.1 derived.0 iv (encrypt_sym key iv v)

  -- The first part of `decrypt`: the derived key, or nothing where the function is not known.
  unfoldable pub derive_pbkdf2 : Fields → Bytes → Outcome (Option Bytes)
  derive_pbkdf2 o pass = do
    params ← get_obj (at (codes "kdfparams") o)
    prf ← get_str (at (codes "prf") params)
    let derive = (do
      c ← get_int (at (codes "c") params)
      salt_text ← get_str (at (codes "salt") params)
      salt ← from_hex salt_text dont_throw
      dk_len ← get_int (at (codes "dklen") params)
      key ← pbkdf2 pass salt c dk_len
      ok (some key))
    if not (bytes_eq prf (codes "hmac-sha256")) then ok none else derive

  unfoldable pub derive_scrypt : Fields → Bytes → Outcome (Option Bytes)
  derive_scrypt o pass = do
    p ← get_obj (at (codes "kdfparams") o)
    salt_text ← get_str (at (codes "salt") p)
    salt ← from_hex salt_text dont_throw
    n ← get_int (at (codes "n") p)
    r ← get_int (at (codes "r") p)
    parallel ← get_int (at (codes "p") p)
    dk_len ← get_int (at (codes "dklen") p)
    key ← scrypt_key pass salt (widened n) r parallel dk_len
    ok (some key)

  unfoldable pub derive_key : Fields → Bytes → Outcome (Option Bytes)
  derive_key o pass = get_str (at (codes "kdf") o) >>= λ kdf.
      if bytes_eq kdf (codes "pbkdf2")
      then derive_pbkdf2 o pass
      else if bytes_eq kdf (codes "scrypt")
      then derive_scrypt o pass
      else ok none

  -- The check of the authentication code. An envelope without one is taken as it is.
  unfoldable pub check_mac : Fields → Bytes → Bytes → Outcome Bool
  check_mac o derived_key cipher_text =
      let of_mac = (do
        text ← get_str (at (codes "mac") o)
        mac ← of_hex 32 text fail_if_different
        compat ← is_compat o
        ok (
            bytes_eq mac (
              if compat
              then l.keccak (last16 derived_key ++ cipher_text)
              else mac_of derived_key cipher_text))) in
      let of_silly_mac = (do
        text ← get_str (at (codes "sillymac") o)
        mac ← of_hex 32 text fail_if_different
        json ← get_str (at (codes "sillymacjson") o)
        ok (bytes_eq mac (l.keccak (json ++ (last16 derived_key ++ cipher_text))))) in
      if has (codes "mac") o
      then of_mac
      else if has (codes "sillymac") o
      then of_silly_mac
      else ok true

  -- The end of `decrypt`.
  unfoldable pub decrypt_cipher : Fields → Bytes → Bytes → Outcome Bytes
  decrypt_cipher o derived_key cipher_text =
      let known = (do
        params ← get_obj (at (codes "cipherparams") o)
        iv_text ← get_str (at (codes "iv") params)
        iv ← of_hex 16 iv_text fail_if_different
        compat ← is_compat o
        ok (
            decrypt_sym
              (if compat
                then of_hash 16 (l.keccak (last16 derived_key)) align_right
                else of_bytes 16 derived_key align_left)
              iv cipher_text)) in
      get_str (at (codes "cipher") o) >>= λ cipher.
      if bytes_eq cipher (codes "aes-128-ctr") then known else ok []

  -- From the derived key on.
  unfoldable pub opened : Fields → Bytes → Outcome Bytes
  opened o derived_key =
      let rest = (do
        hex ← get_str (at (codes "ciphertext") o)
        cipher_text ← from_hex hex dont_throw
        right ← check_mac o derived_key cipher_text
        (let plain = decrypt_cipher o derived_key cipher_text in if right then plain else ok [])) in
      let short = is_compat o >>= λ compat. if compat then rest else ok [] in
      if ltb (length derived_key) 32 then short else rest

  unfoldable pub decrypt : Text → Bytes → Outcome Bytes
  decrypt v pass = get_obj (l.read v) >>= λ o.
      derive_key o pass >>= λ derived. elim derived [ none ↦ ok [] | some key ↦ opened o key ]
