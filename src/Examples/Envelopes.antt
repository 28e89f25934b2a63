-- ===== src/Examples/Envelopes.antt =====
-- A secret under a password, at concrete values.
use cpp_conflux_sdk.Common.Outcome.{ok}
use cpp_conflux_sdk.Common.{◌≡◌, ◌++◌, true, false, refl, arith, Bytes, codes, replicate, some}
use cpp_conflux_sdk.FixedHash.{of_bytes, copy_left, less}
use cpp_conflux_sdk.Keys.Json.{Value, Fields, obj, end, has}
use cpp_conflux_sdk.Keys.Envelope.{
  scrypt, scrypt_key, scrypt_fields, encrypt_sym, is_key_size, is_compat, derive_new_key, envelope,
  sealed, encrypt, derive_key, decrypt,
}
use cpp_conflux_sdk.Keys.Envelope.RoundTrip.{decrypt-encrypt}
use cpp_conflux_sdk.Keys.Envelope.Authentic.{IsAuthentic, decrypt-IsAuthentic}
use cpp_conflux_sdk.Examples.Toys.{toys, toys-IsDocumented}

abbrev pub a_secret : Bytes
a_secret = replicate 32 5

abbrev pub a_password : Bytes
a_password = codes "open sesame"

abbrev pub a_salt : Bytes
a_salt = replicate 32 9

abbrev pub a_vector : Bytes
a_vector = replicate 16 3

abbrev derived : Bytes
derived = a_password ++ replicate 21 9

abbrev a_coding : Fields
a_coding = envelope toys (scrypt_fields a_salt end) derived a_vector a_secret

abbrev pub a_text : Value
a_text = obj a_coding

pub secret_coded : encrypt toys a_secret a_password scrypt a_salt a_vector ≡ ok a_text
unfolding encrypt derive_new_key scrypt_key sealed encrypt_sym is_key_size of_bytes copy_left
secret_coded = refl

decrypt-encrypt_example : decrypt toys a_text a_password ≡ ok a_secret
decrypt-encrypt_example =
    decrypt-encrypt toys toys-IsDocumented a_secret a_password a_salt a_vector scrypt a_text
      (ground arith) (ground arith) refl secret_coded

coding_has_mac : has (codes "mac") a_coding ≡ true
unfolding envelope scrypt_fields less
coding_has_mac = refl

coding_is_current : is_compat a_coding ≡ ok false
unfolding is_compat envelope scrypt_fields less
coding_is_current = refl

text_opens : decrypt toys a_text a_password ≡ ok a_secret
text_opens =
    decrypt-encrypt toys toys-IsDocumented a_secret a_password a_salt a_vector scrypt a_text
      (ground arith) (ground arith) refl secret_coded

decrypt-IsAuthentic_example :
    (key : Bytes) × (derive_key toys a_coding a_password ≡ ok (some key))
    × IsAuthentic toys a_coding coding_has_mac coding_is_current key
decrypt-IsAuthentic_example =
    decrypt-IsAuthentic toys a_coding coding_has_mac coding_is_current a_text a_password a_secret
      refl text_opens (ground arith)
