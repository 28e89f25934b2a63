-- ===== src/Keys/Envelope/RoundTrip.antt =====
-- What was encrypted with a password is decrypted with it.
use cpp_conflux_sdk.Common.Outcome.{ok, throw, crypto_exception}
use cpp_conflux_sdk.Common.{
  ℕ, zero, suc, ◌^◌, ◌≤◌, ◌≡◌, refl, ap, ◌∙◌, Bool, true, false, inl, inr, some, [], ◌∷◌, arith,
  Bytes, codes, length, All, IsByte, bytes_eq_refl, ◌==◌, Bool-cases, Option-cases,
}
use cpp_conflux_sdk.CommonData.HexText.{dont_throw, throw_error, to_hex}
use cpp_conflux_sdk.CommonData.HexText.RoundTrip.{from_hex-to_hex}
use cpp_conflux_sdk.FixedHash.{less, copy_left, of_bytes, of_hex, align_left, fail_if_different}
use cpp_conflux_sdk.Keys.{Libraries}
use cpp_conflux_sdk.Keys.Json.{Value, Fields, end, str, obj, has, at, set, at-set, has-set}
use cpp_conflux_sdk.Keys.Envelope.{
  Kdf, pbkdf2_sha256, scrypt, is_key_size, is_compat, pbkdf2, scrypt_key, encrypt_sym, decrypt_sym,
  pbkdf2_fields, scrypt_fields, derive_new_key, mac_of, envelope, sealed, encrypt, derive_pbkdf2,
  derive_scrypt, derive_key, check_mac, decrypt_cipher, opened, decrypt,
}

-- What the libraries document: JSON that was written is read back; a derived key has the length asked
-- for; decryption undoes encryption, which keeps the length; a hash has 32 bytes.
pub record IsDocumented {Text : Type 0} (l : Libraries Text) : Type 0 where
  pub read_written : (pretty : Bool) (v : Value) → l.read (l.write pretty v) ≡ v
  pub pbkdf2_length :
      (pass salt : Bytes) (n dk_len : ℕ) (key : Bytes)
      → l.pbkdf2_derive pass salt n dk_len ≡ some key
      → length key ≡ dk_len
  pub scrypt_length :
      (pass salt : Bytes) (n r p dk_len : ℕ) (key : Bytes)
      → l.scrypt_derive pass salt n r p dk_len ≡ some key
      → length key ≡ dk_len
  pub ctr_undone :
      (key iv plain cipher : Bytes)
      → l.ctr_encrypt key iv plain ≡ some cipher
      → l.ctr_decrypt key iv cipher ≡ some plain
  pub ctr_bytes :
      (key iv plain cipher : Bytes) → l.ctr_encrypt key iv plain ≡ some cipher → All IsByte cipher
  pub keccak_bytes : (d : Bytes) → All IsByte (l.keccak d)
  pub keccak_length : (d : Bytes) → length (l.keccak d) ≡ 32

-- Bytes of the size of a hash, as text and as a hash again.
pub of_hex-to_hex :
    (n : ℕ) (h : Bytes) → All IsByte h → length h ≡ n → of_hex n (to_hex h) fail_if_different ≡ ok h
unfolding of_hex of_bytes
of_hex-to_hex n h bs size = rw ((from_hex-to_hex h throw_error bs).0, size) (ground arith)

pub length-copy_left : (n : ℕ) (b : Bytes) → length (copy_left n b) ≡ n
unfolding copy_left
length-copy_left zero b = refl
length-copy_left (suc n) [] = ap suc (length-copy_left n [])
length-copy_left (suc n) (x ∷ b) = ap suc (length-copy_left n b)

length-of_bytes : (n : ℕ) (b : Bytes) → length (of_bytes n b align_left) ≡ n
unfolding of_bytes
length-of_bytes n b = elim (Bool-cases (length b == n)) [
  | inl same ↦ rw same (ground arith)
  | inr other ↦ rw other (length-copy_left n b)
]

module _ {Text : Type 0} (l : Libraries Text) (documented : IsDocumented l) where
  module _ (ret : Fields) (derived_key iv cipher : Bytes) where
    abbrev o : Fields
    o = envelope l ret derived_key iv cipher

    at_mac : at (codes "mac") o ≡ str (to_hex (mac_of l derived_key cipher))
    unfolding envelope
    at_mac = simp at-set

    has_mac : has (codes "mac") o ≡ true
    unfolding envelope
    has_mac = simp has-set

    at_ciphertext : at (codes "ciphertext") o ≡ str (to_hex cipher)
    unfolding envelope
    at_ciphertext = simp at-set

    at_cipherparams : at (codes "cipherparams") o ≡ obj (set (codes "iv") (str (to_hex iv)) end)
    unfolding envelope
    at_cipherparams = simp at-set

    at_cipher : at (codes "cipher") o ≡ str (codes "aes-128-ctr")
    unfolding envelope
    at_cipher = simp at-set

    at_kdf : at (codes "kdf") o ≡ at (codes "kdf") ret
    unfolding envelope
    at_kdf = simp at-set

    at_kdfparams : at (codes "kdfparams") o ≡ at (codes "kdfparams") ret
    unfolding envelope
    at_kdfparams = simp at-set

    is_compat-false : has (codes "compat") ret ≡ false → is_compat o ≡ ok false
    unfolding is_compat
    is_compat-false none_there =
        let same : has (codes "compat") (envelope l ret derived_key iv cipher) ≡ false =
          (unfold envelope in simp (has-set, none_there)) in
        rw same

    mac-IsByte : All IsByte (mac_of l derived_key cipher)
    unfolding mac_of
    mac-IsByte = documented.keccak_bytes _

    length-mac_of : length (mac_of l derived_key cipher) ≡ 32
    unfolding mac_of
    length-mac_of = documented.keccak_length _

    check_mac-envelope :
        has (codes "compat") ret ≡ false → check_mac l o derived_key cipher ≡ ok true
    unfolding check_mac
    check_mac-envelope none_there =
        let mac = mac_of l derived_key cipher in
        let read = of_hex-to_hex 32 mac mac-IsByte length-mac_of in
        rw (has_mac, at_mac, read, is_compat-false none_there) (ap ok (bytes_eq_refl mac))

    decrypt_cipher-envelope :
        (plain : Bytes)
        → has (codes "compat") ret ≡ false
        → All IsByte iv
        → length iv ≡ 16
        → decrypt_sym l (of_bytes 16 derived_key align_left) iv cipher ≡ plain
        → decrypt_cipher l o derived_key cipher ≡ ok plain
    unfolding decrypt_cipher
    decrypt_cipher-envelope plain none_there bs size undone =
        rw (at_cipher, at_cipherparams, of_hex-to_hex 16 iv bs size, is_compat-false none_there)
          (ap ok undone)

    opened-envelope :
        (plain : Bytes)
        → has (codes "compat") ret ≡ false
        → All IsByte iv
        → length iv ≡ 16
        → All IsByte cipher
        → length derived_key ≡ 32
        → decrypt_sym l (of_bytes 16 derived_key align_left) iv cipher ≡ plain
        → opened l o derived_key ≡ ok plain
    unfolding opened
    opened-envelope plain none_there bs size bytes key_size undone = rw (
      key_size,
      at_ciphertext,
      (from_hex-to_hex cipher dont_throw bytes).0,
      check_mac-envelope none_there,
      decrypt_cipher-envelope plain none_there bs size undone,
    )

  -- The fields that `deriveNewKey` writes, and the key that is derived from them again.
  module _ (pass salt key iv cipher : Bytes) (bs : All IsByte salt) where
    derive_key-pbkdf2 :
        l.pbkdf2_derive pass salt (2 ^ 18) 32 ≡ some key
        → derive_key l (envelope l (pbkdf2_fields salt end) key iv cipher) pass ≡ ok (some key)
    unfolding derive_key derive_pbkdf2 pbkdf2
    derive_key-pbkdf2 h =
        let ret = pbkdf2_fields salt end in
        let kdf : at (codes "kdf") ret ≡ str (codes "pbkdf2") = unfold pbkdf2_fields less in refl in
        rw (at_kdf ret key iv cipher, kdf, at_kdfparams ret key iv cipher)
          (unfold pbkdf2_fields less in rw ((from_hex-to_hex salt dont_throw bs).0, h) refl)

    derive_key-scrypt :
        l.scrypt_derive pass salt (2 ^ 18) 8 1 32 ≡ some key
        → derive_key l (envelope l (scrypt_fields salt end) key iv cipher) pass ≡ ok (some key)
    unfolding derive_key derive_scrypt scrypt_key
    derive_key-scrypt h =
        let ret = scrypt_fields salt end in
        let kdf : at (codes "kdf") ret ≡ str (codes "scrypt") = unfold scrypt_fields less in refl in
        rw (at_kdf ret key iv cipher, kdf, at_kdfparams ret key iv cipher)
          (unfold scrypt_fields less in rw ((from_hex-to_hex salt dont_throw bs).0, h) refl)

  -- A cipher text of some bytes came out of AES, and goes back into it.
  pub decrypt_sym-encrypt_sym :
      (k iv v cipher : Bytes)
      → length k ≡ 16
      → encrypt_sym l k iv v ≡ cipher
      → 1 ≤ length cipher
      → (decrypt_sym l k iv cipher ≡ v) × All IsByte cipher
  unfolding encrypt_sym decrypt_sym is_key_size
  decrypt_sym-encrypt_sym k iv v cipher size h some_bytes =
      elim (Option-cases (l.ctr_encrypt k iv v)) [
        | inl nothing ↦
            let empty : [] ≡ cipher = rw (size, nothing) at h in
            absurd (omega (arith, ap (λ (t : Bytes). length t) empty))
        | inr (c, e) ↦
            let same : c ≡ cipher = rw (size, e) at h in
            let e' : l.ctr_encrypt k iv v ≡ some cipher = e ∙ ap some same in
            (
              rw (size, documented.ctr_undone k iv v cipher e') refl,
              documented.ctr_bytes k iv v cipher e',
            )
      ]

  -- What has been sealed under a key that the fields tell again is opened.
  decrypt-sealed :
      (ret : Fields) (key iv v pass : Bytes) (text : Text)
      → ((cipher : Bytes) → derive_key l (envelope l ret key iv cipher) pass ≡ ok (some key))
      → has (codes "compat") ret ≡ false
      → length key ≡ 32
      → All IsByte iv
      → length iv ≡ 16
      → sealed l ret key iv (encrypt_sym l (of_bytes 16 key align_left) iv v) ≡ ok text
      → decrypt l text pass ≡ ok v
  unfolding sealed decrypt
  decrypt-sealed ret key iv v pass text derived none_there size bs iv_size h =
      let cipher = encrypt_sym l (of_bytes 16 key align_left) iv v in
      elim (Bool-cases (length cipher == 0)) [
        | inl nothing ↦ let wrong : throw crypto_exception ≡ ok text = rw nothing at h in cc
        | inr some_bytes ↦
            let written : l.write true (obj (envelope l ret key iv cipher)) ≡ text =
              (let e : ok (l.write true (obj (envelope l ret key iv cipher))) ≡ ok text =
                  rw some_bytes at h in
                cc) in
            let (undone, bytes) =
              decrypt_sym-encrypt_sym (of_bytes 16 key align_left) iv v cipher
                (length-of_bytes 16 key) refl (ground arith) in
            rw
              (
                ← written,
                documented.read_written true (obj (envelope l ret key iv cipher)),
                derived cipher,
              )
              (opened-envelope ret key iv cipher v none_there bs iv_size bytes size undone)
      ]

  -- If the libraries do what they document: what `encrypt` returns for a secret, with some password, one of
  -- the two functions that derive keys, salt and initialisation vector, is decrypted with that
  -- password to the secret.
  pub decrypt-encrypt :
      (v pass salt iv : Bytes) (kdf : Kdf) (text : Text)
      → All IsByte salt
      → All IsByte iv
      → length iv ≡ 16
      → encrypt l v pass kdf salt iv ≡ ok text
      → decrypt l text pass ≡ ok v
  unfolding encrypt derive_new_key pbkdf2 scrypt_key
  decrypt-encrypt v pass salt iv pbkdf2_sha256 text salted bs size h =
      elim (Option-cases (l.pbkdf2_derive pass salt (2 ^ 18) 32)) [
        | inl nothing ↦ let wrong : throw crypto_exception ≡ ok text = rw nothing at h in cc
        | inr (key, e) ↦
            let key_size = documented.pbkdf2_length pass salt (2 ^ 18) 32 key e in
            decrypt-sealed (pbkdf2_fields salt end) key iv v pass text
              (λ cipher. derive_key-pbkdf2 pass salt key iv cipher salted e)
              (unfold pbkdf2_fields less in refl) key_size bs size (rw (e, key_size) at h)
      ]
  decrypt-encrypt v pass salt iv scrypt text salted bs size h =
      elim (Option-cases (l.scrypt_derive pass salt (2 ^ 18) 8 1 32)) [
        | inl nothing ↦ let wrong : throw crypto_exception ≡ ok text = rw nothing at h in cc
        | inr (key, e) ↦
            let key_size = documented.scrypt_length pass salt (2 ^ 18) 8 1 32 key e in
            decrypt-sealed (scrypt_fields salt end) key iv v pass text
              (λ cipher. derive_key-scrypt pass salt key iv cipher salted e)
              (unfold scrypt_fields less in refl) key_size bs size (rw (e, key_size) at h)
      ]
