-- ===== src/Keys/Envelope/Authentic.antt =====
-- A secret is decrypted only from a cipher text with the right authentication code.
use cpp_conflux_sdk.Common.Outcome.{ok, >>=-eq-ok}
use cpp_conflux_sdk.Common.{
  ◌≤◌, ◌≡◌, ap, ◌∙◌, true, false, inl, inr, some, [], arith, Bytes, codes, length, bytes_eq,
  bytes_eq→eq, Bool-cases, Option-cases, ltb,
}
use cpp_conflux_sdk.CommonData.HexText.{dont_throw, from_hex}
use cpp_conflux_sdk.FixedHash.{of_hex, fail_if_different}
use cpp_conflux_sdk.Keys.{Libraries}
use cpp_conflux_sdk.Keys.Json.{Fields, obj, has, at, get_str}
use cpp_conflux_sdk.Keys.Envelope.{is_compat, mac_of, derive_key, check_mac, opened, decrypt}

-- No bytes are not some bytes.
some_bytes_only : (plain : Bytes) → ok [] ≡ ok plain → ¬ (1 ≤ length plain)
some_bytes_only plain h some_bytes =
    let empty : [] ≡ plain = cc in absurd (omega (arith, ap (λ (t : Bytes). length t) empty))

module _ {Text : Type 0} (l : Libraries Text) (o : Fields) (coded : has (codes "mac") o ≡ true)
    (current : is_compat o ≡ ok false) where
  check_mac-true :
      (key cipher : Bytes)
      → check_mac l o key cipher ≡ ok true
      → (text : Bytes) × (get_str (at (codes "mac") o) ≡ ok text)
        × (of_hex 32 text fail_if_different ≡ ok (mac_of l key cipher))
  unfolding check_mac
  check_mac-true key cipher h =
      let (text, read, h1) = >>=-eq-ok (get_str (at (codes "mac") o)) _ (rw coded at h) in
      let (mac, parsed, h2) = >>=-eq-ok (of_hex 32 text fail_if_different) _ h1 in
      let same : ok (bytes_eq mac (mac_of l key cipher)) ≡ ok true = rw current at h2 in
      let equal : bytes_eq mac (mac_of l key cipher) ≡ true = cc in
      (text, read, parsed ∙ ap ok (bytes_eq→eq mac (mac_of l key cipher) equal))

  -- What is known of a cipher text that was opened to some bytes.
  abbrev pub IsAuthentic : Bytes → Type 0
  IsAuthentic key =
      (cipher_hex cipher mac_hex : Bytes) × (get_str (at (codes "ciphertext") o) ≡ ok cipher_hex)
      × (from_hex cipher_hex dont_throw ≡ ok cipher)
      × (get_str (at (codes "mac") o) ≡ ok mac_hex)
      × (of_hex 32 mac_hex fail_if_different ≡ ok (mac_of l key cipher))

  opened-IsAuthentic :
      (key plain : Bytes) → opened l o key ≡ ok plain → 1 ≤ length plain → IsAuthentic key
  unfolding opened
  opened-IsAuthentic key plain h some_bytes = elim (Bool-cases (ltb (length key) 32)) [
    | inl short ↦ absurd (some_bytes_only plain (rw (short, current) at h) some_bytes)
    | inr long ↦
        let (hex, read, h1) = >>=-eq-ok (get_str (at (codes "ciphertext") o)) _ (rw long at h) in
        let (cipher, parsed, h2) = >>=-eq-ok (from_hex hex dont_throw) _ h1 in
        let (right, checked, h3) = >>=-eq-ok (check_mac l o key cipher) _ h2 in
        elim (Bool-cases right) [
          | inl yes_right ↦
              let (text, found, mac) = check_mac-true key cipher (checked ∙ ap ok yes_right) in
              (hex, cipher, text, read, parsed, found, mac)
          | inr wrong ↦ absurd (some_bytes_only plain (rw wrong at h3) some_bytes)
        ]
  ]

  -- Text of an object that has an authentication code and is not of the older kind: if it is decrypted to
  -- some bytes, the code in it is that of its cipher text under the key derived from the password.
  pub decrypt-IsAuthentic :
      (text : Text) (pass plain : Bytes)
      → l.read text ≡ obj o
      → decrypt l text pass ≡ ok plain
      → 1 ≤ length plain
      → (key : Bytes) × (derive_key l o pass ≡ ok (some key)) × IsAuthentic key
  unfolding decrypt
  decrypt-IsAuthentic text pass plain parsed h some_bytes =
      let (derived, from_pass, h1) = >>=-eq-ok (derive_key l o pass) _ (rw parsed at h) in
      elim (Option-cases derived) [
        | inl nothing ↦ absurd (some_bytes_only plain (rw nothing at h1) some_bytes)
        | inr (key, some_key) ↦ (
          key,
          from_pass ∙ ap ok some_key,
          opened-IsAuthentic key plain (rw some_key at h1) some_bytes,
        )
      ]
