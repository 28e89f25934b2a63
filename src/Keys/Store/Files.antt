-- ===== src/Keys/Store/Files.antt =====
-- A key file that was saved is read back.
use cpp_conflux_sdk.Common.Outcome.{ok}
use cpp_conflux_sdk.Common.{◌≡◌, refl, ap, Bool, true, false, Bytes, codes, length, All, IsByte}
use cpp_conflux_sdk.CommonData.HexText.{throw_error, is_hex, to_hex}
use cpp_conflux_sdk.CommonData.HexText.RoundTrip.{from_hex-to_hex}
use cpp_conflux_sdk.FixedHash.{to_uuid}
use cpp_conflux_sdk.FixedHash.Uuid.{plain, from_uuid-to_uuid}
use cpp_conflux_sdk.Keys.{Libraries}
use cpp_conflux_sdk.Keys.Json.{Fields, num, str, obj, has, at, at-set, has-set}
use cpp_conflux_sdk.Keys.Table.{insert}
use cpp_conflux_sdk.Keys.Envelope.{decrypt}
use cpp_conflux_sdk.Keys.Envelope.RoundTrip.{IsDocumented, of_hex-to_hex}
use cpp_conflux_sdk.Keys.Upgrade.{version_of, renamed, from_version, upgraded_value, upgraded}
use cpp_conflux_sdk.Keys.Store.KeyFiles.{read_fields, caught, read_key_content}
use cpp_conflux_sdk.Keys.Store.{EncryptedKey, SecretStore, key_fields, file_address}

module _ {Text : Type 0} (l : Libraries Text) (documented : IsDocumented l) (uuid : Bytes)
    (k : EncryptedKey Text) where
  abbrev o : Fields
  o = key_fields l uuid k

  -- An object of version 3 is as it was.
  upgraded-key_fields : (pretty : Bool) → upgraded l (l.write pretty (obj o)) ≡ ok (obj o)
  unfolding upgraded upgraded_value version_of
  upgraded-key_fields pretty =
      let no_old : has (codes "Version") o ≡ false = unfold key_fields in simp has-set in
      let new : has (codes "version") o ≡ true = unfold key_fields in simp has-set in
      let version : at (codes "version") o ≡ num 3 = unfold key_fields in simp at-set in
      let no_crypto : has (codes "Crypto") o ≡ false = unfold key_fields in simp has-set in
      let same : renamed o ≡ o = unfold renamed in rw no_crypto refl in
      rw (documented.read_written pretty (obj o), no_old, new, version)
        (unfold from_version in ap (λ (r : Fields). ok (obj r)) same)

  file_address-key_fields :
      All IsByte k.address → length k.address ≡ 20 → file_address o ≡ ok k.address
  unfolding file_address
  file_address-key_fields bs size =
      let told : has (codes "address") o ≡ true = unfold key_fields in simp has-set in
      let text : at (codes "address") o ≡ str (to_hex k.address) =
        unfold key_fields in simp at-set in
      let hex : is_hex (to_hex k.address) ≡ true = (from_hex-to_hex k.address throw_error bs).2 in
      rw (told, text, hex, of_hex-to_hex 20 k.address bs size)

  -- What is read from the file of a key, that is named there.
  abbrev pub read_back : Bytes → EncryptedKey Text
  read_back file = record {
    encrypted_key = l.write false (l.read k.encrypted_key);
    filename = file;
    address = k.address;
  }

  -- If the libraries do what they document: what `save` writes for a key is read by `readKeyContent` as
  -- that key, with the identifier, with the address and with a text that is decrypted as the text
  -- that was saved.
  pub read_key_content-key_fields :
      (without_dashes : Bytes → Bytes) (pretty : Bool) (file pass : Bytes) (st : SecretStore Text)
      → ((s : Bytes) → without_dashes s ≡ plain s)
      → All IsByte uuid
      → length uuid ≡ 16
      → All IsByte k.address
      → length k.address ≡ 20
      → (read_key_content l without_dashes (l.write pretty (obj o)) file st
          ≡ (uuid, record st { keys = insert uuid (read_back file) st.keys }))
        × (decrypt l (read_back file).encrypted_key pass ≡ decrypt l k.encrypted_key pass)
  unfolding read_key_content read_fields caught
  read_key_content-key_fields without_dashes pretty file pass st dashes ubs usize abs asize =
      let id : at (codes "id") o ≡ str (to_uuid uuid) = unfold key_fields in simp at-set in
      let crypto : at (codes "crypto") o ≡ l.read k.encrypted_key =
        unfold key_fields in simp at-set in
      let same = from_uuid-to_uuid without_dashes uuid dashes ubs usize in
      (
        rw (upgraded-key_fields pretty, id, file_address-key_fields abs asize, crypto, same),
        unfold decrypt in rw (documented.read_written false (l.read k.encrypted_key)) refl,
      )
