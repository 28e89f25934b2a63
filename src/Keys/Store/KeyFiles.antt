-- ===== src/Keys/Store/KeyFiles.antt =====
-- libdevcrypto/SecretStore.cpp: the files of keys are read, one by one and all of a directory, and
-- imported; a secret is decrypted from what is in a file.
use cpp_conflux_sdk.Common.Outcome.{Outcome, ok, throw, ◌>>=◌}
use cpp_conflux_sdk.Common.{Bool, false, List, [], ◌∷◌, Bytes, codes, replicate, if◌then◌else◌}
use cpp_conflux_sdk.FixedHash.{is_set, from_uuid}
use cpp_conflux_sdk.Keys.{Libraries}
use cpp_conflux_sdk.Keys.Json.{Fields, null, other, num, str, obj, at, get_str}
use cpp_conflux_sdk.Keys.Table.{insert}
use cpp_conflux_sdk.Keys.Envelope.{decrypt}
use cpp_conflux_sdk.Keys.Upgrade.{upgraded}
use cpp_conflux_sdk.Keys.Store.{EncryptedKey, SecretStore, file_address, save}

module _ {Text : Type 0} (l : Libraries Text) where
  -- `secret(content, pass)`: what throws is caught.
  abbrev pub or_no_bytes : Outcome Bytes → Bytes
  or_no_bytes (ok b) = b
  or_no_bytes (throw e) = []

  unfoldable pub secret_of_content : Text → Bytes → Bytes
  secret_of_content content pass = or_no_bytes (
      upgraded l content >>= λ u. elim u [
        | obj o ↦ decrypt l (l.write false (at (codes "crypto") o)) pass
        | null ↦ ok []
        | other n ↦ ok []
        | num n ↦ ok []
        | str s ↦ ok []
      ])

  module _ (without_dashes : Bytes → Bytes) where
    unfoldable pub read_fields :
        Fields → Bytes → SecretStore Text → Outcome (Bytes × SecretStore Text)
    read_fields o file st = do
      id ← get_str (at (codes "id") o)
      address ← file_address o
      let uuid = from_uuid without_dashes id
      let text = l.write false (at (codes "crypto") o)
      let key : EncryptedKey Text = record {
        encrypted_key = text;
        filename = file;
        address = address;
      }
      ok (uuid, record st { keys = insert uuid key st.keys })

    unfoldable pub caught :
        SecretStore Text → Outcome (Bytes × SecretStore Text) → Bytes × SecretStore Text
    caught st (ok r) = r
    caught st (throw e) = (replicate 16 0, st)

    -- `readKeyContent`.
    unfoldable pub read_key_content : Text → Bytes → SecretStore Text → Bytes × SecretStore Text
    read_key_content content file st = caught st (
        upgraded l content >>= λ u. elim u [
          | obj o ↦ read_fields o file st
          | null ↦ ok (replicate 16 0, st)
          | other n ↦ ok (replicate 16 0, st)
          | num n ↦ ok (replicate 16 0, st)
          | str s ↦ ok (replicate 16 0, st)
        ])

    -- `importKeyContent`.
    unfoldable pub import_key_content :
        (Bytes → Bytes → Bool) → Text → SecretStore Text → Bytes × SecretStore Text
    import_key_content equivalent content st =
        let (ret, st') = read_key_content content [] st in
        if is_set ret then (ret, save l equivalent st'.path st') else (ret, st')

    -- `load`, over the regular files of the directory and what is in them.
    unfoldable pub load : List (Bytes × Text) → SecretStore Text → SecretStore Text
    load [] st = st
    load ((file, content) ∷ files) st = load files (read_key_content content file st).1
