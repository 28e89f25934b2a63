-- ===== src/Examples/Stores.antt =====
-- The store of keys at concrete values.
use cpp_conflux_sdk.Common.Outcome.{Outcome, ok, throw, password_unknown}
use cpp_conflux_sdk.Common.{
  ℕ, suc, ◌≡◌, true, false, refl, some, [], ◌∷◌, arith, Bytes, codes, bytes_eq, replicate,
}
use cpp_conflux_sdk.FixedHash.Uuid.{plain}
use cpp_conflux_sdk.Keys.Json.{Value, obj}
use cpp_conflux_sdk.Keys.Table.{insert}
use cpp_conflux_sdk.Keys.Envelope.{Kdf, decrypt}
use cpp_conflux_sdk.Keys.Store.KeyFiles.{read_key_content}
use cpp_conflux_sdk.Keys.Store.{
  EncryptedKey, SecretStore, kill, secret, save, imported, import_secret, recode, recode_with,
  kept_or, coded_again, key_fields,
}
use cpp_conflux_sdk.Keys.Store.Imports.{secret-kill, secret-import_secret, secret-recode}
use cpp_conflux_sdk.Keys.Store.Files.{read_back, read_key_content-key_fields}
use cpp_conflux_sdk.Examples.Toys.{toys, toys-IsDocumented}
use cpp_conflux_sdk.Examples.Envelopes.{
  a_secret, a_password, a_salt, a_vector, a_text, secret_coded,
}

abbrev an_identifier : Bytes
an_identifier = replicate 16 0xab

abbrev a_key : EncryptedKey Value
a_key = record { encrypted_key = a_text; filename = codes "old.json"; address = replicate 20 0x1c }

abbrev one_key : SecretStore Value
one_key = record {
  cached = (an_identifier, a_secret) ∷ [];
  keys = (an_identifier, a_key) ∷ [];
  path = codes "/keys";
  effects = [];
}

abbrev no_keys : SecretStore Value
no_keys = record { cached = []; keys = []; path = codes "/keys"; effects = [] }

-- The state of what is asked for a password.
abbrev asked : Unit {0}
asked = tt

-- Nobody answers.
abbrev nobody : Unit {0} → Outcome (Bytes × Unit {0})
nobody u = throw password_unknown

secret-kill_example :
    secret toys nobody an_identifier true (kill an_identifier one_key) asked
    ≡ ok ([], kill an_identifier one_key, asked)
secret-kill_example = secret-kill toys nobody an_identifier true one_key asked

abbrev after_import : SecretStore Value
after_import =
    save toys bytes_eq (codes "/keys") (imported toys an_identifier a_text a_secret no_keys)

import_done :
    import_secret toys bytes_eq an_identifier a_salt a_vector a_secret a_password no_keys
    ≡ ok (an_identifier, after_import)
unfolding import_secret
import_done = rw secret_coded refl

secret-import_secret_example :
    (secret toys nobody an_identifier true after_import asked ≡ ok (a_secret, after_import, asked))
    × ((st : SecretStore Value) × (secret toys
            (λ q. ok (a_password, q))
            an_identifier
            false
            after_import
            asked
          ≡ ok (a_secret, st, asked)))
secret-import_secret_example =
    secret-import_secret toys toys-IsDocumented bytes_eq an_identifier a_salt a_vector a_secret
      a_password no_keys after_import asked nobody (ground arith) (ground arith) refl (ground arith)
      import_done

abbrev after_recode : SecretStore Value
after_recode = save toys bytes_eq (codes "/keys") (record one_key {
  cached = [];
  keys = insert an_identifier (coded_again a_text (some a_key)) one_key.keys;
})

-- One who tells the password and counts the calls, and one who never does.
abbrev counting : ℕ → Outcome (Bytes × ℕ)
counting n = ok (a_password, suc n)

abbrev silent : ℕ → Outcome (Bytes × ℕ)
silent n = throw password_unknown

recode_done :
    recode toys silent bytes_eq an_identifier a_password Kdf.scrypt a_salt a_vector one_key 0
    ≡ ok (true, after_recode, 0)
unfolding recode recode_with secret kept_or
recode_done = rw secret_coded refl

secret-recode_example :
    (key : Bytes) × (st1 st2 : SecretStore Value) × (secret toys silent an_identifier true one_key 0
      ≡ ok (key, st1, 0))
    × (secret toys counting an_identifier true after_recode 0 ≡ ok (key, st2, 1))
    × (secret toys silent an_identifier true after_recode 5 ≡ throw password_unknown)
secret-recode_example =
    secret-recode toys toys-IsDocumented bytes_eq silent counting silent an_identifier a_password
      a_salt a_vector Kdf.scrypt one_key after_recode 0 0 0 1 5 password_unknown true (ground arith)
      (ground arith) refl refl refl recode_done

read_key_content-key_fields_example :
    (read_key_content toys plain
        (obj (key_fields toys an_identifier a_key))
        (codes "new.json")
        no_keys
      ≡ (
        an_identifier,
        record no_keys {
          keys =
              insert an_identifier
                (read_back toys toys-IsDocumented an_identifier a_key (codes "new.json"))
                [];
        },
      ))
    × (decrypt toys
          (read_back toys toys-IsDocumented an_identifier a_key (codes "new.json")).encrypted_key
          a_password
        ≡ decrypt toys a_text a_password)
read_key_content-key_fields_example =
    read_key_content-key_fields toys toys-IsDocumented an_identifier a_key plain true
      (codes "new.json") a_password no_keys (λ s. refl) (ground arith) refl (ground arith) refl
