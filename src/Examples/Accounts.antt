-- ===== src/Examples/Accounts.antt =====
-- Runs of the store and of the manager of keys, without a keys file.
use cpp_conflux_sdk.Common.Outcome.{ok}
use cpp_conflux_sdk.Common.{
  ◌≡◌, ◌++◌, true, false, refl, some, none, Option, [], ◌∷◌, Bytes, codes, bytes_eq, replicate,
}
use cpp_conflux_sdk.FixedHash.{is_set, less, of_bytes, copy_left, right160, to_uuid}
use cpp_conflux_sdk.Keys.Json.{Value}
use cpp_conflux_sdk.Keys.Envelope.{pbkdf2}
use cpp_conflux_sdk.Keys.Store.{
  EncryptedKey, SecretStore, remove_file, import_secret, imported, save, save_keys,
  key_pair_address, to_address, key_file, key_in, kill_entry, note_address, coded_again,
  clear_cache,
}
use cpp_conflux_sdk.Keys.Store
use cpp_conflux_sdk.Keys.Manager.{
  KeyInfo, KeyManager, construct, note_keys, hash_password, cache_password, import_key,
  import_existing, noted, forget, uuid_of, accounts, with_infos, with_addresses, has_account,
  any_address, account_name, password_hint, hash_of, have_hint, note_hint, kill,
}
use cpp_conflux_sdk.Keys.Manager
use cpp_conflux_sdk.Keys.Table.{lookup}
use cpp_conflux_sdk.Keys.Manager.Matched.{IsMatched, IsListed}
use cpp_conflux_sdk.Keys.Manager.Lookups.{by_import, Step-IsMatched}
use cpp_conflux_sdk.Examples.Toys.{toys}
use cpp_conflux_sdk.Examples.Envelopes.{
  a_secret, a_password, a_salt, a_vector, a_text, secret_coded,
}

abbrev identifier : Bytes
identifier = replicate 16 0xab

-- The hash of the secret's public key, without its first bytes.
abbrev address : Bytes
address = replicate 20 0xa0

abbrev fresh : KeyManager Value
fresh =
    construct toys (codes "/keys.info") (record { cached = []; keys = []; path = []; effects = [] })

abbrev pass_hash : Bytes
pass_hash = a_password ++ replicate 21 0

abbrev info : KeyInfo
info = record { pass_hash = pass_hash; account_name = codes "savings"; password_hint = [] }

abbrev key : EncryptedKey Value
key = record { encrypted_key = a_text; filename = to_uuid identifier; address = address }

abbrev full : KeyManager Value
full = record fresh {
  uuid_lookup = (identifier, address) ∷ [];
  addr_lookup = (address, identifier) ∷ [];
  key_info = (address, info) ∷ [];
  password_hints = (pass_hash, codes "cave") ∷ [];
  cached_passwords = (pass_hash, a_password) ∷ [];
  store = record {
    cached = (identifier, a_secret) ∷ [];
    keys = (identifier, key) ∷ [];
    path = [];
    effects = [];
  };
}

key_imported :
    import_key toys bytes_eq identifier a_salt a_vector a_secret
      (codes "savings")
      a_password
      (codes "cave")
      fresh
    ≡ ok (identifier, full)
unfolding import_key construct note_keys hash_password cache_password pbkdf2 of_bytes copy_left
    import_secret imported save noted Manager.write is_set key_pair_address to_address right160
key_imported = rw secret_coded refl

fresh-IsMatched : IsMatched fresh
unfolding construct note_keys
fresh-IsMatched = (
  λ a b found. absurd (let wrong : ◌≡◌ {A = Option Bytes} none (some b) = found in cc),
  λ a b found. absurd (let wrong : ◌≡◌ {A = Option Bytes} none (some b) = found in cc),
)

identifier_is_free : lookup identifier fresh.uuid_lookup ≡ none
unfolding construct note_keys
identifier_is_free = refl

address_is_free : lookup (key_pair_address toys a_secret) fresh.addr_lookup ≡ none
unfolding construct note_keys
address_is_free = refl

Step-IsMatched_example :
    IsMatched full
    × ((identifier ≡ identifier)
        × IsListed identifier (key_pair_address toys a_secret) (codes "savings") full)
Step-IsMatched_example =
    Step-IsMatched toys bytes_eq
      (by_import identifier a_salt a_vector a_secret (codes "savings") a_password (codes "cave")
        identifier fresh full identifier_is_free address_is_free key_imported)
      fresh-IsMatched

found :
    (accounts full ≡ (address, tt) ∷ [])
    × (has_account address full ≡ true)
    × (has_account (replicate 20 0) full ≡ false)
    × (account_name address full ≡ codes "savings")
    × (password_hint address full ≡ codes "cave")
    × (hash_of (some address) full ≡ pass_hash)
unfolding accounts with_infos with_addresses has_account any_address is_set account_name
    password_hint hash_of construct note_keys less
found = (refl, refl, refl, refl, refl, refl)

-- The key is removed; no file is removed but its own.
account_killed :
    Manager.kill toys address full
    ≡ ok (record full {
      uuid_lookup = [];
      addr_lookup = [];
      key_info = [];
      store = record {
        cached = [];
        keys = [];
        path = [];
        effects = remove_file (to_uuid identifier) ∷ [];
      };
    })
unfolding Manager.kill forget uuid_of Store.kill kill_entry Manager.write is_set construct note_keys
account_killed = refl

-- An address that is not known is noted, one that is known stays.
noted_address :
    (note_address identifier address full.store ≡ (false, full.store))
    × (key_in address full.store.keys ≡ some (identifier, key))
    × ((clear_cache full.store).cached ≡ [])
unfolding note_address key_in clear_cache construct note_keys
noted_address = (refl, refl, refl)

hints :
    (have_hint toys a_password full ≡ ok true)
    × (have_hint toys (codes "other") full ≡ ok false)
    × (note_hint toys a_password [] full ≡ ok full)
unfolding have_hint note_hint hash_password pbkdf2 of_bytes copy_left construct note_keys
hints = (refl, refl, refl)

-- A key that is known is given another name.
key_renamed :
    import_existing toys bytes_eq identifier (codes "spare") address pass_hash [] full
    ≡ ok (record full { key_info = (address, record info { account_name = codes "spare" }) ∷ [] })
unfolding import_existing noted Manager.write is_set construct note_keys
key_renamed = refl
