-- ===== src/Keys/Manager/State.antt =====
-- libdevcore/KeyManager: what the manager keeps, what it tells without a password, and its file.
use cpp_conflux_sdk.Common.Outcome.{Outcome, ok, throw, password_unknown, ◌>>=◌}
use cpp_conflux_sdk.Common.{
  Bool, false, ◌&&◌, ◌||◌, Option, none, some, List, [], ◌∷◌, Bytes, length, replicate, bytes_eq,
  ◌==◌, if◌then◌else◌,
}
use cpp_conflux_sdk.FixedHash.{is_set}
use cpp_conflux_sdk.Rlp.Stream.{Stream, append, append_int, append_list}
use cpp_conflux_sdk.Keys.Table.{Table, lookup, contains, insert, erase}
use cpp_conflux_sdk.Keys.Store.{
  EncryptedKey, SecretStore, zero_address, key_pair_address, import_secret,
}
use cpp_conflux_sdk.Keys.Store

pub record KeyInfo : Type 0 where
  pub pass_hash : Bytes
  pub account_name : Bytes
  pub password_hint : Bytes

pub record KeyManager (Text : Type 0) : Type 0 where
  pub uuid_lookup : Table Bytes
  pub addr_lookup : Table Bytes
  pub key_info : Table KeyInfo
  pub password_hints : Table Bytes
  pub cached_passwords : Table Bytes
  pub default_password_deprecated : Bytes
  pub keys_file : Bytes
  pub keys_file_key : Bytes
  pub master : Bytes
  pub store : SecretStore Text
  pub written : List (Bytes × Bytes)

abbrev pub unknown_password : Bytes
unknown_password = replicate 32 0

-- A call that asks for a password.
abbrev pub Query {ℓ} : Type ℓ → Type ℓ
Query X = X → Outcome (Bytes × X)

-- `DontKnowThrow`.
abbrev pub dont_know_throw : Query (Unit {0})
dont_know_throw x = throw password_unknown

abbrev pub or_else : Option Bytes → Bytes → Bytes
or_else (some b) d = b
or_else none d = d

abbrev pub info_hash : Option KeyInfo → Bytes
info_hash (some k) = k.pass_hash
info_hash none = unknown_password

unfoldable pub with_infos : Table KeyInfo → Table (Unit {0}) → Table (Unit {0})
with_infos [] set = set
with_infos ((address, k) ∷ t) set = with_infos t (insert address tt set)

unfoldable pub stream_hints : Table Bytes → Stream → Outcome Stream
stream_hints [] st = ok st
stream_hints ((hash, hint) ∷ t) st = do
  st ← append_list st 2
  st ← append st hash false
  st ← append st hint false
  stream_hints t st

module _ {Text : Type 0} where
  unfoldable pub uuid_of : Bytes → KeyManager Text → Bytes
  uuid_of a m = or_else (lookup a m.addr_lookup) (replicate 16 0)

  unfoldable pub address_of : Bytes → KeyManager Text → Bytes
  address_of uuid m = or_else (lookup uuid m.uuid_lookup) zero_address

  -- The hash of the password of a key, as far as it is known.
  unfoldable pub hash_of : Option Bytes → KeyManager Text → Bytes
  hash_of (some address) m = info_hash (lookup address m.key_info)
  hash_of none m = unknown_password

  unfoldable pub account_name : Bytes → KeyManager Text → Bytes
  account_name address m = elim (lookup address m.key_info) [ some k ↦ k.account_name | none ↦ [] ]

  unfoldable pub password_hint : Bytes → KeyManager Text → Bytes
  password_hint address m = elim (lookup address m.key_info) [
    | some k ↦
        if length k.password_hint == 0
        then or_else (lookup k.pass_hash m.password_hints) []
        else k.password_hint
    | none ↦ []
  ]

  -- The addresses in their order, each once; the zero address is no account.
  unfoldable pub with_addresses : Table (EncryptedKey Text) → Table (Unit {0}) → Table (Unit {0})
  with_addresses [] set = set
  with_addresses ((uuid, k) ∷ t) set = with_addresses t (insert k.address tt set)

  unfoldable pub accounts : KeyManager Text → Table (Unit {0})
  accounts m = erase zero_address (with_addresses m.store.keys (with_infos m.key_info []))

  unfoldable pub any_address : Bytes → Table (EncryptedKey Text) → Bool
  any_address address [] = false
  any_address address ((uuid, k) ∷ t) = bytes_eq k.address address || any_address address t

  unfoldable pub has_account : Bytes → KeyManager Text → Bool
  has_account address m =
      is_set address && (contains address m.key_info || any_address address m.store.keys)

  -- The keys file, before it is encrypted.
  unfoldable pub stream_infos : KeyManager Text → Table KeyInfo → Stream → Outcome Stream
  stream_infos m [] st = ok st
  stream_infos m ((address, k) ∷ t) st = do
    st ← append_list st 5
    st ← append st address false
    st ← append st (uuid_of address m) false
    st ← append st k.pass_hash false
    st ← append st k.account_name false
    st ← append st k.password_hint false
    stream_infos m t st

  unfoldable pub stream_keys : KeyManager Text → Stream → Outcome Stream
  stream_keys m st = do
    st ← append_list st 4
    st ← append_int st 1
    st ← append_list st (length m.key_info)
    st ← stream_infos m m.key_info st
    st ← append_list st (length m.password_hints)
    st ← stream_hints m.password_hints st
    append st m.default_password_deprecated false

  -- What `import` notes of a key that is in the store.
  unfoldable pub noted : Bytes → Bytes → KeyInfo → KeyManager Text → KeyManager Text
  noted uuid address info m = record m {
    key_info = insert address info m.key_info;
    addr_lookup = insert address uuid m.addr_lookup;
    uuid_lookup = insert uuid address m.uuid_lookup;
  }

  -- `kill`, up to the writing of the file.
  unfoldable pub forget : Bytes → KeyManager Text → KeyManager Text
  forget a m =
      let id = uuid_of a m in
      record m {
        uuid_lookup = erase id m.uuid_lookup;
        addr_lookup = erase a m.addr_lookup;
        key_info = erase a m.key_info;
        store = Store.kill id m.store;
      }
