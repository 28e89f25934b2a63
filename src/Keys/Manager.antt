-- ===== src/Keys/Manager.antt =====
-- libdevcore/KeyManager: names, password hints and passwords of the keys of a store, and the file that
-- keeps them. The calls that ask for a password have a state of their own; the password that ends a
-- call with an exception is one that throws. Files that are written are a log.
pub mod State
pub mod Passwords
pub mod Matched
pub mod Lookups
pub mod KeysFile
pub mod Writes
pub mod Load
use cpp_conflux_sdk.Common.Outcome.{Outcome, ok, throw, out_of_range, password_unknown, ◌>>=◌}
use cpp_conflux_sdk.Common.{
  ℕ, zero, suc, ◌^◌, Bool, true, false, not, ◌&&◌, ◌||◌, Option, none, some, List, [], ◌∷◌, ◌++◌,
  Bytes, codes, length, replicate, bytes_eq, ◌==◌, if◌then◌else◌,
}
use cpp_conflux_sdk.FixedHash.{is_set, of_bytes, fail_if_different}
use cpp_conflux_sdk.Rlp.Stream.{Stream, append, append_int, append_list, finished}
use cpp_conflux_sdk.Rlp.Stream
use cpp_conflux_sdk.Keys.{Libraries}
use cpp_conflux_sdk.Keys.Table.{Table, lookup, contains, insert, erase}
use cpp_conflux_sdk.Keys.Envelope.{Kdf, pbkdf2, encrypt_sym}
use cpp_conflux_sdk.Keys.Store.{
  EncryptedKey, SecretStore, zero_address, key_pair_address, import_secret,
}
use cpp_conflux_sdk.Keys.Store
pub use cpp_conflux_sdk.Keys.Manager.State.{
  KeyInfo, KeyManager, unknown_password, Query, dont_know_throw, or_else, info_hash,
}
unfoldable pub use cpp_conflux_sdk.Keys.Manager.State.{
  with_infos, stream_hints, uuid_of, address_of, hash_of, account_name, password_hint,
  with_addresses, accounts, any_address, has_account, stream_infos, stream_keys, noted, forget,
}

module _ {Text : Type 0} (l : Libraries Text) where
  -- The constructor, with the store and its keys.
  unfoldable pub note_keys : Table (EncryptedKey Text) → KeyManager Text → KeyManager Text
  note_keys [] m = m
  note_keys ((uuid, k) ∷ t) m = note_keys t (record m {
    addr_lookup = insert k.address uuid m.addr_lookup;
    uuid_lookup = insert uuid k.address m.uuid_lookup;
  })

  unfoldable pub construct : Bytes → SecretStore Text → KeyManager Text
  construct file store = note_keys store.keys (record {
    uuid_lookup = [];
    addr_lookup = [];
    key_info = [];
    password_hints = [];
    cached_passwords = [];
    default_password_deprecated = [];
    keys_file = file;
    keys_file_key = replicate 16 0;
    master = unknown_password;
    store = store;
    written = [];
  })

  unfoldable pub hash_password : Bytes → KeyManager Text → Outcome Bytes
  hash_password pass m = pbkdf2 l pass m.default_password_deprecated 262144 32 >>= λ h.
      ok (of_bytes 32 h fail_if_different)

  unfoldable pub cache_password : Bytes → KeyManager Text → Outcome (KeyManager Text)
  cache_password pass m = hash_password pass m >>= λ h.
      ok (record m { cached_passwords = insert h pass m.cached_passwords })

  unfoldable pub note_hint : Bytes → Bytes → KeyManager Text → Outcome (KeyManager Text)
  note_hint pass hint m =
      let noted = hash_password pass m >>= λ h.
      ok (record m { password_hints = insert h hint m.password_hints }) in
      if length hint == 0 then ok m else noted

  unfoldable pub have_hint : Bytes → KeyManager Text → Outcome Bool
  have_hint pass m = hash_password pass m >>= λ h.
      ok (elim (lookup h m.cached_passwords) [ some p ↦ not (length p == 0) | none ↦ false ])

  module _ {ℓ} {X : Type ℓ} (pass : Query X) where
    -- Whether an answer is the password: any one will do where the hash is not known.
    unfoldable pub is_right : Bytes → Bytes → KeyManager Text → Outcome Bool
    is_right pass_hash p m =
        let compared = hash_password p m >>= λ h. ok (bytes_eq h pass_hash) in
        if bytes_eq pass_hash unknown_password then ok true else compared

    -- The loop of `getPassword`, with the attempts that are left.
    unfoldable pub ask : ℕ → Bytes → KeyManager Text → X → Outcome (Bytes × KeyManager Text × X)
    ask zero pass_hash m x = ok ([], m, x)
    ask (suc attempts) pass_hash m x = pass x >>= λ answer.
        let accepted = cache_password answer.0 m >>= λ m'. ok (answer.0, m', answer.1) in
        let again = ask attempts pass_hash m answer.1 in
        let judged = is_right pass_hash answer.0 m >>= λ right. if right then accepted else again in
        if length answer.0 == 0 then ok ([], m, answer.1) else judged

    -- `getPassword`, with the cached password if there is one.
    unfoldable pub cached_or :
        Option Bytes
        → Outcome (Bytes × KeyManager Text × X)
        → KeyManager Text
        → X
        → Outcome (Bytes × KeyManager Text × X)
    cached_or (some p) asked m x = ok (p, m, x)
    cached_or none asked m x = asked

    unfoldable pub get_password_of_hash :
        Bytes → KeyManager Text → X → Outcome (Bytes × KeyManager Text × X)
    get_password_of_hash pass_hash m x =
        cached_or (lookup pass_hash m.cached_passwords) (ask 10 pass_hash m x) m x

    unfoldable pub get_password :
        Bytes → KeyManager Text → X → Outcome (Bytes × KeyManager Text × X)
    get_password uuid m x = get_password_of_hash (hash_of (lookup uuid m.uuid_lookup) m) m x

    -- The call that the store makes for a password: the manager is part of its state.
    unfoldable pub query_of : Bytes → KeyManager Text × X → Outcome (Bytes × (KeyManager Text × X))
    query_of uuid s = get_password uuid s.0 s.1 >>= λ r. ok (r.0, (r.1, r.2))

    -- `secret(uuid)`.
    unfoldable pub secret :
        Bytes → Bool → KeyManager Text → X → Outcome (Bytes × KeyManager Text × X)
    secret uuid use_cache m x =
        let with_cache = Store.secret l (query_of uuid) uuid true m.store (m, x) >>= λ r.
        ok (of_bytes 32 r.0 fail_if_different, record r.2.0 { store = r.1 }, r.2.1) in
        let without = Store.secret l pass uuid false m.store x >>= λ r.
        ok (of_bytes 32 r.0 fail_if_different, record m { store = r.1 }, r.2) in
        if use_cache then with_cache else without

    -- `secret(address)`.
    unfoldable pub secret_of_address :
        Bytes → Bool → KeyManager Text → X → Outcome (Bytes × KeyManager Text × X)
    secret_of_address address use_cache m x = elim (lookup address m.addr_lookup) [
      | some uuid ↦ secret uuid use_cache m x
      | none ↦ throw out_of_range
    ]

  -- The three forms of `write`.
  unfoldable pub write_key : Bytes → KeyManager Text → Outcome (KeyManager Text)
  write_key key m = do
    st ← stream_keys m Stream.empty
    out ← finished st
    let coded = encrypt_sym l key (replicate 16 0) out
    let m' = record m { written = m.written ++ ((m.keys_file, coded) ∷ []); keys_file_key = key }
    r ← get_password_of_hash dont_know_throw m'.master m' tt
    cache_password r.0 r.1

  unfoldable pub write : KeyManager Text → Outcome (Bool × KeyManager Text)
  write m =
      let done = write_key m.keys_file_key m >>= λ m'. ok (true, m') in
      if is_set m.keys_file_key then done else ok (false, m)

  unfoldable pub write_pass : Bytes → Bytes → KeyManager Text → Outcome (KeyManager Text)
  write_pass pass salt m = do
    k ← pbkdf2 l pass salt 262144 16
    let m1 = record m { written = m.written ++ ((m.keys_file ++ codes ".salt", salt) ∷ []) }
    m2 ← cache_password pass m1
    h ← hash_password pass m2
    write_key (of_bytes 16 k fail_if_different) (record m2 { master = h })

  -- `create`, with the random default password and salt.
  unfoldable pub create : Bytes → Bytes → Bytes → KeyManager Text → Outcome (KeyManager Text)
  create pass default salt m =
      write_pass pass salt (record m { default_password_deprecated = default })

  module _ (equivalent : Bytes → Bytes → Bool) where
    -- `import`, with the random identifier, salt and initialisation vector.
    unfoldable pub import_key :
        Bytes
        → Bytes
        → Bytes
        → Bytes
        → Bytes
        → Bytes
        → Bytes
        → KeyManager Text
        → Outcome (Bytes × KeyManager Text)
    import_key r salt iv s name pass hint m = do
      h ← hash_password pass m
      m1 ← cache_password pass m
      stored ← import_secret l equivalent r salt iv s pass m1.store
      let info : KeyInfo = record { pass_hash = h; account_name = name; password_hint = [] }
      let m2 = record m1 { password_hints = insert h hint m1.password_hints; store = stored.1 }
      done ← write (noted stored.0 (key_pair_address l s) info m2)
      ok (stored.0, done.1)

    -- `importExisting`, with the address and the hash of the password.
    unfoldable pub import_existing :
        Bytes → Bytes → Bytes → Bytes → Bytes → KeyManager Text → Outcome (KeyManager Text)
    import_existing uuid name address pass_hash hint m =
        let hints =
          if contains pass_hash m.password_hints
          then m.password_hints
          else insert pass_hash hint m.password_hints in
        let old : KeyInfo = elim (lookup address m.key_info) [
          | some k ↦ record k { pass_hash = pass_hash; account_name = name }
          | none ↦ record { pass_hash = pass_hash; account_name = name; password_hint = [] }
        ] in
        write (noted uuid address old (record m { password_hints = hints })) >>= λ done. ok done.1

    -- `importExisting`, with the password.
    unfoldable pub import_existing_with :
        Bytes → Bytes → Bytes → Bytes → KeyManager Text → Outcome (KeyManager Text)
    import_existing_with uuid info pass hint m =
        Store.secret l (λ (u : Unit {0}). ok (pass, u)) uuid true m.store tt >>= λ found.
        let m1 = record m { store = found.1 } in
        let imported = hash_password pass m1 >>= λ h.
        let cached = cache_password pass m1 in
        (if contains h m1.cached_passwords then ok m1 else cached) >>= λ m2.
        import_existing uuid info (key_pair_address l (of_bytes 32 found.0 fail_if_different)) h
          hint m2 in
        if length found.0 == 0 then ok m1 else imported

    -- `recode`.
    unfoldable pub recode {ℓ} :
        {X : Type ℓ}
        → Query X
        → Bytes
        → Bytes
        → Bytes
        → Kdf
        → Bytes
        → Bytes
        → KeyManager Text
        → X
        → Outcome (Bool × KeyManager Text × X)
    recode pass address new_pass hint kdf salt iv m x = note_hint new_pass hint m >>= λ m1.
        let u = uuid_of address m1 in
        Store.recode l (query_of pass u) equivalent u new_pass kdf salt iv m1.store (m1, x) >>= λ r.
        let m2 = record r.2.0 { store = r.1 } in
        let coded = hash_password new_pass m2 >>= λ h.
        let info : KeyInfo = elim (lookup address m2.key_info) [
          | some k ↦ record k { pass_hash = h }
          | none ↦ record { pass_hash = h; account_name = []; password_hint = [] }
        ] in
        write (record m2 { key_info = insert address info m2.key_info }) >>= λ done.
        ok (true, done.1, r.2.1) in
        if r.0 then coded else ok (false, m2, r.2.1)

  unfoldable pub kill : Bytes → KeyManager Text → Outcome (KeyManager Text)
  kill a m = write (forget a m) >>= λ done. ok done.1
