-- ===== src/Keys/Manager/Load.antt =====
-- libdevcore/KeyManager.cpp: `load`, up to its handler. Where it throws here, the source answers false;
-- how far the manager has changed by then is not modelled. What is in the two files is an argument.
pub mod RoundTrip
pub mod Written
use cpp_conflux_sdk.Common.Outcome.{Outcome, ok, ◌>>=◌}
use cpp_conflux_sdk.Common.{
  ℕ, Bool, true, false, List, [], ◌∷◌, Bytes, length, replicate, ltb, ◌||◌, ◌==◌, if◌then◌else◌,
}
use cpp_conflux_sdk.FixedHash.{is_set, of_bytes, fail_if_different}
use cpp_conflux_sdk.Rlp.Reader.{Strictness, strict, very_strict, laissez_faire, construct}
use cpp_conflux_sdk.Rlp.Reader.Items.{item_count, visited}
use cpp_conflux_sdk.Rlp.Reader.Index.{Cache, no_access, at_index}
use cpp_conflux_sdk.Rlp.Reader.Values.{to_hash, to_string, to_int}
use cpp_conflux_sdk.Keys.{Libraries}
use cpp_conflux_sdk.Keys.Table.{contains, insert}
use cpp_conflux_sdk.Keys.Envelope.{pbkdf2, decrypt_sym}
use cpp_conflux_sdk.Keys.Store.{SecretStore, note_address, save}
use cpp_conflux_sdk.Keys.Manager.{KeyInfo, KeyManager, noted, hash_password, cache_password}

-- `KeyInfo(h256(i[2]), string(i[3]), i.itemCount() > 4 ? string(i[4]) : "")`.
unfoldable pub read_info : Bytes → Cache → Outcome KeyInfo
read_info i c = do
  f2 ← at_index i c 2
  h ← to_hash 32 f2.0 strict
  f3 ← at_index i f2.1 3
  name ← to_string f3.0 laissez_faire
  n ← item_count i
  hint ←
      (let told = at_index i f3.1 4 >>= λ f4. to_string f4.0 laissez_faire in
        if ltb 4 n then told else ok [])
  ok (record { pass_hash = h; account_name = name; password_hint = hint })

module _ {Text : Type 0} where
  -- The hints, each under the hash of its password.
  unfoldable pub read_hints : List Bytes → KeyManager Text → Outcome (KeyManager Text)
  read_hints [] m = ok m
  read_hints (i ∷ rest) m = do
    f0 ← at_index i no_access 0
    h ← to_hash 32 f0.0 strict
    f1 ← at_index i f0.1 1
    hint ← to_string f1.0 laissez_faire
    read_hints rest (record m { password_hints = insert h hint m.password_hints })

  -- A key that is in the store is entered in both lookups, and its address noted; whether that has
  -- changed the store is added to `saveRequired`.
  unfoldable pub adopted : Bytes → Bytes → KeyInfo → Bool → KeyManager Text → Bool × KeyManager Text
  adopted uuid address info required m =
      let (changed, store) = note_address uuid address m.store in
      (required || changed, record (noted uuid address info m) { store = store })

  unfoldable pub read_key : Bytes → Bool → KeyManager Text → Outcome (Bool × KeyManager Text)
  read_key i required m = do
    f1 ← at_index i no_access 1
    uuid ← to_hash 16 f1.0 strict
    f0 ← at_index i f1.1 0
    address ← to_hash 20 f0.0 strict
    let in_store = read_info i f0.1 >>= λ info. ok (adopted uuid address info required m)
    let no_uuid = read_info i f0.1 >>= λ info.
        ok (required, record m { key_info = insert address info m.key_info })
    (if is_set uuid
        then (if contains uuid m.store.keys then in_store else ok (required, m))
        else no_uuid)

  unfoldable pub read_keys : List Bytes → Bool → KeyManager Text → Outcome (Bool × KeyManager Text)
  read_keys [] required m = ok (required, m)
  read_keys (i ∷ rest) required m = read_key i required m >>= λ r. read_keys rest r.0 r.1

module _ {Text : Type 0} (l : Libraries Text) (equivalent : Bytes → Bytes → Bool) where
  -- What the decrypted file tells.
  unfoldable pub read_file : Bytes → KeyManager Text → Outcome (KeyManager Text)
  read_file bs m = do
    s ← construct bs very_strict
    f0 ← at_index s no_access 0
    version ← to_int 32 4 f0.0 strict
    let current = (do
      f1 ← at_index s f0.1 1
      keys ← visited f1.0
      r ← read_keys keys false m
      let saved = record r.1 { store = save l equivalent r.1.store.path r.1.store }
      f2 ← at_index s f1.1 2
      hints ← visited f2.0
      m' ← read_hints hints (if r.0 then saved else r.1)
      f3 ← at_index s f2.1 3
      default ← to_string f3.0 laissez_faire
      ok (record m' { default_password_deprecated = default }))
    (if version == 1 then current else ok m)

  -- The end of `load`: the passwords that are known from now on.
  unfoldable pub unlocked : Bytes → Bytes → KeyManager Text → Outcome (Bool × KeyManager Text)
  unlocked pass key m1 = do
    m2 ← cache_password l m1.default_password_deprecated m1
    m3 ← cache_password l key m2
    h ← hash_password l pass m3
    m4 ← cache_password l pass (record m3 { master = h })
    ok (true, m4)

  -- `load`, with the salt and what is in the keys file.
  unfoldable pub load : Bytes → Bytes → Bytes → KeyManager Text → Outcome (Bool × KeyManager Text)
  load pass salt enc_keys m =
      let opened = (do
        k ← pbkdf2 l pass salt 262144 16
        let key = of_bytes 16 k fail_if_different
        let bs = decrypt_sym l key (replicate 16 0) enc_keys
        m1 ← read_file bs (record m { keys_file_key = key })
        unlocked pass key m1) in
      if length enc_keys == 0 then ok (false, m) else opened
