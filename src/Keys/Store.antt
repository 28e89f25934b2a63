-- ===== src/Keys/Store.antt =====
-- libdevcrypto/SecretStore.cpp: encrypted keys by their identifiers, with the secrets that are known.
-- Writing and removing files is a log of what is asked of the file system; the contents of a directory
-- are an argument of `load`. What the code draws at random is an argument.
pub mod KeyFiles
pub mod Imports
pub mod Files
use cpp_conflux_sdk.Common.Outcome.{Outcome, ok, throw, out_of_range, ◌>>=◌}
use cpp_conflux_sdk.Common.{
  ℕ, Bool, true, false, not, ◌&&◌, Option, none, some, List, [], ◌∷◌, ◌++◌, map, Bytes, codes,
  length, replicate, bytes_eq, ◌==◌, if◌then◌else◌,
}
use cpp_conflux_sdk.CommonData.HexText.{is_hex, to_hex}
use cpp_conflux_sdk.FixedHash.{
  is_set, right160, of_bytes, of_hex, to_uuid, from_uuid, fail_if_different,
}
use cpp_conflux_sdk.Keys.{Libraries}
use cpp_conflux_sdk.Keys.Json.{
  Value, Fields, null, other, num, str, obj, end, has, at, set, get_str, get_obj,
}
use cpp_conflux_sdk.Keys.Table.{Table, lookup, contains, insert, erase}
use cpp_conflux_sdk.Keys.Envelope.{Kdf, encrypt, decrypt}
use cpp_conflux_sdk.Keys.Upgrade.{upgraded}

pub record EncryptedKey (Text : Type 0) : Type 0 where
  pub encrypted_key : Text
  pub filename : Bytes
  pub address : Bytes

-- What is asked of the file system.
pub data Effect (Text : Type 0) : Type 0 where
  write_file : Bytes → Text → Effect Text
  remove_file : Bytes → Effect Text

pub record SecretStore (Text : Type 0) : Type 0 where
  pub cached : Table Bytes
  pub keys : Table (EncryptedKey Text)
  pub path : Bytes
  pub effects : List (Effect Text)

abbrev pub zero_address : Bytes
zero_address = replicate 20 0

module _ {Text : Type 0} where
  -- `noteAddress`.
  unfoldable pub note_address : Bytes → Bytes → SecretStore Text → Bool × SecretStore Text
  note_address uuid address st = elim (lookup uuid st.keys) [
    | none ↦ (false, st)
    | some k ↦
        if bytes_eq k.address zero_address
        then (true, record st { keys = insert uuid (record k { address = address }) st.keys })
        else (false, st)
  ]

  -- `address(uuid)`.
  unfoldable pub address_of : Bytes → SecretStore Text → Outcome Bytes
  address_of uuid st = elim (lookup uuid st.keys) [
    | none ↦ throw out_of_range
    | some k ↦ ok k.address
  ]

  -- `key(address)`: the first entry with the address.
  unfoldable pub key_in : Bytes → Table (EncryptedKey Text) → Option (Bytes × EncryptedKey Text)
  key_in address [] = none
  key_in address ((uuid, k) ∷ t) =
      if bytes_eq k.address address then some (uuid, k) else key_in address t

  -- `kill`, with the entry of the key if there is one.
  unfoldable pub kill_entry :
      Bytes → Option (EncryptedKey Text) → SecretStore Text → SecretStore Text
  kill_entry uuid none st = st
  kill_entry uuid (some k) st = record st {
    keys = erase uuid st.keys;
    effects = st.effects ++ (remove_file k.filename ∷ []);
  }

  unfoldable pub kill : Bytes → SecretStore Text → SecretStore Text
  kill uuid st = kill_entry uuid (lookup uuid st.keys) (record st { cached = erase uuid st.cached })

  unfoldable pub clear_cache : SecretStore Text → SecretStore Text
  clear_cache st = record st { cached = [] }

-- `m_keys[uuid]` with another text.
unfoldable pub coded_again : {Text : Type 0} → Text → Option (EncryptedKey Text) → EncryptedKey Text
coded_again text (some k) = record k { encrypted_key = text }
coded_again text none = record { encrypted_key = text; filename = []; address = zero_address }

-- The address in a key file, or zeros.
unfoldable pub file_address : Fields → Outcome Bytes
file_address o =
    let told = get_str (at (codes "address") o) >>= λ hex.
    let address = of_hex 20 hex fail_if_different in
    if is_hex hex then address else ok zero_address in
    if has (codes "address") o then told else ok zero_address

module _ {Text : Type 0} (l : Libraries Text) where
  -- libdevcrypto/Common.cpp: `toAddress` of a secret, and the address of a `KeyPair`.
  unfoldable pub to_address : Bytes → Bytes
  to_address s = right160 (l.keccak (l.to_public s))

  unfoldable pub key_pair_address : Bytes → Bytes
  key_pair_address s = if is_set (l.to_public s) then to_address s else zero_address

  -- What `save` writes for one key.
  unfoldable pub key_fields : Bytes → EncryptedKey Text → Fields
  key_fields uuid k = set (codes "version") (num 3) (
      set (codes "id") (str (to_uuid uuid)) (
        set (codes "crypto") (l.read k.encrypted_key)
          (set (codes "address") (str (to_hex k.address)) end)))

  unfoldable pub key_file : Bytes → Bytes → Bytes
  key_file path uuid = l.join path (to_uuid uuid) ++ codes ".json"

  -- The new entries of `importSecret`.
  unfoldable pub imported : Bytes → Text → Bytes → SecretStore Text → SecretStore Text
  imported r text s st =
      let key : EncryptedKey Text = record {
        encrypted_key = text;
        filename = to_uuid r;
        address = key_pair_address (of_bytes 32 s fail_if_different);
      } in
      record st { cached = insert r s st.cached; keys = insert r key st.keys }

  -- A secret that was decrypted is kept, and the address of its key noted.
  unfoldable pub remembered : Bytes → Bytes → SecretStore Text → SecretStore Text
  remembered uuid key st =
      (note_address uuid (to_address (of_bytes 32 key fail_if_different))
        (record st { cached = insert uuid key st.cached })).1

  module _ (equivalent : Bytes → Bytes → Bool) where
    -- The loop of `save`: the file of each key is written, and one of another name is removed.
    unfoldable pub save_keys :
        Bytes → Table (EncryptedKey Text) → Table (EncryptedKey Text) × List (Effect Text)
    save_keys path [] = ([], [])
    save_keys path ((uuid, k) ∷ t) =
        let file = key_file path uuid in
        let written = write_file file (l.write true (obj (key_fields uuid k))) in
        let (keys, effects) = save_keys path t in
        let removed =
          if not (length k.filename == 0) && not (equivalent k.filename file)
          then remove_file k.filename ∷ []
          else [] in
        ((uuid, record k { filename = file }) ∷ keys, (written ∷ removed) ++ effects)

    -- `save(path)`; making the directory and its permissions are left to the file system.
    unfoldable pub save : Bytes → SecretStore Text → SecretStore Text
    save path st =
        let (keys, effects) = save_keys path st.keys in
        if length path == 0 then st else record st { keys = keys; effects = st.effects ++ effects }

    -- `importSecret`, with the random identifier.
    unfoldable pub import_secret :
        Bytes
        → Bytes
        → Bytes
        → Bytes
        → Bytes
        → SecretStore Text
        → Outcome (Bytes × SecretStore Text)
    import_secret r salt iv s pass st = do
      text ← encrypt l s pass Kdf.scrypt salt iv
      ok (r, save st.path (imported r text s st))

    -- `recode(uuid)`, once the secret is known.
    unfoldable pub recode_with :
        Bytes
        → Bytes
        → Kdf
        → Bytes
        → Bytes
        → Bytes
        → SecretStore Text
        → Outcome (Bool × SecretStore Text)
    recode_with uuid new_pass kdf salt iv s st =
        let coded = encrypt l s new_pass kdf salt iv >>= λ text.
        let st' = record st {
          cached = erase uuid st.cached;
          keys = insert uuid (coded_again text (lookup uuid st.keys)) st.keys;
        } in
        ok (true, save st'.path st') in
        if length s == 0 then ok (false, st) else coded

    -- `recode(address)`, with its key and the secret.
    unfoldable pub recode_address_with :
        Bytes
        → EncryptedKey Text
        → Bytes
        → Kdf
        → Bytes
        → Bytes
        → Bytes
        → SecretStore Text
        → Outcome (Bool × SecretStore Text)
    recode_address_with uuid k new_pass kdf salt iv s st =
        let coded = encrypt l s new_pass kdf salt iv >>= λ text.
        let st' = record st { keys = insert uuid (record k { encrypted_key = text }) st.keys } in
        ok (true, save st'.path st') in
        if length s == 0 then ok (false, st) else coded

  -- `secret(uuid)`. The password comes from a call, which has a state of its own.
  module _ {ℓ} {S : Type ℓ} (pass : S → Outcome (Bytes × S)) where
    unfoldable pub decrypted :
        Bytes
        → Option (EncryptedKey Text)
        → SecretStore Text
        → S
        → Outcome (Bytes × SecretStore Text × S)
    decrypted uuid none st s = ok ([], st, s)
    decrypted uuid (some k) st s = pass s >>= λ answer.
        decrypt l k.encrypted_key answer.0 >>= λ key.
        ok (key, (if length key == 0 then st else remembered uuid key st), answer.1)

    -- A secret that is kept is returned if that is allowed.
    unfoldable pub kept_or :
        Option Bytes
        → Bool
        → Outcome (Bytes × SecretStore Text × S)
        → SecretStore Text
        → S
        → Outcome (Bytes × SecretStore Text × S)
    kept_or (some key) use_cache asked st s = if use_cache then ok (key, st, s) else asked
    kept_or none use_cache asked st s = asked

    unfoldable pub secret :
        Bytes → Bool → SecretStore Text → S → Outcome (Bytes × SecretStore Text × S)
    secret uuid use_cache st s =
        kept_or (lookup uuid st.cached) use_cache (decrypted uuid (lookup uuid st.keys) st s) st s

    -- `secret(address)`.
    unfoldable pub secret_of_address : Bytes → SecretStore Text → S → Outcome (Bytes × S)
    secret_of_address address st s = elim (key_in address st.keys) [
      | none ↦ ok ([], s)
      | some (uuid, k) ↦
          pass s >>= λ answer. decrypt l k.encrypted_key answer.0 >>= λ key. ok (key, answer.1)
    ]

    unfoldable pub recode :
        (Bytes → Bytes → Bool)
        → Bytes
        → Bytes
        → Kdf
        → Bytes
        → Bytes
        → SecretStore Text
        → S
        → Outcome (Bool × SecretStore Text × S)
    recode equivalent uuid new_pass kdf salt iv st s = secret uuid true st s >>= λ found.
        recode_with equivalent uuid new_pass kdf salt iv found.0 found.1 >>= λ done.
        ok (done.0, done.1, found.2)

    unfoldable pub recode_address :
        (Bytes → Bytes → Bool)
        → Bytes
        → Bytes
        → Kdf
        → Bytes
        → Bytes
        → SecretStore Text
        → S
        → Outcome (Bool × SecretStore Text × S)
    recode_address equivalent address new_pass kdf salt iv st s = elim (key_in address st.keys) [
      | none ↦ ok (false, st, s)
      | some (uuid, k) ↦ secret_of_address address st s >>= λ found.
          recode_address_with equivalent uuid k new_pass kdf salt iv found.0 st >>= λ done.
          ok (done.0, done.1, found.1)
    ]
