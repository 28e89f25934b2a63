-- ===== src/Keys/Manager/Writes.antt =====
-- What the calls that write the keys file change, and what they put into it.
use cpp_conflux_sdk.Common.Outcome.{Outcome, ok, throw, password_unknown, ◌>>=◌, >>=-eq-ok}
use cpp_conflux_sdk.Common.{
  subst, ◌≡◌, sym, ap, ◌∙◌, Bool, false, [], ◌∷◌, ◌++◌, Bytes, replicate, Bool-cases, Option-cases,
  inl, inr,
}
use cpp_conflux_sdk.FixedHash.{is_set}
use cpp_conflux_sdk.Rlp.Stream.{empty, finished}
use cpp_conflux_sdk.Keys.{Libraries}
use cpp_conflux_sdk.Keys.Table.{Table, lookup, insert}
use cpp_conflux_sdk.Keys.Envelope.{encrypt_sym}
use cpp_conflux_sdk.Keys.Manager.{
  KeyManager, dont_know_throw, hash_password, cache_password, ask, cached_or, get_password_of_hash,
  stream_keys, write_key, write,
}

-- The keys that are known are the same.
pub record HasKeysOf {Text : Type 0} (m m' : KeyManager Text) : Type 0 where
  pub infos : m'.key_info ≡ m.key_info
  pub addresses : m'.addr_lookup ≡ m.addr_lookup
  pub uuids : m'.uuid_lookup ≡ m.uuid_lookup

pub HasKeysOf-eq : {Text : Type 0} {m m' : KeyManager Text} → m ≡ m' → HasKeysOf m m'
HasKeysOf-eq e = record {
  infos = ap (λ (x : KeyManager _). x.key_info) (sym e);
  addresses = ap (λ (x : KeyManager _). x.addr_lookup) (sym e);
  uuids = ap (λ (x : KeyManager _). x.uuid_lookup) (sym e);
}

module _ {Text : Type 0} (l : Libraries Text) where
  pub cache_password-keeps :
      (pass : Bytes) (m m' : KeyManager Text)
      → cache_password l pass m ≡ ok m'
      → (t : Table Bytes) × (record m { cached_passwords = t } ≡ m')
  unfolding cache_password
  cache_password-keeps pass m m' h =
      let (g, hashed, h1) = >>=-eq-ok (hash_password l pass m) _ h in
      let same : record m { cached_passwords = insert g pass m.cached_passwords } ≡ m' = cc in
      (insert g pass m.cached_passwords, same)

  -- A password that nobody can be asked for is one that is kept.
  stored_password-keeps :
      (hash p : Bytes) (m m' : KeyManager Text) (u : Unit {0})
      → get_password_of_hash l dont_know_throw hash m tt ≡ ok (p, m', u)
      → m ≡ m'
  unfolding get_password_of_hash cached_or ask
  stored_password-keeps hash p m m' u h = elim (Option-cases (lookup hash m.cached_passwords)) [
    | inl absent ↦
        let refused : ◌≡◌ {A = Outcome (Bytes × KeyManager Text × Unit {0})}
            (throw password_unknown) (ok (p, m', u)) =
          rw absent at h in
        cc
    | inr (q, found) ↦
        let kept : ◌≡◌ {A = Outcome (Bytes × KeyManager Text × Unit {0})} (ok (q, m, tt))
            (ok (p, m', u)) =
          rw found at h in
        cc
  ]

  -- A manager that has written its file: the file, the key of the file and the kept passwords are new.
  pub write_key-keeps :
      (key : Bytes) (m m' : KeyManager Text)
      → write_key l key m ≡ ok m'
      → (out : Bytes) × (t : Table Bytes) × ((stream_keys m empty >>= finished) ≡ ok out)
        × (record m {
          written = m.written ++ ((m.keys_file, encrypt_sym l key (replicate 16 0) out) ∷ []);
          keys_file_key = key;
          cached_passwords = t;
        }
            ≡ m')
  unfolding write_key
  write_key-keeps key m m' h =
      let (st, streamed, h1) = >>=-eq-ok (stream_keys m empty) _ h in
      let (out, ended, h2) = >>=-eq-ok (finished st) _ h1 in
      let m1 = record m {
        written = m.written ++ ((m.keys_file, encrypt_sym l key (replicate 16 0) out) ∷ []);
        keys_file_key = key;
      } in
      let (r, told, h3) = >>=-eq-ok (get_password_of_hash l dont_know_throw m.master m1 tt) _ h2 in
      let (t, kept) = cache_password-keeps r.0 r.1 m' h3 in
      let same = stored_password-keeps m.master r.0 m1 r.1 r.2 told in
      (
        out,
        t,
        ap (λ s. s >>= finished) streamed ∙ ended,
        ap (λ (x : KeyManager Text). record x { cached_passwords = t }) same ∙ kept,
      )

  pub write-HasKeysOf :
      (m m' : KeyManager Text) (done : Bool) → write l m ≡ ok (done, m') → HasKeysOf m m'
  unfolding write
  write-HasKeysOf m m' done h = elim (Bool-cases (is_set m.keys_file_key)) [
    | inl has_key ↦
        let (m1, written, h1) = >>=-eq-ok (write_key l m.keys_file_key m) _ (rw has_key at h) in
        let same : m1 ≡ m' = cc in
        let kept = write_key-keeps m.keys_file_key m m1 written in
        let known : HasKeysOf m m1 = record {
          infos = ap (λ (x : KeyManager Text). x.key_info) (sym kept.3);
          addresses = ap (λ (x : KeyManager Text). x.addr_lookup) (sym kept.3);
          uuids = ap (λ (x : KeyManager Text). x.uuid_lookup) (sym kept.3);
        } in
        subst (HasKeysOf m) same known
    | inr no_key ↦
        let stays : ◌≡◌ {A = Outcome (Bool × KeyManager Text)} (ok (false, m)) (ok (done, m')) =
          rw no_key at h in
        let same : m ≡ m' = cc in HasKeysOf-eq same
  ]
