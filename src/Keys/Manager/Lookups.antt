-- ===== src/Keys/Manager/Lookups.antt =====
-- The two lookups of the manager, from addresses to identifiers and back, as keys are imported and
-- killed.
use cpp_conflux_sdk.Common.Outcome.{Outcome, ok, >>=-eq-ok}
use cpp_conflux_sdk.Common.{
  subst, ◌≡◌, sym, ap, ◌∙◌, Bool, some, none, [], Option-cases, inl, inr, Bytes,
}
use cpp_conflux_sdk.Keys.{Libraries}
use cpp_conflux_sdk.Keys.Table.{lookup, insert}
use cpp_conflux_sdk.Keys.Envelope.{Kdf, encrypt}
use cpp_conflux_sdk.Keys.Store.{SecretStore, key_pair_address, import_secret, imported}
use cpp_conflux_sdk.Keys.Manager.{
  KeyManager, KeyInfo, noted, forget, hash_password, cache_password, write, import_key,
  import_existing, kill,
}
use cpp_conflux_sdk.Keys.Manager.Writes.{HasKeysOf, cache_password-keeps, write-HasKeysOf}
use cpp_conflux_sdk.Keys.Manager.Matched.{
  IsMatched, IsListed, IsForgotten, noted-IsListed, forget-IsForgotten,
}

ok-parts :
    {A B : Type 0} (a c : A) (b d : B)
    → ◌≡◌ {A = Outcome (A × B)} (ok (a, b)) (ok (c, d))
    → (a ≡ c) × (b ≡ d)
ok-parts a c b d same = (cc, cc)

module _ {Text : Type 0} (l : Libraries Text) (equivalent : Bytes → Bytes → Bool) where
  -- A key is imported under an identifier and an address that are free, or a known address is killed.
  pub data Step : KeyManager Text → KeyManager Text → Type 0 where
    by_import :
        (r salt iv s name pass hint uuid : Bytes) (m m' : KeyManager Text)
        → lookup r m.uuid_lookup ≡ none
        → lookup (key_pair_address l s) m.addr_lookup ≡ none
        → import_key l equivalent r salt iv s name pass hint m ≡ ok (uuid, m')
        → Step m m'
    by_import_existing :
        (uuid name address pass_hash hint : Bytes) (m m' : KeyManager Text)
        → lookup uuid m.uuid_lookup ≡ none
        → lookup address m.addr_lookup ≡ none
        → import_existing l equivalent uuid name address pass_hash hint m ≡ ok m'
        → Step m m'
    by_kill :
        (a uuid : Bytes) (m m' : KeyManager Text)
        → lookup a m.addr_lookup ≡ some uuid
        → kill l a m ≡ ok m'
        → Step m m'

  -- What the manager knows of the key afterwards.
  abbrev pub Done : {m m' : KeyManager Text} → Step m m' → Type 0
  Done (by_import r salt iv s name pass hint uuid m m' free new done) =
      (uuid ≡ r) × IsListed r (key_pair_address l s) name m'
  Done (by_import_existing uuid name address pass_hash hint m m' free new done) =
      IsListed uuid address name m'
  Done (by_kill a uuid m m' known done) = IsForgotten uuid a m'

  import_secret-identifier :
      (r salt iv s pass : Bytes) (st : SecretStore Text) (stored : Bytes × SecretStore Text)
      → import_secret l equivalent r salt iv s pass st ≡ ok stored
      → stored.0 ≡ r
  unfolding import_secret
  import_secret-identifier r salt iv s pass st stored h =
      let (text, coded, h1) = >>=-eq-ok (encrypt l s pass Kdf.scrypt salt iv) _ h in cc

  import_key-IsListed :
      (r salt iv s name pass hint uuid : Bytes) (m m' : KeyManager Text)
      → lookup r m.uuid_lookup ≡ none
      → lookup (key_pair_address l s) m.addr_lookup ≡ none
      → import_key l equivalent r salt iv s name pass hint m ≡ ok (uuid, m')
      → IsMatched m
      → IsMatched m' × (uuid ≡ r) × IsListed r (key_pair_address l s) name m'
  unfolding import_key
  import_key-IsListed r salt iv s name pass hint uuid m m' free new done matched =
      let (h, hashed, d1) = >>=-eq-ok (hash_password l pass m) _ done in
      let (m1, cached, d2) = >>=-eq-ok (cache_password l pass m) _ d1 in
      let (stored, imported, d3) =
        >>=-eq-ok (import_secret l equivalent r salt iv s pass m1.store) _ d2 in
      let info : KeyInfo = record { pass_hash = h; account_name = name; password_hint = [] } in
      let m2 = record m1 { password_hints = insert h hint m1.password_hints; store = stored.1 } in
      let (w, written, d4) =
        >>=-eq-ok (write l (noted stored.0 (key_pair_address l s) info m2)) _ d3 in
      let ended : ok (stored.0, w.1) ≡ ok (uuid, m') = d4 in
      let (t, same) = cache_password-keeps l pass m m1 cached in
      let id : stored.0 ≡ r = import_secret-identifier r salt iv s pass m1.store stored imported in
      let (returned, last) = ok-parts stored.0 uuid w.1 m' ended in
      let named : uuid ≡ r = sym returned ∙ id in
      let free' : lookup stored.0 m2.uuid_lookup ≡ none =
        ap (λ (u : Bytes). lookup u m1.uuid_lookup) id
        ∙ ap (λ (x : KeyManager Text). lookup r x.uuid_lookup) (sym same)
        ∙ free in
      let new' : lookup (key_pair_address l s) m2.addr_lookup ≡ none =
        ap (λ (x : KeyManager Text). lookup (key_pair_address l s) x.addr_lookup) (sym same)
        ∙ new in
      let matched' : IsMatched m2 = subst (λ (x : KeyManager Text). IsMatched x) same matched in
      let kept =
        write-HasKeysOf l (noted stored.0 (key_pair_address l s) info m2) w.1 w.0 written in
      let known =
        noted-IsListed stored.0 (key_pair_address l s) info m2 w.1 free' new' kept matched' in
      (
        subst (λ (x : KeyManager Text). IsMatched x) last known.0,
        named,
        subst (λ (x : KeyManager Text). IsListed r (key_pair_address l s) name x) last
            (subst (λ (u : Bytes). IsListed u (key_pair_address l s) name w.1) id known.1),
      )

  import_existing-IsListed :
      (uuid name address pass_hash hint : Bytes) (m m' : KeyManager Text)
      → lookup uuid m.uuid_lookup ≡ none
      → lookup address m.addr_lookup ≡ none
      → import_existing l equivalent uuid name address pass_hash hint m ≡ ok m'
      → IsMatched m
      → IsMatched m' × IsListed uuid address name m'
  unfolding import_existing
  import_existing-IsListed uuid name address pass_hash hint m m' free new done matched =
      let (w, written, h) = >>=-eq-ok (write l _) _ done in
      let last : w.1 ≡ m' = cc in
      let kept = write-HasKeysOf l _ w.1 w.0 written in
      let known = noted-IsListed uuid address _ _ w.1 free new kept matched in
      let named : IsListed uuid address name w.1 = elim (Option-cases (lookup address m.key_info)) [
        | inl unknown ↦ rw unknown at known.1
        | inr (k, found) ↦ rw found at known.1
      ] in
      (
        subst (λ (x : KeyManager Text). IsMatched x) last known.0,
        subst (λ (x : KeyManager Text). IsListed uuid address name x) last named,
      )

  kill-IsForgotten :
      (a uuid : Bytes) (m m' : KeyManager Text)
      → lookup a m.addr_lookup ≡ some uuid
      → kill l a m ≡ ok m'
      → IsMatched m
      → IsMatched m' × IsForgotten uuid a m'
  unfolding kill
  kill-IsForgotten a uuid m m' known done matched =
      let (w, written, h) = >>=-eq-ok (write l (forget a m)) _ done in
      let same : w.1 ≡ m' = cc in
      forget-IsForgotten uuid a m m' known
        (subst (HasKeysOf (forget a m)) same (write-HasKeysOf l (forget a m) w.1 w.0 written))
        matched

  -- If the identifiers and the addresses of a manager belong to each other, one to one, they still do
  -- after an import with an identifier and an address that are free, and after an address that is
  -- known has been killed, the writing of the keys file included. The imported key is then known by
  -- its identifier, its address and its name, and the killed one by none of them.
  pub Step-IsMatched :
      {m m' : KeyManager Text} (step : Step m m') → IsMatched m → IsMatched m' × Done step
  Step-IsMatched (by_import r salt iv s name pass hint uuid m m' free new done) matched =
      let listed = import_key-IsListed r salt iv s name pass hint uuid m m' free new done matched in
      (listed.0, (listed.1, listed.2))
  Step-IsMatched (by_import_existing uuid name address pass_hash hint m m' free new done) matched =
      import_existing-IsListed uuid name address pass_hash hint m m' free new done matched
  Step-IsMatched (by_kill a uuid m m' known done) matched =
      kill-IsForgotten a uuid m m' known done matched
