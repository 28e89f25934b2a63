-- ===== src/Keys/Store/Imports.antt =====
-- Secrets that are imported, encrypted again and removed.
use cpp_conflux_sdk.Common.Outcome.{Exception, Outcome, ok, throw, >>=-eq-ok}
use cpp_conflux_sdk.Common.{
  ◌≤◌, ◌≡◌, refl, ap, sym, ◌∙◌, Bool, true, false, inl, inr, ◌⊎◌, Option, none, some, [], ◌∷◌,
  arith, Bytes, length, All, IsByte, bytes_eq, bytes_eq_refl, Bool-cases, Option-cases, ◌==◌,
}
use mathlib.Core.Option
use cpp_conflux_sdk.Keys.{Libraries}
use cpp_conflux_sdk.Keys.Table.{Table, lookup, insert, erase, lookup-insert, lookup-erase}
use cpp_conflux_sdk.Keys.Envelope.{Kdf, encrypt, decrypt}
use cpp_conflux_sdk.Keys.Envelope.RoundTrip.{IsDocumented, decrypt-encrypt}
use cpp_conflux_sdk.Keys.Store.{
  EncryptedKey, SecretStore, save_keys, save, imported, remembered, import_secret, kill, kill_entry,
  coded_again, recode_with, decrypted, kept_or, secret, recode,
}

module _ {Text : Type 0} (l : Libraries Text) where
  -- The text that is kept of a key.
  abbrev text_of : EncryptedKey Text → Text
  text_of k = k.encrypted_key

  module _ (equivalent : Bytes → Bytes → Bool) where
    -- Saving changes names of files only.
    lookup-save_keys :
        (u path : Bytes) (t : Table (EncryptedKey Text))
        → Option.map text_of (lookup u (save_keys l equivalent path t).0)
          ≡ Option.map text_of (lookup u t)
    unfolding save_keys
    lookup-save_keys u path [] = refl
    lookup-save_keys u path ((j, k) ∷ t) = elim (Bool-cases (bytes_eq j u)) [
      | inl same ↦ rw same refl
      | inr other ↦ rw other (lookup-save_keys u path t)
    ]

    lookup-save :
        (u path : Bytes) (st : SecretStore Text)
        → Option.map text_of (lookup u (save l equivalent path st).keys)
          ≡ Option.map text_of (lookup u st.keys)
    unfolding save
    lookup-save u path st = elim (Bool-cases (length path == 0)) [
      | inl nowhere ↦ rw nowhere refl
      | inr somewhere ↦ rw somewhere (lookup-save_keys u path st.keys)
    ]

    cached-save :
        (path : Bytes) (st : SecretStore Text) → (save l equivalent path st).cached ≡ st.cached
    unfolding save
    cached-save path st = elim (Bool-cases (length path == 0)) [
      | inl nowhere ↦ rw nowhere refl
      | inr somewhere ↦ rw somewhere refl
    ]

  lookup-kill : (uuid : Bytes) (st : SecretStore Text) → lookup uuid (kill uuid st).keys ≡ none
  unfolding kill kill_entry
  lookup-kill uuid st = elim (Option-cases (lookup uuid st.keys)) [
    | inl absent ↦ rw absent absent
    | inr (k, found) ↦ rw found (lookup-erase uuid uuid st.keys ∙ rw (bytes_eq_refl uuid) refl)
  ]

  cached-kill : (uuid : Bytes) (st : SecretStore Text) → lookup uuid (kill uuid st).cached ≡ none
  unfolding kill kill_entry
  cached-kill uuid st =
      let gone : lookup uuid (erase uuid st.cached) ≡ none =
        lookup-erase uuid uuid st.cached ∙ rw (bytes_eq_refl uuid) refl in
      elim (Option-cases (lookup uuid st.keys)) [
        | inl absent ↦ rw absent gone
        | inr (k, found) ↦ rw found gone
      ]

  -- A removed key is not found again, cached or not, and nobody is asked for a password.
  pub secret-kill {ℓ} :
      {S : Type ℓ} (pass : S → Outcome (Bytes × S)) (uuid : Bytes) (use_cache : Bool)
      (st : SecretStore Text) (s : S)
      → secret l pass uuid use_cache (kill uuid st) s ≡ ok ([], kill uuid st, s)
  unfolding secret kept_or decrypted
  secret-kill pass uuid use_cache st s = rw (lookup-kill uuid st, cached-kill uuid st) refl

  -- Where no secret is kept, or none may be used, the key is decrypted.
  kept_or-asked {ℓ} :
      {S : Type ℓ} (pass : S → Outcome (Bytes × S)) (kept : Option Bytes) (use_cache : Bool)
      (asked : Outcome (Bytes × SecretStore Text × S)) (st : SecretStore Text) (s : S)
      → (use_cache ≡ false) ⊎ (kept ≡ none)
      → kept_or l pass kept use_cache asked st s ≡ asked
  unfolding kept_or
  kept_or-asked pass none use_cache asked st s h = refl
  kept_or-asked pass (some key) use_cache asked st s (inl off) = rw off refl
  kept_or-asked pass (some key) use_cache asked st s (inr none_kept) = cc

  decrypted-opens {ℓ} :
      {S : Type ℓ} (ask : S → Outcome (Bytes × S)) (pass uuid : Bytes)
      (entry : Option (EncryptedKey Text)) (st : SecretStore Text) (x x' : S) (text : Text)
      (key : Bytes)
      → ask x ≡ ok (pass, x')
      → Option.map text_of entry ≡ some text
      → decrypt l text pass ≡ ok key
      → 1 ≤ length key
      → (st' : SecretStore Text) × (decrypted l ask uuid entry st x ≡ ok (key, st', x'))
  unfolding decrypted
  decrypted-opens ask pass uuid none st x x' text key answered found opens some_bytes = cc
  decrypted-opens ask pass uuid (some k) st x x' text key answered found opens some_bytes =
      let same : k.encrypted_key ≡ text = cc in
      let opens' : decrypt l k.encrypted_key pass ≡ ok key =
        ap (λ (t : Text). decrypt l t pass) same ∙ opens in
      let not_empty : (length key == 0) ≡ false = ground arith in
      (remembered l uuid key st, rw (answered, opens', not_empty) refl)

  -- An entry whose text is decrypted with the password that is told, where no kept secret is used.
  secret-opens {ℓ} :
      {S : Type ℓ} (ask : S → Outcome (Bytes × S)) (pass uuid : Bytes) (use_cache : Bool)
      (st : SecretStore Text) (x x' : S) (text : Text) (key : Bytes)
      → ask x ≡ ok (pass, x')
      → Option.map text_of (lookup uuid st.keys) ≡ some text
      → (use_cache ≡ false) ⊎ (lookup uuid st.cached ≡ none)
      → decrypt l text pass ≡ ok key
      → 1 ≤ length key
      → (st' : SecretStore Text) × (secret l ask uuid use_cache st x ≡ ok (key, st', x'))
  unfolding secret
  secret-opens ask pass uuid use_cache st x x' text key answered found asked opens some_bytes =
      let (st', e) =
        decrypted-opens ask pass uuid (lookup uuid st.keys) st x x' text key answered found opens
          some_bytes in
      (st', kept_or-asked ask (lookup uuid st.cached) use_cache _ st x asked ∙ e)

  -- Where no secret is kept of an entry, one that does not answer ends the call.
  decrypted-refused {ℓ} :
      {S : Type ℓ} (ask : S → Outcome (Bytes × S)) (uuid : Bytes)
      (entry : Option (EncryptedKey Text)) (st : SecretStore Text) (x : S) (text : Text)
      (e : Exception)
      → ask x ≡ throw e
      → Option.map text_of entry ≡ some text
      → decrypted l ask uuid entry st x ≡ throw e
  unfolding decrypted
  decrypted-refused ask uuid none st x text e refused found = cc
  decrypted-refused ask uuid (some k) st x text e refused found = rw refused refl

  secret-refused {ℓ} :
      {S : Type ℓ} (ask : S → Outcome (Bytes × S)) (uuid : Bytes) (use_cache : Bool)
      (st : SecretStore Text) (x : S) (text : Text) (e : Exception)
      → ask x ≡ throw e
      → Option.map text_of (lookup uuid st.keys) ≡ some text
      → lookup uuid st.cached ≡ none
      → secret l ask uuid use_cache st x ≡ throw e
  unfolding secret
  secret-refused ask uuid use_cache st x text e refused found forgotten =
      kept_or-asked ask (lookup uuid st.cached) use_cache _ st x (inr forgotten)
      ∙ decrypted-refused ask uuid (lookup uuid st.keys) st x text e refused found

  lookup-imported :
      (r : Bytes) (text : Text) (s : Bytes) (st : SecretStore Text)
      → Option.map text_of (lookup r (imported l r text s st).keys) ≡ some text
  unfolding imported
  lookup-imported r text s st = rw (lookup-insert, bytes_eq_refl r) refl

  cached-imported :
      (r : Bytes) (text : Text) (s : Bytes) (st : SecretStore Text)
      → lookup r (imported l r text s st).cached ≡ some s
  unfolding imported
  cached-imported r text s st = rw (lookup-insert, bytes_eq_refl r) refl

  coded_again_text :
      (text : Text) (o : Option (EncryptedKey Text)) → (coded_again text o).encrypted_key ≡ text
  unfolding coded_again
  coded_again_text text none = refl
  coded_again_text text (some k) = refl

  again_text :
      (uuid : Bytes) (text : Text) (st : SecretStore Text)
      → Option.map text_of
          (lookup uuid (insert uuid (coded_again text (lookup uuid st.keys)) st.keys))
        ≡ some text
  again_text uuid text st =
      rw (lookup-insert, bytes_eq_refl uuid) (ap some (coded_again_text text (lookup uuid st.keys)))

  module _ (documented : IsDocumented l) (equivalent : Bytes → Bytes → Bool) where
    -- If the libraries do what they document: a secret of some bytes that is imported under a random
    -- identifier is found under it, kept without a password, and decrypted with its password.
    pub secret-import_secret {ℓ} :
        {S : Type ℓ} (r salt iv s pass : Bytes) (st st' : SecretStore Text) (q : S)
        (other_pass : S → Outcome (Bytes × S))
        → All IsByte salt
        → All IsByte iv
        → length iv ≡ 16
        → 1 ≤ length s
        → import_secret l equivalent r salt iv s pass st ≡ ok (r, st')
        → (secret l other_pass r true st' q ≡ ok (s, st', q))
          × ((st'' : SecretStore Text) × (secret l (λ q. ok (pass, q)) r false st' q
                ≡ ok (s, st'', q)))
    unfolding import_secret
    secret-import_secret r salt iv s pass st st' q other_pass salted bs size some_bytes h =
        let (text, coded, h1) = >>=-eq-ok (encrypt l s pass Kdf.scrypt salt iv) _ h in
        let new = imported l r text s st in
        let saved : save l equivalent st.path new ≡ st' = cc in
        let found : Option.map text_of (lookup r st'.keys) ≡ some text =
          ap (λ (x : SecretStore Text). Option.map text_of (lookup r x.keys)) (sym saved)
          ∙ lookup-save equivalent r st.path new
          ∙ lookup-imported r text s st in
        let kept : lookup r st'.cached ≡ some s =
          ap (λ (x : SecretStore Text). lookup r x.cached) (sym saved)
          ∙ ap (λ (c : Table Bytes). lookup r c) (cached-save equivalent st.path new)
          ∙ cached-imported r text s st in
        (
          unfold secret kept_or in rw kept refl,
          secret-opens (λ q. ok (pass, q)) pass r false st' q q text s refl found (inl refl)
              (decrypt-encrypt l documented s pass salt iv Kdf.scrypt text salted bs size coded)
              some_bytes,
        )

    -- What `recode` has done once the secret is known.
    recode_with-opens :
        (uuid new_pass salt iv key : Bytes) (kdf : Kdf) (st st' : SecretStore Text)
        → All IsByte salt
        → All IsByte iv
        → length iv ≡ 16
        → recode_with l equivalent uuid new_pass kdf salt iv key st ≡ ok (true, st')
        → (text : Text) × (Option.map text_of (lookup uuid st'.keys) ≡ some text)
          × (lookup uuid st'.cached ≡ none)
          × (decrypt l text new_pass ≡ ok key)
          × (1 ≤ length key)
    unfolding recode_with
    recode_with-opens uuid new_pass salt iv key kdf st st' salted bs size h =
        elim (Bool-cases (length key == 0)) [
          | inl empty ↦
              let refused : ◌≡◌ {A = Outcome (Bool × SecretStore Text)} (ok (false, st))
                  (ok (true, st')) =
                rw empty at h in
              cc
          | inr full ↦
              let (text, coded, h1) =
                >>=-eq-ok (encrypt l key new_pass kdf salt iv) _ (rw full at h) in
              let again = insert uuid (coded_again text (lookup uuid st.keys)) st.keys in
              let new = record st { cached = erase uuid st.cached; keys = again } in
              let saved : save l equivalent st.path new ≡ st' = cc in
              (
                text,
                ap (λ (x : SecretStore Text). Option.map text_of (lookup uuid x.keys)) (sym saved)
                    ∙ lookup-save equivalent uuid st.path new
                    ∙ again_text uuid text st,
                ap (λ (x : SecretStore Text). lookup uuid x.cached) (sym saved)
                    ∙ ap (λ (c : Table Bytes). lookup uuid c) (cached-save equivalent st.path new)
                    ∙ lookup-erase uuid uuid st.cached
                    ∙ rw (bytes_eq_refl uuid) refl,
                decrypt-encrypt l documented key new_pass salt iv kdf text salted bs size coded,
                ground arith,
              )
        ]

    -- If the libraries do what they document, and salt and initialisation vector are bytes, sixteen of the
    -- latter: `recode` that returns true has found the secret. From then on, whether kept secrets may be
    -- used or not, a caller's answer of the new password gives that secret and the caller's state after
    -- the answer, and an exception in place of an answer is what the call ends with.
    pub secret-recode {ℓ} :
        {S : Type ℓ} (pass ask refuse : S → Outcome (Bytes × S)) (uuid new_pass salt iv : Bytes)
        (kdf : Kdf) (st st' : SecretStore Text) (q q' x x' y : S) (e : Exception) (use_cache : Bool)
        → All IsByte salt
        → All IsByte iv
        → length iv ≡ 16
        → ask x ≡ ok (new_pass, x')
        → refuse y ≡ throw e
        → recode l pass equivalent uuid new_pass kdf salt iv st q ≡ ok (true, st', q')
        → (key : Bytes) × (st1 st2 : SecretStore Text) × (secret l pass uuid true st q
            ≡ ok (key, st1, q'))
          × (secret l ask uuid use_cache st' x ≡ ok (key, st2, x'))
          × (secret l refuse uuid use_cache st' y ≡ throw e)
    unfolding recode
    secret-recode pass ask refuse uuid new_pass salt iv kdf st st' q q' x x' y e use_cache salted bs
          size answered refused h =
        let (found, told, h1) = >>=-eq-ok (secret l pass uuid true st q) _ h in
        let (done, coded, h2) =
          >>=-eq-ok (recode_with l equivalent uuid new_pass kdf salt iv found.0 found.1) _ h1 in
        let e0 : done.0 ≡ true = cc in
        let e1 : done.1 ≡ st' = cc in
        let e2 : found.2 ≡ q' = cc in
        let returned : done ≡ (true, st') = λ i. (e0 i, e1 i) in
        let (text, kept, forgotten, opens, some_bytes) =
          recode_with-opens uuid new_pass salt iv found.0 kdf found.1 st' salted bs size
            (coded ∙ ap ok returned) in
        let (st2, opened) =
          secret-opens ask new_pass uuid use_cache st' x x' text found.0 answered kept
            (inr forgotten) opens some_bytes in
        (
          found.0,
          found.1,
          st2,
          told ∙ ap ok (λ i. (found.0, found.1, e2 i)),
          opened,
          secret-refused refuse uuid use_cache st' y text e refused kept forgotten,
        )
