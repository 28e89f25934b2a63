-- ===== src/Keys/Manager/Passwords.antt =====
-- The passwords that are kept, and the ones that are asked for.
use cpp_conflux_sdk.Common.Outcome.{Outcome, ok, >>=-eq-ok}
use cpp_conflux_sdk.Common.{
  subst, ℕ, zero, suc, ◌+◌, ◌≤◌, ◌≡◌, refl, ap, sym, ◌∙◌, true, ◌⊎◌, inl, inr, some, [], arith,
  Bytes, length, bytes_eq, bytes_eq→eq, Bool-cases, Option-cases, ◌==◌, if◌then◌else◌,
}
use cpp_conflux_sdk.Keys.{Libraries}
use cpp_conflux_sdk.Keys.Table.{Table, lookup, insert, lookup-insert}
use cpp_conflux_sdk.Keys.Manager.{
  KeyManager, Query, unknown_password, hash_password, cache_password, is_right, ask, cached_or,
  get_password_of_hash,
}

module _ {Text : Type 0} (l : Libraries Text) where
  -- Every password that is kept is kept under its hash.
  abbrev pub IsSound : KeyManager Text → Type 0
  IsSound m = (h p : Bytes) → lookup h m.cached_passwords ≡ some p → hash_password l p m ≡ ok h

  -- What an answer is to a hash: no password, any one where the hash is not known, or the right one.
  abbrev pub Answers : Bytes → Bytes → KeyManager Text → Type 0
  Answers pass_hash p m =
      (p ≡ []) ⊎ ((pass_hash ≡ unknown_password) ⊎ (hash_password l p m ≡ ok pass_hash))

  -- Caching a password does not change what a hash is.
  hash_password-same :
      (p : Bytes) (t : Table Bytes) (m : KeyManager Text)
      → hash_password l p (record m { cached_passwords = t }) ≡ hash_password l p m
  unfolding hash_password
  hash_password-same p t m = refl

  cache_password-IsSound :
      (pass : Bytes) (m m' : KeyManager Text)
      → IsSound m
      → cache_password l pass m ≡ ok m'
      → IsSound m'
  unfolding cache_password
  cache_password-IsSound pass m m' sound e h p found =
      let (g, hashed, e1) = >>=-eq-ok (hash_password l pass m) _ e in
      let same : record m { cached_passwords = insert g pass m.cached_passwords } ≡ m' = cc in
      let found' : lookup h (insert g pass m.cached_passwords) ≡ some p =
        ap (λ (x : KeyManager Text). lookup h x.cached_passwords) same ∙ found in
      let kept : (if bytes_eq g h then some pass else lookup h m.cached_passwords) ≡ some p =
        sym (lookup-insert h g pass m.cached_passwords) ∙ found' in
      let kept_under : hash_password l p m ≡ ok h = elim (Bool-cases (bytes_eq g h)) [
        | inl equal ↦
            let found_it : some pass ≡ some p = rw equal at kept in
            let same_pass : pass ≡ p = cc in
            ap (λ q. hash_password l q m) (sym same_pass) ∙ hashed ∙ ap ok (bytes_eq→eq g h equal)
        | inr other ↦ sound h p (rw other at kept)
      ] in
      ap (hash_password l p) (sym same)
      ∙ hash_password-same p (insert g pass m.cached_passwords) m
      ∙ kept_under

  module _ {ℓ} {X : Type ℓ} (pass : Query X) where
    is_right-Answers :
        (pass_hash p : Bytes) (m : KeyManager Text)
        → is_right l pass pass_hash p m ≡ ok true
        → Answers pass_hash p m
    unfolding is_right
    is_right-Answers pass_hash p m h = elim (Bool-cases (bytes_eq pass_hash unknown_password)) [
      | inl unknown ↦ inr (inl (bytes_eq→eq pass_hash unknown_password unknown))
      | inr known ↦
          let (g, hashed, e) = >>=-eq-ok (hash_password l p m) _ (rw known at h) in
          let equal : bytes_eq g pass_hash ≡ true = cc in
          inr (inr (hashed ∙ ap ok (bytes_eq→eq g pass_hash equal)))
    ]

    ask-IsSound :
        (attempts : ℕ) (pass_hash : Bytes) (m : KeyManager Text) (x : X) (p : Bytes)
        (m' : KeyManager Text) (x' : X)
        → IsSound m
        → ask l pass attempts pass_hash m x ≡ ok (p, m', x')
        → IsSound m' × Answers pass_hash p m
    unfolding ask
    ask-IsSound zero pass_hash m x p m' x' sound h =
        let none_left : p ≡ [] = cc in
        let same : m ≡ m' = cc in (subst IsSound same sound, inl none_left)
    ask-IsSound (suc attempts) pass_hash m x p m' x' sound h =
        let (answer, asked, h1) = >>=-eq-ok (pass x) _ h in
        elim (Bool-cases (length answer.0 == 0)) [
          | inl given_up ↦
              let stop : ◌≡◌ {A = Outcome (Bytes × KeyManager Text × X)} (ok ([], m, answer.1))
                  (ok (p, m', x')) =
                rw given_up at h1 in
              let none_left : p ≡ [] = cc in
              let same : m ≡ m' = cc in (subst IsSound same sound, inl none_left)
          | inr given ↦
              let (right, judged, h2) =
                >>=-eq-ok (is_right l pass pass_hash answer.0 m) _ (rw given at h1) in
              elim (Bool-cases right) [
                | inl accepted ↦
                    let (m1, cached, h3) =
                      >>=-eq-ok (cache_password l answer.0 m) _ (rw accepted at h2) in
                    let same : m1 ≡ m' = cc in
                    let answered : answer.0 ≡ p = cc in
                    (
                      cache_password-IsSound answer.0 m m' sound (cached ∙ ap ok same),
                      subst (λ q. Answers pass_hash q m) answered
                          (is_right-Answers pass_hash answer.0 m (judged ∙ ap ok accepted)),
                    )
                | inr refused ↦
                    ask-IsSound attempts pass_hash m answer.1 p m' x' sound (rw refused at h2)
              ]
        ]

    -- Where every password is kept under its hash, this stays so, and `getPassword` returns no password, or
    -- any one if the hash is not known, or one with the hash that is asked for.
    pub get_password_of_hash-IsSound :
        (pass_hash : Bytes) (m : KeyManager Text) (x : X) (p : Bytes) (m' : KeyManager Text)
        (x' : X)
        → IsSound m
        → get_password_of_hash l pass pass_hash m x ≡ ok (p, m', x')
        → IsSound m' × Answers pass_hash p m
    unfolding get_password_of_hash cached_or
    get_password_of_hash-IsSound pass_hash m x p m' x' sound h =
        elim (Option-cases (lookup pass_hash m.cached_passwords)) [
          | inl absent ↦ ask-IsSound 10 pass_hash m x p m' x' sound (rw absent at h)
          | inr (q, found) ↦
              let kept : ◌≡◌ {A = Outcome (Bytes × KeyManager Text × X)} (ok (q, m, x))
                  (ok (p, m', x')) =
                rw found at h in
              let same : m ≡ m' = cc in
              let answered : q ≡ p = cc in
              (
                subst IsSound same sound,
                subst (λ r. Answers pass_hash r m) answered (inr (inr (sound pass_hash q found))),
              )
        ]

  -- At most ten passwords are asked for.
  abbrev pub counted : (ℕ → Bytes) → Query ℕ
  counted answers n = ok (answers n, suc n)

  ask_bound :
      (answers : ℕ → Bytes) (attempts : ℕ) (pass_hash : Bytes) (m : KeyManager Text) (n : ℕ)
      (p : Bytes) (m' : KeyManager Text) (n' : ℕ)
      → ask l (counted answers) attempts pass_hash m n ≡ ok (p, m', n')
      → n' ≤ n + attempts
  unfolding ask
  ask_bound answers zero pass_hash m n p m' n' h = let same : n ≡ n' = cc in omega arith
  ask_bound answers (suc attempts) pass_hash m n p m' n' h =
      elim (Bool-cases (length (answers n) == 0)) [
        | inl given_up ↦
            let stop : ◌≡◌ {A = Outcome (Bytes × KeyManager Text × ℕ)} (ok ([], m, suc n))
                (ok (p, m', n')) =
              rw given_up at h in
            let same : suc n ≡ n' = cc in omega arith
        | inr given ↦
            let (right, judged, h2) =
              >>=-eq-ok (is_right l (counted answers) pass_hash (answers n) m) _ (rw given at h) in
            elim (Bool-cases right) [
              | inl accepted ↦
                  let (m1, cached, h3) =
                    >>=-eq-ok (cache_password l (answers n) m) _ (rw accepted at h2) in
                  let same : suc n ≡ n' = cc in omega arith
              | inr refused ↦
                  let rest : n' ≤ suc n + attempts =
                    ask_bound answers attempts pass_hash m (suc n) p m' n' (rw refused at h2) in
                  omega arith
            ]
      ]

  -- With answers that are counted: `getPassword` that returns has asked ten times at most.
  pub get_password_of_hash_bound :
      (answers : ℕ → Bytes) (pass_hash : Bytes) (m : KeyManager Text) (n : ℕ) (p : Bytes)
      (m' : KeyManager Text) (n' : ℕ)
      → get_password_of_hash l (counted answers) pass_hash m n ≡ ok (p, m', n')
      → n' ≤ n + 10
  unfolding get_password_of_hash cached_or
  get_password_of_hash_bound answers pass_hash m n p m' n' h =
      elim (Option-cases (lookup pass_hash m.cached_passwords)) [
        | inl absent ↦ ask_bound answers 10 pass_hash m n p m' n' (rw absent at h)
        | inr (q, found) ↦
            let kept : ◌≡◌ {A = Outcome (Bytes × KeyManager Text × ℕ)} (ok (q, m, n))
                (ok (p, m', n')) =
              rw found at h in
            let same : n ≡ n' = cc in omega arith
      ]
