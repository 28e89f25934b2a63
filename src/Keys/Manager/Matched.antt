-- ===== src/Keys/Manager/Matched.antt =====
-- Two tables that lead back to each other: the identifiers and the addresses of the manager, as `import`
-- and `kill` note and forget a key.
use cpp_conflux_sdk.Common.{
  subst, ◌≡◌, refl, sym, ap, ◌∙◌, some, none, [], arith, Bytes, bytes_eq, bytes_eq_iff,
  if◌then◌else◌,
}
use cpp_conflux_sdk.Keys.Table.{Table, lookup, insert, erase, lookup-insert, lookup-erase}
use cpp_conflux_sdk.Keys.Manager.{KeyManager, KeyInfo, noted, forget, uuid_of, account_name}
use cpp_conflux_sdk.Keys.Manager.Writes.{HasKeysOf}

-- What one table has for a key leads back to the key in the other.
abbrev pub AreInverse : Table Bytes → Table Bytes → Type 0
AreInverse t u = (a b : Bytes) → lookup a t ≡ some b → lookup b u ≡ some a

insert-AreInverse :
    (a b : Bytes) (t u : Table Bytes)
    → lookup b u ≡ none
    → AreInverse t u
    → AreInverse (insert a b t) (insert b a u)
insert-AreInverse a b t u free inverse c d found =
    let found' : (if bytes_eq a c then some b else lookup c t) ≡ some d =
      sym (lookup-insert c a b t) ∙ found in
    lookup-insert d b a u
    ∙ ground (arith, found', bytes_eq_iff a c, bytes_eq_iff b d, inverse c d, free)

erase-AreInverse :
    (a b : Bytes) (t u : Table Bytes)
    → lookup a t ≡ some b
    → AreInverse t u
    → AreInverse (erase a t) (erase b u)
erase-AreInverse a b t u known inverse c d found =
    let found' : (if bytes_eq a c then none else lookup c t) ≡ some d =
      sym (lookup-erase c a t) ∙ found in
    let leads_back : lookup b u ≡ some a = inverse a b known in
    lookup-erase d b u
    ∙ ground (arith, found', bytes_eq_iff a c, bytes_eq_iff b d, inverse c d, leads_back)

lookup-insert_same :
    {V : Type 0} (k : Bytes) (v : V) (t : Table V) → lookup k (insert k v t) ≡ some v
lookup-insert_same k v t = lookup-insert k k v t ∙ ground (arith, bytes_eq_iff k k)

lookup-erase_same : {V : Type 0} (k : Bytes) (t : Table V) → lookup k (erase k t) ≡ none
lookup-erase_same k t = lookup-erase k k t ∙ ground (arith, bytes_eq_iff k k)

module _ {Text : Type 0} where
  -- The identifiers and the addresses of the manager belong to each other, one to one.
  abbrev pub IsMatched : KeyManager Text → Type 0
  IsMatched m = AreInverse m.addr_lookup m.uuid_lookup × AreInverse m.uuid_lookup m.addr_lookup

  -- The manager knows a key by its identifier, its address and its name.
  abbrev pub IsListed : Bytes → Bytes → Bytes → KeyManager Text → Type 0
  IsListed uuid address name m =
      (lookup address m.addr_lookup ≡ some uuid)
      × (lookup uuid m.uuid_lookup ≡ some address)
      × (account_name address m ≡ name)

  abbrev pub IsForgotten : Bytes → Bytes → KeyManager Text → Type 0
  IsForgotten uuid address m =
      (lookup address m.addr_lookup ≡ none)
      × (lookup uuid m.uuid_lookup ≡ none)
      × (lookup address m.key_info ≡ none)

  -- What is said of the tables of the known keys is said of a manager with the same ones.
  kept_tables :
      (P : Table KeyInfo → Table Bytes → Table Bytes → Type 0) (m m' : KeyManager Text)
      → HasKeysOf m m'
      → P m.key_info m.addr_lookup m.uuid_lookup
      → P m'.key_info m'.addr_lookup m'.uuid_lookup
  kept_tables P m m' kept p =
      subst (λ t. P m'.key_info m'.addr_lookup t) (sym kept.uuids)
        (subst (λ t. P m'.key_info t m.uuid_lookup) (sym kept.addresses)
          (subst (λ t. P t m.addr_lookup m.uuid_lookup) (sym kept.infos) p))

  pub noted-IsListed :
      (uuid address : Bytes) (info : KeyInfo) (m m' : KeyManager Text)
      → lookup uuid m.uuid_lookup ≡ none
      → lookup address m.addr_lookup ≡ none
      → HasKeysOf (noted uuid address info m) m'
      → IsMatched m
      → IsMatched m' × IsListed uuid address info.account_name m'
  unfolding noted account_name
  noted-IsListed uuid address info m m' free new kept matched =
      let there = insert-AreInverse address uuid m.addr_lookup m.uuid_lookup free matched.0 in
      let back = insert-AreInverse uuid address m.uuid_lookup m.addr_lookup new matched.1 in
      let named : account_name address (noted uuid address info m) ≡ info.account_name =
        rw (account_name, lookup-insert_same address info m.key_info) refl in
      let told =
        kept_tables
          (λ (infos : Table KeyInfo) (t u : Table Bytes).
            (AreInverse t u × AreInverse u t)
            × (lookup address t ≡ some uuid)
            × (lookup uuid u ≡ some address)
            × ((elim (lookup address infos) [ some k ↦ k.account_name | none ↦ [] ])
                ≡ info.account_name))
          (noted uuid address info m) m' kept
          (
            (there, back),
            lookup-insert_same address uuid m.addr_lookup,
            lookup-insert_same uuid address m.uuid_lookup,
            named,
          ) in
      (told.0, (told.1, told.2, told.3))

  pub forget-IsForgotten :
      (uuid address : Bytes) (m m' : KeyManager Text)
      → lookup address m.addr_lookup ≡ some uuid
      → HasKeysOf (forget address m) m'
      → IsMatched m
      → IsMatched m' × IsForgotten uuid address m'
  unfolding forget uuid_of
  forget-IsForgotten uuid address m m' known kept matched =
      let there = erase-AreInverse address uuid m.addr_lookup m.uuid_lookup known matched.0 in
      let back =
        erase-AreInverse uuid address m.uuid_lookup m.addr_lookup (matched.0 address uuid known)
          matched.1 in
      let id : uuid_of address m ≡ uuid = rw known refl in
      let erased : (forget address m).uuid_lookup ≡ erase uuid m.uuid_lookup =
        ap (λ (u : Bytes). erase u m.uuid_lookup) id in
      let told =
        kept_tables
          (λ (infos : Table KeyInfo) (t u : Table Bytes).
            (AreInverse t u × AreInverse u t)
            × (lookup address t ≡ none)
            × (lookup uuid u ≡ none)
            × (lookup address infos ≡ none))
          (forget address m) m' kept
          (subst
            (λ (u : Table Bytes).
              (AreInverse (erase address m.addr_lookup) u
                × AreInverse u (erase address m.addr_lookup))
              × (lookup address (erase address m.addr_lookup) ≡ none)
              × (lookup uuid u ≡ none)
              × (lookup address (erase address m.key_info) ≡ none))
            (sym erased)
            (
              (there, back),
              lookup-erase_same address m.addr_lookup,
              lookup-erase_same uuid m.uuid_lookup,
              lookup-erase_same address m.key_info,
            )) in
      (told.0, (told.1, told.2, told.3))
