-- ===== src/Keys/Table.antt =====
-- A `std::unordered_map` from hashes. Its order, which the source leaves open, is here that of the keys.
use cpp_conflux_sdk.Common.{
  Bool, true, false, ◌≡◌, refl, arith, Option, none, some, List, [], ◌∷◌, Bytes, bytes_eq,
  bytes_eq_iff, if◌then◌else◌,
}
use cpp_conflux_sdk.FixedHash.{less}

abbrev pub Table {ℓ} : Type ℓ → Type ℓ
Table V = List (Bytes × V)

module _ {ℓ} {V : Type ℓ} where
  -- `find`.
  abbrev pub lookup : Bytes → Table V → Option V
  lookup k [] = none
  lookup k ((j, v) ∷ t) = if bytes_eq j k then some v else lookup k t

  -- `count`, as a condition.
  abbrev pub contains : Bytes → Table V → Bool
  contains k [] = false
  contains k ((j, v) ∷ t) = if bytes_eq j k then true else contains k t

  -- `t[k] = v`.
  abbrev pub insert : Bytes → V → Table V → Table V
  insert k v [] = (k, v) ∷ []
  insert k v ((j, w) ∷ t) =
      if bytes_eq j k
      then (k, v) ∷ t
      else if less k j
      then (k, v) ∷ ((j, w) ∷ t)
      else (j, w) ∷ insert k v t

  -- `erase`, of every entry of the key; a table has one at most.
  abbrev pub erase : Bytes → Table V → Table V
  erase k [] = []
  erase k ((j, v) ∷ t) = if bytes_eq j k then erase k t else (j, v) ∷ erase k t

  pub lookup-insert :
      (j k : Bytes) (v : V) (t : Table V)
      → lookup j (insert k v t) ≡ (if bytes_eq k j then some v else lookup j t)
  lookup-insert j k v [] = refl
  lookup-insert j k v ((i, w) ∷ t) =
      ground (arith, bytes_eq_iff k j, bytes_eq_iff i k, bytes_eq_iff i j, lookup-insert j k v t)

  pub lookup-erase :
      (j k : Bytes) (t : Table V)
      → lookup j (erase k t) ≡ (if bytes_eq k j then none else lookup j t)
  lookup-erase j k [] = ground arith
  lookup-erase j k ((i, w) ∷ t) =
      ground (arith, bytes_eq_iff k j, bytes_eq_iff i k, bytes_eq_iff i j, lookup-erase j k t)

  pub contains-lookup :
      (k : Bytes) (t : Table V) → contains k t ≡ elim (lookup k t) [ none ↦ false | some _ ↦ true ]
  contains-lookup k [] = refl
  contains-lookup k ((j, v) ∷ t) = ground (arith, contains-lookup k t)
