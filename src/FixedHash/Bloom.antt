-- ===== src/FixedHash/Bloom.antt =====
-- A bloom filter finds all that was added to it.
use cpp_conflux_sdk.Common.{
  ℕ, zero, suc, ◌+◌, ◌-◌, ◌*◌, ◌/◌, ◌%◌, ◌^◌, ◌≤◌, bit_and, bit_or, min, max, ◌≡◌, refl, ap, ap₂,
  sym, ◌∙◌, true, List, [], ◌∷◌, arith, Bytes, length, take, drop, replicate, length-replicate,
  bytes_eq_iff, All,
}
use cpp_conflux_sdk.Common.Bits.{bit_and-zero, bit_and_digit, bit_or_digit}
use cpp_conflux_sdk.FixedHash.{
  zip_with, hash_and, hash_or, contains, set_bits, bloom_loop, bloom_index, bloom_part, shift_bloom,
  contains_bloom, static_log2, add, contains_string,
}

bit_or_halves :
    (a b : ℕ) → (bit_or a b / 2 ≡ bit_or (a / 2) (b / 2)) × (bit_or a b % 2 ≡ max (a % 2) (b % 2))
bit_or_halves a b = omega (arith, bit_or_digit a b)

-- Bits that are set, in the half of a number and in its last digit.
bit_and_halves :
    (s b : ℕ) → bit_and s b ≡ b → (bit_and (s / 2) (b / 2) ≡ b / 2) × (min (s % 2) (b % 2) ≡ b % 2)
bit_and_halves s b h = omega (arith, bit_and_digit s b)

-- Bits that are set stay set under `|`.
bit_and-bit_or : (n s c b : ℕ) → b ≤ n → bit_and s b ≡ b → bit_and (bit_or s c) b ≡ b
bit_and-bit_or n s c zero le h = bit_and-zero _
bit_and-bit_or zero s c (suc b) le h = absurd (omega arith)
bit_and-bit_or (suc n) s c (suc b) le h =
    let (halves, last) = bit_and_halves s (suc b) h in
    bit_and_digit (bit_or s c) (suc b)
    ∙ rw ((bit_or_halves s c).0, (bit_or_halves s c).1)
        (omega (arith, last, bit_and-bit_or n (s / 2) (c / 2) (suc b / 2) (omega arith) halves))

-- Bits that `|` brings are set.
bit_and-bit_or_self : (n s b : ℕ) → b ≤ n → bit_and (bit_or s b) b ≡ b
bit_and-bit_or_self n s zero le = bit_and-zero _
bit_and-bit_or_self zero s (suc b) le = absurd (omega arith)
bit_and-bit_or_self (suc n) s (suc b) le =
    bit_and_digit (bit_or s (suc b)) (suc b)
    ∙ rw ((bit_or_halves s (suc b)).0, (bit_or_halves s (suc b)).1)
        (omega (arith, bit_and-bit_or_self n (s / 2) (suc b / 2) (omega arith)))

-- The same of hashes.
hash_and-hash_or :
    (s c b : Bytes) → length s ≡ length c → hash_and s b ≡ b → hash_and (hash_or s c) b ≡ b
unfolding hash_and hash_or zip_with
hash_and-hash_or [] c b h e = e
hash_and-hash_or (x ∷ s) [] b h e = absurd (omega arith)
hash_and-hash_or (x ∷ s) (y ∷ c) [] h e = refl
hash_and-hash_or (x ∷ s) (y ∷ c) (z ∷ b) h e =
    let head : bit_and x z ≡ z = cc in
    let tail : hash_and s b ≡ b = cc in
    ap₂ (λ (t : ℕ) (u : Bytes). t ∷ u) (bit_and-bit_or z x y z (omega arith) head)
      (hash_and-hash_or s c b (omega arith) tail)

hash_and-hash_or_self : (s b : Bytes) → length s ≡ length b → hash_and (hash_or s b) b ≡ b
unfolding hash_and hash_or zip_with
hash_and-hash_or_self [] [] h = refl
hash_and-hash_or_self [] (z ∷ b) h = absurd (omega arith)
hash_and-hash_or_self (x ∷ s) [] h = absurd (omega arith)
hash_and-hash_or_self (x ∷ s) (z ∷ b) h =
    ap₂ (λ (t : ℕ) (u : Bytes). t ∷ u) (bit_and-bit_or_self z x z (omega arith))
      (hash_and-hash_or_self s b (omega arith))

length-hash_or : (s c : Bytes) → length s ≡ length c → length (hash_or s c) ≡ length s
unfolding hash_or zip_with
length-hash_or [] c h = refl
length-hash_or (x ∷ s) [] h = absurd (omega arith)
length-hash_or (x ∷ s) (y ∷ c) h = ap suc (length-hash_or s c (omega arith))

length-set_bits : (place bits : ℕ) (h : Bytes) → length (set_bits place bits h) ≡ length h
unfolding set_bits
length-set_bits place bits [] = refl
length-set_bits zero bits (x ∷ h) = refl
length-set_bits (suc place) bits (x ∷ h) = ap suc (length-set_bits place bits h)

length-bloom_loop :
    (rounds m bloom_bytes : ℕ) (p ret : Bytes)
    → length (bloom_loop rounds m bloom_bytes p ret) ≡ length ret
unfolding bloom_loop
length-bloom_loop zero m bloom_bytes p ret = refl
length-bloom_loop (suc rounds) m bloom_bytes p ret =
    let index = bit_and (bloom_index 0 (take bloom_bytes p)) (m * 8 - 1) in
    length-bloom_loop rounds m bloom_bytes (drop bloom_bytes p) _
    ∙ length-set_bits (m - 1 - index / 8) (2 ^ (index % 8)) ret

length-bloom_part : (rounds m : ℕ) (h : Bytes) → length (bloom_part rounds m h) ≡ m
unfolding bloom_part
length-bloom_part rounds m h =
    length-bloom_loop rounds m ((static_log2 (m * 8) (m * 8) + 7) / 8) h (replicate m 0)
    ∙ length-replicate {A = ℕ} m 0

contains-eq : (h c : Bytes) → contains h c ≡ true → hash_and h c ≡ c
unfolding contains
contains-eq h c e = (bytes_eq_iff (hash_and h c) c).0 e

eq-contains : (h c : Bytes) → hash_and h c ≡ c → contains h c ≡ true
unfolding contains
eq-contains h c e = (bytes_eq_iff (hash_and h c) c).1 e

module _ (keccak : Bytes → Bytes) where
  length-add : (bloom str : Bytes) → length bloom ≡ 256 → length (add keccak bloom str) ≡ 256
  unfolding add shift_bloom
  length-add bloom str h =
      length-hash_or bloom (bloom_part 3 256 (keccak str))
        (h ∙ sym (length-bloom_part 3 256 (keccak str)))
      ∙ h

  contains_string-add_self :
      (bloom str : Bytes)
      → length bloom ≡ 256
      → contains_string keccak (add keccak bloom str) str ≡ true
  unfolding add shift_bloom contains_string contains_bloom
  contains_string-add_self bloom str h = eq-contains _ _ (
      hash_and-hash_or_self bloom (bloom_part 3 256 (keccak str))
        (h ∙ sym (length-bloom_part 3 256 (keccak str))))

  contains_string-add_other :
      (bloom str other : Bytes)
      → length bloom ≡ 256
      → contains_string keccak bloom str ≡ true
      → contains_string keccak (add keccak bloom other) str ≡ true
  unfolding add shift_bloom contains_string contains_bloom
  contains_string-add_other bloom str other h e = eq-contains _ _ (
      hash_and-hash_or bloom (bloom_part 3 256 (keccak other)) (bloom_part 3 256 (keccak str))
        (h ∙ sym (length-bloom_part 3 256 (keccak other))) (contains-eq _ _ e))

  -- A filter to which some strings have been added, one after the other.
  abbrev pub added : Bytes → List Bytes → Bytes
  added bloom [] = bloom
  added bloom (s ∷ strings) = added (add keccak bloom s) strings

  contains_string-added_old :
      (bloom str : Bytes) (strings : List Bytes)
      → length bloom ≡ 256
      → contains_string keccak bloom str ≡ true
      → contains_string keccak (added bloom strings) str ≡ true
  contains_string-added_old bloom str [] h e = e
  contains_string-added_old bloom str (s ∷ strings) h e =
      contains_string-added_old (add keccak bloom s) str strings (length-add bloom s h)
        (contains_string-add_other bloom str s h e)

  -- Whatever the hash is: a filter of 256 bytes, to which some strings are added, contains each of them.
  pub contains_string-added :
      (bloom : Bytes) (strings : List Bytes)
      → length bloom ≡ 256
      → All (λ s. contains_string keccak (added bloom strings) s ≡ true) strings
  contains_string-added bloom [] h = tt
  contains_string-added bloom (s ∷ strings) h = (
    contains_string-added_old (add keccak bloom s) s strings (length-add bloom s h)
        (contains_string-add_self bloom s h),
    contains_string-added (add keccak bloom s) strings (length-add bloom s h),
  )
