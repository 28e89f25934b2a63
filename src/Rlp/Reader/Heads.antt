-- ===== src/Rlp/Reader/Heads.antt =====
-- What the reader makes of a canonical head, with anything behind it.
use native.Mathlib.Nat.{div-div-eq-div-mul, le-div_iff_mul-le, mod-eq_of_lt}
use cpp_conflux_sdk.Common.{
  ℕ, zero, suc, ◌+◌, ◌-◌, ◌*◌, ◌/◌, ◌%◌, ◌^◌, ◌≤◌, ◌<◌, ◌≡◌, ◌⊎◌, refl, sym, ap, ◌∙◌, subst,
  bit_and, true, false, Bool-cases, inl, inr, [], ◌∷◌, ◌++◌, arith, Bytes, length, get_or,
  length-append, take-append_length, if◌then◌else◌, ltb, leb, ◌==◌,
}
use cpp_conflux_sdk.Common.Bits.{bit_and_mask, pow_add, pow_pos, high-lt}
use cpp_conflux_sdk.Common.Outcome.{ok, ◌>>=◌}
use cpp_conflux_sdk.CommonData.Endian.{bytes_required, to_big_endian, from_big_endian}
use cpp_conflux_sdk.CommonData.Endian.Compact.{bytes_required_iff}
use cpp_conflux_sdk.CommonData.Endian.RoundTrip.{
  length-to_big_endian, from_big_endian-to_big_endian,
}
use cpp_conflux_sdk.Rlp.Item.{head}
use cpp_conflux_sdk.Rlp.Reader.{
  indirect_length, addable_length, good_length, is_null, length_size, payload_offset,
  is_single_byte, is_data, is_list,
}

get_or-append : (i : ℕ) (xs ys : Bytes) → i < length xs → get_or (xs ++ ys) i 0 ≡ get_or xs i 0
get_or-append i [] ys h = absurd (omega arith)
get_or-append zero (x ∷ xs) ys h = refl
get_or-append (suc i) (x ∷ xs) ys h = get_or-append i xs ys (omega arith)

shift_twice : (n i : ℕ) → i / 2 ^ 8 / 2 ^ (8 * n) ≡ i / 2 ^ (8 * suc n)
shift_twice n i =
    let bits : 8 + 8 * n ≡ 8 * suc n = omega arith in
    div-div-eq-div-mul i (2 ^ 8) (2 ^ (8 * n))
    ∙ ap (λ (p : ℕ). i / p) (sym (pow_add 8 (8 * n)) ∙ ap (λ (e : ℕ). 2 ^ e) bits)

-- The first byte of a number's big-endian bytes is its highest digit.
first_byte : (n i : ℕ) → get_or (to_big_endian (suc n) i) 0 0 ≡ i / 2 ^ (8 * n) % 256
unfolding to_big_endian
first_byte zero i = omega (arith, bit_and_mask 8 i)
first_byte (suc n) i =
    get_or-append 0 (to_big_endian (suc n) (i / 2 ^ 8)) (bit_and i 0xff ∷ [])
      (omega (arith, length-to_big_endian (suc n) (i / 2 ^ 8)))
    ∙ first_byte n (i / 2 ^ 8)
    ∙ ap (λ (q : ℕ). q % 256) (shift_twice n i)

-- The fewest bytes of a number do not begin with zero.
highest_digit : (i k : ℕ) → bytes_required i ≡ suc k → 0 < i / 2 ^ (8 * k) % 256
highest_digit i k h =
    let bits : 8 * suc k ≡ 8 + 8 * k = omega arith in
    let fits : i < 2 ^ (8 + 8 * k) =
      subst (λ (e : ℕ). i < 2 ^ e) bits ((bytes_required_iff i (suc k)).1 (omega arith)) in
    let below : i / 2 ^ (8 * k) < 256 = high-lt 8 (8 * k) i fits in
    let some : 0 < i / 2 ^ (8 * k) =
      (le-div_iff_mul-le (pow_pos (8 * k))).1 (grind (arith, bytes_required_iff i k)) in
    omega arith

pub no_leading_zero :
    (i n : ℕ) → bytes_required i ≡ n → 0 < n → (get_or (to_big_endian n i) 0 0 == 0) ≡ false
no_leading_zero i zero h pos = absurd (omega arith)
no_leading_zero i (suc k) h pos = rw (first_byte k i) (ground (arith, highest_digit i k h))

-- A length that is coded behind the first byte is read back.
indirect_length-head :
    (b n : ℕ) (rest : Bytes)
    → 56 ≤ n
    → n < 2 ^ 64
    → indirect_length ((b ∷ to_big_endian (bytes_required n) n) ++ rest) (bytes_required n) 56
      ≡ ok n
unfolding indirect_length
indirect_length-head b n rest big small =
    let bytes = to_big_endian (bytes_required n) n in
    let few : bytes_required n ≤ 8 = (bytes_required_iff n 8).0 small in
    let size = length-to_big_endian (bytes_required n) n in
    let all = length-append bytes rest in
    let some : 0 < bytes_required n = grind (arith, bytes_required_iff n 0) in
    let fits : n < 2 ^ (8 * bytes_required n) =
      (bytes_required_iff n (bytes_required n)).1 (omega arith) in
    let value : from_big_endian 64 bytes ≡ n =
      from_big_endian-to_big_endian 64 (bytes_required n) n small ∙ mod-eq_of_lt fits in
    let first : (get_or (bytes ++ rest) 0 0 == 0) ≡ false =
      ap (λ (b : ℕ). b == 0) (get_or-append 0 bytes rest (omega arith))
      ∙ no_leading_zero n _ refl some in
    let room : leb (suc (length (bytes ++ rest))) (bytes_required n) ≡ false = ground arith in
    let eight : ltb 8 (bytes_required n) ≡ false = ground arith in
    rw (take-append_length (bytes_required n) bytes rest size, value, first, room, eight)
      (ground arith)

pub few_bytes : (n : ℕ) → 56 ≤ n → n < 2 ^ 64 → (0 < bytes_required n) × (bytes_required n ≤ 8)
few_bytes n big small = (grind (arith, bytes_required_iff n 0), (bytes_required_iff n 8).0 small)

addable : (n : ℕ) → n < 2 ^ 64 - 1 - 0x100 → addable_length n ≡ ok n
unfolding addable_length
addable n h = ground arith

-- `length` of a node by its first byte.
good_length_indirect_data :
    (b k : ℕ) (t : Bytes)
    → b ≡ 0xb7 + k
    → 0 < k
    → k ≤ 8
    → good_length (b ∷ t) ≡ (indirect_length (b ∷ t) k 56 >>= addable_length)
unfolding good_length
good_length_indirect_data b k t e pos le =
    let size : 0xb7 + k - 0xb7 ≡ k = omega arith in
    let above : ltb (0xb7 + k) 0x80 ≡ false = ground arith in
    let long : leb (0xb7 + k) 0xb7 ≡ false = ground arith in
    let below : ltb (0xb7 + k) 0xc0 ≡ true = ground arith in rw (e, size, above, long, below)

good_length_indirect_list :
    (b k : ℕ) (t : Bytes)
    → b ≡ 0xf7 + k
    → 0 < k
    → k ≤ 8
    → good_length (b ∷ t) ≡ (indirect_length (b ∷ t) k 56 >>= addable_length)
unfolding good_length
good_length_indirect_list b k t e pos le =
    let size : 0xf7 + k - 0xf7 ≡ k = omega arith in
    let first : ltb (0xf7 + k) 0x80 ≡ false = ground arith in
    let second : leb (0xf7 + k) 0xb7 ≡ false = ground arith in
    let third : ltb (0xf7 + k) 0xc0 ≡ false = ground arith in
    let fourth : leb (0xf7 + k) 0xf7 ≡ false = ground arith in
    rw (e, size, first, second, third, fourth)

good_length_short :
    (start b n : ℕ) (t : Bytes)
    → (start ≡ 0x80) ⊎ (start ≡ 0xc0)
    → b ≡ start + n
    → n < 56
    → good_length (b ∷ t) ≡ ok n
unfolding good_length
good_length_short start b n t (inl data') e h = ground arith
good_length_short start b n t (inr list') e h = ground arith

-- The length behind a canonical head.
pub good_length-head :
    (start n : ℕ) (rest : Bytes)
    → (start ≡ 0x80) ⊎ (start ≡ 0xc0)
    → n < 2 ^ 64 - 1 - 0x100
    → good_length (head start n ++ rest) ≡ ok n
unfolding head
good_length-head start n rest kind small = elim (Bool-cases (ltb n 56)) [
  | inl short ↦ rw short (good_length_short start (start + n) n rest kind refl (ground arith))
  | inr long ↦
      let few = few_bytes n (ground arith) (omega arith) in
      let br = bytes_required n in
      let value = indirect_length-head (start + 55 + br) n rest (ground arith) (omega arith) in
      let length' : good_length (((start + 55 + br) ∷ to_big_endian br n) ++ rest) ≡ (
          indirect_length (((start + 55 + br) ∷ to_big_endian br n) ++ rest) br 56
          >>= addable_length) =
        elim kind [
          | inl data' ↦ good_length_indirect_data (start + 55 + br) br _ (omega arith) few.0 few.1
          | inr list' ↦ good_length_indirect_list (start + 55 + br) br _ (omega arith) few.0 few.1
        ] in
      rw (long, length', value) (addable n small)
]

length_size_of :
    (b : ℕ) (t : Bytes)
    → (0x80 ≤ b)
    → payload_offset (b ∷ t) ≡ 1 + (if ltb b 0xc0 then b - 0xb7 else b - 0xf7)
unfolding payload_offset length_size is_single_byte is_data is_list is_null
length_size_of b t h = ground arith

-- The payload stands behind the head.
pub payload_offset-head :
    (start n : ℕ) (rest : Bytes)
    → (start ≡ 0x80) ⊎ (start ≡ 0xc0)
    → n < 2 ^ 64
    → payload_offset (head start n ++ rest) ≡ length (head start n)
unfolding head
payload_offset-head start n rest kind small = elim (Bool-cases (ltb n 56)) [
  | inl short ↦ rw (short, length_size_of (start + n) rest (ground arith)) (ground arith)
  | inr long ↦
      let few = few_bytes n (ground arith) small in
      let br = bytes_required n in
      rw
        (
          long,
          length_size_of (start + 55 + br) (to_big_endian br n ++ rest) (ground arith),
          length-to_big_endian br n,
        )
        (ground arith)
]
