-- ===== src/CommonData/HexText/RoundTrip.antt =====
-- `toHex` behind `fromHex`: what was written is read back.
use cpp_conflux_sdk.Common.Outcome.{ok}
use cpp_conflux_sdk.Common.{
  ℕ, ◌*◌, ◌+◌, ◌/◌, not, ◌%◌, ◌^◌, ◌<◌, ◌≡◌, refl, sym, ap, ◌∙◌, Bool, true, false, ◌&&◌, ◌||◌,
  Bool-cases, ◌⊎◌, inl, inr, ltb, Option, none, some, [], ◌∷◌, ◌++◌, append_assoc, append-nil,
  arith, Bytes, length, All, IsByte, ◌==◌,
}
use cpp_conflux_sdk.Common.Tables.{holds_below, holds_below→at}
use cpp_conflux_sdk.CommonData.HexText.{
  WhenError, from_hex_char, if_digit, is_digit, all_of, behind_prefix, is_hex, from_hex_loop,
  from_hex, from_hex_odd, high_digit, low_digit, to_hex, to_hex_prefixed,
}

abbrev reads : ℕ → ℕ → Bool
reads c v = if_digit (from_hex_char c) false (λ h. h == v)

byte_table :
    holds_below 256 (λ v.
      reads (high_digit v) (v / 16) && (reads (low_digit v) (v % 16) && not (low_digit v == b'x')))
    ≡ true
unfolding holds_below high_digit low_digit from_hex_char
byte_table = refl

reads→eq : (c v : ℕ) → reads c v ≡ true → from_hex_char c ≡ some v
reads→eq c v h = go (from_hex_char c) h
  where
    go : (r : Option ℕ) → if_digit r false (λ h. h == v) ≡ true → r ≡ some v
    go none e = absurd (ground arith)
    go (some x) e = ap some (ground arith)

-- The digits of a byte are its two halves, and the second is no `x`.
digits_of_byte :
    (v : ℕ)
    → v < 256
    → (from_hex_char (high_digit v) ≡ some (v / 16))
      × (from_hex_char (low_digit v) ≡ some (v % 16))
      × ((low_digit v == b'x') ≡ false)
digits_of_byte v h =
    let facts = holds_below→at 256 _ byte_table v h in
    (reads→eq _ _ (ground arith), reads→eq _ _ (ground arith), ground arith)

loop-to_hex :
    (e : WhenError) (bytes ret : Bytes)
    → All IsByte bytes
    → from_hex_loop e (to_hex bytes) ret ≡ ok (ret ++ bytes)
unfolding from_hex_loop to_hex
loop-to_hex e [] ret h = ap ok (sym (append-nil ret))
loop-to_hex e (b ∷ bytes) ret (hb, h) =
    let (high, low, _) = digits_of_byte b hb in
    let byte : (b / 16 * 16 + b % 16) % 2 ^ 8 ≡ b = omega arith in
    rw (high, low, byte)
      (loop-to_hex e bytes (ret ++ (b ∷ [])) h ∙ ap ok (append_assoc ret (b ∷ []) bytes))

length-to_hex : (bytes : Bytes) → length (to_hex bytes) ≡ 2 * length bytes
unfolding to_hex
length-to_hex [] = refl
length-to_hex (b ∷ bytes) = omega (arith, length-to_hex bytes)

-- Digits alone do not look like a prefix.
behind_prefix-to_hex :
    (bytes : Bytes) → All IsByte bytes → behind_prefix (to_hex bytes) ≡ to_hex bytes
unfolding behind_prefix to_hex
behind_prefix-to_hex [] h = refl
behind_prefix-to_hex (b ∷ bytes) (hb, h) =
    let (_, _, no_x) = digits_of_byte b hb in ground (arith, no_x)

all_of-to_hex : (bytes : Bytes) → All IsByte bytes → all_of is_digit (to_hex bytes) ≡ true
unfolding all_of is_digit to_hex
all_of-to_hex [] h = refl
all_of-to_hex (b ∷ bytes) (hb, h) =
    let (high, low, _) = digits_of_byte b hb in rw (high, low) (all_of-to_hex bytes h)

-- Bytes written by `toHex`, with the prefix or without it, are hexadecimal text, and `fromHex` reads
-- them back whatever it is to do on an error.
pub from_hex-to_hex :
    (bytes : Bytes) (e : WhenError)
    → All IsByte bytes
    → (from_hex (to_hex bytes) e ≡ ok bytes)
      × (from_hex (to_hex_prefixed bytes) e ≡ ok bytes)
      × (is_hex (to_hex bytes) ≡ true)
      × (is_hex (to_hex_prefixed bytes) ≡ true)
unfolding from_hex is_hex to_hex_prefixed
from_hex-to_hex bytes e h =
    let even : (length (to_hex bytes) % 2 == 1) ≡ false = ground (arith, length-to_hex bytes) in
    let behind : behind_prefix (b'0' ∷ (b'x' ∷ to_hex bytes)) ≡ to_hex bytes =
      unfold behind_prefix in refl in
    let even' : (length (b'0' ∷ (b'x' ∷ to_hex bytes)) % 2 == 1) ≡ false =
      ground (arith, length-to_hex bytes) in
    (
      rw (even, behind_prefix-to_hex bytes h) (loop-to_hex e bytes [] h),
      rw (even', behind) (loop-to_hex e bytes [] h),
      rw (behind_prefix-to_hex bytes h) (all_of-to_hex bytes h),
      rw behind (all_of-to_hex bytes h),
    )

first_digits :
    holds_below 256 (λ v. not (high_digit v == b'x') && (not (high_digit v == b'0') || ltb v 16))
    ≡ true
unfolding holds_below high_digit
first_digits = refl

-- A first digit is no `x`, and one of 0 is that of a byte below 16.
pub high_digit_cases :
    (v : ℕ)
    → v < 256
    → ((high_digit v == b'x') ≡ false)
      × (((high_digit v == b'0') ≡ false) ⊎ (((high_digit v == b'0') ≡ true) × (v < 16)))
high_digit_cases v h =
    let facts = holds_below→at 256 _ first_digits v h in
    (
      ground arith,
      elim (Bool-cases (high_digit v == b'0')) [
        | inl zero_digit ↦ inr (zero_digit, ground arith)
        | inr other ↦ inl other
      ],
    )

behind_prefix-low_digit :
    (v : ℕ) (bytes : Bytes)
    → All IsByte bytes
    → behind_prefix (low_digit v ∷ to_hex bytes) ≡ low_digit v ∷ to_hex bytes
unfolding behind_prefix to_hex
behind_prefix-low_digit v [] h = ground arith
behind_prefix-low_digit v (b ∷ bytes) (hb, h) =
    let (no_x, _) = high_digit_cases b hb in ground (arith, no_x)

-- Text of an odd size: a digit, and the digits of bytes.
pub from_hex-low_digit :
    (v : ℕ) (bytes : Bytes) (e : WhenError)
    → v < 16
    → All IsByte bytes
    → from_hex (low_digit v ∷ to_hex bytes) e ≡ ok (v ∷ bytes)
unfolding from_hex from_hex_odd
from_hex-low_digit v bytes e small h =
    let (_, low, _) = digits_of_byte v (omega arith) in
    let odd : (length (low_digit v ∷ to_hex bytes) % 2 == 1) ≡ true =
      ground (arith, length-to_hex bytes) in
    let same : v % 16 % 2 ^ 8 ≡ v = omega arith in
    rw (odd, behind_prefix-low_digit v bytes h, low, same) (loop-to_hex e bytes (v ∷ []) h)
