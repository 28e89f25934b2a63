-- ===== src/Cfxaddress/NetworkType/Decimal/RoundTrip.antt =====
-- `%d` and `std::stoi`: what is printed is read back.
use cpp_conflux_sdk.Common.Outcome.{ok}
use cpp_conflux_sdk.Common.{
  ℕ, zero, suc, ◌+◌, ◌-◌, ◌*◌, ◌/◌, ◌%◌, ◌^◌, ◌<◌, ◌≤◌, ◌≡◌, refl, ap, ◌∙◌, true, false, inl, inr,
  Bool-cases, [], ◌∷◌, ◌++◌, arith, Bytes, All, All-append, length, length-append, ltb,
}
use cpp_conflux_sdk.Cfxaddress.NetworkType.Decimal.{
  print_digits, print_nat, print_int, is_digit, is_space, skip_space, digits_prefix, digits_value,
  signed_value, signed_digits, stoi,
}

abbrev pub IsDigit : ℕ → Type 0
IsDigit c = is_digit c ≡ true

digits_value-append_last :
    (acc : ℕ) (s : Bytes) (d : ℕ)
    → digits_value acc (s ++ ((b'0' + d) ∷ [])) ≡ digits_value acc s * 10 + d
unfolding digits_value
digits_value-append_last acc [] d = omega arith
digits_value-append_last acc (c ∷ s) d = digits_value-append_last (acc * 10 + (c - b'0')) s d

-- The digits of a number below the fuel: they are digits, they stand for the number, and there is
-- one at least.
abbrev Prints : ℕ → Bytes → Type 0
Prints n s = All IsDigit s × (digits_value 0 s ≡ n) × (0 < length s)

print_digits-Prints : (fuel n : ℕ) → n < fuel → Prints n (print_digits fuel n)
unfolding print_digits
print_digits-Prints zero n h = absurd (omega arith)
print_digits-Prints (suc fuel) n h = elim (Bool-cases (ltb n 10)) [
  | inl small ↦ rw small ((ground arith, tt), unfold digits_value in ground arith, omega arith)
  | inr large ↦
      let (digits, number, some) = print_digits-Prints fuel (n / 10) (ground arith) in
      rw large (
        All-append IsDigit _ _ digits (ground arith, tt),
        digits_value-append_last 0 _ (n % 10) ∙ omega (arith, number),
        omega (arith, length-append (print_digits fuel (n / 10)) ((b'0' + n % 10) ∷ [])),
      )
]

pub print_nat-Prints : (n : ℕ) → Prints n (print_nat n)
unfolding print_nat
print_nat-Prints n = print_digits-Prints (suc n) n (omega arith)

digits_prefix_same : (s : Bytes) → All IsDigit s → digits_prefix s ≡ s
unfolding digits_prefix
digits_prefix_same [] h = refl
digits_prefix_same (c ∷ s) (hc, h) = rw (hc, digits_prefix_same s h)

-- Digits, one at least, that stand for `n`, with and without a sign in front.
stoi-digits : (s : Bytes) (n : ℕ) → Prints n s → n < 2 ^ 31 → stoi s ≡ ok n
unfolding stoi skip_space is_space signed_digits
stoi-digits [] n (digits, number, some) h = absurd (omega arith)
stoi-digits (c ∷ s) n ((hc, digits), number, some) h =
    ground (arith, digits_prefix_same (c ∷ s) (hc, digits), positive)
  where
    positive : signed_value false (c ∷ s) ≡ ok n
    positive = unfold signed_value in ground arith

stoi-minus :
    (s : Bytes) (n : ℕ) → Prints n s → 0 < n → n ≤ 2 ^ 31 → stoi (b'-' ∷ s) ≡ ok (2 ^ 32 - n)
unfolding stoi skip_space is_space signed_digits
stoi-minus [] n (digits, number, some) pos h = absurd (omega arith)
stoi-minus (c ∷ s) n ((hc, digits), number, some) pos h =
    rw (digits_prefix_same (c ∷ s) (hc, digits)) (unfold signed_value in ground arith)

-- Every `uint32_t` that is printed by `%d` is read back by `std::stoi`, also the ones from 2 ^ 31 on,
-- which are printed as negative numbers.
pub stoi-print_int : (w : ℕ) → w < 2 ^ 32 → stoi (print_int w) ≡ ok w
unfolding print_int
stoi-print_int w h = elim (Bool-cases (ltb w (2 ^ 31))) [
  | inl small ↦ rw small (stoi-digits (print_nat w) w (print_nat-Prints w) (ground arith))
  | inr large ↦ rw large (
      stoi-minus (print_nat (2 ^ 32 - w)) (2 ^ 32 - w) (print_nat-Prints (2 ^ 32 - w)) (omega arith)
        (ground arith)
      ∙ ap ok (omega arith))
]

-- The text of a number that an `int` holds is digits only.
pub print_int-IsDigit :
    (w : ℕ) → w < 2 ^ 31 → All IsDigit (print_int w) × (0 < length (print_int w))
unfolding print_int
print_int-IsDigit w h =
    let (digits, number, some) = print_nat-Prints w in
    let small : ltb w (2 ^ 31) ≡ true = ground arith in rw small (digits, some)
