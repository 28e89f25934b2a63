-- ===== src/Cfxaddress/NetworkType/Decimal.antt =====
-- What network_type.cpp uses of the C library: `%d` of printf on a 32-bit word, and `std::stoi`.
pub mod RoundTrip
use cpp_conflux_sdk.Common.Outcome.{Outcome, ok, throw, out_of_range, invalid_argument}
use cpp_conflux_sdk.Common.{
  ℕ, zero, suc, ◌+◌, ◌-◌, ◌*◌, ◌/◌, ◌%◌, ◌^◌, Bool, true, false, ◌&&◌, ◌||◌, [], ◌∷◌, ◌++◌, Bytes,
  ltb, leb, ◌==◌, if◌then◌else◌,
}

-- Decimal digits, highest first; the fuel bounds their number.
pub print_digits : ℕ → ℕ → Bytes
print_digits zero n = []
print_digits (suc fuel) n =
    let front = print_digits fuel (n / 10) in
    if ltb n 10 then (b'0' + n) ∷ [] else front ++ ((b'0' + n % 10) ∷ [])

pub print_nat : ℕ → Bytes
print_nat n = print_digits (suc n) n

-- `%d` of a `uint32_t`: the bits are read as an `int`.
pub print_int : ℕ → Bytes
print_int w = if ltb w (2 ^ 31) then print_nat w else b'-' ∷ print_nat (2 ^ 32 - w)

abbrev pub is_digit : ℕ → Bool
is_digit c = leb b'0' c && leb c b'9'

-- `isspace` in the "C" locale: blank, and the characters 9 to 13.
pub is_space : ℕ → Bool
is_space c = c == b' ' || (leb 9 c && leb c 13)

pub skip_space : Bytes → Bytes
skip_space [] = []
skip_space (c ∷ s) = if is_space c then skip_space s else c ∷ s

pub digits_prefix : Bytes → Bytes
digits_prefix [] = []
digits_prefix (c ∷ s) = if is_digit c then c ∷ digits_prefix s else []

pub digits_value : ℕ → Bytes → ℕ
digits_value acc [] = acc
digits_value acc (c ∷ s) = digits_value (acc * 10 + (c - b'0')) s

-- Digits behind a sign, as an `int` that is returned as a `uint32_t`.
pub signed_value : Bool → Bytes → Outcome ℕ
signed_value negative [] = throw invalid_argument
signed_value negative (c ∷ s) =
    let v = digits_value 0 (c ∷ s) in
    if negative
    then (if leb v (2 ^ 31) then ok ((2 ^ 32 - v) % 2 ^ 32) else throw out_of_range)
    else if ltb v (2 ^ 31)
    then ok v
    else throw out_of_range

pub signed_digits : Bytes → Outcome ℕ
signed_digits [] = throw invalid_argument
signed_digits (c ∷ s) =
    if c == b'-'
    then signed_value true (digits_prefix s)
    else if c == b'+'
    then signed_value false (digits_prefix s)
    else signed_value false (digits_prefix (c ∷ s))

-- `std::stoi(s, NULL, 10)`: blanks, a sign, and the digits up to the first other character.
pub stoi : Bytes → Outcome ℕ
stoi s = signed_digits (skip_space s)
