-- ===== src/Cfxaddress/Body/RoundTrip.antt =====
-- The alphabet against its index, and a payload against its bytes.
use cpp_conflux_sdk.Common.{
  ℕ, ◌<◌, ◌≤◌, ◌+◌, ◌*◌, ◌≡◌, ◌≢◌, refl, ap₂, Bool, true, ◌&&◌, not, [], ◌∷◌, arith, Bytes, length,
  length-map, get_or, All, IsByte, ◌==◌,
}
use cpp_conflux_sdk.Common.Tables.{holds_below, holds_below→at}
use cpp_conflux_sdk.StringUtil.{tolower}
use cpp_conflux_sdk.Cfxaddress.Convert.BitStream.{Fits}
use cpp_conflux_sdk.Cfxaddress.Convert.RoundTrip.{convert-convert, convert-Padded, length-convert}
use cpp_conflux_sdk.Cfxaddress.VersionByte.{VersionByte, of_byte, to_byte}
use cpp_conflux_sdk.Cfxaddress.Regex.{word_class}
use cpp_conflux_sdk.Cfxaddress.Body.{
  alphabet, alphabet_index, of_string, of_bytes, to_hex_address, bits5s_to_string,
}

-- A character of the alphabet: its index is found, and it is a lower-case word character.
symbol_is_good : ℕ → Bool
symbol_is_good c =
    let a = get_or alphabet c 0 in
    alphabet_index a == c && (word_class a && (tolower a == a && not (a == b':')))

all_symbols : holds_below 32 symbol_is_good ≡ true
unfolding holds_below symbol_is_good alphabet_index tolower
all_symbols = refl

symbol_facts :
    (c : ℕ)
    → c < 32
    → let a = get_or alphabet c 0 in
      (alphabet_index a ≡ c) × (word_class a ≡ true) × (tolower a ≡ a) × (a ≢ b':')
unfolding symbol_is_good
symbol_facts c h = ground (arith, holds_below→at 32 symbol_is_good all_symbols c h)

-- Numbers of five bits written in the alphabet are read back.
pub of_string-bits5s_to_string :
    (xs : Bytes) → Fits 5 xs → (of_string (bits5s_to_string xs)).body ≡ xs
unfolding of_string bits5s_to_string
of_string-bits5s_to_string [] h = refl
of_string-bits5s_to_string (x ∷ xs) (hx, h) =
    ap₂ (λ (a : ℕ) (t : Bytes). a ∷ t) (symbol_facts x hx).0 (of_string-bits5s_to_string xs h)

abbrev pub IsSymbol : ℕ → Type 0
IsSymbol a = (word_class a ≡ true) × (tolower a ≡ a) × (a ≢ b':')

pub bits5s_to_string-IsSymbol : (xs : Bytes) → Fits 5 xs → All IsSymbol (bits5s_to_string xs)
unfolding bits5s_to_string
bits5s_to_string-IsSymbol [] h = tt
bits5s_to_string-IsSymbol (x ∷ xs) (hx, h) =
    let (index, word, lower, separator) = symbol_facts x hx in
    ((word, lower, separator), bits5s_to_string-IsSymbol xs h)

pub length-bits5s_to_string : (xs : Bytes) → length (bits5s_to_string xs) ≡ length xs
unfolding bits5s_to_string
length-bits5s_to_string xs = length-map (λ c. get_or alphabet c 0) xs

pub body-Fits :
    (v : VersionByte) (hex : Bytes)
    → to_byte v < 256
    → All IsByte hex
    → Fits 5 (of_bytes v hex).body
unfolding of_bytes
body-Fits v hex hv h =
    let (pad, (bits, fits, small)) =
      convert-Padded (to_byte v ∷ hex) 8 5 (omega arith) (omega arith) (omega arith) (hv, h) in
    fits

-- A payload of `n` bytes takes the number of symbols that hold its `8 * n` bits.
pub length-of_bytes :
    (v : VersionByte) (hex : Bytes)
    → to_byte v < 256
    → All IsByte hex
    → (8 * (length hex + 1) ≤ 5 * length (of_bytes v hex).body)
      × (5 * length (of_bytes v hex).body < 8 * (length hex + 1) + 5)
unfolding of_bytes
length-of_bytes v hex hv h =
    omega (
      arith,
      length-convert (to_byte v ∷ hex) 8 5 (omega arith) (omega arith) (omega arith) (hv, h),
    )

-- A body made of a version byte and an address gives both back.
pub to_hex_address-of_bytes :
    (v : VersionByte) (hex : Bytes)
    → to_byte v < 256
    → All IsByte hex
    → to_hex_address (of_bytes v hex) ≡ (of_byte (to_byte v), hex)
unfolding to_hex_address of_bytes
to_hex_address-of_bytes v hex hv h =
    let whole =
      convert-convert (to_byte v ∷ hex) 8 5 (omega arith) (omega arith) (omega arith) (hv, h) in
    rw whole
