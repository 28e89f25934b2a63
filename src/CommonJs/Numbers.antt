-- ===== src/CommonJs/Numbers.antt =====
-- Numbers as hexadecimal text without a leading zero.
use cpp_conflux_sdk.Common.Outcome.{ok}
use cpp_conflux_sdk.Common.{
  ℕ, zero, suc, ◌*◌, ◌^◌, ◌<◌, ◌≤◌, ◌≡◌, ap, inl, inr, [], ◌∷◌, arith, Bytes, All, All-append,
  IsByte, length, bit_and, ◌==◌, ◌/◌, get_or, drop, if◌then◌else◌,
}
use cpp_conflux_sdk.Common.Bits.{bit_and_mask}
use cpp_conflux_sdk.CommonData.Endian.{to_big_endian, to_compact_big_endian}
use cpp_conflux_sdk.CommonData.Endian.Compact.{from_big_endian-to_compact_big_endian}
use cpp_conflux_sdk.CommonData.HexText.{dont_throw, from_hex, to_hex}
use cpp_conflux_sdk.CommonData.HexText.RoundTrip.{
  high_digit_cases, from_hex-to_hex, from_hex-low_digit,
}
use cpp_conflux_sdk.CommonJs.{to_js, js_to_int}

to_big_endian-IsByte : (n val : ℕ) → All IsByte (to_big_endian n val)
unfolding to_big_endian
to_big_endian-IsByte zero val = tt
to_big_endian-IsByte (suc n) val =
    All-append IsByte (to_big_endian n (val / 2 ^ 8)) (bit_and val 0xff ∷ [])
      (to_big_endian-IsByte n (val / 2 ^ 8)) (omega (arith, bit_and_mask 8 val), tt)

to_compact_big_endian-IsByte : (val least : ℕ) → All IsByte (to_compact_big_endian val least)
unfolding to_compact_big_endian
to_compact_big_endian-IsByte val least = to_big_endian-IsByte _ val

-- The text that is behind the prefix.
digits : Bytes → Bytes
digits h = if get_or h 0 0 == 48 then drop 1 h else h

from_hex-digits :
    (bytes : Bytes)
    → 1 ≤ length bytes
    → All IsByte bytes
    → from_hex (digits (to_hex bytes)) dont_throw ≡ ok bytes
unfolding digits to_hex
from_hex-digits [] h bs = absurd (omega arith)
from_hex-digits (b ∷ bytes) h (hb, hs) = elim (high_digit_cases b hb).1 [
  | inl other ↦ rw other (from_hex-to_hex (b ∷ bytes) dont_throw (hb, hs)).0
  | inr (zero_digit, small) ↦ rw zero_digit (from_hex-low_digit b bytes dont_throw small hs)
]

-- A number of fewer than 2 ^ (8 * n), written by `toJS` and read by `jsToInt<n>`, is the same number, whatever
-- the reading of decimal numbers is.
pub js_to_int-to_js :
    (decimal : Bytes → ℕ) (n val : ℕ) → val < 2 ^ (n * 8) → js_to_int decimal n (to_js val) ≡ ok val
unfolding js_to_int to_js digits
js_to_int-to_js decimal n val h =
    let bytes = to_compact_big_endian val 1 in
    let (value, size) = from_big_endian-to_compact_big_endian (n * 8) val 1 h in
    let read : from_hex (digits (to_hex bytes)) dont_throw ≡ ok bytes =
      from_hex-digits bytes (omega (arith, size)) (to_compact_big_endian-IsByte val 1) in
    rw read (ap ok value)
