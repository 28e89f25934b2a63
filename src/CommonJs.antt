-- ===== src/CommonJs.antt =====
-- libdevcore/CommonJS: bytes and numbers as the texts of a remote call, padding of bytes.
pub mod Padding
pub mod Numbers
use cpp_conflux_sdk.Common.Outcome.{Outcome, ok, throw, invalid_argument, ◌>>=◌}
use cpp_conflux_sdk.Common.{
  ℕ, zero, suc, ◌+◌, ◌-◌, ◌*◌, Bool, true, false, ◌||◌, ◌&&◌, Option, none, some, [], ◌∷◌, ◌++◌,
  max, Bytes, codes, length, take, drop, replicate, bytes_eq, get_or, leb, ltb, ◌==◌, if◌then◌else◌,
}
use cpp_conflux_sdk.CommonData.Endian.{from_big_endian, to_compact_big_endian}
use cpp_conflux_sdk.CommonData.HexText.{dont_throw, throw_error, from_hex, to_hex, to_hex_prefixed}

-- `OnFailed`.
pub data OnFailed : Type 0 where
  interpret_raw empty on_failed_throw : OnFailed

-- What `jsToBytes` does when `fromHex` throws.
unfoldable pub on_failed : Bytes → OnFailed → Outcome Bytes
on_failed s interpret_raw = ok s
on_failed s empty = ok []
on_failed s on_failed_throw = throw invalid_argument

unfoldable pub catch_failed : Bytes → OnFailed → Outcome Bytes → Outcome Bytes
catch_failed s f (ok bytes) = ok bytes
catch_failed s f (throw e) = on_failed s f

unfoldable pub js_to_bytes : Bytes → OnFailed → Outcome Bytes
js_to_bytes s f = catch_failed s f (from_hex s throw_error)

-- The loop of `padded`; it takes as many rounds as bytes are missing.
pub padded_loop : ℕ → Bytes → Bytes
padded_loop zero b = b
padded_loop (suc rounds) b = padded_loop rounds (0 ∷ b)

pub padded : Bytes → ℕ → Bytes
padded b l = let filled = padded_loop (l - length b) b in drop (length filled - max l l) filled

unfoldable pub padded_right : Bytes → ℕ → Bytes
padded_right b l = take l b ++ replicate (l - length b) 0

-- `find_last_not_of` the character 0: its place, one further when a byte stands before, and the byte
-- itself where none behind it is found.
unfoldable pub one_further : ℕ → Option ℕ → Option ℕ
one_further x (some p) = some (suc p)
one_further x none = if x == 0 then none else some 0

unfoldable pub last_nonzero : Bytes → Option ℕ
last_nonzero [] = none
last_nonzero (x ∷ b) = one_further x (last_nonzero b)

-- `unpadded`, once the place is known.
unfoldable pub up_to : Bytes → Option ℕ → Bytes
up_to b none = []
up_to b (some p) = take (suc p) b

unfoldable pub unpadded : Bytes → Bytes
unpadded b = up_to b (last_nonzero b)

-- The loop of `unpadLeft`, as the index that it stops at.
pub leading_zeros : Bytes → ℕ
leading_zeros [] = 0
leading_zeros (x ∷ b) = if x == 0 then suc (leading_zeros b) else 0

pub unpad_left : Bytes → Bytes
unpad_left b = drop (leading_zeros b) b

-- Where `find_first_of` the character 0 cuts a text.
unfoldable pub before_zero : Bytes → Bytes
before_zero [] = []
before_zero (x ∷ b) = if x == 0 then [] else x ∷ before_zero b

-- Whether no `char` is below 32, where a `char` has a sign.
unfoldable pub all_printable : Bytes → Bool
all_printable [] = true
all_printable (x ∷ b) = leb 32 x && (ltb x 128 && all_printable b)

-- `fromRaw`, of the bytes of a hash; a hash of zeros has no byte before its first zero.
unfoldable pub from_raw : Bytes → Bytes
from_raw n = if all_printable (before_zero n) then before_zero n else []

-- `jsToAddress`: the address, or one of zeros.
pub js_to_address : Bytes → Outcome Bytes
js_to_address s = do
  b ← from_hex (if bytes_eq (take 2 s) (codes "0x") then drop 2 s else s) dont_throw
  ok (if length b == 20 then b else replicate 20 0)

-- `toJS` of a byte string, and of a number.
pub to_js_bytes : Bytes → ℕ → Bytes
to_js_bytes n padding =
    if length n == 0 then [] else to_hex_prefixed (padded_right n (max (length n) padding))

pub to_js : ℕ → Bytes
to_js n =
    let h = to_hex (to_compact_big_endian n 1) in
    codes "0x" ++ (if get_or h 0 0 == 48 then drop 1 h else h)

-- Whether every character is a decimal digit: `find_first_not_of` finds nothing.
pub all_decimal : Bytes → Bool
all_decimal [] = true
all_decimal (c ∷ s) = (leb 48 c && leb c 57) && all_decimal s

-- `jsToInt<N>`; boost's reading of a decimal number is a parameter.
pub js_to_int : (Bytes → ℕ) → ℕ → Bytes → Outcome ℕ
js_to_int decimal n s =
    let hex = from_hex (drop 2 s) dont_throw >>= λ bytes. ok (from_big_endian (n * 8) bytes) in
    if bytes_eq (take 2 s) (codes "0x") then hex else if all_decimal s then ok (decimal s) else ok 0
