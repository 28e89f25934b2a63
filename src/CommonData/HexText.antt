-- ===== src/CommonData/HexText.antt =====
-- libdevcore/CommonData: bytes as hexadecimal text and back. A `char` is the number of its byte; the
-- comparisons of `fromHexChar` refuse the ones from 128 on, whether they are signed or not.
pub mod RoundTrip
pub mod Refusals
use cpp_conflux_sdk.Common.Outcome.{Outcome, ok, throw, bad_hex_character, ◌>>=◌}
use cpp_conflux_sdk.Common.{
  ℕ, ◌+◌, ◌-◌, ◌*◌, ◌/◌, ◌%◌, ◌^◌, bit_and, Bool, true, false, ◌&&◌, Option, none, some, [], ◌∷◌,
  ◌++◌, Bytes, codes, length, take, drop, get_or, bytes_eq, leb, ◌==◌, if◌then◌else◌,
}

-- `WhenError`.
pub data WhenError : Type 0 where
  dont_throw throw_error : WhenError

-- `fromHexChar`, whose -1 is `none`.
unfoldable pub from_hex_char : ℕ → Option ℕ
from_hex_char i =
    if leb b'0' i && leb i b'9'
    then some (i - b'0')
    else if leb b'a' i && leb i b'f'
    then some (i - b'a' + 10)
    else if leb b'A' i && leb i b'F'
    then some (i - b'A' + 10)
    else none

-- A test for -1, with what is done on it and on a digit.
abbrev pub if_digit {ℓ} : {A : Type ℓ} → Option ℕ → A → (ℕ → A) → A
if_digit none x f = x
if_digit (some h) x f = f h

pub is_digit : ℕ → Bool
is_digit c = if_digit (from_hex_char c) false (λ h. true)

pub all_of : (ℕ → Bool) → Bytes → Bool
all_of p [] = true
all_of p (c ∷ s) = p c && all_of p s

-- Both routines look for the prefix `0x`, and go on behind it.
unfoldable pub behind_prefix : Bytes → Bytes
behind_prefix s = if bytes_eq (take 2 s) (codes "0x") then drop 2 s else s

-- `isHex`.
pub is_hex : Bytes → Bool
is_hex s = all_of is_digit (behind_prefix s)

-- What a character that is no digit comes to.
unfoldable pub refuse : WhenError → Outcome Bytes
refuse dont_throw = ok []
refuse throw_error = throw bad_hex_character

-- The loop of `fromHex` over pairs of characters. An odd character does not reach it.
unfoldable pub from_hex_loop : WhenError → Bytes → Bytes → Outcome Bytes
from_hex_loop e [] ret = ok ret
from_hex_loop e (c ∷ []) ret = ok ret
from_hex_loop e (c ∷ (d ∷ rest)) ret = if_digit (from_hex_char c) (refuse e) (λ h.
    if_digit (from_hex_char d) (refuse e)
      (λ l. from_hex_loop e rest (ret ++ ((h * 16 + l) % 2 ^ 8 ∷ []))))

-- The first character of a text of odd size stands alone.
unfoldable pub from_hex_odd : WhenError → Bytes → Outcome Bytes
from_hex_odd e [] = ok []
from_hex_odd e (c ∷ rest) =
    if_digit (from_hex_char c) (refuse e) (λ h. from_hex_loop e rest (h % 2 ^ 8 ∷ []))

-- `fromHex`.
unfoldable pub from_hex : Bytes → WhenError → Outcome Bytes
from_hex s e =
    let odd = from_hex_odd e (behind_prefix s) in
    let even = from_hex_loop e (behind_prefix s) [] in if length s % 2 == 1 then odd else even

abbrev pub hexdigits : Bytes
hexdigits = codes "0123456789abcdef"

-- The two digits that `toHex` writes for a byte.
unfoldable pub high_digit : ℕ → ℕ
high_digit b = get_or hexdigits (bit_and (b / 2 ^ 4) 0x0f) 0

unfoldable pub low_digit : ℕ → ℕ
low_digit b = get_or hexdigits (bit_and b 0x0f) 0

-- `toHex` without and with a prefix.
unfoldable pub to_hex : Bytes → Bytes
to_hex [] = []
to_hex (b ∷ bytes) = high_digit b ∷ (low_digit b ∷ to_hex bytes)

pub to_hex_prefixed : Bytes → Bytes
to_hex_prefixed bytes = codes "0x" ++ to_hex bytes
